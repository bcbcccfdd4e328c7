-- ===== src/Llm/RateLimiter.antt =====
-- The sliding-window limiter: `RateLimiter` of src/aidss/llm/resilience.py. Instants and lengths of
-- time are natural numbers of one clock tick; the clock moves only by what is slept, and by what
-- the arguments say. `none` is the IndexError of `self._hits[0]` on an empty window.
pub mod Window
pub mod Acquire
pub mod History
use stock_recommendation_be.Base.{
  ℕ, zero, suc, ◌+◌, ◌-◌, ◌≤◌, ◌<◌, Bool, true, false, Option, none, some, List, [], ◌∷◌, ◌++◌, ltb,
  leb, ◌==◌, if◌then◌else◌, length,
}

-- `hits` is oldest first.
pub record RateLimiter : Type 0 where
  pub requests_per_minute : ℕ
  pub window_seconds : ℕ
  pub hits : List ℕ

-- `now - hits[0] >= window`, with the hit not after `now`.
pub prune : ℕ → ℕ → List ℕ → List ℕ
prune window now [] = []
prune window now (h ∷ hs) = if leb (h + window) now then prune window now hs else h ∷ hs

-- The wait, and the pruned window. A wait is positive exactly when no slot is free.
pub time_until_free : ℕ → RateLimiter → Option (ℕ × RateLimiter)
unfolding prune
time_until_free now r =
    let kept = prune r.window_seconds now r.hits in
    let pruned = record r { hits = kept } in
    if ltb (length kept) r.requests_per_minute
    then some (0, pruned)
    else elim kept [ [] ↦ none | h ∷ hs ↦ some (r.window_seconds + h - now, pruned) ]

-- A granted slot: when, after how long a wait, and the limiter.
pub record Grant : Type 0 where
  pub at : ℕ
  pub waited : ℕ
  pub limiter : RateLimiter

pub data Acquired : Type 0 where
  granted : Grant → Acquired
  index_error : Acquired
  out_of_fuel : Acquired

-- The `while True` loop.
pub acquire_from : (fuel now waited : ℕ) → RateLimiter → Acquired
unfolding time_until_free
acquire_from zero now waited r = out_of_fuel
acquire_from (suc fuel) now waited r = elim (time_until_free now r) [
  | none ↦ index_error
  | some (delay, r') ↦
      let rest = acquire_from fuel (now + delay) (waited + delay) r' in
      if delay == 0
      then granted
          (record { at = now; waited = waited; limiter = record r' { hits = r'.hits ++ now ∷ [] } })
      else rest
]

unfoldable pub acquire_slot : ℕ → RateLimiter → Acquired
unfolding acquire_from
acquire_slot now r = acquire_from 2 now 0 r
