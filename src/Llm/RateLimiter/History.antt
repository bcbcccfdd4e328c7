-- ===== src/Llm/RateLimiter/History.antt =====
-- The grants of a limiter over time: `acquire` of src/aidss/llm/resilience.py.
use mathlib.Core.Path.{subst}
use stock_recommendation_be.Base.{ℕ, ◌≤◌, ◌<◌, ◌≡◌, refl, sym, ◌∙◌, List, [], ◌∷◌, ◌++◌, arith}
use stock_recommendation_be.Llm.RateLimiter.{RateLimiter, Grant, granted, acquire_slot}
use stock_recommendation_be.Llm.RateLimiter.Window.{
  IsValid, IsValid-later, recent, recent_le_length, recent-append,
}
use stock_recommendation_be.Llm.RateLimiter.Acquire.{IsGranted, acquire_slot-IsGranted}

-- Grants one after the other, from a limiter that has granted nothing; `history` is oldest first.
pub data Served (limit window : ℕ) : ℕ → RateLimiter → List ℕ → Type 0 where
  fresh :
      (now : ℕ)
      → Served limit window now
          (record { requests_per_minute = limit; window_seconds = window; hits = [] })
          []
  grant :
      {now later : ℕ} {r : RateLimiter} {history : List ℕ} {g : Grant}
      → Served limit window now r history
      → now ≤ later
      → acquire_slot later r ≡ granted g
      → Served limit window g.at g.limiter (history ++ g.at ∷ [])

granted_inj : {g h : Grant} → granted g ≡ granted h → g ≡ h
granted_inj e = cc

-- What the limiter remembers of the history.
abbrev Remembers : (limit window now : ℕ) → RateLimiter → List ℕ → Type 0
Remembers limit window now r history =
    IsValid now r
    × (r.requests_per_minute ≡ limit)
    × (r.window_seconds ≡ window)
    × ((later : ℕ) → now ≤ later → recent window later r.hits ≡ recent window later history)

module _ (limit window : ℕ) (some_slots : 0 < limit) where
  Served-Remembers :
      {now : ℕ} {r : RateLimiter} {history : List ℕ}
      → Served limit window now r history
      → Remembers limit window now r history
  Served-Remembers (fresh now) =
      (record { limited = omega arith; past = tt }, refl, refl, λ later le. refl)
  Served-Remembers (grant {now} {later} {r} {history} {g} s le e) =
      let m = Served-Remembers s in
      let a =
        acquire_slot-IsGranted later r (IsValid-later now later r le m.0)
          (omega (arith, m.1, some_slots)) in
      let is_g : a.0 ≡ g = granted_inj (sym a.1 ∙ e) in
      let i = subst (IsGranted later r) is_g a.2 in
      (
        i.2,
        i.3 ∙ m.1,
        i.4 ∙ m.2,
        λ t after.
            subst (λ w. recent w t g.limiter.hits ≡ recent w t (r.hits ++ g.at ∷ [])) m.2
              (i.5 t after)
            ∙ recent-append window t g.at r.hits history (m.3 t (omega (arith, i.0, after, le))),
      )

  -- At no instant after a grant do more than `requests_per_minute` of all the grants so far lie in
  -- the window that ends there, if the limit is positive.
  pub grants_limited :
      {now : ℕ} {r : RateLimiter} {history : List ℕ}
      → Served limit window now r history
      → (later : ℕ) → now ≤ later
      → recent window later history ≤ limit
  grants_limited {now} {r} {history} s later le =
      let m = Served-Remembers s in
      omega (arith, m.0.limited, m.1, m.3 later le, recent_le_length window later r.hits)
