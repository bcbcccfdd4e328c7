-- ===== src/Llm/RateLimiter/Acquire.antt =====
-- A slot is granted after one wait at most: `acquire` of src/aidss/llm/resilience.py.
use mathlib.Core.Path.{subst}
use stock_recommendation_be.Base.{
  ℕ, suc, ◌+◌, ◌-◌, ◌≤◌, ◌<◌, ◌≡◌, refl, sym, ◌∙◌, ap, inl, inr, true, false, List, [], ◌∷◌, ◌++◌,
  ltb, ◌==◌, ltb→lt, arith, length, length-append, All, All-append, Bool-cases,
}
use stock_recommendation_be.Llm.RateLimiter.{
  RateLimiter, prune, time_until_free, Grant, granted, acquire_from, acquire_slot,
}
use stock_recommendation_be.Llm.RateLimiter.Window.{
  IsValid, length-prune, All-le_later, prune-All, empty, starts, prune-Kept, prune_expired,
  ltb-false, recent, recent-prune, recent-append,
}

-- The grant with the window `kept`.
abbrev grant_with : (at waited : ℕ) → RateLimiter → List ℕ → Grant
grant_with at waited r kept = record {
  at = at;
  waited = waited;
  limiter = record r { hits = kept ++ at ∷ [] };
}

acquire_free :
    (fuel now waited : ℕ) (r : RateLimiter)
    → length (prune r.window_seconds now r.hits) < r.requests_per_minute
    → acquire_from (suc fuel) now waited r
      ≡ granted (grant_with now waited r (prune r.window_seconds now r.hits))
unfolding acquire_from time_until_free
acquire_free fuel now waited r lt =
    let free : ltb (length (prune r.window_seconds now r.hits)) r.requests_per_minute ≡ true =
      ground arith in
    rw (free, acquire_from, time_until_free) refl

acquire_full :
    (fuel now waited : ℕ) (r : RateLimiter) (h : ℕ) (hs : List ℕ)
    → prune r.window_seconds now r.hits ≡ h ∷ hs
    → r.requests_per_minute ≤ length (h ∷ hs)
    → now < h + r.window_seconds
    → acquire_from (suc fuel) now waited r
      ≡ acquire_from fuel
          (now + (r.window_seconds + h - now))
          (waited + (r.window_seconds + h - now))
          (record r { hits = h ∷ hs })
unfolding acquire_from time_until_free
acquire_full fuel now waited r h hs e full lt =
    let busy : ltb (length (h ∷ hs)) r.requests_per_minute ≡ false = ground arith in
    let wait : (r.window_seconds + h - now == 0) ≡ false = ground arith in
    rw (e, acquire_from, time_until_free)
      (rw (busy, acquire_from, time_until_free)
        (rw (wait, acquire_from, time_until_free)
          (ap
            (λ ks.
              acquire_from fuel (now + (r.window_seconds + h - now))
                (waited + (r.window_seconds + h - now)) (record r { hits = ks }))
            e)))

-- How a slot was granted: at the instant of the call plus what it waited, for at most the window, to
-- a limiter that stays within its limit.
abbrev pub IsGranted : ℕ → RateLimiter → Grant → Type 0
IsGranted now r g =
    (g.at ≡ now + g.waited)
    × (g.waited ≤ r.window_seconds)
    × IsValid g.at g.limiter
    × (g.limiter.requests_per_minute ≡ r.requests_per_minute)
    × (g.limiter.window_seconds ≡ r.window_seconds)
    × ((later : ℕ)
        → g.at ≤ later
        → recent r.window_seconds later g.limiter.hits
          ≡ recent r.window_seconds later (r.hits ++ g.at ∷ []))

free_IsGranted :
    (now waited start : ℕ) (r : RateLimiter) (hs : List ℕ)
    → length hs < r.requests_per_minute
    → All (λ h. h ≤ now) hs
    → now ≡ start + waited
    → waited ≤ r.window_seconds
    → ((later : ℕ)
        → now ≤ later
        → recent r.window_seconds later hs ≡ recent r.window_seconds later r.hits)
    → IsGranted start r (grant_with now waited r hs)
free_IsGranted now waited start r hs lt past at_now short same = (
  at_now,
  short,
  record {
    limited = omega (arith, length-append hs (now ∷ []));
    past = All-append (λ h. h ≤ now) hs (now ∷ []) past (omega arith, tt);
  },
  refl,
  refl,
  λ later le. recent-append r.window_seconds later now hs r.hits (same later le),
)

wait_ends : (now window h : ℕ) → now < h + window → now + (window + h - now) ≡ h + window
wait_ends now window h lt = omega arith

module _ (now : ℕ) (r : RateLimiter) (v : IsValid now r)
    (some_slots : 0 < r.requests_per_minute) where
  granted_now :
      length (prune r.window_seconds now r.hits) < r.requests_per_minute
      → (g : Grant) × (acquire_slot now r ≡ granted g) × IsGranted now r g
  unfolding acquire_slot
  granted_now lt = (
    grant_with now 0 r (prune r.window_seconds now r.hits),
    acquire_free 1 now 0 r lt,
    free_IsGranted now 0 now r (prune r.window_seconds now r.hits) lt
        (prune-All (λ h. h ≤ now) r.window_seconds now r.hits v.past) (omega arith) (omega arith)
        (λ later le. recent-prune r.window_seconds now later r.hits le),
  )

  granted_after_wait :
      (h : ℕ) (hs : List ℕ)
      → prune r.window_seconds now r.hits ≡ h ∷ hs
      → now < h + r.window_seconds
      → r.requests_per_minute ≤ length (h ∷ hs)
      → (g : Grant) × (acquire_slot now r ≡ granted g) × IsGranted now r g
  unfolding acquire_slot
  granted_after_wait h hs e lt full =
      let wait = r.window_seconds + h - now in
      let next = now + wait in
      let kept = prune r.window_seconds next hs in
      let dropped = prune_expired r.window_seconds next h hs (omega arith) in
      let le_all : length (h ∷ hs) ≤ r.requests_per_minute =
        omega (arith, v.limited, length-prune r.window_seconds now r.hits, ap length e) in
      let lt' : length kept < r.requests_per_minute =
        omega (arith, length-prune r.window_seconds next hs) in
      let past' : All (λ x. x ≤ now) (h ∷ hs) =
        subst (All (λ x. x ≤ now)) e
          (prune-All (λ x. x ≤ now) r.window_seconds now r.hits v.past) in
      (
        grant_with next (0 + wait) r kept,
        acquire_full 1 now 0 r h hs e full lt
            ∙ (acquire_free 0 next (0 + wait) (record r { hits = h ∷ hs }) (rw dropped lt')
                ∙ ap (λ k. granted (grant_with next (0 + wait) r k)) dropped),
        free_IsGranted next (0 + wait) now r kept lt'
            (prune-All (λ x. x ≤ next) r.window_seconds next hs
              (All-le_later now next hs (omega arith) past'.1))
            (omega arith) (omega (arith, past'.0))
            (λ later le.
              sym (ap (recent r.window_seconds later) dropped)
              ∙ recent-prune r.window_seconds next later (h ∷ hs) le
              ∙ sym (ap (recent r.window_seconds later) e)
              ∙ recent-prune r.window_seconds now later r.hits (omega arith)),
      )

  -- The loop of `acquire` ends after one wait at most.
  pub acquire_slot-IsGranted : (g : Grant) × (acquire_slot now r ≡ granted g) × IsGranted now r g
  acquire_slot-IsGranted =
      elim (Bool-cases (ltb (length (prune r.window_seconds now r.hits)) r.requests_per_minute)) [
        | inl free ↦ granted_now (ltb→lt _ _ free)
        | inr busy ↦ elim (prune-Kept r.window_seconds now r.hits) [
          | empty e ↦ absurd (omega (arith, some_slots, ap length e, ltb-false _ _ busy))
          | starts h hs e lt ↦
              granted_after_wait h hs e lt (omega (arith, ap length e, ltb-false _ _ busy))
        ]
      ]

-- With a positive limit and a window within it, `acquire` returns, however full the window is: the
-- slot is granted after a wait of at most the window, and the window is within the limit again.
pub acquire_slot_granted :
    (now : ℕ) (r : RateLimiter)
    → IsValid now r
    → 0 < r.requests_per_minute
    → (g : Grant) × (acquire_slot now r ≡ granted g)
      × (g.at ≡ now + g.waited)
      × (g.waited ≤ r.window_seconds)
      × IsValid g.at g.limiter
acquire_slot_granted now r v some_slots =
    let a = acquire_slot-IsGranted now r v some_slots in (a.0, a.1, a.2.0, a.2.1, a.2.2)
