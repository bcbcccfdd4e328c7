-- ===== src/Llm/RateLimiter/Window.antt =====
-- The sliding window: `_prune` of src/aidss/llm/resilience.py.
use stock_recommendation_be.Base.{
  ℕ, ◌+◌, ◌≤◌, ◌<◌, ◌≡◌, refl, inl, inr, false, List, [], ◌∷◌, ◌++◌, ltb, leb, leb-false, arith,
  length, count, count-le-length, All, Bool-cases,
}
use stock_recommendation_be.Llm.RateLimiter.{RateLimiter, prune}

-- The window holds at most the limit, and nothing from the future.
pub record IsValid (now : ℕ) (r : RateLimiter) : Type 0 where
  pub limited : length r.hits ≤ r.requests_per_minute
  pub past : All (λ h. h ≤ now) r.hits

pub length-prune : (window now : ℕ) (hs : List ℕ) → length (prune window now hs) ≤ length hs
unfolding prune
length-prune window now [] = omega arith
length-prune window now (h ∷ hs) = ground (arith, length-prune window now hs)

pub All-le_later :
    (now later : ℕ) (hs : List ℕ) → now ≤ later → All (λ h. h ≤ now) hs → All (λ h. h ≤ later) hs
All-le_later now later [] le a = tt
All-le_later now later (h ∷ hs) le a = (omega (arith, a.0), All-le_later now later hs le a.1)

pub prune-All :
    (P : ℕ → Type 0) (window now : ℕ) (hs : List ℕ) → All P hs → All P (prune window now hs)
unfolding prune
prune-All P window now [] a = tt
prune-All P window now (h ∷ hs) a = elim (Bool-cases (leb (h + window) now)) [
  | inl old ↦ rw old (prune-All P window now hs a.1)
  | inr new ↦ rw new a
]

-- What is left of the window is empty, or begins with a hit inside it.
pub data Kept (window now : ℕ) (hs : List ℕ) : Type 0 where
  empty : prune window now hs ≡ [] → Kept window now hs
  starts :
      (g : ℕ) (gs : List ℕ) → prune window now hs ≡ g ∷ gs → now < g + window → Kept window now hs

pub prune-Kept : (window now : ℕ) (hs : List ℕ) → Kept window now hs
unfolding prune
prune-Kept window now [] = empty refl
prune-Kept window now (h ∷ hs) = elim (Bool-cases (leb (h + window) now)) [
  | inl old ↦ elim (prune-Kept window now hs) [
    | empty e ↦ empty (rw old e)
    | starts g gs e lt ↦ starts g gs (rw old e) lt
  ]
  | inr new ↦ starts h hs (rw new refl) (leb-false _ _ new)
]

-- A hit at the end of its window is dropped.
pub prune_expired :
    (window now h : ℕ) (hs : List ℕ)
    → h + window ≤ now
    → prune window now (h ∷ hs) ≡ prune window now hs
unfolding prune
prune_expired window now h hs le = ground arith

pub ltb-false : (a b : ℕ) → ltb a b ≡ false → b ≤ a
ltb-false a b h = ground arith

-- How many of the grants are in the window that ends at `now`.
pub recent : ℕ → ℕ → List ℕ → ℕ
recent window now hs = count (λ h. ltb now (h + window)) hs

pub recent_le_length : (window now : ℕ) (hs : List ℕ) → recent window now hs ≤ length hs
unfolding recent
recent_le_length window now hs = count-le-length (λ h. ltb now (h + window)) hs

-- Pruning drops nothing that counts now or later.
pub recent-prune :
    (window now later : ℕ) (hs : List ℕ)
    → now ≤ later
    → recent window later (prune window now hs) ≡ recent window later hs
unfolding prune recent
recent-prune window now later [] le = refl
recent-prune window now later (h ∷ hs) le = elim (Bool-cases (leb (h + window) now)) [
  | inl old ↦ rw old (ground (arith, recent-prune window now later hs le))
  | inr new ↦ rw new refl
]

pub recent-append :
    (window later x : ℕ) (hs gs : List ℕ)
    → recent window later hs ≡ recent window later gs
    → recent window later (hs ++ x ∷ []) ≡ recent window later (gs ++ x ∷ [])
unfolding recent
recent-append window later x hs gs e = omega (arith, count_last hs, count_last gs)
  where
    count_last :
        (xs : List ℕ)
        → count (λ h. ltb later (h + window)) (xs ++ x ∷ [])
          ≡ count (λ h. ltb later (h + window)) xs + count (λ h. ltb later (h + window)) (x ∷ [])
    count_last [] = ground arith
    count_last (y ∷ xs) = ground (arith, count_last xs)

pub IsValid-later :
    (now later : ℕ) (r : RateLimiter) → now ≤ later → IsValid now r → IsValid later r
IsValid-later now later r le v = record {
  limited = v.limited;
  past = All-le_later now later r.hits le v.past;
}
