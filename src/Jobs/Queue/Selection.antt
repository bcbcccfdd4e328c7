-- ===== src/Jobs/Queue/Selection.antt =====
-- Which row the SELECT of a claim returns (`claim` of src/aidss/jobs/queue.py).
use mathlib.Core.List.{Memᴰ}
use mathlib.Core.Path.{subst}
use stock_recommendation_be.Base.{
  ℕ, ◌≤◌, ◌≡◌, refl, inl, inr, Bool, true, false, not, ◌&&◌, Option, none, some, [], ◌∷◌, arith,
  leb, leb→le, All, Bool-cases,
}
use stock_recommendation_be.Jobs.Queue.{
  JobQueueEntry, Table, is_pending, is_claimable, earlier, select_next,
}

-- The rows that the SELECT of a claim may return.
abbrev pub is_candidate : ℕ → (ℕ → Bool) → JobQueueEntry → Bool
is_candidate now skip e = is_claimable now e && not (skip e.id)

-- No candidate is due before `x`.
abbrev pub IsEarliest : ℕ → (ℕ → Bool) → JobQueueEntry → Table → Type 0
IsEarliest now skip x t =
    All (λ y. is_candidate now skip y ≡ true → x.available_at ≤ y.available_at) t

-- What the SELECT returns: a candidate of the table before which none is due, or nothing where
-- there is no candidate.
abbrev pub Selected : ℕ → (ℕ → Bool) → Table → Option JobQueueEntry → Type 0
Selected now skip t none = All (λ y. is_candidate now skip y ≡ false) t
Selected now skip t (some x) = Memᴰ x t × (is_candidate now skip x ≡ true) × IsEarliest now skip x t

module _ (now : ℕ) (skip : ℕ → Bool) where
  no_candidate-IsEarliest :
      (x : JobQueueEntry) (t : Table)
      → All (λ y. is_candidate now skip y ≡ false) t
      → IsEarliest now skip x t
  no_candidate-IsEarliest x [] h = tt
  no_candidate-IsEarliest x (y ∷ t) h = ((λ c. cc), no_candidate-IsEarliest x t h.1)

  IsEarliest-le :
      (x z : JobQueueEntry) (t : Table)
      → x.available_at ≤ z.available_at
      → IsEarliest now skip z t
      → IsEarliest now skip x t
  IsEarliest-le x z [] le h = tt
  IsEarliest-le x z (y ∷ t) le h = ((λ c. omega (arith, h.0 c)), IsEarliest-le x z t le h.1)

  add_row :
      (y : JobQueueEntry) (t : Table) (r : Option JobQueueEntry)
      → Selected now skip t r
      → is_candidate now skip y ≡ true
      → Selected now skip (y ∷ t) (some (earlier y r))
  unfolding earlier
  add_row y t none h c = (Memᴰ.head refl, c, ((λ _. omega arith), no_candidate-IsEarliest y t h))
  add_row y t (some z) h c = elim (Bool-cases (leb y.available_at z.available_at)) [
    | inl le ↦
        subst (λ v. Selected now skip (y ∷ t) (some v)) (rw le refl)
          (Memᴰ.head refl, c, ((λ _. omega arith), IsEarliest-le y z t (leb→le _ _ le) h.2))
    | inr gt ↦
        subst (λ v. Selected now skip (y ∷ t) (some v)) (rw gt refl)
          (Memᴰ.tail h.0, h.1, ((λ _. ground arith), h.2))
  ]

  skip_row :
      (y : JobQueueEntry) (t : Table) (r : Option JobQueueEntry)
      → Selected now skip t r
      → is_candidate now skip y ≡ false
      → Selected now skip (y ∷ t) r
  skip_row y t none h c = (c, h)
  skip_row y t (some z) h c = (Memᴰ.tail h.0, h.1, ((λ d. cc), h.2))

  pub select_next-Selected : (t : Table) → Selected now skip t (select_next now skip t)
  unfolding select_next
  select_next-Selected [] = tt
  select_next-Selected (y ∷ t) =
      let h = select_next-Selected t in
      elim (Bool-cases (is_candidate now skip y)) [
        | inl c ↦ rw c (add_row y t (select_next now skip t) h c)
        | inr c ↦ rw c (skip_row y t (select_next now skip t) h c)
      ]

pub candidate_pending :
    (now : ℕ) (skip : ℕ → Bool) (x : JobQueueEntry)
    → is_candidate now skip x ≡ true
    → is_pending x.status ≡ true
unfolding is_claimable
candidate_pending now skip x h = ground arith
