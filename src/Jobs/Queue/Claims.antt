-- ===== src/Jobs/Queue/Claims.antt =====
-- Claiming: the row that a worker gets, and that two workers never get the same one
-- (`claim` of src/aidss/jobs/queue.py).
use mathlib.Core.List.{Memᴰ}
use mathlib.Core.Path.{subst}
use stock_recommendation_be.Base.{
  ℕ, ◌≤◌, ◌≡◌, refl, sym, ap, ◌∙◌, ◌≢◌, ◌⊎◌, inl, inr, String, Bool, true, false, ◌&&◌, Option,
  none, some, [], ◌∷◌, arith, ◌==◌, All, find, Bool-cases,
}
use stock_recommendation_be.Base.Sql.{update_where, rowcount, rowcount_after_update}
use stock_recommendation_be.Jobs.Queue.{
  JobQueueEntry, Table, pending, running, is_pending, has_id, is_claimable, select_next,
  still_pending, lock_for, claim_row, claim,
}
use stock_recommendation_be.Jobs.Queue.Selection.{
  is_candidate, IsEarliest, Selected, select_next-Selected, candidate_pending,
}

-- No two rows have one identifier: the primary key.
abbrev pub DistinctIds : Table → Type 0
DistinctIds [] = Unit
DistinctIds (e ∷ t) = (find (has_id e.id) t ≡ none) × DistinctIds t

mem-find_ne :
    (i : ℕ) (t : Table) {x : JobQueueEntry} → Memᴰ x t → find (has_id i) t ≡ none → x.id ≢ i
mem-find_ne i [] m h = elim m [ ]
mem-find_ne i (y ∷ t) (Memᴰ.head e) h = rw e (ground arith)
mem-find_ne i (y ∷ t) (Memᴰ.tail m) h = mem-find_ne i t m (ground arith)

module _ (now : ℕ) (w : String) where
  find-claimed_head :
      (y : JobQueueEntry) (t : Table)
      → is_pending y.status ≡ true
      → find (has_id y.id) (update_where (still_pending y.id) (lock_for now w) (y ∷ t))
        ≡ some (lock_for now w y)
  unfolding still_pending lock_for
  find-claimed_head y t p = ground arith

  -- The row that the UPDATE changed is the one that is read back.
  find-claimed :
      (t : Table) {x : JobQueueEntry}
      → Memᴰ x t
      → DistinctIds t
      → is_pending x.status ≡ true
      → find (has_id x.id) (update_where (still_pending x.id) (lock_for now w) t)
        ≡ some (lock_for now w x)
  unfolding still_pending lock_for
  find-claimed [] m d p = elim m [ ]
  find-claimed (y ∷ t) (Memᴰ.head e) d p =
      subst
        (λ v.
          is_pending v.status ≡ true
          → find (has_id v.id) (update_where (still_pending v.id) (lock_for now w) (y ∷ t))
            ≡ some (lock_for now w v))
        (sym e) (find-claimed_head y t) p
  find-claimed (y ∷ t) {x} (Memᴰ.tail m) d p =
      ground (arith, mem-find_ne y.id t m d.0, find-claimed t m d.1 p)

  mem-rowcount :
      (t : Table) {x : JobQueueEntry}
      → Memᴰ x t
      → is_pending x.status ≡ true
      → (rowcount (still_pending x.id) t == 0) ≡ false
  unfolding still_pending
  mem-rowcount [] m p = elim m [ ]
  mem-rowcount (y ∷ t) (Memᴰ.head e) p =
      subst (λ v. is_pending v.status ≡ true → (rowcount (still_pending v.id) (y ∷ t) == 0) ≡ false)
        (sym e) (λ q. ground arith) p
  mem-rowcount (y ∷ t) {x} (Memᴰ.tail m) p = ground (arith, mem-rowcount t m p)

module _ (now : ℕ) (w : String) (skip : ℕ → Bool) (between : Table → Table) (t : Table) where
  claim-none : select_next now skip t ≡ none → claim now w skip between t ≡ (none, t)
  unfolding claim
  claim-none h = rw (h, claim) refl

  claim-some :
      (x : JobQueueEntry)
      → select_next now skip t ≡ some x
      → claim now w skip between t ≡ claim_row now w x.id (between t)
  unfolding claim
  claim-some x h = rw (h, claim) refl

claim_row_found :
    (now : ℕ) (w : String) (x : JobQueueEntry) (t : Table)
    → Memᴰ x t
    → DistinctIds t
    → is_pending x.status ≡ true
    → claim_row now w x.id t
      ≡ (some (lock_for now w x), update_where (still_pending x.id) (lock_for now w) t)
unfolding claim_row
claim_row_found now w x t m d p = rw (mem-rowcount now w t m p, find-claimed now w t m d p) refl

-- A row that is pending, that is due and that no other transaction has locked.
pub record IsDue (now : ℕ) (skip : ℕ → Bool) (e : JobQueueEntry) : Type 0 where
  pub waiting : e.status ≡ pending
  pub in_time : e.available_at ≤ now
  pub unlocked : skip e.id ≡ false

-- The row as the worker holds it.
abbrev pub held_by : ℕ → String → JobQueueEntry → JobQueueEntry
held_by now w e = record e {
  status = running;
  locked_at = some now;
  locked_by = some w;
  started_at = some now;
}

-- What a claim does, with no other worker in between.
abbrev pub TakesEarliest : ℕ → String → (ℕ → Bool) → Table → Type 0
TakesEarliest now w skip t =
    (All (λ y. ¬ (IsDue now skip y)) t × (claim now w skip (λ u. u) t ≡ (none, t)))
    ⊎ ((x : JobQueueEntry) × Memᴰ x t
        × IsDue now skip x
        × All (λ y. IsDue now skip y → x.available_at ≤ y.available_at) t
        × (claim now w skip (λ u. u) t
            ≡ (some (held_by now w x), update_where (has_id x.id) (held_by now w) t)))

candidate-IsDue :
    (now : ℕ) (skip : ℕ → Bool) (e : JobQueueEntry)
    → is_candidate now skip e ≡ true
    → IsDue now skip e
unfolding is_claimable
candidate-IsDue now skip e h = ground arith

IsDue-candidate :
    (now : ℕ) (skip : ℕ → Bool) (e : JobQueueEntry)
    → IsDue now skip e
    → is_candidate now skip e ≡ true
unfolding is_claimable
IsDue-candidate now skip e h = ground (arith, h.waiting, h.in_time, h.unlocked)

no_candidates :
    (now : ℕ) (skip : ℕ → Bool) (t : Table)
    → All (λ y. is_candidate now skip y ≡ false) t
    → All (λ y. ¬ (IsDue now skip y)) t
no_candidates now skip [] h = tt
no_candidates now skip (y ∷ t) h =
    ((λ d. ground (arith, IsDue-candidate now skip y d, h.0)), no_candidates now skip t h.1)

no_earlier_row :
    (now : ℕ) (skip : ℕ → Bool) (x : JobQueueEntry) (t : Table)
    → IsEarliest now skip x t
    → All (λ y. IsDue now skip y → x.available_at ≤ y.available_at) t
no_earlier_row now skip x [] h = tt
no_earlier_row now skip x (y ∷ t) h =
    ((λ d. h.0 (IsDue-candidate now skip y d)), no_earlier_row now skip x t h.1)

-- Where no row has the identifier, neither update changes anything.
none_named :
    (i : ℕ) (p : JobQueueEntry → Bool) (f : JobQueueEntry → JobQueueEntry) (t : Table)
    → find (has_id i) t ≡ none
    → update_where (λ e. has_id i e && p e) f t ≡ t
none_named i p f [] h = refl
none_named i p f (e ∷ t) h = elim (Bool-cases (e.id == i)) [
  | inl same ↦ ground arith
  | inr other ↦ rw other (ap (λ u. e ∷ u) (none_named i p f t (ground arith)))
]

none_named_at_all :
    (i : ℕ) (f : JobQueueEntry → JobQueueEntry) (t : Table)
    → find (has_id i) t ≡ none
    → update_where (has_id i) f t ≡ t
none_named_at_all i f [] h = refl
none_named_at_all i f (e ∷ t) h = elim (Bool-cases (e.id == i)) [
  | inl same ↦ ground arith
  | inr other ↦ rw other (ap (λ u. e ∷ u) (none_named_at_all i f t (ground arith)))
]

-- The guarded UPDATE writes to the row of that identifier and to no other.
lock_for-held_by :
    (now : ℕ) (w : String) (t : Table) {x : JobQueueEntry}
    → Memᴰ x t
    → DistinctIds t
    → is_pending x.status ≡ true
    → update_where (still_pending x.id) (lock_for now w) t
      ≡ update_where (has_id x.id) (held_by now w) t
unfolding still_pending lock_for
lock_for-held_by now w [] m d p = elim m [ ]
lock_for-held_by now w (y ∷ t) {x} (Memᴰ.head e) d p =
    let same : (y.id == x.id) ≡ true = rw e (ground arith) in
    let waits : is_pending y.status ≡ true = subst (λ v. is_pending v.status ≡ true) e p in
    let gone : find (has_id x.id) t ≡ none = subst (λ v. find (has_id v.id) t ≡ none) (sym e) d.0 in
    rw (same, waits)
      (ap (λ u. held_by now w y ∷ u)
        (none_named x.id (λ e. is_pending e.status) (lock_for now w) t gone
          ∙ sym (none_named_at_all x.id (held_by now w) t gone)))
lock_for-held_by now w (y ∷ t) {x} (Memᴰ.tail m) d p =
    let other : (y.id == x.id) ≡ false = ground (arith, mem-find_ne y.id t m d.0) in
    rw other (ap (λ u. y ∷ u) (lock_for-held_by now w t m d.1 p))

lock_for_lem : (now : ℕ) (w : String) (e : JobQueueEntry) → lock_for now w e ≡ held_by now w e
unfolding lock_for
lock_for_lem now w e = refl

claim_outcome :
    (now : ℕ) (w : String) (skip : ℕ → Bool) (t : Table)
    → DistinctIds t
    → (r : Option JobQueueEntry) → select_next now skip t ≡ r
    → Selected now skip t r
    → TakesEarliest now w skip t
claim_outcome now w skip t d none e h =
    inl (no_candidates now skip t h, claim-none now w skip (λ u. u) t e)
claim_outcome now w skip t d (some x) e h =
    let waits = candidate_pending now skip x h.1 in
    inr (
      x,
      h.0,
      candidate-IsDue now skip x h.1,
      no_earlier_row now skip x t h.2,
      claim-some now w skip (λ u. u) t x e
          ∙ claim_row_found now w x t h.0 d waits
          ∙ rw (lock_for_lem now w x, lock_for-held_by now w t h.0 d waits) refl,
    )

-- Of a table without two rows of one identifier, a claim with no other worker in between takes a
-- row that is pending, available by now and locked by no other transaction, and among those one
-- that was available first: it is returned running, locked and started now by this worker, and no
-- other row is changed. It returns nothing, and changes nothing, only where there is no such row.
pub claim-TakesEarliest :
    (now : ℕ) (w : String) (skip : ℕ → Bool) (t : Table)
    → DistinctIds t
    → TakesEarliest now w skip t
claim-TakesEarliest now w skip t d =
    claim_outcome now w skip t d (select_next now skip t) refl (select_next-Selected now skip t)

claim_row-no_pending :
    (now : ℕ) (w : String) (i : ℕ) (u : Table)
    → rowcount (still_pending i) u ≡ 0
    → claim_row now w i u ≡ (none, u)
unfolding claim_row
claim_row-no_pending now w i u h = rw h refl

-- After a guarded UPDATE of a row, no row of its identifier is pending.
claim_row-takes_all :
    (now : ℕ) (w : String) (i : ℕ) (t : Table)
    → rowcount (still_pending i) (claim_row now w i t).1 ≡ 0
unfolding claim_row still_pending lock_for
claim_row-takes_all now w i t = elim (Bool-cases (rowcount (still_pending i) t == 0)) [
  | inl e ↦ rw e (ground arith)
  | inr e ↦ rw e (rowcount_after_update (still_pending i) (lock_for now w) t (λ x h. ground arith))
]

-- Two workers' SELECTs read the same row of one table without two rows of one identifier, and the
-- first worker's claim, with nothing in between its two statements, comes before the second's
-- UPDATE. The first gets the row. The second gets nothing and changes nothing, whatever else is
-- committed before its UPDATE, as long as none of that makes a row of this identifier pending again.
pub claim_exclusive :
    (now now' : ℕ) (w w' : String) (skip skip' : ℕ → Bool) (rest : Table → Table) (t : Table)
    (x : JobQueueEntry)
    → DistinctIds t
    → select_next now skip t ≡ some x
    → select_next now' skip' t ≡ some x
    → ((u : Table)
        → rowcount (still_pending x.id) u ≡ 0
        → rowcount (still_pending x.id) (rest u) ≡ 0)
    → let first = λ (u : Table). claim now w skip (λ v. v) u in
      ((first t).0 ≡ some (held_by now w x))
      × (claim now' w' skip' (λ u. rest (first u).1) t ≡ (none, rest (first t).1))
claim_exclusive now now' w w' skip skip' rest t x d h h' quiet =
    let first = claim-some now w skip (λ v. v) t x h in
    let found : Selected now skip t (some x) =
      subst (Selected now skip t) h (select_next-Selected now skip t) in
    let waits = candidate_pending now skip x found.1 in
    let taken : rowcount (still_pending x.id) (claim now w skip (λ v. v) t).1 ≡ 0 =
      rw first (claim_row-takes_all now w x.id t) in
    (
      ap (λ r. r.0) (first ∙ claim_row_found now w x t found.0 d waits)
          ∙ ap some (lock_for_lem now w x),
      claim-some now' w' skip' (λ u. rest (claim now w skip (λ v. v) u).1) t x h'
          ∙ claim_row-no_pending now' w' x.id (rest (claim now w skip (λ v. v) t).1)
              (quiet (claim now w skip (λ v. v) t).1 taken),
    )
