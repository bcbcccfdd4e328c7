-- ===== src/Jobs/Queue/Dedup.antt =====
-- The idempotency key of a job: `enqueue` of src/aidss/jobs/queue.py against the unique index.
use stock_recommendation_be.Base.{
  ℕ, ◌≡◌, refl, ap, ◌∙◌, inl, inr, String, Bool, true, false, ◌||◌, Option, none, some, [], ◌∷◌,
  ◌++◌, arith, if◌then◌else◌, str_eq, str_eq_iff, str_eq_refl, find, find_append_none, any-none,
  Bool-cases, Option-cases,
}
use stock_recommendation_be.Jobs.Queue.{
  JobQueueEntry, Table, Session, EnqueueRequest, EnqueueResult, returned, is_key, key_is, violates,
  dangles, new_entry, others_commit, add_and_flush, enqueue,
}

-- The unique index on `dedup_key`.
abbrev pub DistinctKeys : Table → Type 0
DistinctKeys [] = Unit
DistinctKeys (e ∷ t) = (violates e.dedup_key t ≡ false) × DistinctKeys t

violates-append :
    (k : Option String) (t u : Table) → violates k (t ++ u) ≡ (violates k t || violates k u)
unfolding violates
violates-append none t u = refl
violates-append (some k) [] u = refl
violates-append (some k) (e ∷ t) u = ground (arith, violates-append (some k) t u)

violates_nil : (k : Option String) → violates k [] ≡ false
unfolding violates
violates_nil none = refl
violates_nil (some k) = refl

str_eq_comm : (s t : String) → str_eq s t ≡ str_eq t s
str_eq_comm s t = ground (arith, str_eq_iff s t, str_eq_iff t s)

abbrev conflict : Option String → Option String → Bool
conflict none k = false
conflict (some j) none = false
conflict (some j) (some k) = str_eq k j

conflict_comm : (j k : Option String) → conflict j k ≡ conflict k j
conflict_comm none none = refl
conflict_comm none (some k) = refl
conflict_comm (some j) none = refl
conflict_comm (some j) (some k) = str_eq_comm k j

conflict-key_is :
    (j : String) (x : JobQueueEntry) → key_is (some j) x ≡ conflict (some j) x.dedup_key
unfolding key_is
conflict-key_is j x = ground arith

violates-cons :
    (k : Option String) (x : JobQueueEntry) (t : Table)
    → violates k (x ∷ t) ≡ (conflict k x.dedup_key || violates k t)
unfolding violates
violates-cons none x t = refl
violates-cons (some k) x t = rw (conflict-key_is k x) refl

DistinctKeys-snoc :
    (t : Table) (e : JobQueueEntry)
    → DistinctKeys t
    → violates e.dedup_key t ≡ false
    → DistinctKeys (t ++ e ∷ [])
DistinctKeys-snoc [] e d h = (violates_nil e.dedup_key, tt)
DistinctKeys-snoc (x ∷ t) e d h = (
  ground (
    arith,
    violates-append x.dedup_key t (e ∷ []),
    violates-cons x.dedup_key e [],
    violates-cons e.dedup_key x t,
    violates_nil x.dedup_key,
    conflict_comm x.dedup_key e.dedup_key,
  ),
  DistinctKeys-snoc t e d.1 (ground (arith, violates-cons e.dedup_key x t)),
)

module _ (jobs : ℕ → Bool) (fresh now : ℕ) (race : Table) (q : EnqueueRequest) (s : Session) where
  -- The check finds the key.
  pub enqueue_existing :
      (e : JobQueueEntry)
      → (if is_key q.dedup_key then find (key_is q.dedup_key) s.working else none) ≡ some e
      → enqueue jobs fresh now race q s ≡ (returned (record { job_id = e.id; created = false }), s)
  unfolding enqueue
  enqueue_existing e h = rw (h, enqueue) refl

  -- The check finds nothing.
  pub enqueue_missing :
      (if is_key q.dedup_key then find (key_is q.dedup_key) s.working else none) ≡ none
      → enqueue jobs fresh now race q s ≡ add_and_flush jobs fresh now q (others_commit race s)
  unfolding enqueue
  enqueue_missing h = rw (h, enqueue) refl

or_false : (a b : Bool) → (a || b) ≡ false → a ≡ false
or_false a b h = ground arith

add_and_flush-DistinctKeys :
    (jobs : ℕ → Bool) (fresh now : ℕ) (q : EnqueueRequest) (s : Session)
    → DistinctKeys s.working
    → DistinctKeys s.committed
    → DistinctKeys (add_and_flush jobs fresh now q s).1.working
unfolding add_and_flush
add_and_flush-DistinctKeys jobs fresh now q s w c =
    elim (Bool-cases (violates q.dedup_key s.working || dangles jobs q.scheduler_job_id)) [
      | inl v ↦ elim (Option-cases (find (key_is q.dedup_key) s.committed)) [
        | inl e ↦ rw (v, e) c
        | inr (x, e) ↦ rw (v, e) c
      ]
      | inr v ↦ rw v (DistinctKeys-snoc s.working (new_entry fresh now q) w (or_false _ _ v))
    ]

pub enqueue-DistinctKeys :
    (jobs : ℕ → Bool) (fresh now : ℕ) (race : Table) (q : EnqueueRequest) (s : Session)
    → DistinctKeys s.working
    → DistinctKeys (s.working ++ race)
    → DistinctKeys (s.committed ++ race)
    → DistinctKeys (enqueue jobs fresh now race q s).1.working
enqueue-DistinctKeys jobs fresh now race q s w wr cr =
    elim (Option-cases (if is_key q.dedup_key then find (key_is q.dedup_key) s.working else none)) [
      | inr (e, found) ↦ rw (enqueue_existing jobs fresh now race q s e found) w
      | inl missing ↦ rw (enqueue_missing jobs fresh now race q s missing) (
          add_and_flush-DistinctKeys jobs fresh now q (others_commit race s)
            (unfold others_commit in wr) (unfold others_commit in cr))
    ]

-- The key is now held by the row whose identifier was returned.
abbrev Holds : Option String → Table → ℕ → Type 0
Holds k t i = (x : JobQueueEntry) × (find (key_is k) t ≡ some x) × (x.id ≡ i)

find-new_entry :
    (fresh now : ℕ) (q : EnqueueRequest) (t : Table)
    → is_key q.dedup_key ≡ true
    → violates q.dedup_key t ≡ false
    → find (key_is q.dedup_key) (t ++ new_entry fresh now q ∷ []) ≡ some (new_entry fresh now q)
unfolding is_key key_is violates new_entry
find-new_entry fresh now q t k v = go q.dedup_key refl k v
  where
    go :
        (j : Option String)
        → q.dedup_key ≡ j
        → is_key j ≡ true
        → violates j t ≡ false
        → find (key_is j) (t ++ new_entry fresh now q ∷ []) ≡ some (new_entry fresh now q)
    go none e b c = cc
    go (some j) e b c =
        find_append_none (key_is (some j)) t (new_entry fresh now q ∷ [])
          (any-none (key_is (some j)) t c)
        ∙ rw e (rw (str_eq_refl j) refl)

flush-Holds :
    (jobs : ℕ → Bool) (fresh now : ℕ) (q : EnqueueRequest) (s : Session) (r : EnqueueResult)
    → is_key q.dedup_key ≡ true
    → (add_and_flush jobs fresh now q s).0 ≡ returned r
    → Holds q.dedup_key (add_and_flush jobs fresh now q s).1.working r.job_id
unfolding add_and_flush
flush-Holds jobs fresh now q s r k =
    elim (Bool-cases (violates q.dedup_key s.working || dangles jobs q.scheduler_job_id)) [
      | inl v ↦ elim (Option-cases (find (key_is q.dedup_key) s.committed)) [
        | inl e ↦ rw (v, e) (λ h. cc)
        | inr (x, e) ↦ rw (v, e) (λ h. (x, e, ground arith))
      ]
      | inr v ↦ rw v (λ h. (
        new_entry fresh now q,
        find-new_entry fresh now q s.working k (or_false _ _ v),
        unfold new_entry in ground arith,
      ))
    ]

enqueue-Holds :
    (jobs : ℕ → Bool) (fresh now : ℕ) (race : Table) (q : EnqueueRequest) (s : Session)
    (r : EnqueueResult)
    → is_key q.dedup_key ≡ true
    → (enqueue jobs fresh now race q s).0 ≡ returned r
    → Holds q.dedup_key (enqueue jobs fresh now race q s).1.working r.job_id
enqueue-Holds jobs fresh now race q s r k =
    elim (Option-cases (find (key_is q.dedup_key) s.working)) [
      | inr (e, found) ↦
          rw (enqueue_existing jobs fresh now race q s e (rw k found))
            (λ h. (e, found, ground arith))
      | inl missing ↦
          rw (enqueue_missing jobs fresh now race q s (rw k missing))
            (flush-Holds jobs fresh now q (others_commit race s) r k)
    ]

-- After an enqueue with a non-empty idempotency key has returned, another enqueue of this session
-- with the same key, whatever its other fields and whatever other workers commit, returns the same
-- job, creates nothing and changes nothing.
pub enqueue_idempotent :
    (jobs jobs' : ℕ → Bool) (fresh now fresh' now' : ℕ) (race race' : Table) (q q' : EnqueueRequest)
    (s : Session) (r : EnqueueResult)
    → is_key q.dedup_key ≡ true
    → q'.dedup_key ≡ q.dedup_key
    → (enqueue jobs fresh now race q s).0 ≡ returned r
    → enqueue jobs' fresh' now' race' q' (enqueue jobs fresh now race q s).1 ≡ (
      returned (record { job_id = r.job_id; created = false }),
      (enqueue jobs fresh now race q s).1,
    )
enqueue_idempotent jobs jobs' fresh now fresh' now' race race' q q' s r k same_key h =
    let (x, found, same) = enqueue-Holds jobs fresh now race q s r k h in
    let there : find (key_is q'.dedup_key) (enqueue jobs fresh now race q s).1.working ≡ some x =
      ap (λ d. find (key_is d) (enqueue jobs fresh now race q s).1.working) same_key ∙ found in
    enqueue_existing jobs' fresh' now' race' q' (enqueue jobs fresh now race q s).1 x
      (rw (ap is_key same_key ∙ k) there)
    ∙ ap
        (λ (i : ℕ).
          (returned (record { job_id = i; created = false }), (enqueue jobs fresh now race q s).1))
        same
