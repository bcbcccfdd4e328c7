-- ===== src/Jobs/Queue/Reach.antt =====
-- The queue as a transition system: the committed table under every operation of
-- src/aidss/jobs/queue.py, in any order and by any number of workers and schedulers.
use mathlib.Core.List.{append-nil}
use stock_recommendation_be.Base.{
  ℕ, ◌∙◌, ap, ◌&&◌, ◌||◌, ◌≡◌, refl, ◌⊎◌, inl, inr, String, Bool, true, none, [], ◌∷◌, ◌++◌, arith,
  ◌==◌, if◌then◌else◌, find, All, All-append, Bool-cases, Option-cases, find_append_none,
}
use stock_recommendation_be.Base.Sql.{update_where, rowcount}
use stock_recommendation_be.Jobs.Queue.{
  JobQueueEntry, Table, Session, EnqueueRequest, is_running, has_id, is_key, key_is, violates,
  dangles, new_entry, enqueue, others_commit, add_and_flush, still_pending, lock_for, claim_row,
  claim, select_next, save, is_abandoned, release_abandoned, reclaim_abandoned,
}
use stock_recommendation_be.Jobs.Queue.Claims.{DistinctIds}
use stock_recommendation_be.Jobs.Queue.Dedup.{
  enqueue_existing, enqueue_missing, enqueue-DistinctKeys,
}
use stock_recommendation_be.Jobs.Queue.Lifecycle.{
  IsWellFormed, new_entry-IsWellFormed, lock_for-IsWellFormed, release_abandoned-IsWellFormed,
  Settlement, settle, settle-IsWellFormed, settle-Keeps, lock_for-Keeps, release_abandoned-Keeps,
  IsSound, update_where-IsSound,
}

-- A session that starts with nothing of its own.
abbrev pub session_on : Table → Session
session_on t = record { committed = t; working = t }

-- The row, if there is one, is running.
abbrev pub IsHeld : ℕ → Table → Type 0
IsHeld i t = All (λ e. has_id i e ≡ true → is_running e.status ≡ true) t

pub data Step (t u : Table) : Type 0 where
  enqueues :
      (jobs : ℕ → Bool) (fresh now : ℕ) (q : EnqueueRequest)
      → find (has_id fresh) t ≡ none
      → u ≡ (enqueue jobs fresh now [] q (session_on t)).1.working
      → Step t u
  claims : (now : ℕ) (w : String) (skip : ℕ → Bool) → u ≡ (claim now w skip (λ v. v) t).1 → Step t u
  settles : (o : Settlement) (i : ℕ) → IsHeld i t → u ≡ save i (settle o) t → Step t u
  reclaims : (now timeout : ℕ) → u ≡ (reclaim_abandoned now timeout t).1 → Step t u

pub data Reach (t : Table) : Table → Type 0 where
  here : Reach t t
  next : {u v : Table} → Reach t u → Step u v → Reach t v

flush_shape :
    (jobs : ℕ → Bool) (fresh now : ℕ) (q : EnqueueRequest) (t : Table)
    → ((add_and_flush jobs fresh now q (session_on t)).1.working ≡ t)
      ⊎ ((add_and_flush jobs fresh now q (session_on t)).1.working
          ≡ t ++ new_entry fresh now q ∷ [])
unfolding add_and_flush
flush_shape jobs fresh now q t =
    elim (Bool-cases (violates q.dedup_key t || dangles jobs q.scheduler_job_id)) [
      | inl v ↦ inl (elim (Option-cases (find (key_is q.dedup_key) t)) [
        | inl e ↦ rw (v, e) refl
        | inr (x, e) ↦ rw (v, e) refl
      ])
      | inr v ↦ inr (rw v refl)
    ]

nothing_committed : (t : Table) → others_commit [] (session_on t) ≡ session_on t
unfolding others_commit
nothing_committed t = ap session_on (append-nil t)

-- An enqueue leaves the table as it is, or adds the new row.
enqueue_shape :
    (jobs : ℕ → Bool) (fresh now : ℕ) (q : EnqueueRequest) (t : Table)
    → ((enqueue jobs fresh now [] q (session_on t)).1.working ≡ t)
      ⊎ ((enqueue jobs fresh now [] q (session_on t)).1.working ≡ t ++ new_entry fresh now q ∷ [])
enqueue_shape jobs fresh now q t =
    elim (Option-cases (if is_key q.dedup_key then find (key_is q.dedup_key) t else none)) [
      | inr (x, e) ↦ inl (rw (enqueue_existing jobs fresh now [] q (session_on t) x e) refl)
      | inl e ↦
          rw (enqueue_missing jobs fresh now [] q (session_on t) e, nothing_committed t)
            (flush_shape jobs fresh now q t)
    ]

DistinctIds-snoc :
    (t : Table) (e : JobQueueEntry)
    → DistinctIds t
    → find (has_id e.id) t ≡ none
    → DistinctIds (t ++ e ∷ [])
DistinctIds-snoc [] e d h = (refl, tt)
DistinctIds-snoc (x ∷ t) e d h = (
  find_append_none (has_id x.id) t (e ∷ []) d.0 ∙ ground arith,
  DistinctIds-snoc t e d.1 (ground arith),
)

enqueue-IsSound :
    (jobs : ℕ → Bool) (fresh now : ℕ) (q : EnqueueRequest) (t : Table)
    → find (has_id fresh) t ≡ none
    → IsSound t
    → IsSound (enqueue jobs fresh now [] q (session_on t)).1.working
enqueue-IsSound jobs fresh now q t free h =
    let keys =
      enqueue-DistinctKeys jobs fresh now [] q (session_on t) h.2 (rw append-nil h.2)
        (rw append-nil h.2) in
    elim (enqueue_shape jobs fresh now q t) [
      | inl e ↦ rw e h
      | inr e ↦ (
        rw e (All-append IsWellFormed t _ h.0 (new_entry-IsWellFormed fresh now q, tt)),
        rw e (DistinctIds-snoc t (new_entry fresh now q) h.1 (unfold new_entry in free)),
        keys,
      )
    ]

claim_row-IsSound :
    (now : ℕ) (w : String) (i : ℕ) (t : Table) → IsSound t → IsSound (claim_row now w i t).1
unfolding claim_row
claim_row-IsSound now w i t h = elim (Bool-cases (rowcount (still_pending i) t == 0)) [
  | inl e ↦ rw e h
  | inr e ↦ rw e (
      update_where-IsSound (still_pending i) (lock_for now w) (lock_for-Keeps now w) t
        (lock_for-IsWellFormed now w i) h)
]

claim-IsSound :
    (now : ℕ) (w : String) (skip : ℕ → Bool) (t : Table)
    → IsSound t
    → IsSound (claim now w skip (λ v. v) t).1
unfolding claim
claim-IsSound now w skip t h = elim (Option-cases (select_next now skip t)) [
  | inl e ↦ rw (e, claim) h
  | inr (x, e) ↦ rw (e, claim) (claim_row-IsSound now w x.id t h)
]

held_only :
    (i : ℕ) (f : JobQueueEntry → JobQueueEntry) (t : Table)
    → IsHeld i t
    → update_where (has_id i) f t ≡ update_where (λ e. has_id i e && is_running e.status) f t
held_only i f [] h = refl
held_only i f (e ∷ t) h = elim (Bool-cases (e.id == i)) [
  | inl same ↦ rw (same, h.0 same, held_only i f t h.1) refl
  | inr other ↦ rw (other, held_only i f t h.1) refl
]

save-IsSound :
    (o : Settlement) (i : ℕ) (t : Table) → IsHeld i t → IsSound t → IsSound (save i (settle o) t)
unfolding save
save-IsSound o i t held h = rw (held_only i (settle o) t held) (
    update_where-IsSound (λ e. has_id i e && is_running e.status) (settle o) (settle-Keeps o) t
      (λ e p. settle-IsWellFormed o e (ground arith)) h)

reclaim_abandoned-IsSound :
    (now timeout : ℕ) (t : Table) → IsSound t → IsSound (reclaim_abandoned now timeout t).1
unfolding reclaim_abandoned
reclaim_abandoned-IsSound now timeout t h =
    update_where-IsSound (is_abandoned now timeout) (release_abandoned now)
      (release_abandoned-Keeps now) t (release_abandoned-IsWellFormed now timeout) h

Step-IsSound : {t u : Table} → Step t u → IsSound t → IsSound u
Step-IsSound {t} (enqueues jobs fresh now q free e) h =
    rw e (enqueue-IsSound jobs fresh now q t free h)
Step-IsSound {t} (claims now w skip e) h = rw e (claim-IsSound now w skip t h)
Step-IsSound {t} (settles o i held e) h = rw e (save-IsSound o i t held h)
Step-IsSound {t} (reclaims now timeout e) h = rw e (reclaim_abandoned-IsSound now timeout t h)

-- From any sound table on, whatever enqueues, claims, reclaims and settlements of running rows come in
-- any order, each as one step: every row is locked exactly while it runs, is finished exactly when it
-- is succeeded or dead, and never has the status failed; its retry count, which only a recorded
-- failure raises, is at most `max_retries` until it is finished, and at most one more then;
-- identifiers and idempotency keys stay distinct.
pub Reach-IsSound : {t u : Table} → Reach t u → IsSound t → IsSound u
Reach-IsSound here h = h
Reach-IsSound (next r s) h = Step-IsSound s (Reach-IsSound r h)
