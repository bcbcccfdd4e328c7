-- ===== src/Jobs/Leader/Handover.antt =====
-- How a lease is kept and passed on: renewal, expiry and release
-- (`acquire`, `release` and `current_leader` of src/aidss/jobs/leader.py).
use mathlib.Core.List.{append-nil}
use stock_recommendation_be.Base.{
  ℕ, ◌≤◌, ◌≡◌, refl, sym, ◌∙◌, Bool, true, false, some, List, [], ◌∷◌, arith, ltb, le→leb, ◌==◌,
  if◌then◌else◌, str_eq_refl, find, any, All, Bool-cases, Option-cases, any-find, inl, inr,
  All-find, find_sound,
}
use stock_recommendation_be.Base.Sql.{rowcount, delete_where}
use stock_recommendation_be.Jobs.Leader.{
  LeaderLease, LeaseHolder, is_named, may_take, acquire, is_held_by, release, LeaderView, held,
  expired, current_leader,
}
use stock_recommendation_be.Jobs.Leader.Exclusion.{LeaseIs, IsLeader, unnamed_none, true_ne_false}

any-rowcount :
    (p q : LeaderLease → Bool) (t : List LeaderLease)
    → All (λ l. q l ≡ true → p l ≡ true) t
    → any q t ≡ true
    → (rowcount p t == 0) ≡ false
any-rowcount p q [] a e = cc
any-rowcount p q (l ∷ t) a e = elim (Bool-cases (q l)) [
  | inl y ↦ rw (a.0 y) (ground arith)
  | inr n ↦ ground (arith, any-rowcount p q t a.1)
]

acquire_where :
    (h : LeaseHolder) (now : ℕ) (race t : List LeaderLease)
    → (rowcount (may_take h now) t == 0) ≡ false
    → (acquire h now race t).0 ≡ true
unfolding acquire
acquire_where h now race t e = rw e refl

own_rows :
    (h : LeaseHolder) (until now : ℕ) (t : List LeaderLease)
    → All (LeaseIs h until) t
    → All (λ l. is_named h.name l ≡ true → may_take h now l ≡ true) t
unfolding may_take
own_rows h until now [] a = tt
own_rows h until now (l ∷ t) a =
    ((λ y. rw (y, (a.0 y).0, str_eq_refl h.holder) refl), own_rows h until now t a.1)

expired_rows :
    (h other : LeaseHolder) (until now : ℕ) (t : List LeaderLease)
    → other.name ≡ h.name
    → until ≤ now
    → All (LeaseIs h until) t
    → All (λ l. is_named h.name l ≡ true → may_take other now l ≡ true) t
unfolding may_take
expired_rows h other until now [] n le a = tt
expired_rows h other until now (l ∷ t) n le a = (
  (λ y. rw (n, y, (a.0 y).1, le→leb until now le) (ground arith)),
  expired_rows h other until now t n le a.1,
)

released :
    (h : LeaseHolder) (until : ℕ) (t : List LeaderLease)
    → All (LeaseIs h until) t
    → any (is_named h.name) (delete_where (is_held_by h) t) ≡ false
unfolding is_held_by
released h until [] a = refl
released h until (l ∷ t) a = elim (Bool-cases (is_named h.name l)) [
  | inl y ↦ rw (y, (a.0 y).0, str_eq_refl h.holder) (released h until t a.1)
  | inr n ↦ rw n (rw n (released h until t a.1))
]

acquire_free :
    (h : LeaseHolder) (now : ℕ) (t : List LeaderLease)
    → any (is_named h.name) t ≡ false
    → (acquire h now [] t).0 ≡ true
unfolding acquire
acquire_free h now t e =
    rw (unnamed_none h now t e, sym (any-find (is_named h.name) t), e, append-nil) (rw e refl)

held_rows :
    (h : LeaseHolder) (until : ℕ) (t : List LeaderLease)
    → All (LeaseIs h until) t
    → All (λ l. is_named h.name l ≡ true → is_held_by h l ≡ true) t
unfolding is_held_by
held_rows h until [] a = tt
held_rows h until (l ∷ t) a =
    ((λ y. rw (y, (a.0 y).0, str_eq_refl h.holder) refl), held_rows h until t a.1)

release_where :
    (h : LeaseHolder) (t : List LeaderLease)
    → (rowcount (is_held_by h) t == 0) ≡ false
    → (release h t).0 ≡ true
unfolding release
release_where h t e = rw e refl

released_table :
    (h : LeaseHolder) (until : ℕ) (t : List LeaderLease)
    → All (LeaseIs h until) t
    → any (is_named h.name) (release h t).1 ≡ false
unfolding release
released_table h until t a = released h until t a

-- The leader renews its lease whenever it asks. Once the lease has run out, at `late`, or once the
-- leader has released it and nobody else races for it, another instance gets it.
pub lease_passes_on :
    (h other : LeaseHolder) (until now late : ℕ) (race t : List LeaderLease)
    → IsLeader h until t
    → other.name ≡ h.name
    → until ≤ late
    → ((acquire h now race t).0 ≡ true)
      × ((acquire other late race t).0 ≡ true)
      × ((release h t).0 ≡ true)
      × ((acquire other now [] (release h t).1).0 ≡ true)
lease_passes_on h other until now late race t (a, e) n le = (
  acquire_where h now race t
      (any-rowcount (may_take h now) (is_named h.name) t (own_rows h until now t a) e),
  acquire_where other late race t (
      any-rowcount (may_take other late) (is_named h.name) t
        (expired_rows h other until late t n le a) e),
  release_where h t (any-rowcount (is_held_by h) (is_named h.name) t (held_rows h until t a) e),
  acquire_free other now (release h t).1 (rw n (released_table h until t a)),
)

-- The overview names the holder, and reports the lease as held exactly while it has not run out.
pub current_leader_lem :
    (h : LeaseHolder) (until now : ℕ) (t : List LeaderLease)
    → IsLeader h until t
    → (v : LeaderView) × (current_leader h.name now t ≡ some v)
      × (v.holder ≡ h.holder)
      × (v.expires_at ≡ until)
      × (v.state ≡ (if ltb now until then held else expired))
unfolding current_leader
current_leader_lem h until now t (a, e) = elim (Option-cases (find (is_named h.name) t)) [
  | inl missing ↦ absurd (true_ne_false (sym e ∙ any-find (is_named h.name) t ∙ rw missing refl))
  | inr (l, found) ↦
      let (by, till) =
        All-find (LeaseIs h until) (is_named h.name) t l a found
          (find_sound (is_named h.name) t l found) in
      (
        record {
          holder = l.holder;
          acquired_at = l.acquired_at;
          expires_at = l.expires_at;
          state = if ltb now l.expires_at then held else expired;
        },
        rw (found, current_leader) refl,
        by,
        till,
        rw till refl,
      )
]
