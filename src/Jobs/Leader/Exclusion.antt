-- ===== src/Jobs/Leader/Exclusion.antt =====
-- One leader at a time: `acquire`, `release` and `current_leader` of src/aidss/jobs/leader.py.
use stock_recommendation_be.Base.{
  ℕ, ◌+◌, ◌<◌, ◌≡◌, refl, sym, ◌∙◌, ap, ◌≢◌, inl, inr, String, Bool, true, false, ◌||◌, List, [],
  ◌∷◌, ◌++◌, arith, ◌==◌, str_eq_iff, str_eq_refl, is_some, find, any, All, All-append, Bool-cases,
  any-find, any-append,
}
use stock_recommendation_be.Base.Sql.{update_where, rowcount, rowcount_none, update_where_no_match}
use stock_recommendation_be.Jobs.Leader.{
  LeaderLease, LeaseHolder, is_named, may_take, take_lease, new_lease, acquire,
}

pub true_ne_false : true ≢ false
true_ne_false e = cc

-- The primary key of the table.
abbrev pub DistinctNames : List LeaderLease → Type 0
DistinctNames [] = Unit
DistinctNames (l ∷ t) = (any (is_named l.name) t ≡ false) × DistinctNames t

-- The lease of the role is this instance's, until `until`.
abbrev pub LeaseIs : LeaseHolder → ℕ → LeaderLease → Type 0
LeaseIs h until l = is_named h.name l ≡ true → (l.holder ≡ h.holder) × (l.expires_at ≡ until)

abbrev pub IsLeader : LeaseHolder → ℕ → List LeaderLease → Type 0
IsLeader h until t = All (LeaseIs h until) t × (any (is_named h.name) t ≡ true)

not_named :
    (h : LeaseHolder) (u : ℕ) (t : List LeaderLease)
    → any (is_named h.name) t ≡ false
    → All (LeaseIs h u) t
not_named h u [] e = tt
not_named h u (l ∷ t) e = ((λ n. cc), not_named h u t (ground arith))

named_trans :
    (l m : LeaderLease) (n : String) → is_named n l ≡ true → is_named n m ≡ is_named l.name m
unfolding is_named
named_trans l m n e = rw ((str_eq_iff l.name n).0 e) refl

any_named :
    (l : LeaderLease) (n : String) (t : List LeaderLease)
    → is_named n l ≡ true
    → any (is_named n) t ≡ any (is_named l.name) t
unfolding is_named
any_named l n t e = rw ((str_eq_iff l.name n).0 e) refl

may_take-named :
    (h : LeaseHolder) (now : ℕ) (l : LeaderLease)
    → may_take h now l ≡ true
    → is_named h.name l ≡ true
unfolding may_take
may_take-named h now l e = ground arith

named-take_lease :
    (h : LeaseHolder) (now : ℕ) (l : LeaderLease) (n : String)
    → is_named n (take_lease h now l) ≡ is_named n l
unfolding is_named take_lease
named-take_lease h now l n = refl

take_lease_lem :
    (h : LeaseHolder) (now : ℕ) (l : LeaderLease)
    → ((take_lease h now l).holder ≡ h.holder)
      × ((take_lease h now l).expires_at ≡ now + h.ttl_seconds)
unfolding take_lease
take_lease_lem h now l = (refl, refl)

pub unnamed_none :
    (h : LeaseHolder) (now : ℕ) (t : List LeaderLease)
    → any (is_named h.name) t ≡ false
    → rowcount (may_take h now) t ≡ 0
unnamed_none h now [] e = refl
unnamed_none h now (l ∷ t) e = elim (Bool-cases (may_take h now l)) [
  | inl y ↦ absurd (true_ne_false (sym (may_take-named h now l y) ∙ ground arith))
  | inr n ↦ rw n (unnamed_none h now t (ground arith))
]

-- Where a later row may be taken, an earlier one has another name.
others_name :
    (h : LeaseHolder) (now : ℕ) (l : LeaderLease) (t : List LeaderLease)
    → any (is_named l.name) t ≡ false
    → (rowcount (may_take h now) t == 0) ≡ false
    → is_named h.name l ≡ false
others_name h now l t d m = elim (Bool-cases (is_named h.name l)) [
  | inr n ↦ n
  | inl y ↦ ground (arith, unnamed_none h now t (any_named l h.name t y ∙ d))
]

-- The UPDATE makes this instance the leader.
take-All :
    (h : LeaseHolder) (now : ℕ) (t : List LeaderLease)
    → DistinctNames t
    → (rowcount (may_take h now) t == 0) ≡ false
    → IsLeader h (now + h.ttl_seconds) (update_where (may_take h now) (take_lease h now) t)
take-All h now [] d m = cc
take-All h now (l ∷ t) d m = elim (Bool-cases (may_take h now l)) [
  | inl y ↦
      let unnamed = any_named l h.name t (may_take-named h now l y) ∙ d.0 in
      rw
        (
          y,
          update_where_no_match (may_take h now) (take_lease h now) t
              (unnamed_none h now t unnamed),
        )
        (
          ((λ _. take_lease_lem h now l), not_named h (now + h.ttl_seconds) t unnamed),
          rw (named-take_lease h now l h.name, may_take-named h now l y) refl,
        )
  | inr n ↦
      let rest = take-All h now t d.1 (ground arith) in
      let other = others_name h now l t d.0 (ground arith) in
      rw n (((λ same. cc), rest.0), rw (other, rest.1) refl)
]

insert-IsLeader :
    (h : LeaseHolder) (now : ℕ) (t : List LeaderLease)
    → any (is_named h.name) t ≡ false
    → IsLeader h (now + h.ttl_seconds) (t ++ new_lease h now ∷ [])
unfolding new_lease is_named
insert-IsLeader h now t e = (
  All-append (LeaseIs h (now + h.ttl_seconds)) t (new_lease h now ∷ [])
      (not_named h (now + h.ttl_seconds) t e) ((λ _. (refl, refl)), tt),
  any-append (is_named h.name) t (new_lease h now ∷ []) ∙ rw (e, str_eq_refl h.name) refl,
)

-- An instance that has been told that it holds the lease is the leader until the lease runs out,
-- whatever other instances committed while it tried.
pub acquire-IsLeader :
    (h : LeaseHolder) (now : ℕ) (race t : List LeaderLease)
    → DistinctNames t
    → (acquire h now race t).0 ≡ true
    → IsLeader h (now + h.ttl_seconds) (acquire h now race t).1
unfolding acquire
acquire-IsLeader h now race t d = elim (Bool-cases (rowcount (may_take h now) t == 0)) [
  | inr e ↦ rw e (λ _. take-All h now t d e)
  | inl e ↦ elim (Bool-cases (is_some (find (is_named h.name) t))) [
    | inl f ↦ rw (e, f) (λ k. cc)
    | inr f ↦ elim (Bool-cases (any (is_named h.name) (t ++ race))) [
      | inl g ↦ rw (e, f, g) (λ k. cc)
      | inr g ↦ rw (e, f, g) (λ _. insert-IsLeader h now (t ++ race) g)
    ]
  ]
]

other_may_not :
    (h other : LeaseHolder) (until now : ℕ) (l : LeaderLease)
    → LeaseIs h until l
    → other.name ≡ h.name
    → other.holder ≢ h.holder
    → now < until
    → may_take other now l ≡ false
unfolding may_take
other_may_not h other until now l is n o lt = elim (Bool-cases (is_named h.name l)) [
  | inr e ↦ rw (n, e) refl
  | inl e ↦
      let (by, till) = is e in
      ground (
        arith,
        str_eq_iff l.holder other.holder,
        ap (λ (k : String). is_named k l) n,
        λ (k : l.holder ≡ other.holder). o (sym k ∙ by),
      )
]

others_may_not :
    (h other : LeaseHolder) (until now : ℕ) (t : List LeaderLease)
    → All (LeaseIs h until) t
    → other.name ≡ h.name
    → other.holder ≢ h.holder
    → now < until
    → All (λ l. may_take other now l ≡ false) t
others_may_not h other until now [] a n o lt = tt
others_may_not h other until now (l ∷ t) a n o lt =
    (other_may_not h other until now l a.0 n o lt, others_may_not h other until now t a.1 n o lt)

leader_excludes :
    (h other : LeaseHolder) (until now : ℕ) (race t : List LeaderLease)
    → IsLeader h until t
    → other.name ≡ h.name
    → other.holder ≢ h.holder
    → now < until
    → acquire other now race t ≡ (false, t)
unfolding acquire
leader_excludes h other until now race t l n o lt =
    rw
      (
        rowcount_none (may_take other now) t (others_may_not h other until now t l.0 n o lt),
        n,
        sym (any-find (is_named h.name) t),
        l.1,
      )
      refl

-- An attempt to get the lease, with what others commit while it is made.
pub record LeaseAttempt : Type 0 where
  pub instance : LeaseHolder
  pub at_time : ℕ
  pub race : List LeaderLease

-- One after the other: whether any of them got the lease, and the table.
pub attempts : List LeaseAttempt → List LeaderLease → Bool × List LeaderLease
attempts [] t = (false, t)
attempts (a ∷ tries) t =
    let tried = acquire a.instance a.at_time a.race t in
    let rest = attempts tries tried.1 in (tried.0 || rest.0, rest.1)

-- Another instance tries for the same role, and the lease has not run out.
abbrev pub IsRival : LeaseHolder → ℕ → LeaseAttempt → Type 0
IsRival h until a =
    (a.instance.name ≡ h.name) × (a.instance.holder ≢ h.holder) × (a.at_time < until)

rivals_fail :
    (h : LeaseHolder) (until : ℕ) (t : List LeaderLease) (tries : List LeaseAttempt)
    → IsLeader h until t
    → All (IsRival h until) tries
    → attempts tries t ≡ (false, t)
unfolding attempts
rivals_fail h until t [] l r = refl
rivals_fail h until t (a ∷ tries) l (r, rs) =
    rw
      (
        leader_excludes h a.instance until a.at_time a.race t l r.0 r.1 r.2,
        rivals_fail h until t tries l rs,
      )
      refl

-- After an instance got the lease, any number of attempts of other instances at it, one after the
-- other and each before the lease runs out, all fail and leave the table as it is, as long as nothing
-- else is done to it in between, a release above all.
pub acquire_excludes :
    (h : LeaseHolder) (now : ℕ) (race t : List LeaderLease) (tries : List LeaseAttempt)
    → DistinctNames t
    → (acquire h now race t).0 ≡ true
    → All (IsRival h (now + h.ttl_seconds)) tries
    → attempts tries (acquire h now race t).1 ≡ (false, (acquire h now race t).1)
acquire_excludes h now race t tries d got rivals =
    rivals_fail h (now + h.ttl_seconds) (acquire h now race t).1 tries
      (acquire-IsLeader h now race t d got) rivals
