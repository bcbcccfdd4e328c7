-- ===== src/Collab/Sharing/Access.antt =====
-- When an account can read what was shown to it: `share`, `revoke` and `readable` of
-- src/aidss/collab/sharing.py.
use mathlib.Core.Path.{subst}
use stock_recommendation_be.Base.{
  ℕ, ◌≡◌, ◌≢◌, refl, sym, ◌∙◌, ap, inl, inr, String, Bool, true, false, Option, none, some, List,
  [], ◌∷◌, ◌++◌, All, All-find, find, any, any-find, any-append, is_some, arith, ◌==◌, ==_iff,
  str_eq, Bool-cases, Option-cases,
}
use stock_recommendation_be.Base.Distinct.{DistinctBy}
use stock_recommendation_be.Base.Sql.{update_where}
use stock_recommendation_be.Collab.Sharing.{
  User, Directory, ShareKind, watchlist, analysis, SharedItem, same_kind, is_active, is_user,
  owner_of, owns, ShareRequest, is_target, reinstate, new_item, grant_to, share_with, share,
  is_own_share, withdraw, revoke, ShareRefused, shared, refused, is_live_for, readable,
}
use stock_recommendation_be.Collab.Sharing.Ownership.{same_grant, IsGrantOf, IsOwned}

any-readable :
    (r : ℕ) (k : ShareKind) (i : ℕ) (t : List SharedItem)
    → readable r k i t ≡ any (is_live_for r k i) t
unfolding readable
any-readable r k i t = sym (any-find (is_live_for r k i) t)

reinstated_live :
    (o r : ℕ) (k : ShareKind) (i : ℕ) (line : Option String) (t : List SharedItem) (e : SharedItem)
    → find (is_target o r k i) t ≡ some e
    → any (is_live_for r k i) (update_where (is_target o r k i) (reinstate line) t) ≡ true
unfolding is_live_for reinstate is_target
reinstated_live o r k i line [] e h = ground arith
reinstated_live o r k i line (x ∷ t) e h = ground (arith, reinstated_live o r k i line t e)

same_kind_refl : (k : ShareKind) → same_kind k k ≡ true
unfolding same_kind
same_kind_refl watchlist = refl
same_kind_refl analysis = refl

same_kind_sound : (k l : ShareKind) → same_kind k l ≡ true → k ≡ l
unfolding same_kind
same_kind_sound watchlist watchlist h = refl
same_kind_sound watchlist analysis h = cc
same_kind_sound analysis watchlist h = cc
same_kind_sound analysis analysis h = refl

new_live :
    (fresh now : ℕ) (q : ShareRequest) (r : ℕ)
    → is_live_for r q.kind q.subject_id (new_item fresh now q r) ≡ true
unfolding is_live_for new_item
new_live fresh now q r = ground (arith, same_kind_refl q.kind)

added_live :
    (fresh now : ℕ) (q : ShareRequest) (r : ℕ) (t : List SharedItem)
    → any (is_live_for r q.kind q.subject_id) (t ++ new_item fresh now q r ∷ []) ≡ true
added_live fresh now q r t = ground (
  arith,
  any-append (is_live_for r q.kind q.subject_id) t (new_item fresh now q r ∷ []),
  new_live fresh now q r,
)

grant_to-live :
    (fresh now : ℕ) (q : ShareRequest) (r : ℕ) (t : List SharedItem)
    → readable r q.kind q.subject_id (grant_to fresh now q r t).1 ≡ true
unfolding grant_to
grant_to-live fresh now q r t =
    any-readable r q.kind q.subject_id (grant_to fresh now q r t).1
    ∙ (elim (Option-cases (find (is_target q.owner_id r q.kind q.subject_id) t)) [
      | inl n ↦ rw (n, grant_to) (added_live fresh now q r t)
      | inr (e, h) ↦
          rw (h, grant_to) (reinstated_live q.owner_id r q.kind q.subject_id q.note t e h)
    ])

-- The recipient of a share that was not refused, and what holds of them.
abbrev pub IsRecipient : Directory → ShareRequest → List SharedItem → Option User → Type 0
IsRecipient d q after none = ⊥
IsRecipient d q after (some u) =
    (is_active u.status ≡ true)
    × ((u.id == q.owner_id) ≡ false)
    × (owns d q.owner_id q.kind q.subject_id ≡ true)
    × (readable u.id q.kind q.subject_id after ≡ true)

refused_ne : {r : ShareRefused} {e : SharedItem} → refused r ≢ shared e
refused_ne e = cc

false_ne_true : false ≢ true
false_ne_true e = cc

share_with-IsRecipient :
    (d : Directory) (fresh now : ℕ) (q : ShareRequest) (u : Option User) (t : List SharedItem)
    (e : SharedItem)
    → (share_with d fresh now q u t).0 ≡ shared e
    → IsRecipient d q (share_with d fresh now q u t).1 u
unfolding share_with
share_with-IsRecipient d fresh now q none t e h = absurd (refused_ne h)
share_with-IsRecipient d fresh now q (some u) t e h = elim (Bool-cases (u.id == q.owner_id)) [
  | inl self ↦ absurd (refused_ne (rw self at h))
  | inr other ↦ elim (Bool-cases (is_active u.status)) [
    | inr off ↦ absurd (refused_ne (rw (other, off) at h))
    | inl on ↦ elim (Bool-cases (owns d q.owner_id q.kind q.subject_id)) [
      | inr theirs ↦ absurd (refused_ne (rw (other, on, theirs) at h))
      | inl ours ↦ (on, other, ours, rw (other, on, ours) (grant_to-live fresh now q u.id t))
    ]
  ]
]

-- A share that is not refused was asked for by the owner of what is shared, and gives access to it to
-- the account of that address, which is active and not the owner's own.
pub share-IsRecipient :
    (clean : String → String) (d : Directory) (fresh now : ℕ) (q : ShareRequest)
    (t : List SharedItem) (e : SharedItem)
    → (share clean d fresh now q t).0 ≡ shared e
    → IsRecipient d q
        (share clean d fresh now q t).1
        (find (λ u. str_eq u.email (clean q.recipient_email)) d.users)
unfolding share
share-IsRecipient clean d fresh now q t e h =
    share_with-IsRecipient d fresh now q
      (find (λ u. str_eq u.email (clean q.recipient_email)) d.users) t e h

is_user_unique : (o : Option ℕ) (u v : ℕ) → is_user o u ≡ true → is_user o v ≡ true → u ≡ v
is_user_unique none u v a b = ground arith
is_user_unique (some w) u v a b = sym ((==_iff w u).0 a) ∙ (==_iff w v).0 b

-- Two grants of one thing to one account come from one owner.
same_owner :
    (d : Directory) (e x : SharedItem)
    → IsGrantOf d e
    → IsGrantOf d x
    → is_live_for e.recipient_id e.kind e.subject_id x ≡ true
    → x.owner_id ≡ e.owner_id
unfolding is_live_for owns
same_owner d e x ge gx live =
    let kind : x.kind ≡ e.kind = same_kind_sound x.kind e.kind (ground (arith, live)) in
    let subject : x.subject_id ≡ e.subject_id = ground (arith, live) in
    is_user_unique (owner_of d e.kind e.subject_id) x.owner_id e.owner_id
      (rw (kind, subject) at gx.0) ge.0

live-same_grant :
    (d : Directory) (e x : SharedItem)
    → IsGrantOf d e
    → IsGrantOf d x
    → is_live_for e.recipient_id e.kind e.subject_id x ≡ true
    → (same_grant e x ≡ true) × (same_grant x e ≡ true)
unfolding same_grant is_target is_live_for
live-same_grant d e x ge gx live =
    let kind : x.kind ≡ e.kind = same_kind_sound x.kind e.kind (ground (arith, live)) in
    let owner = same_owner d e x ge gx live in
    (
      ground (arith, live, owner),
      ground (arith, live, owner, same_kind_refl x.kind, ap (same_kind x.kind) kind),
    )

withdrawn_live :
    (now r : ℕ) (k : ShareKind) (i : ℕ) (x : SharedItem)
    → is_live_for r k i (withdraw now x) ≡ false
unfolding is_live_for withdraw
withdrawn_live now r k i x = ground arith

-- No row is live for the target where no row has the target.
none_live :
    (d : Directory) (now owner i : ℕ) (e : SharedItem) (t : List SharedItem)
    → IsGrantOf d e
    → All (IsGrantOf d) t
    → any (same_grant e) t ≡ false
    → any
        (is_live_for e.recipient_id e.kind e.subject_id)
        (update_where (is_own_share owner i) (withdraw now) t)
      ≡ false
none_live d now owner i e [] ge g n = refl
none_live d now owner i e (x ∷ t) ge g n =
    let rest = none_live d now owner i e t ge g.1 (ground (arith, n)) in
    let not_live : is_live_for e.recipient_id e.kind e.subject_id x ≡ false =
      ground (arith, n, live-same_grant d e x ge g.0) in
    ground (arith, rest, not_live, withdrawn_live now e.recipient_id e.kind e.subject_id x)

find-any-false :
    (p q : SharedItem → Bool) (t : List SharedItem) (e : SharedItem)
    → find p t ≡ some e
    → any q t ≡ false
    → q e ≡ false
find-any-false p q t e h n = All-find (λ x. q x ≡ false) p t e (any_false-All t n) h
  where
    any_false-All : (t : List SharedItem) → any q t ≡ false → All (λ x. q x ≡ false) t
    any_false-All [] n = tt
    any_false-All (x ∷ t) n = (ground (arith, n), any_false-All t (ground (arith, n)))

some_inj : {x e : SharedItem} → some x ≡ some e → x ≡ e
some_inj h = cc

withdraw_ends :
    (d : Directory) (now owner i : ℕ) (e : SharedItem) (t : List SharedItem)
    → All (IsGrantOf d) t
    → DistinctBy same_grant t
    → find (is_own_share owner i) t ≡ some e
    → any
        (is_live_for e.recipient_id e.kind e.subject_id)
        (update_where (is_own_share owner i) (withdraw now) t)
      ≡ false
withdraw_ends d now owner i e [] g u h = ground arith
withdraw_ends d now owner i e (x ∷ t) g u h = elim (Bool-cases (is_own_share owner i x)) [
  | inl here ↦
      let is_e : x ≡ e = some_inj (sym (rw here refl) ∙ h) in
      let rest = none_live d now owner i x t g.0 g.1 u.0 in
      subst
        (λ v.
          any (is_live_for v.recipient_id v.kind v.subject_id)
            (update_where (is_own_share owner i) (withdraw now) (x ∷ t))
          ≡ false)
        is_e
        (rw here (ground (arith, withdrawn_live now x.recipient_id x.kind x.subject_id x, rest)))
  | inr later ↦
      let found : find (is_own_share owner i) t ≡ some e = sym (rw later refl) ∙ h in
      let ge = All-find (IsGrantOf d) (is_own_share owner i) t e g.1 found in
      let not_same = find-any-false (is_own_share owner i) (same_grant x) t e found u.0 in
      let not_live : is_live_for e.recipient_id e.kind e.subject_id x ≡ false =
        ground (arith, not_same, live-same_grant d e x ge g.0) in
      rw later (ground (arith, not_live, withdraw_ends d now owner i e t g.1 u.1 found))
]

-- Where a share is revoked, its recipient can no longer read what it showed to them, in a table in
-- which every row grants what its owner owns and no grant is there twice.
pub revoke_ends_access :
    (d : Directory) (now owner i : ℕ) (t : List SharedItem) (e : SharedItem)
    → IsOwned d t
    → find (is_own_share owner i) t ≡ some e
    → (revoke now owner i t).0 ≡ true
    → readable e.recipient_id e.kind e.subject_id (revoke now owner i t).1 ≡ false
unfolding revoke
revoke_ends_access d now owner i t e s h r =
    any-readable e.recipient_id e.kind e.subject_id (revoke now owner i t).1
    ∙ (elim (Bool-cases (is_some e.revoked_at)) [
      | inl gone ↦ absurd (false_ne_true (sym (rw (h, revoke) (rw gone refl)) ∙ r))
      | inr live ↦
          rw (h, revoke) (rw live (withdraw_ends d now owner i e t s.granted s.one_per_target h))
    ])
