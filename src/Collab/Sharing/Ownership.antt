-- ===== src/Collab/Sharing/Ownership.antt =====
-- Who has granted what: `share` and `revoke` of src/aidss/collab/sharing.py over time.
use stock_recommendation_be.Base.{
  ℕ, ◌≡◌, refl, ◌∙◌, inl, inr, String, Bool, true, false, Option, none, some, List, [], ◌∷◌, ◌++◌,
  All, All-append, find, any, any-find, is_some, arith, ◌==◌, str_eq, Bool-cases, Option-cases, ap,
}
use stock_recommendation_be.Base.Distinct.{DistinctBy, DistinctBy-append, DistinctBy-update}
use stock_recommendation_be.Base.Sql.{update_where, All-update_where}
use stock_recommendation_be.Collab.Sharing.{
  User, Directory, ShareKind, watchlist, analysis, SharedItem, same_kind, is_active, owns,
  ShareRequest, is_target, reinstate, new_item, grant_to, share_with, share, is_own_share, withdraw,
  revoke,
}

unfoldable pub same_grant : SharedItem → SharedItem → Bool
same_grant x y = is_target x.owner_id x.recipient_id x.kind x.subject_id y

pub same_id : SharedItem → SharedItem → Bool
same_id x y = y.id == x.id

-- A grant of what its owner owns, to somebody else.
abbrev pub IsGrantOf : Directory → SharedItem → Type 0
IsGrantOf d e =
    (owns d e.owner_id e.kind e.subject_id ≡ true) × ((e.recipient_id == e.owner_id) ≡ false)

pub record IsOwned (d : Directory) (t : List SharedItem) : Type 0 where
  pub granted : All (IsGrantOf d) t
  pub one_per_target : DistinctBy same_grant t
  pub one_per_id : DistinctBy same_id t

same_kind_symm : (k l : ShareKind) → same_kind k l ≡ same_kind l k
unfolding same_kind
same_kind_symm watchlist watchlist = refl
same_kind_symm watchlist analysis = refl
same_kind_symm analysis watchlist = refl
same_kind_symm analysis analysis = refl

==_symm : (a b : ℕ) → (a == b) ≡ (b == a)
==_symm a b = ground arith

same_grant_symm : (x y : SharedItem) → same_grant y x ≡ same_grant x y
unfolding same_grant is_target
same_grant_symm x y = ground (
  arith,
  ==_symm x.owner_id y.owner_id,
  ==_symm x.recipient_id y.recipient_id,
  same_kind_symm x.kind y.kind,
  ==_symm x.subject_id y.subject_id,
)

-- The id of a new row is new.
abbrev pub IsFresh : ℕ → List SharedItem → Type 0
IsFresh fresh t = any (λ e. e.id == fresh) t ≡ false

module _ (d : Directory) (fresh now : ℕ) (q : ShareRequest) where
  reinstate-IsOwned :
      (r : ℕ) (t : List SharedItem)
      → IsOwned d t
      → IsOwned d (update_where (is_target q.owner_id r q.kind q.subject_id) (reinstate q.note) t)
  unfolding same_grant same_id reinstate is_target
  reinstate-IsOwned r t s = record {
    granted =
        All-update_where (IsGrantOf d) (is_target q.owner_id r q.kind q.subject_id)
          (reinstate q.note) t (λ x _ g. g) s.granted;
    one_per_target =
        DistinctBy-update same_grant (is_target q.owner_id r q.kind q.subject_id) (reinstate q.note)
          t (λ x y. refl) (λ x y. refl) s.one_per_target;
    one_per_id =
        DistinctBy-update same_id (is_target q.owner_id r q.kind q.subject_id) (reinstate q.note) t
          (λ x y. refl) (λ x y. refl) s.one_per_id;
  }

  added-IsOwned :
      (r : ℕ) (t : List SharedItem)
      → IsOwned d t
      → IsFresh fresh t
      → find (is_target q.owner_id r q.kind q.subject_id) t ≡ none
      → owns d q.owner_id q.kind q.subject_id ≡ true
      → (r == q.owner_id) ≡ false
      → IsOwned d (t ++ new_item fresh now q r ∷ [])
  unfolding same_grant same_id new_item
  added-IsOwned r t s f n o self = record {
    granted = All-append (IsGrantOf d) t (new_item fresh now q r ∷ []) s.granted ((o, self), tt);
    one_per_target =
        DistinctBy-append same_grant (new_item fresh now q r) t
          (λ y. same_grant_symm (new_item fresh now q r) y)
          (any-find (is_target q.owner_id r q.kind q.subject_id) t ∙ ap is_some n) s.one_per_target;
    one_per_id =
        DistinctBy-append same_id (new_item fresh now q r) t (λ y. ==_symm fresh y.id) f
          s.one_per_id;
  }

  grant_to-IsOwned :
      (r : ℕ) (t : List SharedItem)
      → IsOwned d t
      → IsFresh fresh t
      → owns d q.owner_id q.kind q.subject_id ≡ true
      → (r == q.owner_id) ≡ false
      → IsOwned d (grant_to fresh now q r t).1
  unfolding grant_to
  grant_to-IsOwned r t s f o self =
      elim (Option-cases (find (is_target q.owner_id r q.kind q.subject_id) t)) [
        | inl n ↦ rw (n, grant_to) (added-IsOwned r t s f n o self)
        | inr (e, h) ↦ rw (h, grant_to) (reinstate-IsOwned r t s)
      ]

  share_with-IsOwned :
      (u : Option User) (t : List SharedItem)
      → IsOwned d t
      → IsFresh fresh t
      → IsOwned d (share_with d fresh now q u t).1
  unfolding share_with
  share_with-IsOwned none t s f = s
  share_with-IsOwned (some u) t s f = elim (Bool-cases (u.id == q.owner_id)) [
    | inl self ↦ rw self s
    | inr other ↦ elim (Bool-cases (is_active u.status)) [
      | inr off ↦ rw (other, off) s
      | inl on ↦ elim (Bool-cases (owns d q.owner_id q.kind q.subject_id)) [
        | inr theirs ↦ rw (other, on, theirs) s
        | inl ours ↦ rw (other, on, ours) (grant_to-IsOwned u.id t s f ours other)
      ]
    ]
  ]

withdraw-IsOwned :
    (d : Directory) (now owner i : ℕ) (t : List SharedItem)
    → IsOwned d t
    → IsOwned d (update_where (is_own_share owner i) (withdraw now) t)
unfolding same_grant same_id withdraw is_target
withdraw-IsOwned d now owner i t s = record {
  granted =
      All-update_where (IsGrantOf d) (is_own_share owner i) (withdraw now) t (λ x _ g. g) s.granted;
  one_per_target =
      DistinctBy-update same_grant (is_own_share owner i) (withdraw now) t (λ x y. refl)
        (λ x y. refl) s.one_per_target;
  one_per_id =
      DistinctBy-update same_id (is_own_share owner i) (withdraw now) t (λ x y. refl) (λ x y. refl)
        s.one_per_id;
}

revoke-IsOwned :
    (d : Directory) (now owner i : ℕ) (t : List SharedItem)
    → IsOwned d t
    → IsOwned d (revoke now owner i t).1
unfolding revoke
revoke-IsOwned d now owner i t s = elim (Option-cases (find (is_own_share owner i) t)) [
  | inl n ↦ rw (n, revoke) s
  | inr (e, h) ↦ elim (Bool-cases (is_some e.revoked_at)) [
    | inl gone ↦ rw (h, revoke) (rw gone s)
    | inr live ↦ rw (h, revoke) (rw live (withdraw-IsOwned d now owner i t s))
  ]
]

-- The table after any requests to share and to revoke, each of any account at any time.
pub data Step (clean : String → String) (d : Directory) (t : List SharedItem)
    : List SharedItem → Type 0 where
  shares :
      (fresh now : ℕ) (q : ShareRequest)
      → IsFresh fresh t
      → Step clean d t (share clean d fresh now q t).1
  revokes : (now owner i : ℕ) → Step clean d t (revoke now owner i t).1

pub data Reach (clean : String → String) (d : Directory) (t : List SharedItem)
    : List SharedItem → Type 0 where
  start : Reach clean d t t
  next : {u v : List SharedItem} → Reach clean d t u → Step clean d u v → Reach clean d t v

Step-IsOwned :
    {clean : String → String} {d : Directory} {t u : List SharedItem}
    → IsOwned d t
    → Step clean d t u
    → IsOwned d u
unfolding share
Step-IsOwned {clean} {d} {t} s (shares fresh now q f) =
    share_with-IsOwned d fresh now q (find (λ u. str_eq u.email (clean q.recipient_email)) d.users)
      t s f
Step-IsOwned {clean} {d} {t} s (revokes now owner i) = revoke-IsOwned d now owner i t s

-- Whatever accounts ask to share and to revoke, in any order: every row grants what its owner owns to
-- another account, no account grants one thing twice to the same account, and no identifier is there
-- twice. So nobody grants what was only shown to them.
pub Reach-IsOwned :
    {clean : String → String} {d : Directory} {t u : List SharedItem}
    → IsOwned d t
    → Reach clean d t u
    → IsOwned d u
Reach-IsOwned s start = s
Reach-IsOwned s (next r step) = Step-IsOwned (Reach-IsOwned s r) step
