-- ===== src/Collab/Sharing.antt =====
-- Showing a watchlist or an analysis to another account: src/aidss/collab/sharing.py. `clean` is what
-- `.strip().lower()` makes of an address.
pub mod Tables
pub mod Ownership
pub mod Access
use stock_recommendation_be.Base.{
  ℕ, String, Bool, true, false, ◌&&◌, not, Option, none, some, List, [], ◌∷◌, ◌++◌, map, find,
  filter, is_some, str_eq, ◌==◌, if◌then◌else◌,
}
use mathlib.Core.List.{reverse}
use stock_recommendation_be.Base.Sorting.{sort_by}
use stock_recommendation_be.Base.Sql.{update_where}
pub use stock_recommendation_be.Collab.Sharing.Tables.{
  UserStatus, active, suspended, banned, User, Watchlist, Asset, AnalysisResult, AiConversation,
  Directory, ShareKind, watchlist, analysis, SharedItem, is_user,
}
unfoldable pub use stock_recommendation_be.Collab.Sharing.Tables.{
  is_active, same_kind, subject_label, analysis_owner, owner_of, owns,
}

-- Why a share is refused.
pub data ShareRefused : Type 0 where
  no_account : ShareRefused
  own_account : ShareRefused
  cannot_receive : ShareRefused
  not_owned : ShareRefused

pub data Shared : Type 0 where
  shared : SharedItem → Shared
  refused : ShareRefused → Shared

-- The four columns of the unique constraint.
unfoldable pub is_target : (owner recipient : ℕ) → ShareKind → ℕ → SharedItem → Bool
unfolding same_kind
is_target o r k i e =
    e.owner_id == o && (e.recipient_id == r && (same_kind e.kind k && e.subject_id == i))

unfoldable pub reinstate : Option String → SharedItem → SharedItem
reinstate line e = record e { revoked_at = none; note = line }

-- What a session holds: the request of `share`.
pub record ShareRequest : Type 0 where
  pub owner_id : ℕ
  pub recipient_email : String
  pub kind : ShareKind
  pub subject_id : ℕ
  pub note : Option String

unfoldable pub new_item : (fresh now : ℕ) → ShareRequest → ℕ → SharedItem
new_item fresh now q recipient = record {
  id = fresh;
  owner_id = q.owner_id;
  recipient_id = recipient;
  kind = q.kind;
  subject_id = q.subject_id;
  note = q.note;
  created_at = now;
  revoked_at = none;
}

-- The end of `share`, with the recipient: the row is reinstated or added.
unfoldable pub grant_to :
    (fresh now : ℕ) → ShareRequest → ℕ → List SharedItem → Shared × List SharedItem
unfolding is_target reinstate new_item
grant_to fresh now q r t =
    let target = is_target q.owner_id r q.kind q.subject_id in
    elim (find target t) [
      | some e ↦ (shared (reinstate q.note e), update_where target (reinstate q.note) t)
      | none ↦ (shared (new_item fresh now q r), t ++ new_item fresh now q r ∷ [])
    ]

unfoldable pub share_with :
    Directory
    → (fresh now : ℕ) → ShareRequest
    → Option User
    → List SharedItem
    → Shared × List SharedItem
unfolding owns is_active grant_to
share_with d fresh now q none t = (refused no_account, t)
share_with d fresh now q (some u) t =
    if u.id == q.owner_id
    then (refused own_account, t)
    else if not (is_active u.status)
    then (refused cannot_receive, t)
    else if not (owns d q.owner_id q.kind q.subject_id)
    then (refused not_owned, t)
    else grant_to fresh now q u.id t

unfoldable pub share :
    (clean : String → String)
    → Directory
    → (fresh now : ℕ) → ShareRequest
    → List SharedItem
    → Shared × List SharedItem
unfolding share_with
share clean d fresh now q t =
    share_with d fresh now q (find (λ u. str_eq u.email (clean q.recipient_email)) d.users) t

unfoldable pub is_own_share : (owner share_id : ℕ) → SharedItem → Bool
is_own_share owner i e = e.id == i && e.owner_id == owner

unfoldable pub withdraw : ℕ → SharedItem → SharedItem
withdraw now e = record e { revoked_at = some now }

unfoldable pub revoke : (now owner share_id : ℕ) → List SharedItem → Bool × List SharedItem
unfolding is_own_share withdraw
revoke now owner i t = elim (find (is_own_share owner i) t) [
  | none ↦ (false, t)
  | some e ↦
      if is_some e.revoked_at
      then (false, t)
      else (true, update_where (is_own_share owner i) (withdraw now) t)
]

-- The condition of the SELECT of `readable`.
unfoldable pub is_live_for : (recipient : ℕ) → ShareKind → ℕ → SharedItem → Bool
unfolding same_kind
is_live_for r k i e =
    e.recipient_id == r && (same_kind e.kind k && (e.subject_id == i && not (is_some e.revoked_at)))

unfoldable pub readable : (recipient : ℕ) → ShareKind → ℕ → List SharedItem → Bool
unfolding is_live_for
readable r k i t = is_some (find (is_live_for r k i) t)

pub record ShareView : Type 0 where
  pub item : SharedItem
  pub counterpart_email : String
  pub label : String

-- `_view`.
unfoldable pub view : Directory → SharedItem → ℕ → ShareView
unfolding subject_label
view d e other = record {
  item = e;
  counterpart_email = elim (find (λ u. u.id == other) d.users) [
    | none ↦ "(deleted)"
    | some u ↦ u.email
  ];
  label = subject_label d e.kind e.subject_id;
}

-- Newest first; the source does not say which of two rows of one instant comes first.
unfoldable pub newest_first : List SharedItem → List SharedItem
newest_first t = reverse (sort_by (λ e. e.created_at) t)

unfoldable pub outgoing : Directory → ℕ → List SharedItem → List ShareView
unfolding newest_first view
outgoing d owner t =
    map (λ e. view d e e.recipient_id) (newest_first (filter (λ e. e.owner_id == owner) t))

unfoldable pub incoming : Directory → ℕ → List SharedItem → List ShareView
unfolding newest_first view
incoming d r t =
    map (λ e. view d e e.owner_id)
      (newest_first (filter (λ e. e.recipient_id == r && not (is_some e.revoked_at)) t))
