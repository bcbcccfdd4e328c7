-- ===== src/Collab/Sharing/Tables.antt =====
-- What src/aidss/collab/sharing.py reads and writes: SharedItem of
-- src/aidss/db/models/collaboration.py, the tables that the module only reads, which are a Directory,
-- and who owns what. Identifiers are numbers.
use stock_recommendation_be.Base.{
  ℕ, String, Bool, true, false, Option, none, some, List, find, text_append, ◌==◌,
}

pub data UserStatus : Type 0 where
  active : UserStatus
  suspended : UserStatus
  banned : UserStatus

pub record User : Type 0 where
  pub id : ℕ
  pub email : String
  pub status : UserStatus

pub record Watchlist : Type 0 where
  pub id : ℕ
  pub user_id : ℕ
  pub name : String

pub record Asset : Type 0 where
  pub id : ℕ
  pub ticker : String

-- `generated_on` is the date as the source prints it.
pub record AnalysisResult : Type 0 where
  pub id : ℕ
  pub asset_id : ℕ
  pub conversation_id : Option ℕ
  pub generated_on : String

pub record AiConversation : Type 0 where
  pub id : ℕ
  pub user_id : ℕ

pub record Directory : Type 0 where
  pub users : List User
  pub watchlists : List Watchlist
  pub assets : List Asset
  pub analyses : List AnalysisResult
  pub conversations : List AiConversation

pub data ShareKind : Type 0 where
  watchlist : ShareKind
  analysis : ShareKind

pub record SharedItem : Type 0 where
  pub id : ℕ
  pub owner_id : ℕ
  pub recipient_id : ℕ
  pub kind : ShareKind
  pub subject_id : ℕ
  pub note : Option String
  pub created_at : ℕ
  pub revoked_at : Option ℕ

unfoldable pub is_active : UserStatus → Bool
is_active active = true
is_active suspended = false
is_active banned = false

unfoldable pub same_kind : ShareKind → ShareKind → Bool
same_kind watchlist watchlist = true
same_kind analysis analysis = true
same_kind _ _ = false

-- `_subject_label`.
unfoldable pub subject_label : Directory → ShareKind → ℕ → String
unfolding text_append
subject_label d watchlist i = elim (find (λ w. w.id == i) d.watchlists) [
  | none ↦ "(deleted)"
  | some w ↦ w.name
]
subject_label d analysis i = elim (find (λ a. a.id == i) d.analyses) [
  | none ↦ "(deleted)"
  | some a ↦
      text_append
        (elim (find (λ s. s.id == a.asset_id) d.assets) [ none ↦ "?" | some s ↦ s.ticker ])
        (text_append " · " a.generated_on)
]

-- `_analysis_owner`.
unfoldable pub analysis_owner : Directory → AnalysisResult → Option ℕ
analysis_owner d a = elim a.conversation_id [
  | none ↦ none
  | some i ↦ elim (find (λ c. c.id == i) d.conversations) [ none ↦ none | some c ↦ some c.user_id ]
]

-- Who owns what is to be shared; an analysis of a scheduled run has no owner.
unfoldable pub owner_of : Directory → ShareKind → ℕ → Option ℕ
unfolding analysis_owner
owner_of d watchlist i = elim (find (λ w. w.id == i) d.watchlists) [
  | none ↦ none
  | some w ↦ some w.user_id
]
owner_of d analysis i = elim (find (λ a. a.id == i) d.analyses) [
  | none ↦ none
  | some a ↦ analysis_owner d a
]

abbrev pub is_user : Option ℕ → ℕ → Bool
is_user none u = false
is_user (some v) u = v == u

-- `_owns`.
unfoldable pub owns : Directory → ℕ → ShareKind → ℕ → Bool
unfolding owner_of
owns d user kind i = is_user (owner_of d kind i) user
