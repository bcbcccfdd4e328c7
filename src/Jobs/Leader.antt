-- ===== src/Jobs/Leader.antt =====
-- Leader election by lease: src/aidss/jobs/leader.py, over the rows of `LeaderLease`, whose primary
-- key is the name. Instants are seconds; the holder's identity and the clock are arguments.
pub mod Exclusion
pub mod Handover
use stock_recommendation_be.Base.{
  ℕ, ◌+◌, String, Bool, true, false, not, ◌&&◌, ◌||◌, Option, none, some, List, [], ◌∷◌, ◌++◌, ltb,
  leb, ◌==◌, if◌then◌else◌, str_eq, is_some, find, any,
}
use stock_recommendation_be.Base.Sql.{update_where, rowcount, delete_where}

pub record LeaderLease : Type 0 where
  pub name : String
  pub holder : String
  pub acquired_at : ℕ
  pub expires_at : ℕ

abbrev pub default_lease_seconds : ℕ
default_lease_seconds = 180

abbrev pub scheduler_role : String
scheduler_role = "scheduler"

-- One instance's view of the lease that it competes for.
pub record LeaseHolder : Type 0 where
  pub name : String
  pub holder : String
  pub ttl_seconds : ℕ

unfoldable pub is_named : String → LeaderLease → Bool
is_named n l = str_eq l.name n

-- The condition of the UPDATE: ours, or expired.
pub may_take : LeaseHolder → ℕ → LeaderLease → Bool
unfolding is_named
may_take h now l = is_named h.name l && (str_eq l.holder h.holder || leb l.expires_at now)

pub take_lease : LeaseHolder → ℕ → LeaderLease → LeaderLease
take_lease h now l = record l {
  holder = h.holder;
  acquired_at = now;
  expires_at = now + h.ttl_seconds;
}

pub new_lease : LeaseHolder → ℕ → LeaderLease
new_lease h now = record {
  name = h.name;
  holder = h.holder;
  acquired_at = now;
  expires_at = now + h.ttl_seconds;
}

-- `race` is the rows that other instances insert between the SELECT and the flush of the INSERT;
-- nothing is committed between the UPDATE and the SELECT. A failed INSERT is rolled back; this session
-- has written nothing before it.
unfoldable pub acquire :
    LeaseHolder → ℕ → List LeaderLease → List LeaderLease → Bool × List LeaderLease
unfolding is_named may_take take_lease new_lease
acquire h now race t =
    if not (rowcount (may_take h now) t == 0)
    then (true, update_where (may_take h now) (take_lease h now) t)
    else if is_some (find (is_named h.name) t)
    then (false, t)
    else if any (is_named h.name) (t ++ race)
    then (false, t ++ race)
    else (true, (t ++ race) ++ new_lease h now ∷ [])

pub is_held_by : LeaseHolder → LeaderLease → Bool
unfolding is_named
is_held_by h l = is_named h.name l && str_eq l.holder h.holder

unfoldable pub release : LeaseHolder → List LeaderLease → Bool × List LeaderLease
unfolding is_held_by
release h t = (not (rowcount (is_held_by h) t == 0), delete_where (is_held_by h) t)

pub data LeaseState : Type 0 where
  held expired : LeaseState

pub record LeaderView : Type 0 where
  pub holder : String
  pub acquired_at : ℕ
  pub expires_at : ℕ
  pub state : LeaseState

pub current_leader : String → ℕ → List LeaderLease → Option LeaderView
unfolding is_named
current_leader name now t = elim (find (is_named name) t) [
  | none ↦ none
  | some l ↦ some (record {
    holder = l.holder;
    acquired_at = l.acquired_at;
    expires_at = l.expires_at;
    state = if ltb now l.expires_at then held else expired;
  })
]
