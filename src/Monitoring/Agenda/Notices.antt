-- ===== src/Monitoring/Agenda/Notices.antt =====
-- Which notices are raised, and once: `raise_notices` of src/aidss/monitoring/agenda.py.
use stock_recommendation_be.Base.{
  ℕ, ◌+◌, ◌≤◌, ◌≡◌, ◌≢◌, ◌⊎◌, true, Option, none, some, List, [], ◌∷◌, ◌++◌, filter, any, length,
  All,
}
use stock_recommendation_be.Monitoring.Agenda.{
  IssuerAgenda, notice_window, Notice, Watched, is_near, notices_for, is_same_notice, unraised,
  raise_notices,
}

-- The event is so many days away, no more than the window of its kind.
abbrev pub IsDue : (today : ℕ) → Notice → Type 0
IsDue today n =
    (n.event.scheduled_for ≡ today + n.days_away) × (n.days_away ≤ notice_window n.event.kind)

-- No two notices are to one reader of one event.
abbrev pub Unlike : List Notice → Type 0
Unlike [] = Unit
Unlike (n ∷ notices) =
    All (λ m. (n.user_id ≡ m.user_id) → (n.event ≢ m.event)) notices × Unlike notices

-- Every watcher of a near event has an alert of it.
abbrev pub AllKnown : (today : ℕ) → Watched → List IssuerAgenda → List Notice → Type 0
AllKnown today watched table alerts =
    All (λ n. any (is_same_notice n) alerts ≡ true)
      (notices_for today watched (filter (is_near today watched) table))

-- How a round ends: with the alerts that were not there yet, or with the error.
abbrev pub Notifies :
    (today : ℕ) → Watched → List IssuerAgenda → List Notice → Option (ℕ × ℕ) × List Notice → Type 0
Notifies today watched table alerts r =
    ((new : List Notice) × (considered : ℕ) × (r ≡ (some (length new, considered), alerts ++ new))
      × All (IsDue today) new
      × Unlike new
      × AllKnown today watched table r.1
      × (raise_notices today watched table r.1 ≡ (some (0, considered), r.1)))
    ⊎ ((r ≡ (none, alerts))
        × (Unlike
              (unraised alerts (notices_for today watched (filter (is_near today watched) table)))
            → ⊥))
