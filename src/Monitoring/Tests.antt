-- ===== src/Monitoring/Tests.antt =====
-- Alerts of src/aidss/monitoring/alerts.py on one issuer, and the alerts that a lost race takes along.
use stock_recommendation_be.Base.{
  none, ◌++◌, ℕ, ◌≡◌, refl, false, String, Option, some, List, [], ◌∷◌, ◌++◌, All, str_eq, ◌==◌,
  if◌then◌else◌,
}
use stock_recommendation_be.Monitoring.Alerts.{
  AlertCandidate, Observation, level_crossed, suggested_stop_reached, up, down, evaluate,
}
use stock_recommendation_be.Monitoring.Alerts.Observed.{IsObserved, evaluate-IsObserved}
use stock_recommendation_be.Monitoring.Agenda.{
  rups, exchange, AgendaEntry, IssuerAgenda, Watched, store_entries, same_event, raise_notices,
}
use stock_recommendation_be.Monitoring.Agenda.Calendar.{Imported, shown-store_entries}
use stock_recommendation_be.Monitoring.Agenda.Events.{shown}
use stock_recommendation_be.Monitoring.Recording.{
  Alert, Session, new_alert, has_key, is_known, record_alerts,
}
use stock_recommendation_be.Monitoring.Recording.Once.{quiet, record_alerts_once}

abbrev rally : Observation
rally = record {
  asset = 1;
  price = 1020000;
  previous_close = some 900000;
  support_levels = 850000 ∷ 1010000 ∷ [];
  resistance_levels = 1030000 ∷ 1000000 ∷ [];
  suggested_stop = some 840000;
  previous_price = some 990000;
  daily_volatility = some 200;
  stance = some "buy";
  previous_stance = some "hold";
  day = 20000;
}

abbrev words : Option String → Option String → String
words _ _ = "stance"

evaluate-IsObserved_example : All (IsObserved rally) (evaluate words rally)
evaluate-IsObserved_example = evaluate-IsObserved rally words

abbrev crossed : AlertCandidate
crossed = record {
  kind = level_crossed;
  direction = up;
  dedup_key = record { asset = 1; what = "cross-up"; level = 1000000; session_day = some 20000 };
  observed_price = 1020000;
  reference_price = some 1000000;
}

abbrev stopped : AlertCandidate
stopped = record crossed {
  kind = suggested_stop_reached;
  direction = down;
  dedup_key = record { asset = 1; what = "stop"; level = 1030000; session_day = some 20000 };
}

abbrev empty : Session
empty = record { committed = []; working = [] }

-- Another worker commits the second candidate between the lookup and the flush.
abbrev other_worker : ℕ → List Alert
other_worker n = if n == 1 then new_alert 5 1 stopped ∷ [] else []

record_alerts_once_example :
    let r = record_alerts 5 1 quiet (crossed ∷ stopped ∷ []) empty in
    (r.1.working ≡ [] ++ r.0)
    × (record_alerts 5 1 other_worker (crossed ∷ stopped ∷ []) r.1 ≡ ([], r.1))
record_alerts_once_example = record_alerts_once 5 1 other_worker (crossed ∷ stopped ∷ []) empty

-- The first alert is returned as stored, and the rollback for the second has taken it out of the table.
returned_alert_is_lost :
    let r = record_alerts 5 1 other_worker (crossed ∷ stopped ∷ []) empty in
    (r.0 ≡ new_alert 5 1 crossed ∷ []) × (is_known 5 crossed r.1.working ≡ false)
unfolding record_alerts has_key is_known str_eq
returned_alert_is_lost = (refl, refl)

abbrev meeting : AgendaEntry
meeting = record {
  key = record { ticker = "TLKM"; kind = rups; scheduled_for = 20005 };
  content = record {
    title = "General meeting";
    detail = none;
    source = exchange;
    source_url = none;
  };
}

-- The same meeting a week later.
abbrev moved_meeting : AgendaEntry
moved_meeting = record meeting {
  key = record { ticker = "TLKM"; kind = rups; scheduled_for = 20012 };
}

abbrev as_is : String → String
as_is ticker = ticker

shown-store_entries_example :
    Imported as_is
      (meeting ∷ moved_meeting ∷ [])
      []
      (store_entries as_is (meeting ∷ moved_meeting ∷ []) [])
shown-store_entries_example = shown-store_entries as_is (meeting ∷ moved_meeting ∷ []) []

-- Two entries of one event that the calendar does not have: nothing is imported.
meeting_twice : store_entries as_is (meeting ∷ meeting ∷ []) [] ≡ (none, [])
unfolding store_entries str_eq
meeting_twice = refl

-- An import that moves a meeting leaves it on the old date as well.
moved_meeting_stays :
    let calendar = (store_entries as_is (meeting ∷ moved_meeting ∷ []) []).1 in
    (shown meeting.key calendar ≡ some meeting.content)
    × (shown moved_meeting.key calendar ≡ some meeting.content)
unfolding store_entries shown same_event str_eq
moved_meeting_stays = (refl, refl)

abbrev followers : Watched
followers = ("TLKM", (5, 1) ∷ (6, 1) ∷ []) ∷ []

abbrev calendar : List IssuerAgenda
calendar = record { key = meeting.key; content = meeting.content } ∷ []

-- A reader who follows one ticker on two exchanges: no notice of it is raised to anybody.
two_listings :
    raise_notices 20000 (("TLKM", (5, 1) ∷ (5, 2) ∷ (6, 1) ∷ []) ∷ []) calendar [] ≡ (none, [])
unfolding raise_notices str_eq
two_listings = refl
