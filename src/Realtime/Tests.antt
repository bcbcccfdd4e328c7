-- ===== src/Realtime/Tests.antt =====
-- A hub of src/aidss/realtime/hub.py with one socket of one user.
use stock_recommendation_be.Base.{◌≡◌, List, [], ◌∷◌, some}
use stock_recommendation_be.Realtime.EventHub.{EventHub, Message}
use stock_recommendation_be.Realtime.EventHub.Backlog.{
  Event, subscribed, delivered, received, unsubscribed, IsValid, backlog_of, happen_all,
  described_all,
}
use stock_recommendation_be.Realtime.EventHub.Backlog.Refines.{happen_all_refines}

abbrev ping : Message
ping = record { user_id = some "ana"; kind = "price" }

abbrev hub : EventHub
hub = record { subscribers = []; created = 0 }

abbrev story : List Event
story =
    subscribed "ana"
    ∷ delivered "ana" ping
    ∷ delivered "bo" ping
    ∷ received "ana" 0
    ∷ unsubscribed "ana" 0
    ∷ []

happen_all_refines_example :
    IsValid (happen_all story hub)
    × (backlog_of (happen_all story hub) ≡ described_all story (backlog_of hub))
happen_all_refines_example = happen_all_refines story hub tt
