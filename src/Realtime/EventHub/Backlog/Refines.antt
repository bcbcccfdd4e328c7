-- ===== src/Realtime/EventHub/Backlog/Refines.antt =====
-- The hub of src/aidss/realtime/hub.py refines the description of its queues.

use mathlib.Core.Path.{fun_ext}
use stock_recommendation_be.Base.{ℕ, ◌+◌, ◌≡◌, refl, ◌∙◌, ap, String, Option, List, [], ◌∷◌, arith}
use stock_recommendation_be.Realtime.EventHub.{
  Message, EventHub, subscribe, unsubscribe, deliver_to, receive,
}
use stock_recommendation_be.Realtime.EventHub.Backlog.{
  IsValid, Event, subscribed, unsubscribed, delivered, received, happen, happen_all, Backlog,
  backlog_of, created_by, described, described_all,
}
use stock_recommendation_be.Realtime.EventHub.Backlog.Changes.{happen_seen}
use stock_recommendation_be.Realtime.EventHub.Backlog.Valid.{happen-IsValid}

created-happen : (e : Event) (h : EventHub) → (happen e h).created ≡ h.created + created_by e
unfolding happen subscribe unsubscribe deliver_to receive
created-happen (subscribed u) h = refl
created-happen (unsubscribed u i) h = ground arith
created-happen (delivered u m) h = ground arith
created-happen (received u i) h = ground arith

happen-described :
    (e : Event) (h : EventHub) → IsValid h → backlog_of (happen e h) ≡ described e (backlog_of h)
happen-described e h valid =
    pair_path (fun_ext λ v. fun_ext λ j. happen_seen h valid v j e) (created-happen e h)
  where
    pair_path :
        {f g : String → ℕ → Option (List Message)} {c d : ℕ}
        → f ≡ g
        → c ≡ d
        → ◌≡◌ {A = Backlog} (f, c) (g, d)
    pair_path p q = cc (p, q)

-- Whatever happens at a hub in whatever order, each queue of each user holds what the description
-- says: a new queue is empty, an event for a user goes to all of their queues and to no others, a full
-- queue loses its oldest event and never the newest, a socket takes its events in order, and a queue
-- that is given up is gone. Every queue stays within its bound, and no user without a queue is kept.
pub happen_all_refines :
    (es : List Event) (h : EventHub)
    → IsValid h
    → IsValid (happen_all es h) × (backlog_of (happen_all es h) ≡ described_all es (backlog_of h))
unfolding happen_all described_all
happen_all_refines [] h valid = (valid, refl)
happen_all_refines (e ∷ es) h valid =
    let (still, same) = happen_all_refines es (happen e h) (happen-IsValid h valid e) in
    (still, same ∙ ap (described_all es) (happen-described e h valid))
