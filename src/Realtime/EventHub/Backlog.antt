-- ===== src/Realtime/EventHub/Backlog.antt =====
-- A hub seen from outside: each queue holds the newest events that its socket has not taken. The
-- operations of src/aidss/realtime/hub.py against that description.
pub mod Changes
pub mod Valid
pub mod Refines
use mathlib.Core.Option
use mathlib.Core.Path.{fun_ext, subst}
use stock_recommendation_be.Base.{
  ℕ, ◌+◌, ◌≡◌, ◌≢◌, refl, sym, ◌∙◌, ap, inl, inr, String, Option, none, some, List, [], ◌∷◌, ◌++◌,
  map, filter, drop, ◌==◌, get_or, str_eq, str_eq_iff, arith, if◌then◌else◌, All, All-append,
  All-filter, Bool-cases, Option-cases,
}
use stock_recommendation_be.Base.Dict.{Dict, get, put, put-All, remove-All, get-All}
use stock_recommendation_be.Realtime.EventHub.{
  Message, Subscriber, EventHub, offered, subscribe, is_not, keep_subscribers, unsubscribe,
  deliver_to, taken, receive,
}
use stock_recommendation_be.Realtime.EventHub.Queues.{
  find_queue, queue_in, queue_of, IsQueue, find_queue-delivered, find_queue-new, offered-IsQueue,
  taken-IsQueue, drop_oldest_lem, no_queue, queue_in-put, queue_in-keep, latest, find_queue-filter,
  find_queue-taken,
}

-- Every entry is of a user with a queue, and every queue is in order.
abbrev pub IsSubscribed : ℕ → List Subscriber → Type 0
IsSubscribed created subs = (subs ≢ []) × All (IsQueue created) subs

abbrev pub IsValid : EventHub → Type 0
IsValid h = All (λ e. IsSubscribed h.created e.1) h.subscribers

pub IsQueue-later :
    (c : ℕ) (subs : List Subscriber) → All (IsQueue c) subs → All (IsQueue (c + 1)) subs
IsQueue-later c [] a = tt
IsQueue-later c (s ∷ subs) a = ((omega (arith, a.0), a.0.1), IsQueue-later c subs a.1)

pub IsSubscribed-later :
    (c : ℕ) (d : Dict (List Subscriber))
    → All (λ e. IsSubscribed c e.1) d
    → All (λ e. IsSubscribed (c + 1) e.1) d
IsSubscribed-later c [] a = tt
IsSubscribed-later c (e ∷ d) a = ((a.0.0, IsQueue-later c e.1 a.0.1), IsSubscribed-later c d a.1)

-- What happens at a hub.
pub data Event : Type 0 where
  subscribed : String → Event
  unsubscribed : String → ℕ → Event
  delivered : String → Message → Event
  received : String → ℕ → Event

unfoldable pub happen : Event → EventHub → EventHub
happen (subscribed u) h = (subscribe u h).1
happen (unsubscribed u i) h = unsubscribe u i h
happen (delivered u m) h = deliver_to u m h
happen (received u i) h = receive u i h

pub happen_all : List Event → EventHub → EventHub
happen_all [] h = h
happen_all (e ∷ es) h = happen_all es (happen e h)

-- The description: what each queue of each user holds, and how many queues were made.
abbrev pub Backlog : Type 0
Backlog = (String → ℕ → Option (List Message)) × ℕ

abbrev pub backlog_of : EventHub → Backlog
backlog_of h = (λ u i. queue_of u i h, h.created)

-- What an event does to the queues of its user.
abbrev pub effect : Event → (created i : ℕ) → Option (List Message) → Option (List Message)
effect (subscribed u) c j q = if c == j then some [] else q
effect (unsubscribed u i) c j q = if i == j then none else q
effect (delivered u m) c j q = Option.map (λ l. latest (l ++ m ∷ [])) q
effect (received u i) c j q = if i == j then Option.map (drop 1) q else q

abbrev pub user_of : Event → String
user_of (subscribed u) = u
user_of (unsubscribed u i) = u
user_of (delivered u m) = u
user_of (received u i) = u

abbrev pub created_by : Event → ℕ
created_by (subscribed u) = 1
created_by _ = 0

abbrev pub described : Event → Backlog → Backlog
described e b =
    (λ v j. if str_eq (user_of e) v then effect e b.1 j (b.0 v j) else b.0 v j, b.1 + created_by e)

pub described_all : List Event → Backlog → Backlog
described_all [] b = b
described_all (e ∷ es) b = described_all es (described e b)
