-- ===== src/Realtime/EventHub.antt =====
-- Subscriptions by user, with a bounded queue for each socket: src/aidss/realtime/hub.py. A queue object
-- is known by the number under which it was created. What `uuid.UUID` makes of a text is an argument.
pub mod Queues
pub mod Backlog
use stock_recommendation_be.Base.{
  ℕ, zero, suc, ◌+◌, ◌*◌, min, String, Bool, true, false, not, Option, none, some, List, [], ◌∷◌,
  ◌++◌, map, filter, length, leb, ◌==◌, get_or, str_eq, if◌then◌else◌,
}
use stock_recommendation_be.Base.Dict.{Dict, get, put, remove}

abbrev pub queue_size : ℕ
queue_size = 32

pub record Message : Type 0 where
  pub user_id : Option String
  pub kind : String

-- A queue of `asyncio.Queue(maxsize=QUEUE_SIZE)`, oldest first.
pub record Subscriber : Type 0 where
  pub id : ℕ
  pub queue : List Message

pub record EventHub : Type 0 where
  pub subscribers : Dict (List Subscriber)
  pub created : ℕ

-- `put_nowait`; `none` is QueueFull.
unfoldable pub put_nowait : Message → List Message → Option (List Message)
put_nowait m q = if leb queue_size (length q) then none else some (q ++ m ∷ [])

-- `get_nowait`; `none` is QueueEmpty.
unfoldable pub get_nowait : List Message → Option (Message × List Message)
get_nowait [] = none
get_nowait (m ∷ q) = some (m, q)

-- What the handler of QueueFull leaves: a suppressed QueueEmpty or QueueFull changes nothing.
unfoldable pub drop_oldest : List Message → List Message
unfolding get_nowait
drop_oldest q = elim (get_nowait q) [ none ↦ q | some (m, rest) ↦ rest ]

unfoldable pub put_suppressed : Message → List Message → List Message
unfolding put_nowait
put_suppressed m q = elim (put_nowait m q) [ none ↦ q | some q' ↦ q' ]

unfoldable pub offer : Message → List Message → List Message
unfolding put_nowait drop_oldest put_suppressed
offer m q = elim (put_nowait m q) [ none ↦ put_suppressed m (drop_oldest q) | some q' ↦ q' ]

abbrev pub offered : Message → Subscriber → Subscriber
offered m s = record s { queue = offer m s.queue }

-- The queue that is made, and the hub.
unfoldable pub subscribe : String → EventHub → ℕ × EventHub
subscribe user h =
    let known = get_or [] (get user h.subscribers) in
    (
      h.created,
      record h {
        subscribers = put user (known ++ record { id = h.created; queue = [] } ∷ []) h.subscribers;
        created = h.created + 1;
      },
    )

abbrev pub is_not : ℕ → Subscriber → Bool
is_not i s = not (s.id == i)

-- The set that is left, or no entry.
unfoldable pub keep_subscribers :
    String → List Subscriber → Dict (List Subscriber) → Dict (List Subscriber)
keep_subscribers user [] d = remove user d
keep_subscribers user (s ∷ subs) d = put user (s ∷ subs) d

unfoldable pub unsubscribe : String → ℕ → EventHub → EventHub
unfolding keep_subscribers
unsubscribe user i h = elim (get user h.subscribers) [
  | none ↦ h
  | some subs ↦ record h {
    subscribers = keep_subscribers user (filter (is_not i) subs) h.subscribers;
  }
]

unfoldable pub deliver_to : String → Message → EventHub → EventHub
unfolding offer
deliver_to user m h = elim (get user h.subscribers) [
  | none ↦ h
  | some subs ↦ record h { subscribers = put user (map (offered m) subs) h.subscribers }
]

-- `_deliver`: an event with no user, or with one that is no UUID, goes to nobody.
unfoldable pub deliver : (parse_uuid : String → Option String) → Message → EventHub → EventHub
unfolding deliver_to
deliver parse_uuid m h = elim m.user_id [
  | none ↦ h
  | some raw ↦
      if str_eq raw ""
      then h
      else elim (parse_uuid raw) [ none ↦ h | some user ↦ deliver_to user m h ]
]

abbrev pub taken : ℕ → Subscriber → Subscriber
taken i s = if s.id == i then record s { queue = drop_oldest s.queue } else s

-- The socket of a user takes the oldest event of its queue.
unfoldable pub receive : String → ℕ → EventHub → EventHub
unfolding drop_oldest
receive user i h = elim (get user h.subscribers) [
  | none ↦ h
  | some subs ↦ record h { subscribers = put user (map (taken i) subs) h.subscribers }
]

-- Delays are in seconds.
abbrev pub reconnect_delay_seconds : ℕ
reconnect_delay_seconds = 1

abbrev pub max_reconnect_delay_seconds : ℕ
max_reconnect_delay_seconds = 30

-- The delay before each reconnection of `_run`, the n-th counted from 0: nothing resets it.
unfoldable pub reconnect_delay : ℕ → ℕ
reconnect_delay zero = reconnect_delay_seconds
reconnect_delay (suc n) = min (reconnect_delay n * 2) max_reconnect_delay_seconds
