-- ===== src/Realtime/EventHub/Queues.antt =====
-- The queues of a hub, as its operations change them: src/aidss/realtime/hub.py.
use stock_recommendation_be.Base.{
  ℕ, ◌-◌, ◌≤◌, ◌<◌, ◌≡◌, refl, inl, inr, String, Option, none, some, List, [], ◌∷◌, ◌++◌, map,
  filter, length, length-append, drop, ◌==◌, get_or, str_eq, arith, if◌then◌else◌, All, Bool-cases,
}
use mathlib.Core.Option
use stock_recommendation_be.Base.Dict.{Dict, get, put, get-put_if, get-remove_if}
use stock_recommendation_be.Realtime.EventHub.{
  queue_size, Message, Subscriber, EventHub, put_nowait, get_nowait, drop_oldest, put_suppressed,
  offer, offered, is_not, keep_subscribers, taken,
}

-- The queue of a number among subscribers.
pub find_queue : ℕ → List Subscriber → Option (List Message)
find_queue i [] = none
find_queue i (s ∷ subs) = if s.id == i then some s.queue else find_queue i subs

pub no_queue : (i : ℕ) → find_queue i [] ≡ none
unfolding find_queue
no_queue i = refl

-- What a user's queue holds; `none` where there is no such queue.
unfoldable pub queue_in : String → ℕ → Dict (List Subscriber) → Option (List Message)
unfolding find_queue
queue_in user i d = find_queue i (get_or [] (get user d))

abbrev pub queue_of : String → ℕ → EventHub → Option (List Message)
queue_of user i h = queue_in user i h.subscribers

-- The queue keeps the newest events: so many at most.
abbrev pub latest : List Message → List Message
latest q = drop (length q - queue_size) q

drop_none : (n : ℕ) (q : List Message) → n ≡ 0 → drop n q ≡ q
drop_none n q e = rw e refl

drop_one : (n : ℕ) (x : Message) (q : List Message) → n ≡ 1 → drop n (x ∷ q) ≡ q
drop_one n x q e = rw e refl

-- A queue within its bound takes an event at its newest end, at the cost of the oldest if it is full.
pub offer_lem :
    (m : Message) (q : List Message) → length q ≤ queue_size → offer m q ≡ latest (q ++ m ∷ [])
unfolding offer put_nowait drop_oldest get_nowait put_suppressed
offer_lem m [] le = refl
offer_lem m (x ∷ q) le = ground (
  arith,
  length-append (x ∷ q) (m ∷ []),
  drop_none (length ((x ∷ q) ++ m ∷ []) - queue_size) ((x ∷ q) ++ m ∷ []),
  drop_one (length ((x ∷ q) ++ m ∷ []) - queue_size) x (q ++ m ∷ []),
)

pub length-offer :
    (m : Message) (q : List Message) → length q ≤ queue_size → length (offer m q) ≤ queue_size
unfolding offer put_nowait drop_oldest get_nowait put_suppressed
length-offer m [] le = omega arith
length-offer m (x ∷ q) le = ground (arith, length-append q (m ∷ []), length-append (x ∷ q) (m ∷ []))

pub find_queue-append :
    (j : ℕ) (s : Subscriber) (subs : List Subscriber)
    → find_queue j (subs ++ s ∷ []) ≡ elim (find_queue j subs) as (λ _. Option (List Message)) [
      | none ↦ (if s.id == j then some s.queue else none)
      | some q ↦ some q
    ]
unfolding find_queue
find_queue-append j s [] = ground arith
find_queue-append j s (x ∷ subs) = ground (arith, find_queue-append j s subs)

pub find_queue-filter :
    (i j : ℕ) (subs : List Subscriber)
    → find_queue j (filter (is_not i) subs) ≡ (if i == j then none else find_queue j subs)
unfolding find_queue
find_queue-filter i j [] = ground arith
find_queue-filter i j (x ∷ subs) = ground (arith, find_queue-filter i j subs)

pub find_queue-offered :
    (m : Message) (j : ℕ) (subs : List Subscriber)
    → find_queue j (map (offered m) subs) ≡ Option.map (offer m) (find_queue j subs)
unfolding find_queue
find_queue-offered m j [] = refl
find_queue-offered m j (x ∷ subs) = ground (arith, find_queue-offered m j subs)

pub find_queue-taken :
    (i j : ℕ) (subs : List Subscriber)
    → find_queue j (map (taken i) subs)
      ≡ (if i == j then Option.map drop_oldest (find_queue j subs) else find_queue j subs)
unfolding find_queue
find_queue-taken i j [] = ground arith
find_queue-taken i j (x ∷ subs) = ground (arith, find_queue-taken i j subs)

-- A queue within its bound, made before the next one.
abbrev pub IsQueue : ℕ → Subscriber → Type 0
IsQueue created s = (s.id < created) × (length s.queue ≤ queue_size)

pub find_queue-fresh :
    (c : ℕ) (subs : List Subscriber) → All (IsQueue c) subs → find_queue c subs ≡ none
unfolding find_queue
find_queue-fresh c [] a = refl
find_queue-fresh c (s ∷ subs) a = ground (arith, a.0, find_queue-fresh c subs a.1)

-- Delivering to the queues of a user.
pub find_queue-delivered :
    (c : ℕ) (m : Message) (j : ℕ) (subs : List Subscriber)
    → All (IsQueue c) subs
    → find_queue j (map (offered m) subs)
      ≡ Option.map (λ q. latest (q ++ m ∷ [])) (find_queue j subs)
unfolding find_queue
find_queue-delivered c m j [] a = refl
find_queue-delivered c m j (x ∷ subs) a =
    ground (arith, offer_lem m x.queue a.0.1, find_queue-delivered c m j subs a.1)

pub drop_oldest_lem : (q : List Message) → drop_oldest q ≡ drop 1 q
unfolding drop_oldest get_nowait
drop_oldest_lem [] = refl
drop_oldest_lem (x ∷ q) = refl

module _ (u v : String) (i : ℕ) (d : Dict (List Subscriber)) where
  pub queue_in-put :
      (subs : List Subscriber)
      → queue_in v i (put u subs d) ≡ (if str_eq u v then find_queue i subs else queue_in v i d)
  unfolding queue_in
  queue_in-put subs = ground (arith, get-put_if v u subs d)

  pub queue_in-keep :
      (subs : List Subscriber)
      → queue_in v i (keep_subscribers u subs d)
        ≡ (if str_eq u v then find_queue i subs else queue_in v i d)
  unfolding queue_in keep_subscribers find_queue
  queue_in-keep [] = ground (arith, get-remove_if v u d)
  queue_in-keep (x ∷ subs) = ground (arith, get-put_if v u (x ∷ subs) d)

pub find_queue-new :
    (c j : ℕ) (subs : List Subscriber)
    → All (IsQueue c) subs
    → find_queue j (subs ++ record { id = c; queue = [] } ∷ [])
      ≡ (if c == j then some [] else find_queue j subs)
unfolding find_queue
find_queue-new c j [] a = ground arith
find_queue-new c j (x ∷ subs) a = ground (arith, a.0, find_queue-new c j subs a.1)

pub offered-IsQueue :
    (c : ℕ) (m : Message) (subs : List Subscriber)
    → All (IsQueue c) subs
    → All (IsQueue c) (map (offered m) subs)
offered-IsQueue c m [] a = tt
offered-IsQueue c m (x ∷ subs) a =
    ((a.0.0, length-offer m x.queue a.0.1), offered-IsQueue c m subs a.1)

taken_one-IsQueue : (c i : ℕ) (x : Subscriber) → IsQueue c x → IsQueue c (taken i x)
unfolding drop_oldest get_nowait
taken_one-IsQueue c i x a = elim (Bool-cases (x.id == i)) [
  | inr other ↦ rw other a
  | inl here ↦ rw here (a.0, shorter x.queue a.1)
]
  where
    shorter : (q : List Message) → length q ≤ queue_size → length (drop_oldest q) ≤ queue_size
    shorter [] le = le
    shorter (y ∷ q) le = omega (arith, le)

pub taken-IsQueue :
    (c i : ℕ) (subs : List Subscriber) → All (IsQueue c) subs → All (IsQueue c) (map (taken i) subs)
taken-IsQueue c i [] a = tt
taken-IsQueue c i (x ∷ subs) a = (taken_one-IsQueue c i x a.0, taken-IsQueue c i subs a.1)
