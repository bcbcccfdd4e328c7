-- ===== src/Realtime/EventHub/Backlog/Valid.antt =====
-- The operations of src/aidss/realtime/hub.py keep the subscriptions in order.

use stock_recommendation_be.Base.{
  ℕ, ◌+◌, ◌≡◌, ◌≢◌, refl, inl, inr, String, some, List, [], ◌∷◌, ◌++◌, map, filter, get_or, arith,
  All, All-append, All-filter, Option-cases,
}
use stock_recommendation_be.Base.Dict.{Dict, get, put-All, remove-All, get-All}
use stock_recommendation_be.Realtime.EventHub.{
  Message, Subscriber, EventHub, offered, subscribe, is_not, keep_subscribers, unsubscribe,
  deliver_to, taken, receive,
}
use stock_recommendation_be.Realtime.EventHub.Queues.{IsQueue, offered-IsQueue, taken-IsQueue}
use stock_recommendation_be.Realtime.EventHub.Backlog.Changes.{known-All}
use stock_recommendation_be.Realtime.EventHub.Backlog.{
  IsSubscribed, IsValid, IsQueue-later, IsSubscribed-later, Event, subscribed, unsubscribed,
  delivered, received, happen,
}

pub map_ne {ℓ κ} : {A : Type ℓ} {B : Type κ} (f : A → B) (xs : List A) → xs ≢ [] → map f xs ≢ []
map_ne f [] n e = n refl
map_ne f (x ∷ xs) n e = cc

pub snoc_ne {ℓ} : {A : Type ℓ} (xs : List A) (x : A) → (xs ++ x ∷ []) ≢ []
snoc_ne [] x e = cc
snoc_ne (y ∷ xs) x e = cc

pub keep-IsValid :
    (c : ℕ) (u : String) (subs : List Subscriber) (d : Dict (List Subscriber))
    → All (IsQueue c) subs
    → All (λ e. IsSubscribed c e.1) d
    → All (λ e. IsSubscribed c e.1) (keep_subscribers u subs d)
unfolding keep_subscribers
keep-IsValid c u [] d q a = remove-All (IsSubscribed c) u d a
keep-IsValid c u (s ∷ subs) d q a = put-All (IsSubscribed c) u (s ∷ subs) d a ((λ e. cc), q)

module _ (h : EventHub) (valid : IsValid h) where
  pub entry :
      (u : String) (subs : List Subscriber)
      → get u h.subscribers ≡ some subs
      → IsSubscribed h.created subs
  entry u subs e = get-All (IsSubscribed h.created) u subs h.subscribers valid e

  pub subscribe-IsValid : (u : String) → IsValid (subscribe u h).1
  unfolding subscribe
  subscribe-IsValid u =
      let known = get_or [] (get u h.subscribers) in
      put-All (IsSubscribed (h.created + 1)) u (known ++ record { id = h.created; queue = [] } ∷ [])
        h.subscribers (IsSubscribed-later h.created h.subscribers valid)
        (
          snoc_ne known (record { id = h.created; queue = [] }),
          All-append (IsQueue (h.created + 1)) known (record { id = h.created; queue = [] } ∷ [])
              (IsQueue-later h.created known (known-All h valid u 0 u))
              ((omega arith, omega arith), tt),
        )

  pub unsubscribe-IsValid : (u : String) (i : ℕ) → IsValid (unsubscribe u i h)
  unfolding unsubscribe
  unsubscribe-IsValid u i = elim (Option-cases (get u h.subscribers)) [
    | inl n ↦ rw (n, unsubscribe) valid
    | inr (subs, e) ↦
        rw (e, unsubscribe)
          (keep-IsValid h.created u (filter (is_not i) subs) h.subscribers
            (All-filter (IsQueue h.created) (is_not i) subs (entry u subs e).1) valid)
  ]

  pub deliver-IsValid : (u : String) (m : Message) → IsValid (deliver_to u m h)
  unfolding deliver_to
  deliver-IsValid u m = elim (Option-cases (get u h.subscribers)) [
    | inl n ↦ rw (n, deliver_to) valid
    | inr (subs, e) ↦
        rw (e, deliver_to)
          (put-All (IsSubscribed h.created) u (map (offered m) subs) h.subscribers valid (
            map_ne (offered m) subs (entry u subs e).0,
            offered-IsQueue h.created m subs (entry u subs e).1,
          ))
  ]

  pub receive-IsValid : (u : String) (i : ℕ) → IsValid (receive u i h)
  unfolding receive
  receive-IsValid u i = elim (Option-cases (get u h.subscribers)) [
    | inl n ↦ rw (n, receive) valid
    | inr (subs, e) ↦
        rw (e, receive)
          (put-All (IsSubscribed h.created) u (map (taken i) subs) h.subscribers valid (
            map_ne (taken i) subs (entry u subs e).0,
            taken-IsQueue h.created i subs (entry u subs e).1,
          ))
  ]

  pub happen-IsValid : (e : Event) → IsValid (happen e h)
  unfolding happen
  happen-IsValid (subscribed u) = subscribe-IsValid u
  happen-IsValid (unsubscribed u i) = unsubscribe-IsValid u i
  happen-IsValid (delivered u m) = deliver-IsValid u m
  happen-IsValid (received u i) = receive-IsValid u i
