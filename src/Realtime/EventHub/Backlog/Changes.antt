-- ===== src/Realtime/EventHub/Backlog/Changes.antt =====
-- How each operation of src/aidss/realtime/hub.py changes the queues that are seen.
use mathlib.Core.Option
use mathlib.Core.Path.{fun_ext, subst}
use stock_recommendation_be.Base.{
  ℕ, ◌≡◌, refl, sym, ◌∙◌, ap, inl, inr, String, Option, none, some, List, [], ◌∷◌, ◌++◌, map,
  filter, ◌==◌, get_or, str_eq, str_eq_iff, arith, if◌then◌else◌, All, Bool-cases, Option-cases,
}
use stock_recommendation_be.Base.Dict.{Dict, get, put, get-All}
use stock_recommendation_be.Realtime.EventHub.{
  Message, Subscriber, EventHub, offered, subscribe, is_not, keep_subscribers, unsubscribe,
  deliver_to, taken, receive,
}
use stock_recommendation_be.Realtime.EventHub.Queues.{
  find_queue, queue_in, queue_of, IsQueue, find_queue-delivered, find_queue-new, drop_oldest_lem,
  no_queue, queue_in-put, queue_in-keep, find_queue-filter, find_queue-taken,
}
use stock_recommendation_be.Realtime.EventHub.Backlog.{
  IsSubscribed, IsValid, Event, subscribed, unsubscribed, delivered, received, happen, effect,
  user_of,
}

-- A change at one user, as a change of the queues that are seen.
pub changed_at :
    (u v : String) (j : ℕ) (subs : List Subscriber) (d d' : Dict (List Subscriber))
    (g : Option (List Message) → Option (List Message))
    → queue_in v j d' ≡ (if str_eq u v then find_queue j subs else queue_in v j d)
    → find_queue j subs ≡ g (queue_in u j d)
    → queue_in v j d' ≡ (if str_eq u v then g (queue_in v j d) else queue_in v j d)
changed_at u v j subs d d' g e f = elim (Bool-cases (str_eq u v)) [
  | inl same ↦ rw same (rw (same) at e ∙ f ∙ ap (λ w. g (queue_in w j d)) ((str_eq_iff u v).0 same))
  | inr other ↦ rw other (rw other at e)
]

pub unchanged_at :
    (u v : String) (j : ℕ) (d : Dict (List Subscriber))
    (g : Option (List Message) → Option (List Message))
    → g none ≡ none
    → get u d ≡ none
    → queue_in v j d ≡ (if str_eq u v then g (queue_in v j d) else queue_in v j d)
unfolding queue_in
unchanged_at u v j d g e n = elim (Bool-cases (str_eq u v)) [
  | inr other ↦ rw other refl
  | inl same ↦
      let here : queue_in v j d ≡ none =
        subst (λ w. queue_in w j d ≡ none) ((str_eq_iff u v).0 same)
          (rw (n, queue_in) (no_queue j)) in
      rw same (here ∙ sym e ∙ ap g (sym here))
]

module _ (h : EventHub) (valid : IsValid h) (v : String) (j : ℕ) where
  pub known-All : (u : String) → All (IsQueue h.created) (get_or [] (get u h.subscribers))
  known-All u = elim (Option-cases (get u h.subscribers)) [
    | inl n ↦ rw n tt
    | inr (subs, e) ↦ rw e (get-All (IsSubscribed h.created) u subs h.subscribers valid e).1
  ]

  pub known_queue :
      (u : String) → queue_in u j h.subscribers ≡ find_queue j (get_or [] (get u h.subscribers))
  unfolding queue_in
  known_queue u = refl

  pub known_some :
      (u : String) (subs : List Subscriber)
      → get u h.subscribers ≡ some subs
      → queue_in u j h.subscribers ≡ find_queue j subs
  known_some u subs e = known_queue u ∙ ap (λ o. find_queue j (get_or [] o)) e

  pub subscribe_seen :
      (u : String)
      → queue_of v j (subscribe u h).1 ≡ (
          if str_eq u v then effect (subscribed u) h.created j (queue_of v j h) else queue_of v j h)
  unfolding subscribe
  subscribe_seen u =
      let known = get_or [] (get u h.subscribers) in
      let new : Subscriber = record { id = h.created; queue = [] } in
      changed_at u v j (known ++ new ∷ []) h.subscribers (put u (known ++ new ∷ []) h.subscribers)
        (effect (subscribed u) h.created j) (queue_in-put u v j h.subscribers (known ++ new ∷ []))
        (find_queue-new h.created j known (known-All u)
          ∙ ap (effect (subscribed u) h.created j) (sym (known_queue u)))

  pub unsubscribe_seen :
      (u : String) (i : ℕ)
      → queue_of v j (unsubscribe u i h) ≡ (
          if str_eq u v
          then effect (unsubscribed u i) h.created j (queue_of v j h)
          else queue_of v j h)
  unfolding unsubscribe
  unsubscribe_seen u i = elim (Option-cases (get u h.subscribers)) [
    | inl n ↦
        rw (n, unsubscribe)
          (unchanged_at u v j h.subscribers (effect (unsubscribed u i) h.created j) (ground arith)
            n)
    | inr (subs, e) ↦
        rw (e, unsubscribe)
          (changed_at u v j (filter (is_not i) subs) h.subscribers
            (keep_subscribers u (filter (is_not i) subs) h.subscribers)
            (effect (unsubscribed u i) h.created j)
            (queue_in-keep u v j h.subscribers (filter (is_not i) subs))
            (find_queue-filter i j subs
              ∙ ap (effect (unsubscribed u i) h.created j) (sym (known_some u subs e))))
  ]

  pub deliver_seen :
      (u : String) (m : Message)
      → queue_of v j (deliver_to u m h) ≡ (
          if str_eq u v
          then effect (delivered u m) h.created j (queue_of v j h)
          else queue_of v j h)
  unfolding deliver_to
  deliver_seen u m = elim (Option-cases (get u h.subscribers)) [
    | inl n ↦
        rw (n, deliver_to)
          (unchanged_at u v j h.subscribers (effect (delivered u m) h.created j) refl n)
    | inr (subs, e) ↦
        rw (e, deliver_to)
          (changed_at u v j (map (offered m) subs) h.subscribers
            (put u (map (offered m) subs) h.subscribers) (effect (delivered u m) h.created j)
            (queue_in-put u v j h.subscribers (map (offered m) subs))
            (find_queue-delivered h.created m j subs
                (get-All (IsSubscribed h.created) u subs h.subscribers valid e).1
              ∙ ap (effect (delivered u m) h.created j) (sym (known_some u subs e))))
  ]

  pub receive_seen :
      (u : String) (i : ℕ)
      → queue_of v j (receive u i h) ≡ (
          if str_eq u v then effect (received u i) h.created j (queue_of v j h) else queue_of v j h)
  unfolding receive
  receive_seen u i = elim (Option-cases (get u h.subscribers)) [
    | inl n ↦
        rw (n, receive)
          (unchanged_at u v j h.subscribers (effect (received u i) h.created j) (ground arith) n)
    | inr (subs, e) ↦
        rw (e, receive)
          (changed_at u v j (map (taken i) subs) h.subscribers
            (put u (map (taken i) subs) h.subscribers) (effect (received u i) h.created j)
            (queue_in-put u v j h.subscribers (map (taken i) subs))
            (find_queue-taken i j subs
              ∙ ap (λ f. if i == j then Option.map f (find_queue j subs) else find_queue j subs)
                  (fun_ext drop_oldest_lem)
              ∙ ap (effect (received u i) h.created j) (sym (known_some u subs e))))
  ]

  pub happen_seen :
      (e : Event)
      → queue_of v j (happen e h)
        ≡ (if str_eq (user_of e) v then effect e h.created j (queue_of v j h) else queue_of v j h)
  unfolding happen
  happen_seen (subscribed u) = subscribe_seen u
  happen_seen (unsubscribed u i) = unsubscribe_seen u i
  happen_seen (delivered u m) = deliver_seen u m
  happen_seen (received u i) = receive_seen u i
