-- ===== src/Llm/CircuitBreaker/Trips.antt =====
-- When the circuit opens, half-opens and closes: `CircuitBreaker` of src/aidss/llm/resilience.py.
use mathlib.Core.Path.{subst}
use stock_recommendation_be.Base.{
  ℕ, suc, ◌+◌, ◌-◌, ◌≤◌, ◌<◌, ◌≡◌, refl, sym, ◌∙◌, ap, inl, inr, Bool, true, false, ◌&&◌, none,
  some, List, [], ◌∷◌, ltb, leb, arith, if◌then◌else◌, is_some, Bool-cases,
}
use stock_recommendation_be.Llm.CircuitBreaker.{
  closed, open_circuit, half_open, CircuitBreaker, fresh_breaker, elapsed_since_open, is_open,
  is_half_open, current_state, ensure_closed, record_success, record_failure,
}

-- A call of the gateway that fails, and the circuit may forbid it: the check at `checked_at`, and the
-- failure that is recorded at `failed_at` where the check lets the call through.
pub record FailingCall : Type 0 where
  pub checked_at : ℕ
  pub failed_at : ℕ

unfoldable pub failing_call : FailingCall → CircuitBreaker → CircuitBreaker
unfolding ensure_closed
failing_call c b =
    let (b', skipped) = ensure_closed c.checked_at b in
    if is_some skipped then b' else record_failure c.failed_at b'

-- One after the other, oldest first.
unfoldable pub failing_calls : List FailingCall → CircuitBreaker → CircuitBreaker
unfolding failing_call
failing_calls [] b = b
failing_calls (c ∷ cs) b = failing_calls cs (failing_call c b)

-- How many failures there have been, and when the last one was.
pub record Failures : Type 0 where
  pub seen : ℕ
  pub last : ℕ

-- Whether a provider with these failures is skipped: there were as many as the threshold, and the
-- timeout since the last one is not over.
abbrev pub is_skipped : (threshold timeout now : ℕ) → Failures → Bool
is_skipped n d now f = leb n f.seen && ltb now (f.last + d)

-- The failures that such calls add: one for every call at whose check the provider is not skipped.
unfoldable pub failures_of : (threshold timeout : ℕ) → List FailingCall → Failures → Failures
failures_of n d [] f = f
failures_of n d (c ∷ cs) f =
    failures_of n d cs (
      if is_skipped n d c.checked_at f then f else record { seen = suc f.seen; last = c.failed_at })

-- No check before what came before it, and no failure before its check; the last instant of all is
-- not after `now`.
abbrev pub InOrder : (before : ℕ) → List FailingCall → (now : ℕ) → Type 0
InOrder before [] now = before ≤ now
InOrder before (c ∷ cs) now =
    (before ≤ c.checked_at) × (c.checked_at ≤ c.failed_at) × InOrder c.failed_at cs now

-- The breaker with these failures; `counted` is its own count, which stops when it opens.
abbrev breaker_with : (n d counted : ℕ) → Failures → CircuitBreaker
breaker_with n d counted f =
    if leb n f.seen
    then record {
      failure_threshold = n;
      reset_timeout = d;
      failures = counted;
      opened_at = some f.last;
      circuit = open_circuit;
    }
    else record {
      failure_threshold = n;
      reset_timeout = d;
      failures = f.seen;
      opened_at = none;
      circuit = closed;
    }

abbrev HasFailures : (n d : ℕ) → Failures → CircuitBreaker → Type 0
HasFailures n d f b = (counted : ℕ) × (b ≡ breaker_with n d counted f)

refusal :
    (n d counted now : ℕ) (f : Failures)
    → f.last ≤ now
    → (ensure_closed now (breaker_with n d counted f)).1
      ≡ (if is_skipped n d now f then some (f.last + d - now) else none)
unfolding ensure_closed current_state elapsed_since_open is_open
refusal n d counted now f le = ground arith

-- A call that is skipped leaves the breaker alone.
skipped_call :
    (n d counted : ℕ) (c : FailingCall) (f : Failures)
    → f.last ≤ c.checked_at
    → is_skipped n d c.checked_at f ≡ true
    → failing_call c (breaker_with n d counted f) ≡ breaker_with n d counted f
unfolding failing_call ensure_closed current_state elapsed_since_open is_open
skipped_call n d counted c f le h =
    let reached : leb n f.seen ≡ true = ground arith in
    let early : leb d (c.checked_at - f.last) ≡ false = ground arith in rw (reached, early) refl

-- A call that is let through opens the circuit, anew or for the first time, or is counted.
failed_call :
    (n d counted : ℕ) (c : FailingCall) (f : Failures)
    → f.last ≤ c.checked_at
    → is_skipped n d c.checked_at f ≡ false
    → HasFailures n d
        (record { seen = suc f.seen; last = c.failed_at })
        (failing_call c (breaker_with n d counted f))
unfolding failing_call ensure_closed current_state elapsed_since_open is_open record_failure
    is_half_open
failed_call n d counted c f le h = elim (Bool-cases (leb n f.seen)) [
  | inl reached ↦
      let over : leb d (c.checked_at - f.last) ≡ true = ground arith in
      let still : leb n (suc f.seen) ≡ true = ground arith in
      (counted, rw (reached, over, still) refl)
  | inr below ↦ (suc f.seen, rw below (ground arith))
]

failures_skip :
    (n d : ℕ) (c : FailingCall) (cs : List FailingCall) (f : Failures)
    → is_skipped n d c.checked_at f ≡ true
    → failures_of n d (c ∷ cs) f ≡ failures_of n d cs f
unfolding failures_of
failures_skip n d c cs f h =
    ap (λ b. failures_of n d cs (if b then f else record { seen = suc f.seen; last = c.failed_at }))
      h

failures_count :
    (n d : ℕ) (c : FailingCall) (cs : List FailingCall) (f : Failures)
    → is_skipped n d c.checked_at f ≡ false
    → failures_of n d (c ∷ cs) f
      ≡ failures_of n d cs (record { seen = suc f.seen; last = c.failed_at })
unfolding failures_of
failures_count n d c cs f h =
    ap (λ b. failures_of n d cs (if b then f else record { seen = suc f.seen; last = c.failed_at }))
      h

failing_calls-HasFailures :
    (n d : ℕ) (cs : List FailingCall) (now : ℕ) (f : Failures) (b : CircuitBreaker)
    → InOrder f.last cs now
    → HasFailures n d f b
    → HasFailures n d (failures_of n d cs f) (failing_calls cs b)
      × ((failures_of n d cs f).last ≤ now)
unfolding failing_calls failures_of
failing_calls-HasFailures n d [] now f b o h = (h, o)
failing_calls-HasFailures n d (c ∷ cs) now f b o (counted, h) =
    elim (Bool-cases (is_skipped n d c.checked_at f)) [
      | inl skipped ↦
          subst (λ g. HasFailures n d g (failing_calls cs (failing_call c b)) × (g.last ≤ now))
            (sym (failures_skip n d c cs f skipped))
            (failing_calls-HasFailures n d cs now f (failing_call c b)
              (weaker cs now f.last c.failed_at (omega (arith, o.0, o.1)) o.2)
              (counted, ap (failing_call c) h ∙ skipped_call n d counted c f o.0 skipped))
      | inr let_through ↦
          let (counted', e) = failed_call n d counted c f o.0 let_through in
          subst (λ g. HasFailures n d g (failing_calls cs (failing_call c b)) × (g.last ≤ now))
            (sym (failures_count n d c cs f let_through))
            (failing_calls-HasFailures n d cs now (record { seen = suc f.seen; last = c.failed_at })
              (failing_call c b) o.2 (counted', ap (failing_call c) h ∙ e))
    ]
  where
    weaker :
        (cs : List FailingCall) (now before later : ℕ)
        → before ≤ later
        → InOrder later cs now
        → InOrder before cs now
    weaker [] now before later le o = omega (arith, le, o)
    weaker (c ∷ cs) now before later le o = (omega (arith, le, o.0), o.1, o.2)

-- After any run of failing calls on a breaker that started afresh with a positive threshold, each
-- ended before the next is checked, with no success in between: the breaker skips the provider
-- exactly when there were as many failures as the threshold and the timeout since the last of them
-- is not over, and it says for how much longer. A call is a failure where the provider was not
-- skipped at its check; so a trial after the timeout that fails skips it for another timeout.
pub skipped_after_failures :
    (n d start : ℕ) (cs : List FailingCall) (now : ℕ)
    → 0 < n
    → InOrder start cs now
    → let f = failures_of n d cs (record { seen = 0; last = start }) in
      (ensure_closed now (failing_calls cs (fresh_breaker n d))).1
      ≡ (if is_skipped n d now f then some (f.last + d - now) else none)
skipped_after_failures n d start cs now some_n o =
    let none_yet : Failures = record { seen = 0; last = start } in
    let fresh : HasFailures n d none_yet (fresh_breaker n d) = (0, ground arith) in
    let ((counted, e), le) =
      failing_calls-HasFailures n d cs now none_yet (fresh_breaker n d) o fresh in
    ap (λ b. (ensure_closed now b).1) e ∙ refusal n d counted now (failures_of n d cs none_yet) le

trial_starts :
    (b : CircuitBreaker) (opened_at now : ℕ)
    → b.circuit ≡ open_circuit
    → b.opened_at ≡ some opened_at
    → opened_at + b.reset_timeout ≤ now
    → ensure_closed now b ≡ (record b { circuit = half_open }, none)
unfolding ensure_closed current_state elapsed_since_open is_open
trial_starts b t now o a le =
    let over : leb b.reset_timeout (now - t) ≡ true = ground arith in rw (o, a) (rw over refl)

half_open_refuses :
    (b : CircuitBreaker) (failed_at later : ℕ)
    → failed_at ≤ later
    → (ensure_closed later (record_failure failed_at (record b { circuit = half_open }))).1 ≡ (
        if ltb later (failed_at + b.reset_timeout)
        then some (failed_at + b.reset_timeout - later)
        else none)
unfolding ensure_closed current_state elapsed_since_open is_open record_failure is_half_open
half_open_refuses b failed_at later le = ground arith

half_open_admits :
    (b : CircuitBreaker) (again : ℕ)
    → ensure_closed again (record b { circuit = half_open })
      ≡ (record b { circuit = half_open }, none)
unfolding ensure_closed current_state is_open
half_open_admits b again = refl

half_open_recovers :
    (b : CircuitBreaker)
    → record_success (record b { circuit = half_open })
      ≡ fresh_breaker b.failure_threshold b.reset_timeout
unfolding record_success
half_open_recovers b = refl

-- Once the timeout of an open circuit is over, calls are let through, every one of them until an
-- outcome is recorded. A failure then skips the provider for another whole timeout, and a success
-- makes the breaker as it was when it was created.
pub trial_after_timeout :
    (b : CircuitBreaker) (opened_at now again failed_at later : ℕ)
    → b.circuit ≡ open_circuit
    → b.opened_at ≡ some opened_at
    → opened_at + b.reset_timeout ≤ now
    → failed_at ≤ later
    → let trial = (ensure_closed now b).0 in
      ((ensure_closed now b).1 ≡ none)
      × (ensure_closed again trial ≡ (trial, none))
      × ((ensure_closed later (record_failure failed_at trial)).1 ≡ (
          if ltb later (failed_at + b.reset_timeout)
          then some (failed_at + b.reset_timeout - later)
          else none))
      × (record_success trial ≡ fresh_breaker b.failure_threshold b.reset_timeout)
trial_after_timeout b t now again failed_at later o a le le' =
    rw (trial_starts b t now o a le) (
      refl,
      half_open_admits b again,
      half_open_refuses b failed_at later le',
      half_open_recovers b,
    )
