-- ===== src/Llm/Retry/Attempts.antt =====
-- What `call_with_retry` of src/aidss/llm/resilience.py does with the attempts that it makes.
use mathlib.Core.Path.{subst}
use native.Mathlib.Nat.{le_refl, mul-le-mul, add-zero}
use stock_recommendation_be.Base.{
  ℕ, zero, suc, ◌+◌, ◌-◌, ◌*◌, ◌^◌, ◌≤◌, ◌<◌, min, ◌≡◌, refl, sym, inl, inr, true, false, Option,
  none, some, List, [], ◌∷◌, ◌++◌, ◌==◌, arith, if◌then◌else◌, length, length-append, Bool-cases,
}
use stock_recommendation_be.Llm.Retry.{
  ProviderError, Attempt, unavailable, RetryPolicy, delay_for, CallEnd, raised, Call, reraise,
  ends_with, last_error, retry_from, call_with_retry,
}

-- The delay before any retry is within the jitter of the capped backoff.
pub delay_for_bounds :
    (p : RetryPolicy) (attempt sample : ℕ)
    → p.jitter ≤ 1000
    → sample ≤ 2 * p.jitter
    → let raw = min (p.base_delay * 2 ^ (attempt - 1)) p.max_delay in
      (raw * (1000 - p.jitter) ≤ delay_for p attempt sample)
      × (delay_for p attempt sample ≤ p.max_delay * (1000 + p.jitter))
unfolding delay_for
delay_for_bounds p attempt sample j s =
    let raw = min (p.base_delay * 2 ^ (attempt - 1)) p.max_delay in
    let capped : raw ≤ p.max_delay = omega arith in
    elim (Bool-cases (p.jitter == 0)) [
      | inl none_set ↦
          rw none_set (mul-le-mul (le_refl raw) (omega arith), mul-le-mul capped (omega arith))
      | inr set ↦ rw set (mul-le-mul (le_refl raw) (omega arith), mul-le-mul capped (omega arith))
    ]

shift : (i n : ℕ) → i + 1 + n ≡ i + suc n
shift i n = omega arith

module _ {A : Type 0} (policy : RetryPolicy) (operation : ℕ → Attempt A) (samples : ℕ → ℕ) where
  -- The attempts from `i` on, `n` of them, all fail in a retryable way.
  abbrev pub KeepsFailing : ℕ → ℕ → Type 0
  KeepsFailing i zero = Unit
  KeepsFailing i (suc n) = (ends_with (operation i) ≡ none) × KeepsFailing (i + 1) n

  abbrev run_from : (left attempt : ℕ) → Option ProviderError → List ℕ → Call A
  run_from = retry_from policy operation samples

  retry_from_end :
      (n left i : ℕ) (last : Option ProviderError) (slept : List ℕ) (end : CallEnd A)
      → n < left
      → i + left ≡ policy.max_attempts + 1
      → KeepsFailing i n
      → ends_with (operation (i + n)) ≡ some end
      → ((run_from left i last slept).result ≡ end)
        × ((run_from left i last slept).calls ≡ i + n)
        × (length (run_from left i last slept).sleeps ≡ length slept + n)
  unfolding retry_from
  retry_from_end n zero i last slept end lt tot k e = absurd (omega arith)
  retry_from_end zero (suc left) i last slept end lt tot k e =
      rw (rw add-zero at e, retry_from) (refl, omega arith, omega arith)
  retry_from_end (suc n) (suc left) i last slept end lt tot k e =
      let more : (i == policy.max_attempts) ≡ false = ground arith in
      let next = slept ++ delay_for policy i (samples i) ∷ [] in
      let h =
        retry_from_end n left (i + 1) (last_error (operation i)) next end (omega arith)
          (omega arith) k.1 (rw (shift i n) e) in
      rw (k.0, retry_from)
        (rw more (
          h.0,
          omega (arith, h.1),
          omega (arith, h.2, length-append slept (delay_for policy i (samples i) ∷ [])),
        ))

  retry_step :
      (left i : ℕ) (last : Option ProviderError) (slept : List ℕ)
      → ends_with (operation i) ≡ none
      → run_from (suc left) i last slept
        ≡ run_from left (i + 1) (last_error (operation i)) (
            if i == policy.max_attempts
            then slept
            else slept ++ delay_for policy i (samples i) ∷ [])
  unfolding retry_from
  retry_step left i last slept k = rw (k, retry_from) refl

  retry_from_exhausted :
      (n i : ℕ) (last : Option ProviderError) (slept : List ℕ) (e : ProviderError)
      → i + n ≡ policy.max_attempts
      → KeepsFailing i (suc n)
      → operation (i + n) ≡ unavailable e
      → ((run_from (suc n) i last slept).result ≡ raised e)
        × ((run_from (suc n) i last slept).calls ≡ i + n)
        × (length (run_from (suc n) i last slept).sleeps ≡ length slept + n)
  retry_from_exhausted zero i last slept e tot k u =
      let final : (i == policy.max_attempts) ≡ true = ground arith in
      rw (retry_step zero i last slept k.0) (
        rw (final, rw add-zero at u)
          (unfold retry_from reraise in (refl, omega arith, omega arith)))
  retry_from_exhausted (suc n) i last slept e tot k u =
      let more : (i == policy.max_attempts) ≡ false = ground arith in
      let pause = delay_for policy i (samples i) ∷ [] in
      let h =
        retry_from_exhausted n (i + 1) (last_error (operation i)) (slept ++ pause) e (omega arith)
          k.1 (rw (shift i n) u) in
      rw (retry_step (suc n) i last slept k.0)
        (rw more (h.0, omega (arith, h.1), omega (arith, h.2, length-append slept pause)))

  -- If the first `n` attempts fail in a retryable way and the next one, which is allowed, does not,
  -- the call ends with what that one ends with, after `n + 1` calls and a pause before each but the
  -- first.
  pub call_with_retry_ends :
      (n : ℕ) (end : CallEnd A)
      → KeepsFailing 1 n
      → n < policy.max_attempts
      → ends_with (operation (1 + n)) ≡ some end
      → let c = call_with_retry policy operation samples in
        (c.result ≡ end) × (c.calls ≡ n + 1) × (length c.sleeps ≡ n)
  unfolding call_with_retry
  call_with_retry_ends n end k lt e =
      let h = retry_from_end n policy.max_attempts 1 none [] end lt (omega arith) k e in
      (h.0, omega (arith, h.1), omega (arith, h.2))

  -- If every allowed attempt fails in a retryable way, the error of the last one is raised, after
  -- exactly `max_attempts` calls and no pause after the last.
  pub call_with_retry_exhausted :
      (n : ℕ) (e : ProviderError)
      → policy.max_attempts ≡ suc n
      → KeepsFailing 1 (suc n)
      → operation (1 + n) ≡ unavailable e
      → let c = call_with_retry policy operation samples in
        (c.result ≡ raised e) × (c.calls ≡ policy.max_attempts) × (length c.sleeps ≡ n)
  unfolding call_with_retry
  call_with_retry_exhausted n e tot k u =
      let h = retry_from_exhausted n 1 none [] e (omega arith) k u in
      subst
        (λ m.
          ((run_from m 1 none []).result ≡ raised e)
          × ((run_from m 1 none []).calls ≡ m)
          × (length (run_from m 1 none []).sleeps ≡ n))
        (sym tot) (h.0, omega (arith, h.1), omega (arith, h.2))
