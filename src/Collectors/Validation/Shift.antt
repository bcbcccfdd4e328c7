-- ===== src/Collectors/Validation/Shift.antt =====
-- What a lasting change of the price level does: src/aidss/collectors/validation.py.
use stock_recommendation_be.Base.{
  ℕ, ◌≡◌, refl, ap, inl, inr, true, some, List, [], ◌∷◌, All, Option-cases, arith,
}
use stock_recommendation_be.Base.Int.{ℤ, pos, ◌≤ℤ◌}
use stock_recommendation_be.Collectors.Validation.{
  Candle, Problem, price_jump, structural_problem, jumps, is_outlier, problem_of, validate_from,
  validate_candles,
}
use stock_recommendation_be.Collectors.Validation.Sound.{
  IsSound, sound_close, structural_problem_iff,
}

-- Every candle is too far from one price.
abbrev pub AllFar : ℕ → ℤ → List Candle → Type 0
AllFar max_jump_ratio last candles = All (λ c. jumps max_jump_ratio c.close last ≡ true) candles

far_has_problem :
    (max_jump_ratio : ℕ) (last : ℤ) (c : Candle)
    → pos 1 ≤ℤ last
    → jumps max_jump_ratio c.close last ≡ true
    → (p : Problem) × (problem_of max_jump_ratio (some last) c ≡ some p)
unfolding problem_of is_outlier
far_has_problem max_jump_ratio last c p far = elim (Option-cases (structural_problem c)) [
  | inl sound ↦ (price_jump, ground arith)
  | inr bad ↦ (bad.0, ground (arith, bad.1))
]

far_rejected :
    (max_jump_ratio : ℕ) (last : ℤ) (candles : List Candle)
    → pos 1 ≤ℤ last
    → AllFar max_jump_ratio last candles
    → (validate_from max_jump_ratio (some last) candles).accepted ≡ []
unfolding validate_from
far_rejected max_jump_ratio last [] p far = refl
far_rejected max_jump_ratio last (c ∷ candles) p far =
    let problem = far_has_problem max_jump_ratio last c p far.0 in
    rw (problem.1, validate_from) (far_rejected max_jump_ratio last candles p far.1)

-- Where the first candle is sound and every later one is further from its close than the ratio
-- allows, the first is all that is accepted, however many follow and however well they agree.
pub first_candle_decides :
    (max_jump_ratio : ℕ) (c : Candle) (candles : List Candle)
    → IsSound c
    → AllFar max_jump_ratio c.close candles
    → (validate_candles max_jump_ratio (c ∷ candles)).accepted ≡ c ∷ []
unfolding validate_candles validate_from problem_of is_outlier
first_candle_decides max_jump_ratio c candles sound far =
    rw ((structural_problem_iff c).1 sound, validate_candles, validate_from, problem_of)
      (ap (λ l. c ∷ l) (far_rejected max_jump_ratio c.close candles (sound_close c sound) far))
