-- ===== src/Collectors/Validation/Sound.antt =====
-- What the accepted candles are: src/aidss/collectors/validation.py.
use stock_recommendation_be.Base.{
  ℕ, ◌*◌, ◌≤◌, ◌≡◌, ◌↔◌, inl, inr, false, Option, none, some, List, [], ◌∷◌, All, Option-cases,
  arith,
}
use stock_recommendation_be.Base.Int.{ℤ, pos, pos_part, ◌≤ℤ◌}
use stock_recommendation_be.Collectors.Validation.{
  Candle, Rejection, ValidationResult, max_ℤ, min_ℤ, structural_problem, distance, jumps,
  is_outlier, problem_of, validate_from, validate_candles,
}

-- A candle that could have been traded.
pub record IsSound (c : Candle) : Type 0 where
  pub positive_low : pos 1 ≤ℤ c.low
  pub open_in_range : (c.low ≤ℤ c.open_) × (c.open_ ≤ℤ c.high)
  pub close_in_range : (c.low ≤ℤ c.close) × (c.close ≤ℤ c.high)
  pub volume : pos 0 ≤ℤ c.volume

pub structural_problem_iff : (c : Candle) → (structural_problem c ≡ none) ↔ IsSound c
unfolding structural_problem max_ℤ min_ℤ
structural_problem_iff c = (
  (λ h. record {
    positive_low = ground arith;
    open_in_range = (ground arith, ground arith);
    close_in_range = (ground arith, ground arith);
    volume = ground arith;
  }),
  (λ s. ground (arith, s.positive_low, s.open_in_range, s.close_in_range, s.volume)),
)

-- The last valid close, where there is one, is a price.
abbrev pub IsPrice : Option ℤ → Type 0
IsPrice none = Unit
IsPrice (some last) = pos 1 ≤ℤ last

-- No further from the close before than the ratio allows.
abbrev pub IsNear : ℕ → Option ℤ → ℤ → Type 0
IsNear max_jump_ratio none close = Unit
IsNear max_jump_ratio (some last) close = 100 * distance close last ≤ max_jump_ratio * pos_part last

-- Every candle is near the one before it.
abbrev pub IsSmooth : ℕ → Option ℤ → List Candle → Type 0
IsSmooth max_jump_ratio last [] = Unit
IsSmooth max_jump_ratio last (c ∷ cs) =
    IsNear max_jump_ratio last c.close × IsSmooth max_jump_ratio (some c.close) cs

-- The candles of both lists, in the order in which they came.
pub data Interleaves : List Candle → List Rejection → List Candle → Type 0 where
  done : Interleaves [] [] []
  accept :
      {c : Candle} {kept : List Candle} {rs : List Rejection} {cs : List Candle}
      → Interleaves kept rs cs
      → Interleaves (c ∷ kept) rs (c ∷ cs)
  reject :
      {r : Rejection} {kept : List Candle} {rs : List Rejection} {cs : List Candle}
      → Interleaves kept rs cs
      → Interleaves kept (r ∷ rs) (r.candle ∷ cs)

is_outlier-IsNear :
    (max_jump_ratio : ℕ) (c : Candle) (last : Option ℤ)
    → IsPrice last
    → is_outlier max_jump_ratio c last ≡ false
    → IsNear max_jump_ratio last c.close
unfolding is_outlier jumps
is_outlier-IsNear max_jump_ratio c none p h = tt
is_outlier-IsNear max_jump_ratio c (some last) p h = ground arith

problem_of-none :
    (max_jump_ratio : ℕ) (last : Option ℤ) (c : Candle)
    → IsPrice last
    → problem_of max_jump_ratio last c ≡ none
    → IsSound c × IsNear max_jump_ratio last c.close
unfolding problem_of
problem_of-none max_jump_ratio last c p h = elim (Option-cases (structural_problem c)) [
  | inl sound ↦
      ((structural_problem_iff c).0 sound, is_outlier-IsNear max_jump_ratio c last p (ground arith))
  | inr bad ↦ ground arith
]

-- What the loop returns.
abbrev pub IsClean : ℕ → Option ℤ → List Candle → ValidationResult → Type 0
IsClean max_jump_ratio last candles r =
    All IsSound r.accepted
    × IsSmooth max_jump_ratio last r.accepted
    × Interleaves r.accepted r.rejected candles

pub sound_close : (c : Candle) → IsSound c → IsPrice (some c.close)
sound_close c s = omega (arith, s.positive_low, s.close_in_range.0)

validate_from-IsClean :
    (max_jump_ratio : ℕ) (last : Option ℤ) (candles : List Candle)
    → IsPrice last
    → IsClean max_jump_ratio last candles (validate_from max_jump_ratio last candles)
unfolding validate_from
validate_from-IsClean max_jump_ratio last [] p = (tt, tt, done)
validate_from-IsClean max_jump_ratio last (c ∷ candles) p =
    elim (Option-cases (problem_of max_jump_ratio last c)) [
      | inl fine ↦
          let here = problem_of-none max_jump_ratio last c p fine in
          let rest =
            validate_from-IsClean max_jump_ratio (some c.close) candles (sound_close c here.0) in
          rw (fine, validate_from) ((here.0, rest.0), (here.1, rest.1), accept rest.2)
      | inr bad ↦
          let rest = validate_from-IsClean max_jump_ratio last candles p in
          rw (bad.1, validate_from) (rest.0, rest.1, reject rest.2)
    ]

-- Every accepted candle is sound, and its close is no further from that of the one accepted before
-- it than the ratio allows; the accepted and the rejected ones are those that came, in their order.
pub validate_candles-IsClean :
    (max_jump_ratio : ℕ) (candles : List Candle)
    → IsClean max_jump_ratio none candles (validate_candles max_jump_ratio candles)
unfolding validate_candles
validate_candles-IsClean max_jump_ratio candles =
    validate_from-IsClean max_jump_ratio none candles tt
