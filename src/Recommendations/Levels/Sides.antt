-- ===== src/Recommendations/Levels/Sides.antt =====
-- On which side of the price the levels stand: src/aidss/recommendations/calibration.py.
use stock_recommendation_be.Base.{
  ℕ, ◌*◌, ◌≤◌, ◌≡◌, inl, inr, Option, none, some, ltb, Bool-cases, arith,
}
use stock_recommendation_be.Domain.{
  RecommendationLabel, Direction, constructive, neutral, cautious, label_direction,
}
use stock_recommendation_be.Recommendations.Levels.{
  Snapshot, quantize, extract_atr, stop_of, suggested_stop_of, derive_levels, stop_atr_multiple,
}

-- Where a stop stands against the price, each rounded to hundredths.
abbrev pub OnItsSide : Direction → (close stop : ℕ) → Type 0
OnItsSide constructive close stop = stop ≤ quantize close
OnItsSide cautious close stop = quantize close ≤ stop
OnItsSide neutral close stop = ⊥

stop_of-OnItsSide :
    (d : Direction) (close distance stop : ℕ)
    → stop_of d close distance ≡ some stop
    → OnItsSide d close stop
unfolding stop_of quantize
stop_of-OnItsSide constructive close distance stop h = ground arith
stop_of-OnItsSide cautious close distance stop h = ground arith
stop_of-OnItsSide neutral close distance stop h = ground arith

suggested_stop_of-OnItsSide :
    (d : Direction) (close : ℕ) (atr : Option ℕ) (stop : ℕ)
    → suggested_stop_of d close atr ≡ some stop
    → OnItsSide d close stop
unfolding suggested_stop_of
suggested_stop_of-OnItsSide d close none stop h = cc
suggested_stop_of-OnItsSide d close (some atr) stop h = elim (Bool-cases (ltb 0 atr)) [
  | inl positive ↦
      stop_of-OnItsSide d close (quantize (atr * stop_atr_multiple)) stop (rw positive at h)
  | inr zero ↦ ground arith
]

-- A suggested stop needs a close, a positive ATR and a label that is not neutral; it stands at or
-- below the close, in hundredths, for a constructive label, and at or above it for a cautious one.
pub suggested_stop_side :
    (snapshot : Snapshot) (label : RecommendationLabel) (close stop : ℕ)
    → snapshot.last_close ≡ some close
    → (derive_levels (some snapshot) label).suggested_stop ≡ some stop
    → OnItsSide (label_direction label) close stop
unfolding derive_levels
suggested_stop_side snapshot label close stop e h =
    suggested_stop_of-OnItsSide (label_direction label) close (extract_atr snapshot.indicators) stop
      (rw e at h)
