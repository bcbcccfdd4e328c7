-- ===== src/Market/IdxRules.antt =====
-- Auto-rejection bands: src/aidss/market/idx_rules.py. Prices are in hundredths of a rupiah and limits
-- in percent, so that a ceiling or a floor is a whole number of ten-thousandths of a rupiah. A quotient
-- is kept as its numerator and denominator.
pub mod Band
use stock_recommendation_be.Base.{
  ℕ, ◌+◌, ◌-◌, ◌*◌, min, Option, none, some, List, [], ◌∷◌, ltb, leb, if◌then◌else◌,
}
use stock_recommendation_be.Base.Int.{ℤ, sub_ℕ}

pub record PriceBand : Type 0 where
  pub bound : ℕ
  pub percent : ℕ

abbrev pub default_bands : List PriceBand
default_bands =
    record { bound = 20000; percent = 35 } ∷ record { bound = 500000; percent = 25 } ∷ []

abbrev pub default_top_band : ℕ
default_top_band = 20

abbrev pub minimum_price : ℕ
minimum_price = 5000

pub record Ratio : Type 0 where
  pub numerator : ℤ
  pub denominator : ℕ

-- The ceiling and the floor are in ten-thousandths.
pub record AutoRejectBand : Type 0 where
  pub reference_price : ℕ
  pub limit_fraction : ℕ
  pub ceiling : ℕ
  pub floor : ℤ

unfoldable pub headroom : AutoRejectBand → ℕ → Option Ratio
headroom b price =
    if leb b.ceiling 0
    then none
    else some (record { numerator = sub_ℕ b.ceiling (price * 100); denominator = b.ceiling })

-- The numerator is clamped between 0, at which the subtraction stops, and the denominator.
unfoldable pub proximity : AutoRejectBand → ℕ → Option (ℕ × ℕ)
proximity b price =
    let allowed = b.ceiling - b.reference_price * 100 in
    if leb allowed 0
    then none
    else some (min allowed (price * 100 - b.reference_price * 100), allowed)

unfoldable pub limit_fraction : List PriceBand → ℕ → ℕ → ℕ
limit_fraction [] top_band price = top_band
limit_fraction (b ∷ bs) top_band price =
    let rest = limit_fraction bs top_band price in if ltb price b.bound then b.percent else rest

unfoldable pub auto_reject_band : List PriceBand → ℕ → Option ℕ → Option AutoRejectBand
unfolding limit_fraction
auto_reject_band bands top_band none = none
auto_reject_band bands top_band (some price) =
    let percent = limit_fraction bands top_band price in
    if ltb price minimum_price
    then none
    else some (record {
      reference_price = price;
      limit_fraction = percent;
      ceiling = price * (100 + percent);
      floor = sub_ℕ (price * 100) (price * percent);
    })
