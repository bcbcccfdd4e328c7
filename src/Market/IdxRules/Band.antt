-- ===== src/Market/IdxRules/Band.antt =====
-- What a band is, and how far a price has moved in it: src/aidss/market/idx_rules.py.
use native.Mathlib.Nat.{mul-add, mul-pos, mul-lt-mul_of_pos_left}
use stock_recommendation_be.Base.{
  ℕ, ◌+◌, ◌-◌, ◌*◌, ◌≤◌, ◌<◌, min, ◌≡◌, refl, ◌↔◌, none, some, ltb, leb, arith, false, Bool-cases,
  ltb→lt, inl, inr, ◌⊎◌,
}
use stock_recommendation_be.Base.Int.{pos, sub_ℕ}
use stock_recommendation_be.Market.IdxRules.{
  default_bands, default_top_band, minimum_price, AutoRejectBand, proximity, limit_fraction,
  auto_reject_band,
}

-- The limit of the exchange's bands narrows as the price rises, between 20 and 35 percent.
pub limit_fraction_narrows :
    (p q : ℕ)
    → p ≤ q
    → let limit = limit_fraction default_bands default_top_band in
      (limit q ≤ limit p) × (20 ≤ limit q) × (limit p ≤ 35)
unfolding limit_fraction
limit_fraction_narrows p q le = (ground arith, ground arith, ground arith)

-- A reference price that can be used has a band around it.
abbrev pub IsBandOf : ℕ → AutoRejectBand → Type 0
IsBandOf p b =
    (b.reference_price ≡ p)
    × (p * 100 < b.ceiling)
    × ((f : ℕ) × (b.floor ≡ pos f) × (f < p * 100) × (b.ceiling + f ≡ 2 * (p * 100)))

band_at :
    (p percent : ℕ)
    → 0 < p
    → 20 ≤ percent
    → percent ≤ 35
    → IsBandOf p (record {
      reference_price = p;
      limit_fraction = percent;
      ceiling = p * (100 + percent);
      floor = sub_ℕ (p * 100) (p * percent);
    })
band_at p percent some_p lo hi =
    let gain : 0 < p * percent = mul-pos some_p (omega arith) in
    let less : p * percent < p * 100 = mul-lt-mul_of_pos_left (omega arith) some_p in
    (
      refl,
      omega (arith, mul-add p 100 percent, gain),
      (
        p * 100 - p * percent,
        ground (arith, less),
        omega (arith, gain, less),
        omega (arith, mul-add p 100 percent, less),
      ),
    )

-- Every reference price from the exchange's minimum on has a band, which lies symmetrically around it,
-- with a positive width and a floor that is not negative; a lower price, or none, has no band.
pub auto_reject_band_lem :
    (p : ℕ)
    → let band = auto_reject_band default_bands default_top_band in
      (band none ≡ none)
      × (((p < minimum_price) × (band (some p) ≡ none))
          ⊎ ((minimum_price ≤ p)
              × ((b : AutoRejectBand) × (band (some p) ≡ some b) × IsBandOf p b)))
unfolding auto_reject_band
auto_reject_band_lem p = (
  refl,
  (elim (Bool-cases (ltb p minimum_price)) [
    | inl low ↦ inl (ltb→lt _ _ low, rw low refl)
    | inr high ↦
        let n = limit_fraction_narrows p p (omega arith) in
        let enough : minimum_price ≤ p = ground (arith, high) in
        let limit = limit_fraction default_bands default_top_band p in
        inr (
          enough,
          (
            record {
              reference_price = p;
              limit_fraction = limit;
              ceiling = p * (100 + limit);
              floor = sub_ℕ (p * 100) (p * limit);
            },
            rw high refl,
            band_at p limit (omega (arith, enough)) n.1 n.2,
          ),
        )
  ]),
)

-- In a band with a ceiling above its reference price, the part of the day's allowed move that is used
-- is at most the whole of it, is the whole of it exactly from the ceiling on, is nothing exactly up to
-- the reference price, and does not fall as the price rises.
pub proximity_lem :
    (b : AutoRejectBand) (price higher : ℕ)
    → b.reference_price * 100 < b.ceiling
    → price ≤ higher
    → (n m d : ℕ) × (proximity b price ≡ some (n, d))
      × (proximity b higher ≡ some (m, d))
      × (0 < d)
      × (n ≤ d)
      × (n ≤ m)
      × ((n ≡ d) ↔ (b.ceiling ≤ price * 100))
      × ((n ≡ 0) ↔ (price ≤ b.reference_price))
unfolding proximity
proximity_lem b price higher wide le =
    let allowed = b.ceiling - b.reference_price * 100 in
    let open_band : leb allowed 0 ≡ false = ground (arith, wide) in
    (
      min allowed (price * 100 - b.reference_price * 100),
      min allowed (higher * 100 - b.reference_price * 100),
      allowed,
      rw open_band refl,
      rw open_band refl,
      omega (arith, wide),
      omega arith,
      omega (arith, le),
      ((λ e. omega (arith, e, wide)), (λ c. omega (arith, c, wide))),
      ((λ e. omega (arith, e, wide)), (λ c. omega (arith, c, wide))),
    )
