-- ===== src/Monitoring/Alerts/Observed.antt =====
-- An alert names what was observed: src/aidss/monitoring/alerts.py.
use stock_recommendation_be.Base.{
  ℕ, ◌*◌, ◌-◌, ◌≤◌, ◌<◌, ◌≡◌, ◌≢◌, refl, inl, inr, String, true, ◌&&◌, Option, none, some, List, [],
  ◌∷◌, ◌++◌, All, All-append, any, ltb, leb, ◌==◌, str_ne, Bool-cases, Option-cases, arith,
}
use stock_recommendation_be.Base.Numbers.{mul_pos}
use stock_recommendation_be.Base.Sorting.{sort_by, sort_by-All}
use stock_recommendation_be.Market.IdxRules.{
  AutoRejectBand, default_bands, default_top_band, auto_reject_band, proximity,
}
use stock_recommendation_be.Monitoring.Alerts.{
  approach_band, AlertKind, stance_changed, level_crossed, level_approached, support_approached,
  suggested_stop_reached, limit_proximity, unusual_move, AlertDirection, up, down, no_direction,
  AlertCandidate, Observation, stance_differs, stance_alerts, crosses_up, crosses_down,
  resistance_alerts, support_alerts, each_level, reverse_onto, sort_down, stop_alerts, limit_alerts,
  is_unusual, unusual_alerts, evaluate,
}

-- One of the stored levels.
abbrev pub IsIn : List ℕ → ℕ → Type 0
IsIn levels level = any (λ l. l == level) levels ≡ true

-- What an alert of a kind, in a direction and against a price, says of an observation.
abbrev pub IsFact : Observation → AlertKind → AlertDirection → Option ℕ → Type 0
IsFact o level_crossed up (some l) =
    IsIn o.resistance_levels l × ((p : ℕ) × (o.previous_price ≡ some p) × (p ≤ l) × (l < o.price))
IsFact o level_crossed down (some l) =
    IsIn o.support_levels l × ((p : ℕ) × (o.previous_price ≡ some p) × (l ≤ p) × (o.price < l))
IsFact o level_approached up (some l) =
    IsIn o.resistance_levels l × (o.price < l) × (100 * (l - o.price) ≤ 2 * l)
IsFact o support_approached down (some l) =
    IsIn o.support_levels l × (l < o.price) × (100 * (o.price - l) ≤ 2 * l)
IsFact o suggested_stop_reached down (some l) = (o.suggested_stop ≡ some l) × (o.price ≤ l)
IsFact o stance_changed no_direction none =
    (s : String) × (p : String) × (o.stance ≡ some s) × (o.previous_stance ≡ some p) × (s ≢ p)
IsFact o limit_proximity up (some c) =
    (b : AutoRejectBand) × (auto_reject_band default_bands default_top_band o.previous_close
      ≡ some b)
    × (b.ceiling ≡ c)
    × (7 * (c - 100 * b.reference_price) ≤ 10 * (100 * o.price - 100 * b.reference_price))
IsFact o unusual_move up (some c) =
    (o.previous_close ≡ some c)
    × (c < o.price)
    × ((v : ℕ) × (o.daily_volatility ≡ some v) × (v * 2 * c ≤ 10000 * (o.price - c)))
IsFact o unusual_move down (some c) =
    (o.previous_close ≡ some c)
    × (o.price < c)
    × ((v : ℕ) × (o.daily_volatility ≡ some v) × (v * 2 * c ≤ 10000 * (c - o.price)))
IsFact o _ _ _ = ⊥

abbrev pub IsObserved : Observation → AlertCandidate → Type 0
IsObserved o c = (c.observed_price ≡ o.price) × IsFact o c.kind c.direction c.reference_price

module _ (o : Observation) where
  crosses_up_lem :
      (previous : Option ℕ) (level price : ℕ)
      → crosses_up previous level price ≡ true
      → (p : ℕ) × (previous ≡ some p) × (p ≤ level) × (level < price)
  unfolding crosses_up
  crosses_up_lem none level price h = ground arith
  crosses_up_lem (some p) level price h = (p, refl, ground arith, ground arith)

  crosses_down_lem :
      (previous : Option ℕ) (level price : ℕ)
      → crosses_down previous level price ≡ true
      → (p : ℕ) × (previous ≡ some p) × (level ≤ p) × (price < level)
  unfolding crosses_down
  crosses_down_lem none level price h = ground arith
  crosses_down_lem (some p) level price h = (p, refl, ground arith, ground arith)

  resistance_alerts-IsObserved :
      (level : ℕ) → IsIn o.resistance_levels level → All (IsObserved o) (resistance_alerts o level)
  unfolding resistance_alerts
  resistance_alerts-IsObserved level i =
      elim (Bool-cases (crosses_up o.previous_price level o.price)) [
        | inl crossed ↦
            rw (crossed, resistance_alerts)
              ((refl, (i, crosses_up_lem o.previous_price level o.price crossed)), tt)
        | inr still ↦
            elim (Bool-cases
              (ltb o.price level && leb (100 * (level - o.price)) (approach_band * level))) [
                | inl near ↦
                    rw (still, resistance_alerts, near)
                      ((refl, (i, ground arith, ground arith)), tt)
                | inr away ↦ rw (still, resistance_alerts, away) tt
              ]
      ]

  support_alerts-IsObserved :
      (level : ℕ) → IsIn o.support_levels level → All (IsObserved o) (support_alerts o level)
  unfolding support_alerts
  support_alerts-IsObserved level i =
      elim (Bool-cases (crosses_down o.previous_price level o.price)) [
        | inl crossed ↦
            rw (crossed, support_alerts)
              ((refl, (i, crosses_down_lem o.previous_price level o.price crossed)), tt)
        | inr still ↦
            elim (Bool-cases (
              ltb level o.price
              && ltb 0 level
              && leb (100 * (o.price - level)) (approach_band * level))) [
                | inl near ↦
                    rw (still, support_alerts, near) ((refl, (i, ground arith, ground arith)), tt)
                | inr away ↦ rw (still, support_alerts, away) tt
              ]
      ]

  stop_alerts-IsObserved : All (IsObserved o) (stop_alerts o)
  unfolding stop_alerts
  stop_alerts-IsObserved = elim (Option-cases o.suggested_stop) [
    | inl absent ↦ rw (absent, stop_alerts) tt
    | inr there ↦ elim (Bool-cases (leb o.price there.0)) [
      | inl reached ↦ rw (there.1, stop_alerts, reached) ((refl, (refl, ground arith)), tt)
      | inr above ↦ rw (there.1, stop_alerts, above) tt
    ]
  ]

  stance_differs_lem :
      (stance previous : Option String)
      → stance_differs stance previous ≡ true
      → (s : String) × (p : String) × (stance ≡ some s) × (previous ≡ some p) × (s ≢ p)
  unfolding stance_differs
  stance_differs_lem none previous h = ground arith
  stance_differs_lem (some s) none h = ground arith
  stance_differs_lem (some s) (some p) h = (s, p, refl, refl, str_ne s p (ground arith))

  stance_alerts-IsObserved :
      (words : Option String → Option String → String) → All (IsObserved o) (stance_alerts words o)
  unfolding stance_alerts
  stance_alerts-IsObserved words = elim (Bool-cases (stance_differs o.stance o.previous_stance)) [
    | inl changed ↦
        rw (changed, stance_alerts)
          ((refl, stance_differs_lem o.stance o.previous_stance changed), tt)
    | inr same ↦ rw (same, stance_alerts) tt
  ]

  proximity_parts :
      (b : AutoRejectBand) (used allowed : ℕ)
      → proximity b o.price ≡ some (used, allowed)
      → 7 * allowed ≤ 10 * used
      → 7 * (b.ceiling - 100 * b.reference_price) ≤ 10 * (100 * o.price - 100 * b.reference_price)
  unfolding proximity
  proximity_parts b used allowed h le = ground arith

  limit_alerts-IsObserved : All (IsObserved o) (limit_alerts o)
  unfolding limit_alerts
  limit_alerts-IsObserved =
      elim (Option-cases (auto_reject_band default_bands default_top_band o.previous_close)) [
        | inl absent ↦ rw (absent, limit_alerts) tt
        | inr there ↦ elim (Option-cases (proximity there.0 o.price)) [
          | inl unknown ↦ rw (there.1, limit_alerts, unknown) tt
          | inr known ↦ elim (Bool-cases (leb (7 * known.0.1) (10 * known.0.0))) [
            | inl near ↦
                rw (there.1, limit_alerts, known.1, near)
                  (
                    (
                      refl,
                      (
                        there.0,
                        there.1,
                        refl,
                        proximity_parts there.0 known.0.0 known.0.1 known.1 (ground arith),
                      ),
                    ),
                    tt,
                  )
            | inr away ↦ rw (there.1, limit_alerts, known.1, away) tt
          ]
        ]
      ]

  fell_below :
      (price close v : ℕ)
      → price ≤ close
      → (ltb 0 v && is_unusual price close v) ≡ true
      → price < close
  unfolding is_unusual
  fell_below price close v le h = grind (arith, mul_pos v close)

  unusual_alerts-IsObserved : All (IsObserved o) (unusual_alerts o)
  unfolding unusual_alerts is_unusual
  unusual_alerts-IsObserved = elim (Option-cases o.previous_close) [
    | inl unknown ↦ rw (unknown, unusual_alerts) tt
    | inr close ↦ elim (Option-cases o.daily_volatility) [
      | inl still ↦ rw (close.1, unusual_alerts, still) tt
      | inr v ↦ elim (Bool-cases (ltb 0 v.0 && is_unusual o.price close.0 v.0)) [
        | inr usual ↦ rw (close.1, unusual_alerts, v.1, usual) tt
        | inl unusual ↦ elim (Bool-cases (ltb close.0 o.price)) [
          | inl rose ↦
              rw (close.1, unusual_alerts, v.1, unusual, rose)
                ((refl, (refl, ground arith, (v.0, refl, ground arith))), tt)
          | inr fell ↦
              rw (close.1, unusual_alerts, v.1, unusual, fell)
                (
                  (
                    refl,
                    (
                      refl,
                      fell_below o.price close.0 v.0 (ground arith) unusual,
                      (v.0, refl, ground arith),
                    ),
                  ),
                  tt,
                )
        ]
      ]
    ]
  ]

  each_level-IsObserved :
      (alerts : ℕ → List AlertCandidate) (stored : List ℕ)
      → ((l : ℕ) → IsIn stored l → All (IsObserved o) (alerts l))
      → (levels : List ℕ) → All (IsIn stored) levels
      → All (IsObserved o) (each_level alerts levels)
  unfolding each_level
  each_level-IsObserved alerts stored h [] a = tt
  each_level-IsObserved alerts stored h (l ∷ levels) a =
      All-append (IsObserved o) (alerts l) (each_level alerts levels) (h l a.0)
        (each_level-IsObserved alerts stored h levels a.1)

  reverse_onto-All :
      (P : ℕ → Type 0) (ls done : List ℕ) → All P ls → All P done → All P (reverse_onto ls done)
  unfolding reverse_onto
  reverse_onto-All P [] done a b = b
  reverse_onto-All P (l ∷ ls) done a b = reverse_onto-All P ls (l ∷ done) a.1 (a.0, b)

  any_later : (l x : ℕ) (levels : List ℕ) → IsIn levels l → IsIn (x ∷ levels) l
  any_later l x levels i = ground (arith, i)

  All-later : (x : ℕ) (levels ls : List ℕ) → All (IsIn levels) ls → All (IsIn (x ∷ levels)) ls
  All-later x levels [] a = tt
  All-later x levels (l ∷ ls) a = (any_later l x levels a.0, All-later x levels ls a.1)

  All-IsIn : (levels : List ℕ) → All (IsIn levels) levels
  All-IsIn [] = tt
  All-IsIn (l ∷ levels) = (ground arith, All-later l levels levels (All-IsIn levels))

  -- Every alert that an observation gives rise to says what was observed: of a level, that it is stored
  -- on that side and that the price crossed it since the price before, or stands within two percent
  -- short of it; of a stop, that the price is at or below it; of a stance, that two stances differ; of
  -- the limit, that at least seven tenths of the way up are used; of a move, that it is at least twice
  -- the volatility, in that direction.
  pub evaluate-IsObserved :
      (words : Option String → Option String → String) → All (IsObserved o) (evaluate words o)
  unfolding evaluate sort_down
  evaluate-IsObserved words =
      both _ _
        (both _ _
          (both _ _
            (both _ _
              (both (stance_alerts words o) _ (stance_alerts-IsObserved words) (
                each_level-IsObserved (resistance_alerts o) o.resistance_levels
                  resistance_alerts-IsObserved (sort_by (λ l. l) o.resistance_levels)
                  (sort_by-All (λ l. l) (IsIn o.resistance_levels) o.resistance_levels
                    (All-IsIn o.resistance_levels))))
              (each_level-IsObserved (support_alerts o) o.support_levels support_alerts-IsObserved
                (sort_down o.support_levels)
                (reverse_onto-All (IsIn o.support_levels) (sort_by (λ l. l) o.support_levels) []
                  (sort_by-All (λ l. l) (IsIn o.support_levels) o.support_levels
                    (All-IsIn o.support_levels))
                  tt)))
            stop_alerts-IsObserved)
          limit_alerts-IsObserved)
        unusual_alerts-IsObserved
    where
      both :
          (xs ys : List AlertCandidate)
          → All (IsObserved o) xs
          → All (IsObserved o) ys
          → All (IsObserved o) (xs ++ ys)
      both xs ys a b = All-append (IsObserved o) xs ys a b
