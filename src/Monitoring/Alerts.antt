-- ===== src/Monitoring/Alerts.antt =====
-- Which conditions the latest price of an issuer meets: `evaluate` of src/aidss/monitoring/alerts.py,
-- on the auto-rejection band of src/aidss/market/idx_rules.py. Prices are in hundredths and not
-- negative, volatility in ten-thousandths; a stance is a text. The messages are left out, and a key for
-- deduplication is its parts.
pub mod Observed
use stock_recommendation_be.Base.{
  ℕ, ◌+◌, ◌*◌, ◌-◌, String, Bool, true, false, ◌&&◌, ◌||◌, not, Option, none, some, List, [], ◌∷◌,
  ◌++◌, filter, map, ltb, leb, ◌==◌, str_eq, if◌then◌else◌,
}
use stock_recommendation_be.Base.Sorting.{sort_by}
use stock_recommendation_be.Market.IdxRules.{
  AutoRejectBand, default_bands, default_top_band, auto_reject_band, proximity,
}

-- In hundredths of a price.
abbrev pub approach_band : ℕ
approach_band = 2

abbrev pub unusual_move_sigma : ℕ
unusual_move_sigma = 2

pub data AlertKind : Type 0 where
  stance_changed : AlertKind
  level_crossed : AlertKind
  level_approached : AlertKind
  support_approached : AlertKind
  suggested_stop_reached : AlertKind
  limit_proximity : AlertKind
  unusual_move : AlertKind

pub data AlertDirection : Type 0 where
  up : AlertDirection
  down : AlertDirection
  no_direction : AlertDirection

-- The parts of a key: the issuer, the words, the level or 0, and the day of the session.
pub record DedupKey : Type 0 where
  pub asset : ℕ
  pub what : String
  pub level : ℕ
  pub session_day : Option ℕ

pub record AlertCandidate : Type 0 where
  pub kind : AlertKind
  pub direction : AlertDirection
  pub dedup_key : DedupKey
  pub observed_price : ℕ
  pub reference_price : Option ℕ

-- The arguments of `evaluate`; `day` is the date of the session.
pub record Observation : Type 0 where
  pub asset : ℕ
  pub price : ℕ
  pub previous_close : Option ℕ
  pub support_levels : List ℕ
  pub resistance_levels : List ℕ
  pub suggested_stop : Option ℕ
  pub previous_price : Option ℕ
  pub daily_volatility : Option ℕ
  pub stance : Option String
  pub previous_stance : Option String
  pub day : ℕ

unfoldable pub key : Observation → String → ℕ → DedupKey
key o what level = record { asset = o.asset; what = what; level = level; session_day = some o.day }

abbrev pub candidate :
    Observation → AlertKind → AlertDirection → String → (level reference : ℕ) → AlertCandidate
candidate o kind direction what level reference = record {
  kind = kind;
  direction = direction;
  dedup_key = key o what level;
  observed_price = o.price;
  reference_price = some reference;
}

-- `if stance and previous_stance and stance != previous_stance`.
unfoldable pub stance_differs : (stance previous : Option String) → Bool
stance_differs (some s) (some p) = not (str_eq s "") && not (str_eq p "") && not (str_eq s p)
stance_differs _ _ = false

-- How the stances make a key is an argument.
unfoldable pub stance_alerts :
    (Option String → Option String → String) → Observation → List AlertCandidate
unfolding stance_differs key
stance_alerts words o =
    if stance_differs o.stance o.previous_stance
    then record {
      kind = stance_changed;
      direction = no_direction;
      dedup_key = record {
        asset = o.asset;
        what = words o.previous_stance o.stance;
        level = 0;
        session_day = none;
      };
      observed_price = o.price;
      reference_price = none;
    }
      ∷ []
    else []

-- `previous_price <= level < price`.
unfoldable pub crosses_up : Option ℕ → (level price : ℕ) → Bool
crosses_up none level price = false
crosses_up (some previous) level price = leb previous level && ltb level price

-- `previous_price >= level > price`.
unfoldable pub crosses_down : Option ℕ → (level price : ℕ) → Bool
crosses_down none level price = false
crosses_down (some previous) level price = leb level previous && ltb price level

unfoldable pub resistance_alerts : Observation → ℕ → List AlertCandidate
unfolding crosses_up key
resistance_alerts o level =
    if crosses_up o.previous_price level o.price
    then candidate o level_crossed up "cross-up" level level ∷ []
    else if ltb o.price level && leb (100 * (level - o.price)) (approach_band * level)
    then candidate o level_approached up "near-resistance" level level ∷ []
    else []

unfoldable pub support_alerts : Observation → ℕ → List AlertCandidate
unfolding crosses_down key
support_alerts o level =
    if crosses_down o.previous_price level o.price
    then candidate o level_crossed down "cross-down" level level ∷ []
    else if ltb level o.price
        && ltb 0 level
        && leb (100 * (o.price - level)) (approach_band * level)
    then candidate o support_approached down "near-support" level level ∷ []
    else []

unfoldable pub each_level : (ℕ → List AlertCandidate) → List ℕ → List AlertCandidate
each_level alerts [] = []
each_level alerts (level ∷ levels) = alerts level ++ each_level alerts levels

unfoldable pub reverse_onto : List ℕ → List ℕ → List ℕ
reverse_onto [] done = done
reverse_onto (l ∷ ls) done = reverse_onto ls (l ∷ done)

-- `sorted(levels, reverse=True)`.
unfoldable pub sort_down : List ℕ → List ℕ
unfolding sort_by reverse_onto
sort_down levels = reverse_onto (sort_by (λ l. l) levels) []

unfoldable pub stop_alerts : Observation → List AlertCandidate
unfolding key
stop_alerts o = elim o.suggested_stop [
  | none ↦ []
  | some stop ↦
      if leb o.price stop then candidate o suggested_stop_reached down "stop" stop stop ∷ [] else []
]

-- At least 0.7 of the band is used; from 0.999 on, the ceiling is reached. The ceiling is in
-- ten-thousandths.
unfoldable pub limit_alerts : Observation → List AlertCandidate
unfolding auto_reject_band proximity key
limit_alerts o = elim (auto_reject_band default_bands default_top_band o.previous_close) [
  | none ↦ []
  | some band ↦ elim (proximity band o.price) [
    | none ↦ []
    | some (used, allowed) ↦
        if leb (7 * allowed) (10 * used)
        then candidate o limit_proximity up
            (if leb (999 * allowed) (1000 * used) then "limit-ceiling" else "limit-near") 0
            band.ceiling
          ∷ []
        else []
  ]
]

-- `abs(price - close) / close >= volatility * sigma`; a close of zero has no move.
unfoldable pub is_unusual : (price close volatility : ℕ) → Bool
is_unusual price close volatility =
    ltb 0 close
    && leb (volatility * unusual_move_sigma * close) (10000 * ((price - close) + (close - price)))

unfoldable pub unusual_alerts : Observation → List AlertCandidate
unfolding is_unusual key
unusual_alerts o = elim o.previous_close [
  | none ↦ []
  | some close ↦ elim o.daily_volatility [
    | none ↦ []
    | some volatility ↦
        if ltb 0 volatility && is_unusual o.price close volatility
        then (if ltb close o.price
            then candidate o unusual_move up "unusual-up" 0 close
            else candidate o unusual_move down "unusual-down" 0 close)
          ∷ []
        else []
  ]
]

unfoldable pub evaluate :
    (Option String → Option String → String) → Observation → List AlertCandidate
unfolding stance_alerts resistance_alerts support_alerts each_level sort_down stop_alerts
    limit_alerts unusual_alerts sort_by
evaluate words o =
    stance_alerts words o
    ++ each_level (resistance_alerts o) (sort_by (λ l. l) o.resistance_levels)
    ++ each_level (support_alerts o) (sort_down o.support_levels)
    ++ stop_alerts o
    ++ limit_alerts o
    ++ unusual_alerts o
