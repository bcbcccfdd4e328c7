-- ===== src/Agents/Triage.antt =====
-- How much of the pipeline a run is worth: src/aidss/agents/triage.py. Scores are in tenths and ratios
-- in hundredths; a signal is `none` where it is missing or no number. The facts behind a decision are
-- data, their wording left out.
pub mod Depths
use stock_recommendation_be.Base.{
  ℕ, ◌+◌, ◌*◌, min, String, Bool, true, false, Option, none, some, List, [], ◌∷◌, ◌++◌, length, leb,
  ltb, ◌==◌, if◌then◌else◌,
}
use stock_recommendation_be.Llm.Router.{TaskComplexity, light, complex}

abbrev pub busy_criteria : ℕ
busy_criteria = 3

abbrev pub notable_range : ℕ
notable_range = 150

abbrev pub notable_volume : ℕ
notable_volume = 180

pub data Depth : Type 0 where
  full_run : Depth
  standard_run : Depth
  light_run : Depth

pub data Fact : Type 0 where
  requested_directly : Fact
  criteria_matched : ℕ → Fact
  wide_session : ℕ → Fact
  high_volume : ℕ → Fact
  nothing_stands_out : Fact
  not_scanned_yet : Fact

pub record Triage : Type 0 where
  pub depth : Depth
  pub score : ℕ
  pub because : List Fact

-- What is stored of the last scan.
pub record Scan : Type 0 where
  pub matched : List String
  pub range_ratio : Option ℕ
  pub volume_ratio : Option ℕ

unfoldable pub complexity_of : Depth → TaskComplexity
complexity_of light_run = light
complexity_of full_run = complex
complexity_of standard_run = complex

unfoldable pub matched_score : List String → ℕ
matched_score matched = if leb busy_criteria (length matched) then 5 else 2 * length matched

unfoldable pub matched_facts : List String → List Fact
matched_facts [] = []
matched_facts (m ∷ matched) = criteria_matched (length (m ∷ matched)) ∷ []

-- Whether a signal is there and reaches its bound.
unfoldable pub is_notable : (bound : ℕ) → Option ℕ → Bool
is_notable bound none = false
is_notable bound (some value) = leb bound value

unfoldable pub score_of : Scan → ℕ
unfolding matched_score is_notable
score_of scan =
    matched_score scan.matched
    + (if is_notable notable_range scan.range_ratio then 3 else 0)
    + (if is_notable notable_volume scan.volume_ratio then 2 else 0)

unfoldable pub noted : (ℕ → Fact) → (bound : ℕ) → Option ℕ → List Fact
noted fact bound none = []
noted fact bound (some value) = if leb bound value then fact value ∷ [] else []

unfoldable pub depth_of : (score : ℕ) → Depth
depth_of score = if leb 5 score then full_run else if ltb 0 score then standard_run else light_run

unfoldable pub assess : Scan → (requested_full : Bool) → Triage
unfolding score_of matched_facts noted depth_of
assess scan true = record { depth = full_run; score = 10; because = requested_directly ∷ [] }
assess scan false =
    let score = score_of scan in
    let because =
      matched_facts scan.matched
      ++ noted wide_session notable_range scan.range_ratio
      ++ noted high_volume notable_volume scan.volume_ratio in
    record {
      depth = depth_of score;
      score = min score 10;
      because = if score == 0 then because ++ nothing_stands_out ∷ [] else because;
    }

abbrev pub no_scan : Scan
no_scan = record { matched = []; range_ratio = none; volume_ratio = none }

-- `triage_for`, on the latest stored scan of the ticker.
unfoldable pub triage_for : Option Scan → (requested_full : Bool) → Triage
unfolding assess
triage_for latest true = assess no_scan true
triage_for none false = record { depth = standard_run; score = 0; because = not_scanned_yet ∷ [] }
triage_for (some scan) false = assess scan false
