-- ===== src/Monitoring/Recording.antt =====
-- Storing the alerts that are new to a reader: `record` of src/aidss/monitoring/alerts.py. A table is
-- the list of its rows; what other sessions commit between the lookup and the flush for the n-th
-- candidate is an argument. A Session keeps the committed table beside the working one, for the rollback.
pub mod Once
use stock_recommendation_be.Base.{
  ℕ, suc, ◌+◌, Bool, true, false, ◌&&◌, Option, none, some, List, [], ◌∷◌, ◌++◌, any, ◌==◌, str_eq,
  if◌then◌else◌,
}
use stock_recommendation_be.Monitoring.Alerts.{AlertKind, AlertDirection, DedupKey, AlertCandidate}

pub record Alert : Type 0 where
  pub user_id : ℕ
  pub asset_id : ℕ
  pub kind : AlertKind
  pub direction : AlertDirection
  pub observed_price : ℕ
  pub reference_price : Option ℕ
  pub dedup_key : DedupKey

pub record Session : Type 0 where
  pub committed : List Alert
  pub working : List Alert

unfoldable pub same_day : Option ℕ → Option ℕ → Bool
same_day none none = true
same_day (some d) (some e) = d == e
same_day _ _ = false

unfoldable pub same_key : DedupKey → DedupKey → Bool
unfolding same_day
same_key k l =
    k.asset == l.asset
    && str_eq k.what l.what
    && k.level == l.level
    && same_day k.session_day l.session_day

-- The key of a row is the reader's and the candidate's.
unfoldable pub has_key : (user : ℕ) → DedupKey → Alert → Bool
unfolding same_key
has_key user k a = a.user_id == user && same_key a.dedup_key k

unfoldable pub is_known : (user : ℕ) → AlertCandidate → List Alert → Bool
unfolding has_key
is_known user c rows = any (has_key user c.dedup_key) rows

abbrev pub new_alert : (user asset : ℕ) → AlertCandidate → Alert
new_alert user asset c = record {
  user_id = user;
  asset_id = asset;
  kind = c.kind;
  direction = c.direction;
  observed_price = c.observed_price;
  reference_price = c.reference_price;
  dedup_key = c.dedup_key;
}

unfoldable pub others_commit : List Alert → Session → Session
others_commit rows s = record { committed = s.committed ++ rows; working = s.working ++ rows }

-- `add` and `flush`, with the handler of `IntegrityError`: the whole transaction is rolled back.
unfoldable pub add_and_flush : (user asset : ℕ) → AlertCandidate → Session → List Alert × Session
unfolding is_known
add_and_flush user asset c s =
    if is_known user c s.working then ([], record s { working = s.committed }) else (
      new_alert user asset c ∷ [],
      record s { working = s.working ++ new_alert user asset c ∷ [] },
    )

unfoldable pub record_one :
    (user asset : ℕ) → List Alert → AlertCandidate → Session → List Alert × Session
unfolding add_and_flush is_known others_commit
record_one user asset race c s =
    if is_known user c s.working then ([], s) else add_and_flush user asset c (others_commit race s)

-- The loop: what it returns as stored, and the session.
unfoldable pub record_from :
    (user asset : ℕ)
    → (race : ℕ → List Alert) → (n : ℕ) → List AlertCandidate
    → Session
    → List Alert × Session
unfolding record_one
record_from user asset race n [] s = ([], s)
record_from user asset race n (c ∷ candidates) s =
    let first = record_one user asset (race n) c s in
    let rest = record_from user asset race (suc n) candidates first.1 in (first.0 ++ rest.0, rest.1)

unfoldable pub record_alerts :
    (user asset : ℕ)
    → (race : ℕ → List Alert) → List AlertCandidate
    → Session
    → List Alert × Session
unfolding record_from
record_alerts user asset race candidates s = record_from user asset race 0 candidates s
