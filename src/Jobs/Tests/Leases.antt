-- ===== src/Jobs/Tests/Leases.antt =====
-- The leader lease and the daily allowance of src/aidss/jobs at small inputs.
use stock_recommendation_be.Base.{
  ◌≡◌, refl, true, false, some, List, [], ◌∷◌, ltb, arith, if◌then◌else◌, All, str_eq, str_ne,
}
use stock_recommendation_be.Base.Int.{pos, ◌+ℤ◌, leb_ℤ}
use stock_recommendation_be.Jobs.Leader.{
  LeaderLease, LeaseHolder, LeaderView, is_named, acquire, release, held, expired, current_leader,
}
use stock_recommendation_be.Jobs.Leader.Exclusion.{LeaseAttempt, attempts, acquire_excludes}
use stock_recommendation_be.Jobs.Leader.Handover.{lease_passes_on, current_leader_lem}
use stock_recommendation_be.Jobs.Quota.{ProviderQuotaUsage, today, is_row, reserve}
use stock_recommendation_be.Jobs.Quota.Exact.{used_of, reserve_exact}
use stock_recommendation_be.Jobs.Quota.Spending.{WithinLimit, reserve-WithinLimit}

abbrev first_instance : LeaseHolder
first_instance = record { name = "scheduler"; holder = "host:1"; ttl_seconds = 180 }

abbrev second_instance : LeaseHolder
second_instance = record { name = "scheduler"; holder = "host:2"; ttl_seconds = 180 }

abbrev leases : List LeaderLease
leases = record { name = "scheduler"; holder = "host:1"; acquired_at = 100; expires_at = 280 } ∷ []

-- The second instance tries twice before the lease runs out, once as another one commits a row.
abbrev rival_attempts : List LeaseAttempt
rival_attempts =
    record { instance = second_instance; at_time = 150; race = [] }
    ∷ record { instance = second_instance; at_time = 279; race = leases }
    ∷ []

acquire_excludes_example :
    attempts rival_attempts (acquire first_instance 100 [] []).1
    ≡ (false, (acquire first_instance 100 [] []).1)
unfolding acquire str_eq
acquire_excludes_example = acquire_excludes first_instance 100 [] [] rival_attempts tt refl (
  (refl, str_ne "host:2" "host:1" refl, omega arith),
  ((refl, str_ne "host:2" "host:1" refl, omega arith), tt),
)

lease_passes_on_example :
    ((acquire first_instance 270 [] leases).0 ≡ true)
    × ((acquire second_instance 300 [] leases).0 ≡ true)
    × ((release first_instance leases).0 ≡ true)
    × ((acquire second_instance 270 [] (release first_instance leases).1).0 ≡ true)
unfolding is_named str_eq
lease_passes_on_example =
    lease_passes_on first_instance second_instance 280 270 300 [] leases
      (((λ _. (refl, refl)), tt), refl) refl (omega arith)

current_leader_example :
    (v : LeaderView) × (current_leader "scheduler" 200 leases ≡ some v)
    × (v.holder ≡ "host:1")
    × (v.expires_at ≡ 280)
    × (v.state ≡ (if ltb 200 280 then held else expired))
unfolding is_named str_eq
current_leader_example =
    current_leader_lem first_instance 280 200 leases (((λ _. (refl, refl)), tt), refl)

abbrev usage : List ProviderQuotaUsage
usage = record { provider = "alphavantage"; usage_date = 0; used = pos 23 } ∷ []

reserve-WithinLimit_example :
    All
      (WithinLimit "alphavantage" (today 500) (pos 25))
      (reserve "alphavantage" (pos 25) (pos 1) 500 [] usage).1
reserve-WithinLimit_example =
    reserve-WithinLimit "alphavantage" (pos 25) (pos 1) 500 [] usage (omega arith)
      ((λ _. omega arith), tt) tt

reserve_exact_example :
    let (granted, t') = reserve "alphavantage" (pos 25) (pos 3) 500 [] usage in
    (granted ≡ leb_ℤ (used_of "alphavantage" (today 500) usage +ℤ pos 3) (pos 25))
    × (used_of "alphavantage" (today 500) t' ≡ (
        if granted
        then used_of "alphavantage" (today 500) usage +ℤ pos 3
        else used_of "alphavantage" (today 500) usage))
unfolding is_row today str_eq
reserve_exact_example =
    reserve_exact "alphavantage" (pos 25) (pos 3) 500 usage (omega arith) (omega arith)
      (omega arith)
