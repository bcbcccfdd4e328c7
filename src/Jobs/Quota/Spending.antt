-- ===== src/Jobs/Quota/Spending.antt =====
-- The allowance is never exceeded: `reserve` of src/aidss/jobs/quota.py.
use stock_recommendation_be.Base.{
  ℕ, ◌≡◌, refl, inl, inr, String, true, false, not, List, [], ◌∷◌, ◌++◌, ◌==◌, arith, if◌then◌else◌,
  is_some, find, any, All, All-append, Bool-cases,
}
use stock_recommendation_be.Base.Int.{ℤ, pos, ◌≤ℤ◌, leb_ℤ, ltb_ℤ, +ℤ_parts, -ℤ_parts}
use stock_recommendation_be.Base.Sql.{update_where, rowcount, All-update_where}
use stock_recommendation_be.Jobs.Quota.{
  ProviderQuotaUsage, unlimited_mark, today, is_row, has_room, spend, first_use, insert_first_use,
  reserve,
}

-- The row of a provider and a day has not used more than the limit.
abbrev pub WithinLimit : String → ℕ → ℤ → ProviderQuotaUsage → Type 0
WithinLimit p d limit r = is_row p d r ≡ true → r.used ≤ℤ limit

spend-WithinLimit :
    (p : String) (d : ℕ) (limit count : ℤ) (r : ProviderQuotaUsage)
    → has_room p d limit count r ≡ true
    → WithinLimit p d limit r
    → WithinLimit p d limit (spend count r)
unfolding has_room spend
spend-WithinLimit p d limit count r h w = λ _. grind (arith, +ℤ_parts, -ℤ_parts)

first_use-WithinLimit :
    (p : String) (d : ℕ) (limit count : ℤ)
    → ltb_ℤ limit count ≡ false
    → WithinLimit p d limit (first_use p d count)
unfolding first_use
first_use-WithinLimit p d limit count h = λ _. ground arith

-- The branch of a configured limit.
pub limited :
    (p : String) (limit count : ℤ) (now : ℕ) (race t : List ProviderQuotaUsage)
    → pos 1 ≤ℤ limit
    → reserve p limit count now race t ≡ (
        if leb_ℤ count (pos 0)
        then (true, t)
        else if not (rowcount (has_room p (today now) limit count) t == 0)
        then (true, update_where (has_room p (today now) limit count) (spend count) t)
        else if is_some (find (is_row p (today now)) t)
        then (false, t)
        else if ltb_ℤ limit count
        then (false, t)
        else insert_first_use p (today now) count limit race t)
unfolding reserve
limited p limit count now race t l = elim (Bool-cases (leb_ℤ limit unlimited_mark)) [
  | inl h ↦ absurd (ground arith)
  | inr h ↦ rw h refl
]

insert_first_use-WithinLimit :
    (p : String) (d : ℕ) (count limit : ℤ) (race t : List ProviderQuotaUsage)
    → All (WithinLimit p d limit) (t ++ race)
    → ltb_ℤ limit count ≡ false
    → All (WithinLimit p d limit) (insert_first_use p d count limit race t).1
unfolding insert_first_use
insert_first_use-WithinLimit p d count limit race t both g =
    elim (Bool-cases (any (is_row p d) (t ++ race))) [
      | inl n ↦ elim (Bool-cases (rowcount (has_room p d limit count) (t ++ race) == 0)) [
        | inl m ↦ rw (n, m) both
        | inr m ↦
            rw (n, m)
              (All-update_where (WithinLimit p d limit) (has_room p d limit count) (spend count)
                (t ++ race) (spend-WithinLimit p d limit count) both)
      ]
      | inr n ↦ rw n (
          All-append (WithinLimit p d limit) (t ++ race) (first_use p d count ∷ []) both
            (first_use-WithinLimit p d limit count g, tt))
    ]

-- With a limit, and whatever other workers do meanwhile within it, no reservation takes the day's
-- row above the limit.
pub reserve-WithinLimit :
    (p : String) (limit count : ℤ) (now : ℕ) (race t : List ProviderQuotaUsage)
    → pos 1 ≤ℤ limit
    → All (WithinLimit p (today now) limit) t
    → All (WithinLimit p (today now) limit) race
    → All (WithinLimit p (today now) limit) (reserve p limit count now race t).1
reserve-WithinLimit p limit count now race t l a b =
    let spent = λ (u : List ProviderQuotaUsage) (h : All (WithinLimit p (today now) limit) u).
      All-update_where (WithinLimit p (today now) limit) (has_room p (today now) limit count)
        (spend count) u (spend-WithinLimit p (today now) limit count) h in
    let both = All-append (WithinLimit p (today now) limit) t race a b in
    elim (Bool-cases (leb_ℤ count (pos 0))) [
      | inl c ↦ rw (limited p limit count now race t l, c) a
      | inr c ↦ elim (Bool-cases (rowcount (has_room p (today now) limit count) t == 0)) [
        | inr m ↦ rw (limited p limit count now race t l, c, m) (spent t a)
        | inl m ↦ elim (Bool-cases (is_some (find (is_row p (today now)) t))) [
          | inl f ↦ rw (limited p limit count now race t l, c, m, f) a
          | inr f ↦ elim (Bool-cases (ltb_ℤ limit count)) [
            | inl g ↦ rw (limited p limit count now race t l, c, m, f, g) a
            | inr g ↦
                rw (limited p limit count now race t l, c, m, f, g)
                  (insert_first_use-WithinLimit p (today now) count limit race t both g)
          ]
        ]
      ]
    ]
