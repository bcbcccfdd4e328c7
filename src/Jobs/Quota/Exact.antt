-- ===== src/Jobs/Quota/Exact.antt =====
-- A reservation is granted exactly when it fits, and counted exactly once: `reserve` and
-- `next_reset` of src/aidss/jobs/quota.py, with no other worker in between.
use mathlib.Core.List.{append-nil}
use stock_recommendation_be.Base.{
  ℕ, ◌≤◌, ◌≡◌, refl, sym, ◌∙◌, inl, inr, String, true, false, not, ◌&&◌, List, [], ◌∷◌, ◌++◌, ◌==◌,
  arith, if◌then◌else◌, str_eq, str_eq_refl, is_some, find, any, Bool-cases, any-find,
}
use stock_recommendation_be.Base.Int.{
  ℤ, pos, ◌+ℤ◌, ◌-ℤ◌, ◌≤ℤ◌, leb_ℤ, ltb_ℤ, int_laws, +ℤ_parts, -ℤ_parts,
}
use stock_recommendation_be.Base.Sql.{update_where, rowcount, update_where_no_match}
use stock_recommendation_be.Jobs.Quota.{
  ProviderQuotaUsage, today, is_row, has_room, spend, first_use, insert_first_use, reserve,
}
use stock_recommendation_be.Jobs.Quota.Spending.{limited}

-- What has been recorded for a provider and a day.
pub used_of : String → ℕ → List ProviderQuotaUsage → ℤ
used_of p d [] = pos 0
used_of p d (r ∷ t) = if is_row p d r then r.used +ℤ used_of p d t else used_of p d t

-- At most one row for each provider and day: the primary key.
abbrev pub IsSingle : String → ℕ → List ProviderQuotaUsage → Type 0
IsSingle p d t = rowcount (is_row p d) t ≤ 1

+ℤ_zero : (u : ℤ) → u +ℤ pos 0 ≡ u
+ℤ_zero u = omega int_laws

zero_+ℤ : (u : ℤ) → pos 0 +ℤ u ≡ u
zero_+ℤ u = omega int_laws

fits : (u limit count : ℤ) → leb_ℤ u (limit -ℤ count) ≡ leb_ℤ (u +ℤ count) limit
fits u limit count = ground (arith, +ℤ_parts u count, -ℤ_parts limit count)

module _ (p : String) (d : ℕ) (limit count : ℤ) where
  no_room :
      (t : List ProviderQuotaUsage)
      → rowcount (is_row p d) t ≡ 0
      → rowcount (has_room p d limit count) t ≡ 0
  unfolding has_room
  no_room [] h = refl
  no_room (r ∷ t) h = elim (Bool-cases (is_row p d r)) [
    | inl y ↦ absurd (ground arith)
    | inr n ↦ rw n (no_room t (ground arith))
  ]

  unused : (t : List ProviderQuotaUsage) → rowcount (is_row p d) t ≡ 0 → used_of p d t ≡ pos 0
  unfolding used_of
  unused [] h = refl
  unused (r ∷ t) h = elim (Bool-cases (is_row p d r)) [
    | inl y ↦ absurd (ground arith)
    | inr n ↦ rw n (unused t (ground arith))
  ]

  is_row-spend : (r : ProviderQuotaUsage) → is_row p d (spend count r) ≡ is_row p d r
  unfolding is_row spend
  is_row-spend r = refl

  spend_used : (r : ProviderQuotaUsage) → (spend count r).used ≡ r.used +ℤ count
  unfolding spend
  spend_used r = refl

  -- There is room exactly when the sum stays within the limit.
  room_exact :
      (t : List ProviderQuotaUsage)
      → IsSingle p d t
      → any (is_row p d) t ≡ true
      → (rowcount (has_room p d limit count) t == 0) ≡ not (leb_ℤ (used_of p d t +ℤ count) limit)
  unfolding has_room used_of
  room_exact [] s h = cc
  room_exact (r ∷ t) s h = elim (Bool-cases (is_row p d r)) [
    | inl y ↦
        let alone : rowcount (is_row p d) t ≡ 0 = ground arith in
        rw (y, unused t alone, +ℤ_zero r.used)
          (ground (arith, no_room t alone, fits r.used limit count, y))
    | inr n ↦ rw n (room_exact t (ground arith) (ground arith))
  ]

  used_of-update :
      (t : List ProviderQuotaUsage)
      → IsSingle p d t
      → used_of p d (update_where (has_room p d limit count) (spend count) t) ≡ (
          if rowcount (has_room p d limit count) t == 0
          then used_of p d t
          else used_of p d t +ℤ count)
  unfolding has_room used_of
  used_of-update [] s = refl
  used_of-update (r ∷ t) s = elim (Bool-cases (is_row p d r)) [
    | inr n ↦ rw (n, n) (used_of-update t (ground arith))
    | inl y ↦
        let alone : rowcount (is_row p d) t ≡ 0 = ground arith in
        let none_left = no_room t alone in
        rw
          (
            update_where_no_match (has_room p d limit count) (spend count) t none_left,
            unused t alone,
          )
          (elim (Bool-cases (leb_ℤ r.used (limit -ℤ count))) [
            | inl fit ↦
                rw (y, fit, is_row-spend r, y)
                  (rw (none_left, spend_used r, +ℤ_zero (r.used +ℤ count), +ℤ_zero r.used) refl)
            | inr full ↦ rw (y, full, y, none_left) refl
          ])
  ]

  used_of-snoc :
      (t : List ProviderQuotaUsage)
      → rowcount (is_row p d) t ≡ 0
      → used_of p d (t ++ first_use p d count ∷ []) ≡ count
  unfolding used_of first_use is_row
  used_of-snoc [] h = rw (str_eq_refl p) (ground (arith, +ℤ_zero count))
  used_of-snoc (r ∷ t) h = elim (Bool-cases (str_eq r.provider p && r.usage_date == d)) [
    | inl y ↦ absurd (ground arith)
    | inr n ↦ rw n (used_of-snoc t (ground arith))
  ]

  none_rowcount :
      (t : List ProviderQuotaUsage) → any (is_row p d) t ≡ false → rowcount (is_row p d) t ≡ 0
  none_rowcount [] h = refl
  none_rowcount (r ∷ t) h = ground (arith, none_rowcount t)

insert_free :
    (p : String) (d : ℕ) (limit count : ℤ) (t : List ProviderQuotaUsage)
    → any (is_row p d) t ≡ false
    → insert_first_use p d count limit [] t ≡ (true, t ++ first_use p d count ∷ [])
unfolding insert_first_use
insert_free p d limit count t h = rw append-nil (rw h refl)

-- The first reservation of a day.
reserve_new :
    (p : String) (limit count : ℤ) (now : ℕ) (t : List ProviderQuotaUsage)
    → any (is_row p (today now)) t ≡ false
    → let r =
        if not (rowcount (has_room p (today now) limit count) t == 0)
        then (true, update_where (has_room p (today now) limit count) (spend count) t)
        else if is_some (find (is_row p (today now)) t)
        then (false, t)
        else if ltb_ℤ limit count
        then (false, t)
        else insert_first_use p (today now) count limit [] t in
      (r.0 ≡ leb_ℤ (used_of p (today now) t +ℤ count) limit)
      × (used_of p (today now) r.1
          ≡ (if r.0 then used_of p (today now) t +ℤ count else used_of p (today now) t))
reserve_new p limit count now t new =
    let none_left = none_rowcount p (today now) limit count t new in
    rw
      (
        no_room p (today now) limit count t none_left,
        sym (any-find (is_row p (today now)) t),
        new,
        insert_free p (today now) limit count t new,
        unused p (today now) limit count t none_left,
        zero_+ℤ count,
      )
      (elim (Bool-cases (ltb_ℤ limit count)) [
        | inl over ↦ rw over (ground arith, unused p (today now) limit count t none_left)
        | inr fit ↦ rw fit (ground arith, used_of-snoc p (today now) limit count t none_left)
      ])

-- A positive number of calls under a positive limit is granted exactly when, with what has been
-- recorded for the day, it stays within the limit. If granted it is added to the record once, and if
-- refused the record stays as it is.
pub reserve_exact :
    (p : String) (limit count : ℤ) (now : ℕ) (t : List ProviderQuotaUsage)
    → pos 1 ≤ℤ limit
    → pos 1 ≤ℤ count
    → IsSingle p (today now) t
    → let (granted, t') = reserve p limit count now [] t in
      (granted ≡ leb_ℤ (used_of p (today now) t +ℤ count) limit)
      × (used_of p (today now) t'
          ≡ (if granted then used_of p (today now) t +ℤ count else used_of p (today now) t))
reserve_exact p limit count now t l c s =
    rw (limited p limit count now [] t l) (elim (Bool-cases (leb_ℤ count (pos 0))) [
      | inl zero_or_less ↦ absurd (ground arith)
      | inr positive ↦ elim (Bool-cases (any (is_row p (today now)) t)) [
        | inl known ↦ elim (Bool-cases (rowcount (has_room p (today now) limit count) t == 0)) [
          | inl full ↦
              rw (positive, full, sym (any-find (is_row p (today now)) t), known)
                (ground (arith, full, room_exact p (today now) limit count t s known), refl)
          | inr room ↦
              rw (positive, room)
                (
                  ground (arith, room, room_exact p (today now) limit count t s known),
                  used_of-update p (today now) limit count t s ∙ rw room refl,
                )
        ]
        | inr new ↦ rw positive (reserve_new p limit count now t new)
      ]
    ])
