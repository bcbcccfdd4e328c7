-- ===== src/Jobs/Quota.antt =====
-- Daily provider allowances: src/aidss/jobs/quota.py, over the rows of `ProviderQuotaUsage`, whose
-- primary key is the provider and the day. Python's ints are signed and unbounded, hence ℤ; an
-- instant is a number of seconds since the epoch (UTC), a day a number of days since it. A
-- reservation runs on a session of its own (`reserve_durably`), which has written nothing before,
-- so a rollback goes back to what the others have committed.
pub mod Spending
pub mod Exact
use stock_recommendation_be.Base.{
  ℕ, ◌+◌, ◌*◌, ◌/◌, String, Bool, true, false, not, ◌&&◌, ◌||◌, Option, none, some, List, [], ◌∷◌,
  ◌++◌, ◌==◌, if◌then◌else◌, str_eq, is_some, find, any,
}
use stock_recommendation_be.Base.Int.{ℤ, pos, negsuc, ◌+ℤ◌, ◌-ℤ◌, leb_ℤ, ltb_ℤ}
use stock_recommendation_be.Base.Sql.{update_where, rowcount}

pub record ProviderQuotaUsage : Type 0 where
  pub provider : String
  pub usage_date : ℕ
  pub used : ℤ

-- A limit of zero or less: no ceiling.
abbrev pub unlimited_mark : ℤ
unlimited_mark = pos 0

pub record QuotaState : Type 0 where
  pub provider : String
  pub day : ℕ
  pub used : ℤ
  pub limit : ℤ

pub unlimited : QuotaState → Bool
unlimited s = leb_ℤ s.limit unlimited_mark

pub remaining : QuotaState → ℤ
unfolding unlimited ◌-ℤ◌
remaining s =
    if unlimited s
    then negsuc 0
    else if ltb_ℤ (s.limit -ℤ s.used) (pos 0)
    then pos 0
    else s.limit -ℤ s.used

pub exhausted : QuotaState → Bool
unfolding unlimited
exhausted s = not (unlimited s) && leb_ℤ s.limit s.used

unfoldable pub today : ℕ → ℕ
today now = now / 86400

pub next_reset : ℕ → ℕ
unfolding today
next_reset now = (today now + 1) * 86400

unfoldable pub is_row : String → ℕ → ProviderQuotaUsage → Bool
is_row p d r = str_eq r.provider p && r.usage_date == d

pub state : String → ℤ → ℕ → List ProviderQuotaUsage → QuotaState
unfolding is_row today
state p limit now t = record {
  provider = p;
  day = today now;
  used = elim (find (is_row p (today now)) t) [ none ↦ pos 0 | some r ↦ r.used ];
  limit = limit;
}

-- The condition of the conditional UPDATE.
pub has_room : String → ℕ → ℤ → ℤ → ProviderQuotaUsage → Bool
unfolding is_row ◌-ℤ◌
has_room p d limit count r = is_row p d r && leb_ℤ r.used (limit -ℤ count)

pub spend : ℤ → ProviderQuotaUsage → ProviderQuotaUsage
unfolding ◌+ℤ◌
spend count r = record r { used = r.used +ℤ count }

pub first_use : String → ℕ → ℤ → ProviderQuotaUsage
first_use p d count = record { provider = p; usage_date = d; used = count }

-- `race` is what other workers commit between the SELECT and the flush of the INSERT.
pub insert_first_use :
    String
    → ℕ
    → ℤ
    → ℤ
    → List ProviderQuotaUsage
    → List ProviderQuotaUsage
    → Bool × List ProviderQuotaUsage
unfolding is_row has_room spend first_use
insert_first_use p d count limit race t =
    if any (is_row p d) (t ++ race)
    then if rowcount (has_room p d limit count) (t ++ race) == 0
      then (false, t ++ race)
      else (true, update_where (has_room p d limit count) (spend count) (t ++ race))
    else (true, (t ++ race) ++ first_use p d count ∷ [])

-- `_record`: counted without a ceiling.
pub record_use :
    String → ℕ → ℤ → List ProviderQuotaUsage → List ProviderQuotaUsage → List ProviderQuotaUsage
unfolding is_row spend first_use
record_use p d count race t =
    if not (rowcount (is_row p d) t == 0)
    then update_where (is_row p d) (spend count) t
    else if any (is_row p d) (t ++ race)
    then update_where (is_row p d) (spend count) (t ++ race)
    else (t ++ race) ++ first_use p d count ∷ []

pub reserve :
    String
    → ℤ
    → ℤ
    → ℕ
    → List ProviderQuotaUsage
    → List ProviderQuotaUsage
    → Bool × List ProviderQuotaUsage
unfolding is_row has_room spend today insert_first_use record_use
reserve p limit count now race t =
    let d = today now in
    if leb_ℤ limit unlimited_mark
    then (true, record_use p d count race t)
    else if leb_ℤ count (pos 0)
    then (true, t)
    else if not (rowcount (has_room p d limit count) t == 0)
    then (true, update_where (has_room p d limit count) (spend count) t)
    else if is_some (find (is_row p d) t)
    then (false, t)
    else if ltb_ℤ limit count
    then (false, t)
    else insert_first_use p d count limit race t

-- `reserve_durably`: `commits` says whether the commit goes through; `none` is the exception that
-- is raised again after the rollback.
pub reserve_durably :
    String
    → ℤ
    → ℤ
    → ℕ
    → Bool
    → List ProviderQuotaUsage
    → List ProviderQuotaUsage
    → Option Bool × List ProviderQuotaUsage
unfolding reserve
reserve_durably p limit count now commits race t =
    let (granted, t') = reserve p limit count now race t in
    if commits then (some granted, t') else (none, t ++ race)
