-- ===== src/Monitoring/Agenda.antt =====
-- The calendar of dated events and its notices: src/aidss/monitoring/agenda.py, on IssuerAgenda of
-- src/aidss/db/models/collaboration.py. A date is a number of days, and `str.upper` an argument. The
-- message of a notice is left out. Sessions are opened with `autoflush=False`
-- (src/aidss/db/base.py): a SELECT does not see what the same call has added, and a key that it has
-- added twice is an IntegrityError of the flush at its end. No other session commits meanwhile.
pub mod Events
pub mod Calendar
pub mod Notices
use stock_recommendation_be.Base.{
  ℕ, suc, ◌+◌, ◌-◌, String, Bool, true, false, ◌&&◌, ◌||◌, not, Option, none, some, List, [], ◌∷◌,
  ◌++◌, filter, map, any, length, get_or, is_some, ltb, leb, ◌==◌, str_eq, if◌then◌else◌,
}
use stock_recommendation_be.Base.Dict.{Dict, get}
use stock_recommendation_be.Base.Sql.{update_where}

pub data AgendaKind : Type 0 where
  earnings : AgendaKind
  rups : AgendaKind
  dividend : AgendaKind
  ex_date : AgendaKind
  stock_split : AgendaKind
  rights_issue : AgendaKind
  other : AgendaKind

pub data AgendaSource : Type 0 where
  exchange : AgendaSource
  news : AgendaSource
  manual : AgendaSource

-- What the unique constraint compares.
pub record EventKey : Type 0 where
  pub ticker : String
  pub kind : AgendaKind
  pub scheduled_for : ℕ

-- What an import corrects.
pub record Content : Type 0 where
  pub title : String
  pub detail : Option String
  pub source : AgendaSource
  pub source_url : Option String

pub record AgendaEntry : Type 0 where
  pub key : EventKey
  pub content : Content

-- A row of the calendar.
pub record IssuerAgenda : Type 0 where
  pub key : EventKey
  pub content : Content

abbrev pub notice_days : ℕ
notice_days = 7

abbrev pub mechanical_notice_days : ℕ
mechanical_notice_days = 14

unfoldable pub notice_window : AgendaKind → ℕ
notice_window ex_date = mechanical_notice_days
notice_window stock_split = mechanical_notice_days
notice_window _ = notice_days

abbrev pub kind_index : AgendaKind → ℕ
kind_index earnings = 0
kind_index rups = 1
kind_index dividend = 2
kind_index ex_date = 3
kind_index stock_split = 4
kind_index rights_issue = 5
kind_index other = 6

unfoldable pub same_event : EventKey → EventKey → Bool
same_event k l =
    str_eq k.ticker l.ticker
    && kind_index k.kind == kind_index l.kind
    && k.scheduled_for == l.scheduled_for

unfoldable pub is_of : EventKey → IssuerAgenda → Bool
unfolding same_event
is_of k row = same_event row.key k

-- The row of an event is corrected; the unique constraint lets an event have one row.
unfoldable pub correct : AgendaEntry → List IssuerAgenda → List IssuerAgenda
unfolding is_of
correct e rows = update_where (is_of e.key) (λ row. record row { content = e.content }) rows

abbrev pub new_row : AgendaEntry → IssuerAgenda
new_row e = record { key = e.key; content = e.content }

pub record StoreReport : Type 0 where
  pub added : ℕ
  pub updated : ℕ

abbrev pub in_upper : (String → String) → AgendaEntry → AgendaEntry
in_upper upper e = record {
  key = record {
    ticker = upper e.key.ticker;
    kind = e.key.kind;
    scheduled_for = e.key.scheduled_for;
  };
  content = e.content;
}

-- The loop: the report, the rows that the SELECTs see, and those that are added to the session.
unfoldable pub store_from :
    (upper : String → String)
    → List AgendaEntry
    → StoreReport
    → (known new : List IssuerAgenda) → StoreReport × List IssuerAgenda × List IssuerAgenda
unfolding is_of correct
store_from upper [] report known new = (report, known, new)
store_from upper (entry ∷ entries) report known new =
    let e = in_upper upper entry in
    let corrected =
      store_from upper entries (record report { updated = suc report.updated }) (correct e known)
        new in
    let inserted =
      store_from upper entries (record report { added = suc report.added }) known
        (new ++ new_row e ∷ []) in
    if any (is_of e.key) known then corrected else inserted

-- The unique constraint, over the rows that the flush inserts.
unfoldable pub clash : List IssuerAgenda → Bool
unfolding is_of
clash [] = false
clash (row ∷ rows) = any (is_of row.key) rows || clash rows

-- The report, or nothing where the flush raises IntegrityError, which its transaction does not
-- survive.
unfoldable pub store_entries :
    (upper : String → String)
    → List AgendaEntry
    → List IssuerAgenda
    → Option StoreReport × List IssuerAgenda
unfolding store_from clash
store_entries upper entries table =
    let (report, known, new) =
      store_from upper entries (record { added = 0; updated = 0 }) table [] in
    if clash new then (none, table) else (some report, known ++ new)

-- The notice of one event to one reader.
pub record Notice : Type 0 where
  pub user_id : ℕ
  pub asset_id : ℕ
  pub event : EventKey
  pub days_away : ℕ

abbrev pub Watched : Type 0
Watched = Dict (List (ℕ × ℕ))

-- The query of `raise_notices`.
unfoldable pub is_near : (today : ℕ) → Watched → IssuerAgenda → Bool
unfolding get
is_near today watched row =
    leb today row.key.scheduled_for
    && leb row.key.scheduled_for (today + mechanical_notice_days)
    && is_some (get row.key.ticker watched)

unfoldable pub notices_to : (today : ℕ) → IssuerAgenda → List (ℕ × ℕ) → List Notice
notices_to today row [] = []
notices_to today row (w ∷ watchers) =
    record {
      user_id = w.0;
      asset_id = w.1;
      event = row.key;
      days_away = row.key.scheduled_for - today;
    }
    ∷ notices_to today row watchers

-- The two loops, before the lookup.
unfoldable pub notices_for : (today : ℕ) → Watched → List IssuerAgenda → List Notice
unfolding notice_window notices_to get
notices_for today watched [] = []
notices_for today watched (row ∷ events) =
    let rest = notices_for today watched events in
    if ltb (notice_window row.key.kind) (row.key.scheduled_for - today)
    then rest
    else notices_to today row (get_or [] (get row.key.ticker watched)) ++ rest

-- The key of a notice is the reader's and the event's.
unfoldable pub is_same_notice : Notice → Notice → Bool
unfolding same_event
is_same_notice n m = n.user_id == m.user_id && same_event n.event m.event

-- What the lookup, over the alerts there were, lets through.
unfoldable pub unraised : List Notice → List Notice → List Notice
unfolding is_same_notice
unraised alerts notices = filter (λ n. not (any (is_same_notice n) alerts)) notices

-- The unique constraint on `dedup_key`, over the alerts that the flush inserts.
unfoldable pub clashing : List Notice → Bool
unfolding is_same_notice
clashing [] = false
clashing (n ∷ notices) = any (is_same_notice n) notices || clashing notices

-- What is raised and considered, or nothing where the flush raises IntegrityError; and the alerts.
unfoldable pub raise_notices :
    (today : ℕ) → Watched → List IssuerAgenda → List Notice → Option (ℕ × ℕ) × List Notice
unfolding is_near notices_for unraised clashing
raise_notices today [] table alerts = (some (0, 0), alerts)
raise_notices today (w ∷ watched) table alerts =
    let events = filter (is_near today (w ∷ watched)) table in
    let new = unraised alerts (notices_for today (w ∷ watched) events) in
    if clashing new then (none, alerts) else (some (length new, length events), alerts ++ new)
