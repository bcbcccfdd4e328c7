-- ===== src/Monitoring/Agenda/Events.antt =====
-- The events of a calendar, what it shows of them and how one row changes that (`store_entries` of
-- src/aidss/monitoring/agenda.py).
use stock_recommendation_be.Base.{
  ◌≡◌, ◌↔◌, refl, sym, ap, ◌∙◌, Bool-cases, ◌≢◌, inl, inr, String, Bool, true, false, ◌||◌, Option,
  none, some, List, [], ◌∷◌, ◌++◌, any, any-append, All, str_eq_iff, if◌then◌else◌, arith,
}
use stock_recommendation_be.Monitoring.Agenda.{
  AgendaKind, kind_index, EventKey, Content, AgendaEntry, IssuerAgenda, same_event, is_of, correct,
  new_row, clash, in_upper,
}

pub true_ne_false : ◌≢◌ {A = Bool} true false
true_ne_false e = cc

-- What the calendar shows of an event.
unfoldable pub shown : EventKey → List IssuerAgenda → Option Content
unfolding same_event
shown k [] = none
shown k (row ∷ rows) = if same_event row.key k then some row.content else shown k rows

-- What the last entry of an event says; `before` where there is none.
unfoldable pub corrected :
    (String → String) → EventKey → List AgendaEntry → Option Content → Option Content
unfolding same_event
corrected upper k [] before = before
corrected upper k (e ∷ entries) before =
    corrected upper k entries
      (if same_event (in_upper upper e).key k then some e.content else before)

kind_index_inj : (k l : AgendaKind) → kind_index k ≡ kind_index l → k ≡ l
kind_index_inj k l h = ground arith

pub same_event_iff : (k l : EventKey) → (same_event k l ≡ true) ↔ (k ≡ l)
unfolding same_event
same_event_iff k l = ground (arith, str_eq_iff k.ticker l.ticker, kind_index_inj k.kind l.kind)

same_event_comm : (k l : EventKey) → same_event k l ≡ same_event l k
same_event_comm k l = elim (Bool-cases (same_event k l)) [
  | inl same ↦ same ∙ sym ((same_event_iff l k).1 (sym ((same_event_iff k l).0 same)))
  | inr apart ↦ elim (Bool-cases (same_event l k)) [
    | inl same ↦
        absurd
          (true_ne_false (sym ((same_event_iff k l).1 (sym ((same_event_iff l k).0 same))) ∙ apart))
    | inr too ↦ apart ∙ sym too
  ]
]

same_as : (j l k : EventKey) → same_event j l ≡ true → same_event j k ≡ same_event l k
same_as j l k h = ap (λ m. same_event m k) ((same_event_iff j l).0 h)

module _ (k : EventKey) (e : AgendaEntry) where
  -- Where no row is of the event, a new row at the end shows it.
  pub shown-insert :
      (rows : List IssuerAgenda)
      → any (is_of e.key) rows ≡ false
      → shown k (rows ++ new_row e ∷ [])
        ≡ (if same_event e.key k then some e.content else shown k rows)
  unfolding shown is_of
  shown-insert [] h = refl
  shown-insert (row ∷ rows) h = elim (Bool-cases (same_event row.key k)) [
    | inl seen ↦ elim (Bool-cases (same_event e.key k)) [
      | inl same ↦ absurd (
          true_ne_false (
            sym (
              same_event_comm row.key e.key
              ∙ same_as e.key k row.key same
              ∙ same_event_comm k row.key
              ∙ seen)
            ∙ ground arith))
      | inr apart ↦ rw (seen, shown, apart) refl
    ]
    | inr unseen ↦ rw (unseen, shown) (shown-insert rows (ground arith))
  ]

  -- A correction shows in the calendar of what comes behind, too.
  pub shown-correct :
      (rows new : List IssuerAgenda)
      → any (is_of e.key) rows ≡ true
      → shown k (correct e rows ++ new)
        ≡ (if same_event e.key k then some e.content else shown k (rows ++ new))
  unfolding shown is_of correct
  shown-correct [] new h = absurd (true_ne_false (sym h))
  shown-correct (row ∷ rows) new h = elim (Bool-cases (same_event row.key e.key)) [
    | inl here ↦ elim (Bool-cases (same_event e.key k)) [
      | inl same ↦ rw (here, shown, same_as row.key e.key k here ∙ same, same) refl
      | inr apart ↦
          rw (here, shown, same_as row.key e.key k here ∙ apart, apart) (untouched rows new apart)
    ]
    | inr later ↦ elim (Bool-cases (same_event row.key k)) [
      | inl seen ↦
          let other : same_event e.key k ≡ false =
            same_event_comm e.key k ∙ sym (same_as row.key k e.key seen) ∙ later in
          rw (later, shown, seen, other) refl
      | inr unseen ↦ rw (later, shown, unseen) (shown-correct rows new (ground arith))
    ]
  ]
    where
      untouched :
          (rows new : List IssuerAgenda)
          → same_event e.key k ≡ false
          → shown k (correct e rows ++ new) ≡ shown k (rows ++ new)
      untouched [] new apart = refl
      untouched (row ∷ rows) new apart = elim (Bool-cases (same_event row.key e.key)) [
        | inl here ↦
            rw (here, shown, same_as row.key e.key k here ∙ apart) (untouched rows new apart)
        | inr later ↦ elim (Bool-cases (same_event row.key k)) [
          | inl seen ↦ rw (later, shown, seen) refl
          | inr unseen ↦ rw (later, shown, unseen) (untouched rows new apart)
        ]
      ]

pub any-correct :
    (k : EventKey) (e : AgendaEntry) (rows : List IssuerAgenda)
    → any (is_of k) (correct e rows) ≡ any (is_of k) rows
unfolding correct is_of
any-correct k e [] = refl
any-correct k e (row ∷ rows) = elim (Bool-cases (same_event row.key e.key)) [
  | inl here ↦ rw here (ap (λ b. same_event row.key k || b) (any-correct k e rows))
  | inr later ↦ rw later (ap (λ b. same_event row.key k || b) (any-correct k e rows))
]

-- The events of the entries that the calendar has no row of, one for each such entry.
unfoldable pub strangers : (String → String) → List IssuerAgenda → List AgendaEntry → List EventKey
strangers upper table [] = []
strangers upper table (e ∷ entries) =
    let rest = strangers upper table entries in
    if any (is_of (in_upper upper e).key) table then rest else (in_upper upper e).key ∷ rest

-- No event is there twice.
abbrev pub Apart : List EventKey → Type 0
Apart [] = Unit
Apart (k ∷ ks) = All (λ l. k ≢ l) ks × Apart ks

unfoldable pub keys : List IssuerAgenda → List EventKey
keys [] = []
keys (row ∷ rows) = row.key ∷ keys rows

any-keys :
    (k : EventKey) (rows : List IssuerAgenda)
    → any (is_of k) rows ≡ false
    → All (λ l. k ≢ l) (keys rows)
unfolding keys is_of
any-keys k [] h = tt
any-keys k (row ∷ rows) h = (
  (λ same. true_ne_false (sym ((same_event_iff row.key k).1 (sym same)) ∙ ground arith)),
  any-keys k rows (ground arith),
)

keys-any :
    (k : EventKey) (rows : List IssuerAgenda)
    → All (λ l. k ≢ l) (keys rows)
    → any (is_of k) rows ≡ false
unfolding keys is_of
keys-any k [] h = refl
keys-any k (row ∷ rows) h = elim (Bool-cases (same_event row.key k)) [
  | inl same ↦ absurd (h.0 (sym ((same_event_iff row.key k).0 same)))
  | inr apart ↦ rw apart (keys-any k rows h.1)
]

pub clash-Apart : (rows : List IssuerAgenda) → clash rows ≡ false → Apart (keys rows)
unfolding clash keys
clash-Apart [] h = tt
clash-Apart (row ∷ rows) h = (any-keys row.key rows (ground arith), clash-Apart rows (ground arith))

pub Apart-clash : (rows : List IssuerAgenda) → Apart (keys rows) → clash rows ≡ false
unfolding clash keys
Apart-clash [] h = refl
Apart-clash (row ∷ rows) h = rw (keys-any row.key rows h.0) (Apart-clash rows h.1)

-- A row that the flush inserts beside others is of another event than those before it.
pub clash-before :
    (rows : List IssuerAgenda) (row : IssuerAgenda) (rest : List IssuerAgenda)
    → clash (rows ++ row ∷ rest) ≡ false
    → any (is_of row.key) rows ≡ false
unfolding clash is_of
clash-before [] row rest h = refl
clash-before (x ∷ rows) row rest h = ground (
  arith,
  clash-before rows row rest,
  any-append (is_of x.key) rows (row ∷ rest),
  same_event_comm x.key row.key,
)
