-- ===== src/Monitoring/Agenda/Calendar.antt =====
-- What the calendar shows after an import: `store_entries` of src/aidss/monitoring/agenda.py.
use mathlib.Core.Path.{subst}
use stock_recommendation_be.Base.{
  suc, ◌+◌, ◌≡◌, ◌⊎◌, refl, sym, ap, ◌∙◌, Bool-cases, inl, inr, String, true, false, Option, none,
  some, List, [], ◌∷◌, ◌++◌, append_assoc, append-nil, any, any-append, length, arith,
}
use stock_recommendation_be.Monitoring.Agenda.{
  EventKey, AgendaEntry, IssuerAgenda, is_of, correct, new_row, clash, StoreReport, in_upper,
  store_from, store_entries,
}
use stock_recommendation_be.Monitoring.Agenda.Events.{
  true_ne_false, shown, corrected, shown-insert, shown-correct, any-correct, strangers, Apart, keys,
  clash-Apart, Apart-clash, clash-before,
}

keys-append : (a b : List IssuerAgenda) → keys (a ++ b) ≡ keys a ++ keys b
unfolding keys
keys-append [] b = refl
keys-append (row ∷ a) b = ap (λ ks. row.key ∷ ks) (keys-append a b)

module _ (upper : String → String) where
  store_known :
      (entry : AgendaEntry) (entries : List AgendaEntry) (report : StoreReport)
      (known new : List IssuerAgenda)
      → any (is_of (in_upper upper entry).key) known ≡ true
      → store_from upper (entry ∷ entries) report known new
        ≡ store_from upper entries
            (record report { updated = suc report.updated })
            (correct (in_upper upper entry) known)
            new
  unfolding store_from
  store_known entry entries report known new h = rw (h, store_from) refl

  store_new :
      (entry : AgendaEntry) (entries : List AgendaEntry) (report : StoreReport)
      (known new : List IssuerAgenda)
      → any (is_of (in_upper upper entry).key) known ≡ false
      → store_from upper (entry ∷ entries) report known new
        ≡ store_from upper entries
            (record report { added = suc report.added })
            known
            (new ++ new_row (in_upper upper entry) ∷ [])
  unfolding store_from
  store_new entry entries report known new h = rw (h, store_from) refl

  strangers-correct :
      (e : AgendaEntry) (table : List IssuerAgenda) (entries : List AgendaEntry)
      → strangers upper (correct e table) entries ≡ strangers upper table entries
  unfolding strangers
  strangers-correct e table [] = refl
  strangers-correct e table (entry ∷ entries) =
      rw (any-correct (in_upper upper entry).key e table, strangers-correct e table entries) refl

  -- What the loop adds, and what it counts.
  abbrev Adds :
      List AgendaEntry
      → StoreReport
      → (known new : List IssuerAgenda) → StoreReport × List IssuerAgenda × List IssuerAgenda
      → Type 0
  Adds entries report known new r =
      ((rest : List IssuerAgenda) × (r.2 ≡ new ++ rest)
        × (keys rest ≡ strangers upper known entries))
      × (r.0.added ≡ report.added + length (strangers upper known entries))
      × (r.0.added + r.0.updated ≡ report.added + report.updated + length entries)

  store_from-Adds :
      (entries : List AgendaEntry) (report : StoreReport) (known new : List IssuerAgenda)
      → Adds entries report known new (store_from upper entries report known new)
  unfolding store_from strangers keys
  store_from-Adds [] report known new = (([], append-nil new, refl), omega arith, omega arith)
  store_from-Adds (entry ∷ entries) report known new =
      elim (Bool-cases (any (is_of (in_upper upper entry).key) known)) [
        | inl there ↦
            let h =
              store_from-Adds entries (record report { updated = suc report.updated })
                (correct (in_upper upper entry) known) new in
            let same = strangers-correct (in_upper upper entry) known entries in
            rw (store_known entry entries report known new there, there, strangers)
              (
                (h.0.0, h.0.1, h.0.2 ∙ same),
                h.1 ∙ ap (λ (ks : List EventKey). report.added + length ks) same,
                omega (arith, h.2),
              )
        | inr gone ↦
            let row = new_row (in_upper upper entry) in
            let h =
              store_from-Adds entries (record report { added = suc report.added }) known
                (new ++ row ∷ []) in
            rw (store_new entry entries report known new gone, gone, strangers)
              (
                (
                  row ∷ h.0.0,
                  h.0.1 ∙ append_assoc new (row ∷ []) h.0.0,
                  ap (λ ks. row.key ∷ ks) h.0.2,
                ),
                omega (arith, h.1),
                omega (arith, h.2),
              )
      ]

  shown-store_from :
      (k : EventKey) (entries : List AgendaEntry) (report : StoreReport)
      (known new : List IssuerAgenda)
      → clash (store_from upper entries report known new).2 ≡ false
      → let r = store_from upper entries report known new in
        shown k (r.1 ++ r.2) ≡ corrected upper k entries (shown k (known ++ new))
  unfolding store_from corrected
  shown-store_from k [] report known new fine = refl
  shown-store_from k (entry ∷ entries) report known new fine =
      let e = in_upper upper entry in
      elim (Bool-cases (any (is_of e.key) known)) [
        | inl there ↦ rw (store_known entry entries report known new there) (
            shown-store_from k entries (record report { updated = suc report.updated })
              (correct e known) new
              (ap (λ r. clash r.2) (sym (store_known entry entries report known new there)) ∙ fine)
            ∙ ap (corrected upper k entries) (shown-correct k e known new there))
        | inr gone ↦
            let fine' =
              ap (λ r. clash r.2) (sym (store_new entry entries report known new gone)) ∙ fine in
            rw (store_new entry entries report known new gone) (
              let report' = record report { added = suc report.added } in
              let added = store_from-Adds entries report' known (new ++ new_row e ∷ []) in
              let apart : any (is_of e.key) new ≡ false = clash-before new (new_row e) added.0.0 (
                ap clash (sym (added.0.1 ∙ append_assoc new (new_row e ∷ []) added.0.0)) ∙ fine') in
              let unseen : any (is_of e.key) (known ++ new) ≡ false =
                any-append (is_of e.key) known new ∙ rw (gone, apart) refl in
              shown-store_from k entries report' known (new ++ new_row e ∷ []) fine'
              ∙ ap (corrected upper k entries) (
                  ap (shown k) (sym (append_assoc known new (new_row e ∷ [])))
                  ∙ shown-insert k e (known ++ new) unseen))
      ]

-- What an import leaves: the calendar corrected and what it added and updated, where no event is new
-- twice; else the error, and the calendar as it was.
abbrev pub Imported :
    (String → String)
    → List AgendaEntry
    → List IssuerAgenda
    → Option StoreReport × List IssuerAgenda
    → Type 0
Imported upper entries table r =
    (Apart (strangers upper table entries)
      × ((report : StoreReport) × (r.0 ≡ some report)
          × (report.added ≡ length (strangers upper table entries))
          × (report.added + report.updated ≡ length entries))
      × ((k : EventKey) → shown k r.1 ≡ corrected upper k entries (shown k table)))
    ⊎ ((Apart (strangers upper table entries) → ⊥) × (r ≡ (none, table)))

-- An import in which no two entries are of one event that the calendar has no row of succeeds: it
-- counts those entries as added and all others as updated, and afterwards the calendar shows of every
-- event, which is a ticker, a kind and a date, what the last entry of it says, and what it showed
-- before where no entry is of it; so an entry with another date takes nothing back. An import with
-- two such entries fails in the flush, and changes nothing.
pub shown-store_entries :
    (upper : String → String) (entries : List AgendaEntry) (table : List IssuerAgenda)
    → Imported upper entries table (store_entries upper entries table)
unfolding store_entries
shown-store_entries upper entries table =
    let start : StoreReport = record { added = 0; updated = 0 } in
    let h = store_from-Adds upper entries start table [] in
    let new = (store_from upper entries start table []).2 in
    let events : keys new ≡ strangers upper table entries = ap keys h.0.1 ∙ h.0.2 in
    elim (Bool-cases (clash new)) [
      | inl twice ↦
          rw (twice, store_entries)
            (inr (
              (λ apart.
                  true_ne_false (sym twice ∙ Apart-clash new (subst Apart (sym events) apart))),
              refl,
            ))
      | inr fine ↦
          rw (fine, store_entries)
            (inl (
              subst Apart events (clash-Apart new fine),
              (
                (store_from upper entries start table []).0,
                refl,
                omega (arith, h.1),
                omega (arith, h.2),
              ),
              λ k.
                  shown-store_from upper k entries start table [] fine
                  ∙ ap (λ t. corrected upper k entries (shown k t)) (sym (append-nil table)),
            ))
    ]
