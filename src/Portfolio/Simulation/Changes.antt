-- ===== src/Portfolio/Simulation/Changes.antt =====
-- What a list of changes makes of the positions: src/aidss/portfolio/simulation.py.
use stock_recommendation_be.Base.{
  ℕ, ◌≡◌, ◌↔◌, refl, ap, sym, ◌≢◌, ◌∙◌, String, Bool, true, false, is_some, Option, none, some,
  List, [], ◌∷◌, ◌⊎◌, inl, inr, All, str_eq, str_eq_iff, ◌==◌, Bool-cases, Option-cases,
  if◌then◌else◌, arith,
}
use stock_recommendation_be.Base.Dict.{Dict, get, get-put_if, get-remove_if}
use stock_recommendation_be.Portfolio.Simulation.{
  Position, AllocationChange, SimulationError, Applied, resize, apply_change, apply_from,
}

-- The quantity that the last change of a ticker asks for.
abbrev pub last_change : String → List AllocationChange → Option ℕ
last_change ticker [] = none
last_change ticker (c ∷ changes) = elim (last_change ticker changes) [
  | some quantity ↦ some quantity
  | none ↦ if str_eq c.ticker ticker then some c.quantity else none
]

-- The position that the last change makes of the one held at first; `now` stays where there is none.
abbrev pub settled : (held now : Option Position) → Option ℕ → Option Position
settled held now none = now
settled held now (some quantity) = elim held [
  | none ↦ none
  | some p ↦ if quantity == 0 then none else some (resize p quantity)
]

false_ne_true : ◌≢◌ {A = Bool} false true
false_ne_true e = cc

inl_ne_inr {ℓ κ} : {A : Type ℓ} {B : Type κ} {a : A} {b : B} → ◌≢◌ {A = A ⊎ B} (inl a) (inr b)
inl_ne_inr e = cc

change_get :
    (held : Dict Position) (c : AllocationChange) (ticker : String)
    (state next : Dict Position × List Applied)
    → apply_change held c state ≡ inr next
    → get ticker next.0
      ≡ settled
          (get ticker held)
          (get ticker state.0)
          (if str_eq c.ticker ticker then some c.quantity else none)
unfolding apply_change
change_get held c ticker state next h = elim (Option-cases (get c.ticker held)) [
  | inl absent ↦ ground (arith, absent)
  | inr there ↦ ground (
    arith,
    there.1,
    str_eq_iff c.ticker ticker,
    get-remove_if ticker c.ticker state.0,
    get-put_if ticker c.ticker (resize there.0 c.quantity) state.0,
  )
]

settled_again :
    (held now : Option Position) (first : Option ℕ) (later : Option ℕ)
    → settled held (settled held now first) later
      ≡ settled held now (elim later [ some quantity ↦ some quantity | none ↦ first ])
settled_again held now first none = refl
settled_again held now first (some quantity) = refl

apply_from-get :
    (held : Dict Position) (changes : List AllocationChange) (ticker : String)
    (state next : Dict Position × List Applied)
    → apply_from held changes state ≡ inr next
    → get ticker next.0
      ≡ settled (get ticker held) (get ticker state.0) (last_change ticker changes)
unfolding apply_from
apply_from-get held [] ticker state next h = ground arith
apply_from-get held (c ∷ changes) ticker state next h =
    by_cases (apply_change held c state) refl
      (λ middle k. apply_from-get held changes ticker middle next k) h
  where
    by_cases :
        (r : SimulationError ⊎ (Dict Position × List Applied))
        → apply_change held c state ≡ r
        → ((middle : Dict Position × List Applied)
            → apply_from held changes middle ≡ inr next
            → get ticker next.0
              ≡ settled (get ticker held) (get ticker middle.0) (last_change ticker changes))
        → ◌≡◌ {A = SimulationError ⊎ (Dict Position × List Applied)}
            (elim r [ inl error ↦ inl error | inr middle ↦ apply_from held changes middle ])
            (inr next)
        → get ticker next.0
          ≡ settled (get ticker held) (get ticker state.0) (last_change ticker (c ∷ changes))
    by_cases (inl error) e ih k = absurd (inl_ne_inr k)
    by_cases (inr middle) e ih k =
        ih middle k
        ∙ ap (λ now. settled (get ticker held) now (last_change ticker changes))
            (change_get held c ticker state middle e)
        ∙ settled_again (get ticker held) (get ticker state.0)
            (if str_eq c.ticker ticker then some c.quantity else none) (last_change ticker changes)

abbrev pub succeeds {ℓ κ} : {A : Type ℓ} {B : Type κ} → A ⊎ B → Bool
succeeds (inl _) = false
succeeds (inr _) = true

-- Every change is of a ticker that is held.
abbrev pub AllHeld : Dict Position → List AllocationChange → Type 0
AllHeld held changes = All (λ c. is_some (get c.ticker held) ≡ true) changes

succeeds-apply_change :
    (held : Dict Position) (c : AllocationChange) (state : Dict Position × List Applied)
    → succeeds (apply_change held c state) ≡ is_some (get c.ticker held)
unfolding apply_change
succeeds-apply_change held c state = elim (Option-cases (get c.ticker held)) [
  | inl absent ↦ elim (Bool-cases (c.quantity == 0)) [
    | inl z ↦ rw (absent, apply_change, z) refl
    | inr p ↦ rw (absent, apply_change, p) refl
  ]
  | inr there ↦ elim (Bool-cases (c.quantity == 0)) [
    | inl z ↦ rw (there.1, apply_change, z) refl
    | inr p ↦ rw (there.1, apply_change, p) refl
  ]
]

-- Changes can be applied exactly when each of them is of a ticker that is held at first, whatever the
-- changes before it do.
pub apply_from_iff :
    (held : Dict Position) (changes : List AllocationChange) (state : Dict Position × List Applied)
    → (succeeds (apply_from held changes state) ≡ true) ↔ AllHeld held changes
unfolding apply_from apply_change
apply_from_iff held [] state = ((λ _. tt), (λ _. refl))
apply_from_iff held (c ∷ changes) state =
    by_cases (apply_change held c state) (succeeds-apply_change held c state)
      (λ middle. apply_from_iff held changes middle)
  where
    by_cases :
        (r : SimulationError ⊎ (Dict Position × List Applied))
        → succeeds r ≡ is_some (get c.ticker held)
        → ((middle : Dict Position × List Applied)
            → (succeeds (apply_from held changes middle) ≡ true) ↔ AllHeld held changes)
        → (succeeds (elim r as (λ _. SimulationError ⊎ (Dict Position × List Applied)) [
          | inl error ↦ inl error
          | inr middle ↦ apply_from held changes middle
        ])
            ≡ true)
          ↔ AllHeld held (c ∷ changes)
    by_cases (inl error) e ih = ((λ h. absurd (false_ne_true h)), (λ a. e ∙ a.0))
    by_cases (inr middle) e ih = ((λ h. (sym e, (ih middle).0 h)), (λ a. (ih middle).1 a.1))

-- Where the changes can be applied, the position of a ticker afterwards is that held at first, with
-- the quantity that the last change of it asks for, or none if that is zero; a ticker without a
-- change keeps its position.
pub changes_get :
    (held : Dict Position) (changes : List AllocationChange) (ticker : String)
    (next : Dict Position × List Applied)
    → apply_from held changes (held, []) ≡ inr next
    → get ticker next.0 ≡ settled (get ticker held) (get ticker held) (last_change ticker changes)
changes_get held changes ticker next h = apply_from-get held changes ticker (held, []) next h
