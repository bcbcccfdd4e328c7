-- ===== src/Base/Sorting.antt =====
-- The stable sort by a number: `sorted(..., key=...)` of Python.
use Prim.Native.Nat.{ℕ, ◌≤◌}
use mathlib.Core.Path.{◌≡◌, refl, ◌∙◌}
use mathlib.Core.Logic.{inl, inr}
use mathlib.Core.List.{List, [], ◌∷◌, Permᴰ}
use mathlib.Core.List.Permᴰ
use native.Mathlib.Omega.{arith}
use stock_recommendation_be.Base.Tests.{if◌then◌else◌, leb, leb→le, leb-false, ◌==◌, Bool-cases}
use stock_recommendation_be.Base.Lists.{All, filter}

module _ {ℓ} {A : Type ℓ} (key : A → ℕ) where
  -- Before the first element that is not smaller.
  unfoldable pub insert_by : A → List A → List A
  insert_by x [] = x ∷ []
  insert_by x (y ∷ ys) =
      let rest = insert_by x ys in if leb (key x) (key y) then x ∷ y ∷ ys else y ∷ rest

  unfoldable pub sort_by : List A → List A
  unfolding insert_by
  sort_by [] = []
  sort_by (x ∷ xs) = insert_by x (sort_by xs)

module _ {ℓ κ} {A : Type ℓ} (key : A → ℕ) where
  insert_by-All :
      (P : A → Type κ) (x : A) (xs : List A) → P x → All P xs → All P (insert_by key x xs)
  unfolding insert_by
  insert_by-All P x [] p a = (p, tt)
  insert_by-All P x (y ∷ ys) p a = elim (Bool-cases (leb (key x) (key y))) [
    | inl here ↦ rw here (p, a)
    | inr later ↦ rw later (a.0, insert_by-All P x ys p a.1)
  ]

  -- What holds of every element still does.
  pub sort_by-All : (P : A → Type κ) (xs : List A) → All P xs → All P (sort_by key xs)
  unfolding sort_by
  sort_by-All P [] a = tt
  sort_by-All P (x ∷ xs) a = insert_by-All P x (sort_by key xs) a.0 (sort_by-All P xs a.1)

module _ {ℓ} {A : Type ℓ} (key : A → ℕ) where
  abbrev pub IsSortedBy : List A → Type 0
  IsSortedBy [] = Unit
  IsSortedBy (x ∷ xs) = All (λ y. key x ≤ key y) xs × IsSortedBy xs

  All-le_below :
      (x y : A) (xs : List A)
      → key x ≤ key y
      → All (λ z. key y ≤ key z) xs
      → All (λ z. key x ≤ key z) xs
  All-le_below x y [] le a = tt
  All-le_below x y (z ∷ xs) le a = (omega (arith, a.0), All-le_below x y xs le a.1)

  insert_by-IsSortedBy : (x : A) (xs : List A) → IsSortedBy xs → IsSortedBy (insert_by key x xs)
  unfolding insert_by
  insert_by-IsSortedBy x [] s = (tt, tt)
  insert_by-IsSortedBy x (y ∷ ys) s = elim (Bool-cases (leb (key x) (key y))) [
    | inl here ↦ rw here ((leb→le _ _ here, All-le_below x y ys (leb→le _ _ here) s.0), s)
    | inr later ↦ rw later (
      insert_by-All key (λ z. key y ≤ key z) x ys (omega (arith, leb-false _ _ later)) s.0,
      insert_by-IsSortedBy x ys s.1,
    )
  ]

  pub sort_by-IsSortedBy : (xs : List A) → IsSortedBy (sort_by key xs)
  unfolding sort_by
  sort_by-IsSortedBy [] = tt
  sort_by-IsSortedBy (x ∷ xs) = insert_by-IsSortedBy x (sort_by key xs) (sort_by-IsSortedBy xs)

  -- The elements of one key keep their order: the sort is stable, and it loses and adds nothing.
  filter-insert_by :
      (k : ℕ) (x : A) (xs : List A)
      → filter (λ y. key y == k) (insert_by key x xs) ≡ filter (λ y. key y == k) (x ∷ xs)
  unfolding insert_by
  filter-insert_by k x [] = refl
  filter-insert_by k x (y ∷ ys) = ground (arith, filter-insert_by k x ys)

  pub filter-sort_by :
      (k : ℕ) (xs : List A)
      → filter (λ y. key y == k) (sort_by key xs) ≡ filter (λ y. key y == k) xs
  unfolding sort_by
  filter-sort_by k [] = refl
  filter-sort_by k (x ∷ xs) =
      filter-insert_by k x (sort_by key xs) ∙ ground (arith, filter-sort_by k xs)

  insert_by-Permᴰ : (x : A) (xs : List A) → Permᴰ (insert_by key x xs) (x ∷ xs)
  unfolding insert_by
  insert_by-Permᴰ x [] = Permᴰ.refl (x ∷ [])
  insert_by-Permᴰ x (y ∷ ys) = elim (Bool-cases (leb (key x) (key y))) [
    | inl here ↦ rw here (Permᴰ.refl (x ∷ y ∷ ys))
    | inr later ↦
        rw later (Permᴰ.trans (Permᴰ.cons refl (insert_by-Permᴰ x ys)) (Permᴰ.swap refl refl))
  ]

  pub sort_by-Permᴰ : (xs : List A) → Permᴰ (sort_by key xs) xs
  unfolding sort_by
  sort_by-Permᴰ [] = Permᴰ.nil
  sort_by-Permᴰ (x ∷ xs) =
      Permᴰ.trans (insert_by-Permᴰ x (sort_by key xs)) (Permᴰ.cons refl (sort_by-Permᴰ xs))
