-- ===== src/Base/Distinct.antt =====
-- Tables in which no two rows agree in the columns of a unique constraint.
use mathlib.Core.Path.{◌≡◌, refl, ◌∙◌}
use mathlib.Core.Bool.{Bool, true, false}
use mathlib.Core.List.{List, [], ◌∷◌, ◌++◌}
use native.Mathlib.Omega.{arith}
use stock_recommendation_be.Base.Tests.{if◌then◌else◌}
use stock_recommendation_be.Base.Lists.{any, any-append}
use stock_recommendation_be.Base.Sql.{update_where}

-- `same` is the test of the constraint.
abbrev pub DistinctBy {ℓ} : {A : Type ℓ} → (A → A → Bool) → List A → Type 0
DistinctBy same [] = Unit
DistinctBy same (x ∷ xs) = (any (same x) xs ≡ false) × DistinctBy same xs

module _ {ℓ} {A : Type ℓ} (same : A → A → Bool) where
  pub DistinctBy-append :
      (x : A) (xs : List A)
      → ((y : A) → same y x ≡ same x y)
      → any (same x) xs ≡ false
      → DistinctBy same xs
      → DistinctBy same (xs ++ x ∷ [])
  DistinctBy-append x [] symm n d = (refl, tt)
  DistinctBy-append x (y ∷ xs) symm n d = (
    ground (arith, any-append (same y) xs (x ∷ []), symm y, d.0),
    DistinctBy-append x xs symm (ground arith) d.1,
  )

  any-update_where :
      (p : A → Bool) (f : A → A) (x : A) (xs : List A)
      → ((y : A) → same x (f y) ≡ same x y)
      → any (same x) (update_where p f xs) ≡ any (same x) xs
  any-update_where p f x [] h = refl
  any-update_where p f x (y ∷ xs) h = ground (arith, h y, any-update_where p f x xs h)

  any_same_left :
      (x z : A) (xs : List A) → ((y : A) → same z y ≡ same x y) → any (same z) xs ≡ any (same x) xs
  any_same_left x z [] h = refl
  any_same_left x z (y ∷ xs) h = ground (arith, h y, any_same_left x z xs h)

  -- An update that leaves the columns of the constraint alone.
  pub DistinctBy-update :
      (p : A → Bool) (f : A → A) (xs : List A)
      → ((x y : A) → same (f x) y ≡ same x y)
      → ((x y : A) → same x (f y) ≡ same x y)
      → DistinctBy same xs
      → DistinctBy same (update_where p f xs)
  DistinctBy-update p f [] l r d = tt
  DistinctBy-update p f (x ∷ xs) l r d = (head (p x), DistinctBy-update p f xs l r d.1)
    where
      head : (b : Bool) → any (same (if b then f x else x)) (update_where p f xs) ≡ false
      head true =
          any_same_left x (f x) (update_where p f xs) (l x) ∙ any-update_where p f x xs (r x) ∙ d.0
      head false = any-update_where p f x xs (r x) ∙ d.0
