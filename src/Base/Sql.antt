-- ===== src/Base/Sql.antt =====
-- The statements that the sources hand to the database, over a table as the list of its rows:
-- `UPDATE ... WHERE` with its row count, and `DELETE ... WHERE`.
use Prim.Native.Nat.{ℕ}
use mathlib.Core.Path.{◌≡◌, refl}
use mathlib.Core.Bool.{Bool, true, false, not}
use mathlib.Core.List.{List, [], ◌∷◌}
use native.Mathlib.Omega.{arith}
use stock_recommendation_be.Base.Tests.{if◌then◌else◌}
use stock_recommendation_be.Base.Lists.{All, count, filter}

module _ {ℓ} {A : Type ℓ} where
  abbrev pub update_where : (A → Bool) → (A → A) → List A → List A
  update_where p f [] = []
  update_where p f (x ∷ xs) = (if p x then f x else x) ∷ update_where p f xs

  -- `rowcount` of that update.
  abbrev pub rowcount : (A → Bool) → List A → ℕ
  rowcount = count

  abbrev pub delete_where : (A → Bool) → List A → List A
  delete_where p xs = filter (λ x. not (p x)) xs

  pub update_where_no_match :
      (p : A → Bool) (f : A → A) (xs : List A) → rowcount p xs ≡ 0 → update_where p f xs ≡ xs
  update_where_no_match p f [] h = refl
  update_where_no_match p f (x ∷ xs) h = ground (arith, update_where_no_match p f xs)

  pub rowcount_none : (p : A → Bool) (xs : List A) → All (λ x. p x ≡ false) xs → rowcount p xs ≡ 0
  rowcount_none p [] h = refl
  rowcount_none p (x ∷ xs) h = ground (arith, rowcount_none p xs h.1)

  -- An update that makes its own condition false matches nothing the second time.
  pub rowcount_after_update :
      (p : A → Bool) (f : A → A) (xs : List A)
      → ((x : A) → p x ≡ true → p (f x) ≡ false)
      → rowcount p (update_where p f xs) ≡ 0
  rowcount_after_update p f [] h = refl
  rowcount_after_update p f (x ∷ xs) h = ground (arith, h x, rowcount_after_update p f xs h)

module _ {ℓ κ} {A : Type ℓ} (P : A → Type κ) where
  pub All-update_where :
      (p : A → Bool) (f : A → A) (xs : List A)
      → ((x : A) → p x ≡ true → P x → P (f x))
      → All P xs
      → All P (update_where p f xs)
  All-update_where p f [] h a = tt
  All-update_where p f (x ∷ xs) h a = (
    (elim (p x) as (λ b. (b ≡ true → P (f x)) → P (if b then f x else x)) [
      | true ↦ λ k. k refl
      | false ↦ λ k. a.0
    ])
        (λ e. h x e a.0),
    All-update_where p f xs h a.1,
  )
