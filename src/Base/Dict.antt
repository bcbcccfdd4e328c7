-- ===== src/Base/Dict.antt =====
-- A dict with text keys: an association list in the order of insertion.
use mathlib.Core.Path.{◌≡◌, refl, subst}
use mathlib.Core.Logic.{inl, inr}
use mathlib.Core.Bool.{true}
use mathlib.Core.Option.{Option, none, some}
use mathlib.Core.List.{List, [], ◌∷◌}
use Prim.Native.String.{String}
use native.Mathlib.Omega.{arith}
use stock_recommendation_be.Base.Tests.{
  if◌then◌else◌, is_some, str_eq, str_eq_refl, str_eq_iff, Bool-cases,
}
use stock_recommendation_be.Base.Lists.{All, none_ne_some, some_inj}

abbrev pub Dict {ℓ} : Type ℓ → Type ℓ
Dict V = List (String × V)

module _ {ℓ} {V : Type ℓ} where
  unfoldable pub get : String → Dict V → Option V
  get k [] = none
  get k (e ∷ d) = if str_eq e.0 k then some e.1 else get k d

  -- `d[k] = v`: an entry that is there keeps its place.
  unfoldable pub put : String → V → Dict V → Dict V
  put k v [] = (k, v) ∷ []
  put k v (e ∷ d) = let rest = put k v d in if str_eq e.0 k then (e.0, v) ∷ d else e ∷ rest

  pub get-put : (k : String) (v : V) (d : Dict V) → get k (put k v d) ≡ some v
  unfolding get put
  get-put k v [] = ground (arith, str_eq_refl k)
  get-put k v (e ∷ d) = ground (arith, get-put k v d)

  -- An entry that is there stays, whatever is put.
  pub put_keeps :
      (j k : String) (v : V) (d : Dict V)
      → is_some (get j d) ≡ true
      → is_some (get j (put k v d)) ≡ true
  unfolding get put
  put_keeps j k v [] h = ground arith
  put_keeps j k v (e ∷ d) h = ground (arith, put_keeps j k v d)

  -- `d.pop(k, None)`.
  unfoldable pub remove : String → Dict V → Dict V
  remove k [] = []
  remove k (e ∷ d) = let rest = remove k d in if str_eq e.0 k then rest else e ∷ rest

  -- The laws of lookup, at any key.
  pub get-put_if :
      (j k : String) (v : V) (d : Dict V)
      → get j (put k v d) ≡ (if str_eq k j then some v else get j d)
  unfolding get put
  get-put_if j k v [] = refl
  get-put_if j k v (e ∷ d) =
      ground (arith, str_eq_iff e.0 k, str_eq_iff e.0 j, str_eq_iff k j, get-put_if j k v d)

  pub get-remove_if :
      (j k : String) (d : Dict V) → get j (remove k d) ≡ (if str_eq k j then none else get j d)
  unfolding get remove
  get-remove_if j k [] = ground arith
  get-remove_if j k (e ∷ d) =
      ground (arith, str_eq_iff e.0 k, str_eq_iff e.0 j, str_eq_iff k j, get-remove_if j k d)

module _ {ℓ κ} {V : Type ℓ} (P : V → Type κ) where
  pub get-All : (k : String) (v : V) (d : Dict V) → All (λ e. P e.1) d → get k d ≡ some v → P v
  unfolding get
  get-All k v [] a h = absurd (none_ne_some h)
  get-All k v (e ∷ d) a h = elim (Bool-cases (str_eq e.0 k)) [
    | inl here ↦ subst P (some_inj (rw here at h)) a.0
    | inr later ↦ get-All k v d a.1 (rw later at h)
  ]

  pub put-All :
      (k : String) (v : V) (d : Dict V) → All (λ e. P e.1) d → P v → All (λ e. P e.1) (put k v d)
  unfolding put
  put-All k v [] a p = (p, tt)
  put-All k v (e ∷ d) a p = elim (Bool-cases (str_eq e.0 k)) [
    | inl here ↦ rw here (p, a.1)
    | inr later ↦ rw later (a.0, put-All k v d a.1 p)
  ]

  pub remove-All : (k : String) (d : Dict V) → All (λ e. P e.1) d → All (λ e. P e.1) (remove k d)
  unfolding remove
  remove-All k [] a = tt
  remove-All k (e ∷ d) a = elim (Bool-cases (str_eq e.0 k)) [
    | inl here ↦ rw here (remove-All k d a.1)
    | inr later ↦ rw later (a.0, remove-All k d a.1)
  ]
