-- ===== src/Common/Dict.antt =====
-- Go's maps with text keys, as association lists: a write to a key that is there keeps its place,
-- and a new key goes to the end. `range` visits the entries in the order of the list: Go leaves the
-- order open, and so does every theorem, which holds of each list of entries.
use Prim.Native.String.{String}
use mathlib.Core.Path.{◌≡◌, refl}
use mathlib.Core.Bool.{Bool, true}
use mathlib.Core.Logic.{◌⊎◌, ◌≢◌}
use mathlib.Core.Option.{Option, none, some}
use mathlib.Core.List.{List, [], ◌∷◌, ◌++◌}
use native.Mathlib.Omega.{arith}
use text.Mathlib.Text.{◌==◌}
use text.Mathlib.TextEquality.{eq_iff}
use financial_crime_complian.Common.Tests.{if◌then◌else◌}
use financial_crime_complian.Common.Lists.{any}

abbrev pub Dict {ℓ} : Type ℓ → Type ℓ
Dict V = List (String × V)

module _ {ℓ} {V : Type ℓ} where
  -- v, ok := m[k]
  unfoldable pub get : String → Dict V → Option V
  get k [] = none
  get k ((j, v) ∷ m) = if j == k then some v else get k m

  -- m[k] = v
  unfoldable pub put : String → V → Dict V → Dict V
  put k v [] = (k, v) ∷ []
  put k v ((j, w) ∷ m) = if j == k then (j, v) ∷ m else (j, w) ∷ put k v m

  unfoldable pub values : Dict V → List V
  values [] = []
  values ((k, v) ∷ m) = v ∷ values m

  -- delete(m, k)
  unfoldable pub remove : String → Dict V → Dict V
  remove k [] = []
  remove k ((j, v) ∷ m) = let rest = remove k m in if j == k then rest else (j, v) ∷ rest

  unfoldable pub keys : Dict V → List String
  keys [] = []
  keys ((k, v) ∷ m) = k ∷ keys m

  pub get-remove :
      (k j : String) (m : Dict V) → get j (remove k m) ≡ (if k == j then none else get j m)
  unfolding get remove
  get-remove k j [] = ground arith
  get-remove k j ((i, w) ∷ m) = ground (arith, eq_iff k j, eq_iff i k, eq_iff i j, get-remove k j m)

  pub get-put :
      (k j : String) (v : V) (m : Dict V) → get j (put k v m) ≡ (if k == j then some v else get j m)
  unfolding get put
  get-put k j v [] = refl
  get-put k j v ((i, w) ∷ m) = ground (arith, eq_iff k j, eq_iff i k, eq_iff i j, get-put k j v m)

  pub get-put_self : (k : String) (v : V) (m : Dict V) → get k (put k v m) ≡ some v
  get-put_self k v m = ground (arith, get-put k k v m, eq_iff k k)

  -- What a key holds after a write is what was written to it, or what it held.
  pub get-put_cases :
      (k j : String) (v : V) (m : Dict V) (x : V)
      → get j (put k v m) ≡ some x
      → ((k ≡ j) × (v ≡ x)) ⊎ ((k ≢ j) × (get j m ≡ some x))
  get-put_cases k j v m x h = ground (arith, get-put k j v m, eq_iff k j)

  pub get-put_ne : (k j : String) (v : V) (m : Dict V) → k ≢ j → get j (put k v m) ≡ get j m
  get-put_ne k j v m h = ground (arith, get-put k j v m, eq_iff k j)

  -- A value that a key holds is among those that `range` visits.
  pub any-values :
      (p : V → Bool) (k : String) (v : V) (m : Dict V)
      → get k m ≡ some v
      → p v ≡ true
      → any p (values m) ≡ true
  unfolding get values
  any-values p k v [] h t = cc
  any-values p k v ((j, w) ∷ m) h t = ground (arith, any-values p k v m)

-- m[k], where a missing key gives no items: `append(m[k], x)`.
module _ {ℓ} {V : Type ℓ} where
  unfoldable pub get_list : String → Dict (List V) → List V
  get_list k [] = []
  get_list k ((j, vs) ∷ m) = if j == k then vs else get_list k m

  -- m[k] = append(m[k], v)
  unfoldable pub push : String → V → Dict (List V) → Dict (List V)
  unfolding get_list
  push k v m = put k (get_list k m ++ v ∷ []) m

  get_list-put :
      (k j : String) (vs : List V) (m : Dict (List V))
      → get_list j (put k vs m) ≡ (if k == j then vs else get_list j m)
  unfolding get_list put
  get_list-put k j vs [] = refl
  get_list-put k j vs ((i, w) ∷ m) =
      ground (arith, eq_iff k j, eq_iff i k, eq_iff i j, get_list-put k j vs m)

  -- An append is seen under its own key, and under no other.
  pub get_list-push :
      (k j : String) (v : V) (m : Dict (List V))
      → get_list j (push k v m) ≡ (if k == j then get_list k m ++ v ∷ [] else get_list j m)
  unfolding push
  get_list-push k j v m = get_list-put k j (get_list k m ++ v ∷ []) m
