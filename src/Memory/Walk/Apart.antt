-- ===== src/Memory/Walk/Apart.antt =====
-- Sorting keeps items apart.
use financial_crime_complian.Common.{List, [], ◌∷◌, ◌++◌, ◌≢◌, sym, inl, inr, All, Bool-cases}
use financial_crime_complian.Common.Sort.{sort, insert}
use financial_crime_complian.Application.Queries.{Cursor}
use financial_crime_complian.Memory.Order.{comes_first}
use financial_crime_complian.Memory.Walk.{AllApart}

module _ {ℓ} {A : Type ℓ} (cursor : A → Cursor) where
  apart_from_insert :
      (x y : A) (ys : List A)
      → cursor y ≢ cursor x
      → All (λ v. cursor v ≢ cursor x) ys
      → All (λ v. cursor v ≢ cursor x) (insert (comes_first cursor) y ys)
  unfolding insert
  apart_from_insert x y [] h k = (h, tt)
  apart_from_insert x y (z ∷ zs) h k = elim (Bool-cases (comes_first cursor y z)) [
    | inl e ↦ rw e (h, k)
    | inr e ↦ rw e (k.0, apart_from_insert x y zs h k.1)
  ]

  insert-AllApart :
      (y : A) (ys : List A)
      → All (λ v. cursor v ≢ cursor y) ys
      → AllApart cursor ys
      → AllApart cursor (insert (comes_first cursor) y ys)
  unfolding insert
  insert-AllApart y [] h k = (tt, tt)
  insert-AllApart y (z ∷ zs) h k = elim (Bool-cases (comes_first cursor y z)) [
    | inl e ↦ rw e (h, k)
    | inr e ↦ rw e (apart_from_insert z y zs (λ q. h.0 (sym q)) k.0, insert-AllApart y zs h.1 k.1)
  ]

  apart_from_sort :
      (x : A) (xs : List A)
      → All (λ v. cursor v ≢ cursor x) xs
      → All (λ v. cursor v ≢ cursor x) (sort (comes_first cursor) xs)
  unfolding sort
  apart_from_sort x [] h = tt
  apart_from_sort x (y ∷ ys) h =
      apart_from_insert x y (sort (comes_first cursor) ys) h.0 (apart_from_sort x ys h.1)

  pub sort-AllApart :
      (xs : List A) → AllApart cursor xs → AllApart cursor (sort (comes_first cursor) xs)
  unfolding sort
  sort-AllApart [] h = tt
  sort-AllApart (x ∷ xs) h =
      insert-AllApart x (sort (comes_first cursor) xs) (apart_from_sort x xs h.0)
        (sort-AllApart xs h.1)

  pub suffix-AllApart : (xs ys : List A) → AllApart cursor (xs ++ ys) → AllApart cursor ys
  suffix-AllApart [] ys h = h
  suffix-AllApart (x ∷ xs) ys h = suffix-AllApart xs ys h.1
