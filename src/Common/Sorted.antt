-- ===== src/Common/Sorted.antt =====
-- Sorting by a comparison that is asymmetric and cotransitive, as a lexicographic order is.
use mathlib.Core.Path.{◌≡◌, refl, sym, ◌∙◌}
use mathlib.Core.Bool.{Bool, true, false}
use mathlib.Core.Logic.{◌⊎◌, inl, inr}
use mathlib.Core.List.{List, [], ◌∷◌}
use native.Mathlib.Omega.{arith}
use financial_crime_complian.Common.Tests.{if◌then◌else◌, Bool-cases}
use financial_crime_complian.Common.Lists.{All, select, All-select}
use financial_crime_complian.Common.Sort.{insert, sort}

pub record IsOrder {ℓ} {A : Type ℓ} (less : A → A → Bool) : Type ℓ where
  pub asym : (x y : A) → less x y ≡ true → less y x ≡ false
  pub cotrans : (x y z : A) → less x y ≡ true → (less x z ≡ true) ⊎ (less z y ≡ true)

module _ {ℓ} {A : Type ℓ} (less : A → A → Bool) where
  -- No element comes before one that stands earlier.
  abbrev pub IsSorted : List A → Type 0
  IsSorted [] = Unit
  IsSorted (x ∷ xs) = All (λ z. less z x ≡ false) xs × IsSorted xs

  All-insert {κ} :
      (P : A → Type κ) (x : A) (ys : List A) → P x → All P ys → All P (insert less x ys)
  unfolding insert
  All-insert P x [] p h = (p, tt)
  All-insert P x (y ∷ ys) p h = elim (Bool-cases (less x y)) [
    | inl e ↦ rw e (p, h)
    | inr e ↦ rw e (h.0, All-insert P x ys p h.1)
  ]

  pub All-sort {κ} : (P : A → Type κ) (xs : List A) → All P xs → All P (sort less xs)
  unfolding sort
  All-sort P [] h = tt
  All-sort P (x ∷ xs) h = All-insert P x (sort less xs) h.0 (All-sort P xs h.1)

  -- An element that comes before all others is put in front.
  insert_front : (x : A) (ys : List A) → All (λ y. less x y ≡ true) ys → insert less x ys ≡ x ∷ ys
  unfolding insert
  insert_front x [] h = refl
  insert_front x (y ∷ ys) h = rw h.0 refl

  module _ (order : IsOrder less) where
    not_before : (x y z : A) → less x y ≡ true → less z y ≡ false → less z x ≡ false
    not_before x y z h n = elim (Bool-cases (less z x)) [
      | inl e ↦ elim (order.cotrans z x y e) [
        | inl f ↦ cc
        | inr f ↦ ground (arith, order.asym x y h)
      ]
      | inr e ↦ e
    ]

    is_before : (x y z : A) → less x y ≡ true → less z y ≡ false → less x z ≡ true
    is_before x y z h n = elim (order.cotrans x y z h) [ inl f ↦ f | inr f ↦ cc ]

    not_before-All :
        (x y : A) (zs : List A)
        → less x y ≡ true
        → All (λ z. less z y ≡ false) zs
        → All (λ z. less z x ≡ false) zs
    not_before-All x y [] h k = tt
    not_before-All x y (z ∷ zs) h k = (not_before x y z h k.0, not_before-All x y zs h k.1)

    is_before-All :
        (x y : A) (zs : List A)
        → less x y ≡ true
        → All (λ z. less z y ≡ false) zs
        → All (λ z. less x z ≡ true) zs
    is_before-All x y [] h k = tt
    is_before-All x y (z ∷ zs) h k = (is_before x y z h k.0, is_before-All x y zs h k.1)

    insert-IsSorted : (x : A) (ys : List A) → IsSorted ys → IsSorted (insert less x ys)
    unfolding insert
    insert-IsSorted x [] h = (tt, tt)
    insert-IsSorted x (y ∷ ys) h = elim (Bool-cases (less x y)) [
      | inl e ↦ rw e ((order.asym x y e, not_before-All x y ys e h.0), h)
      | inr e ↦ rw e (All-insert (λ z. less z y ≡ false) x ys e h.0, insert-IsSorted x ys h.1)
    ]

    pub sort-IsSorted : (xs : List A) → IsSorted (sort less xs)
    unfolding sort
    sort-IsSorted [] = tt
    sort-IsSorted (x ∷ xs) = insert-IsSorted x (sort less xs) (sort-IsSorted xs)

    select-insert :
        (p : A → Bool) (x : A) (ys : List A)
        → IsSorted ys
        → select p (insert less x ys) ≡ (if p x then insert less x (select p ys) else select p ys)
    unfolding insert
    select-insert p x [] h = ground arith
    select-insert p x (y ∷ ys) h = elim (Bool-cases (less x y)) [
      | inl e ↦
          let front : insert less x (select p (y ∷ ys)) ≡ x ∷ select p (y ∷ ys) =
            insert_front x (select p (y ∷ ys))
              (All-select (λ z. less x z ≡ true) p (y ∷ ys) (e, is_before-All x y ys e h.0)) in
          rw (e, front) refl
      | inr e ↦ rw (e, select-insert p x ys h.1) (ground arith)
    ]

    -- Sorting what passes a test is the same as testing what is sorted.
    pub sort-select :
        (p : A → Bool) (xs : List A) → sort less (select p xs) ≡ select p (sort less xs)
    unfolding sort
    sort-select p [] = refl
    sort-select p (x ∷ xs) = sym (
        select-insert p x (sort less xs) (sort-IsSorted xs)
        ∙ rw (sym (sort-select p xs)) (ground arith))
