-- ===== src/Memory/Paging.antt =====
-- memory/repository.go: the pages of a list, one behind the other.
use financial_crime_complian.Common.{
  ℕ, List, [], ◌∷◌, ◌++◌, ◌≡◌, ◌≢◌, refl, ap, ◌∙◌, Bool, true, false, arith, inl, inr, All, take,
  select, Bool-cases, subst,
}
use financial_crime_complian.Common.Sort.{sort}
use financial_crime_complian.Common.Sorted.{IsSorted, sort-IsSorted, sort-select}
use financial_crime_complian.Application.Queries.{Cursor, PageRequest}
use financial_crime_complian.Memory.Order.{comes_first, comes_first-IsOrder, comes_first_total}
use financial_crime_complian.Memory.Pages.{before, list_page}

-- The request for the page behind an item.
abbrev pub page_after : ℕ → Cursor → PageRequest
page_after limit c = record { limit = limit; cursor_time = c.time; cursor_id = c.id }

pub select-All {ℓ} :
    {A : Type ℓ} (p : A → Bool) (xs : List A) → All (λ x. p x ≡ true) xs → select p xs ≡ xs
select-All p [] h = refl
select-All p (x ∷ xs) h = rw (h.0, select-All p xs h.1) refl

pub in_the_middle {ℓ} :
    {A : Type ℓ} (P : A → Type 0) (xs : List A) (y : A) (ys : List A) → All P (xs ++ y ∷ ys) → P y
in_the_middle P [] y ys h = h.0
in_the_middle P (x ∷ xs) y ys h = in_the_middle P xs y ys h.1

module _ {ℓ} {A : Type ℓ} (cursor : A → Cursor) (limit : ℕ) (x : A) where
  -- The test that the request behind `x` makes.
  abbrev is_behind : A → Bool
  is_behind v = before (page_after limit (cursor x)) (cursor v)

  module _ (h : (cursor x).time ≢ 0) where
    is_behind-eq : (v : A) → is_behind v ≡ comes_first cursor x v
    is_behind-eq v = ground arith

    not_behind_itself : is_behind x ≡ false
    not_behind_itself = ground (arith, is_behind-eq x, (comes_first-IsOrder cursor).asym x x)

    behind : (v : A) → comes_first cursor v x ≡ false → cursor v ≢ cursor x → is_behind v ≡ true
    behind v n d = elim (Bool-cases (comes_first cursor x v)) [
      | inl e ↦ is_behind-eq v ∙ e
      | inr e ↦ absurd (d (comes_first_total cursor v x n e))
    ]

    All-is_behind :
        (vs : List A)
        → All (λ v. comes_first cursor v x ≡ false) vs
        → All (λ v. cursor v ≢ cursor x) vs
        → All (λ v. is_behind v ≡ true) vs
    All-is_behind [] s d = tt
    All-is_behind (v ∷ vs) s d = (behind v s.0 d.0, All-is_behind vs s.1 d.1)

    -- In a sorted list the items behind `x` are those that follow it.
    select-is_behind :
        (front back : List A)
        → IsSorted (comes_first cursor) (front ++ x ∷ back)
        → All (λ v. cursor v ≢ cursor x) back
        → select is_behind (front ++ x ∷ back) ≡ back
    select-is_behind [] back s d =
        rw (not_behind_itself, select-All is_behind back (All-is_behind back s.0 d)) refl
    select-is_behind (v ∷ front) back s d =
        let first : comes_first cursor x v ≡ false =
          in_the_middle (λ z. comes_first cursor z v ≡ false) front x back s.0 in
        rw (is_behind-eq v ∙ first, select-is_behind front back s.1 d) refl

-- Pages neither skip nor repeat an item: if all items, sorted newest first, are `front`, then `x`,
-- then `back`, then the page behind the cursor of `x` is the first `limit` items of `back`, provided
-- that the time of `x` is not the zero time and no item of `back` has the cursor of `x`.
pub next_page {ℓ} :
    {A : Type ℓ} (cursor : A → Cursor) (limit : ℕ) (items front back : List A) (x : A)
    → sort (comes_first cursor) items ≡ front ++ x ∷ back
    → (cursor x).time ≢ 0
    → All (λ v. cursor v ≢ cursor x) back
    → list_page cursor (page_after limit (cursor x)) items ≡ take limit back
unfolding list_page
next_page cursor limit items front back x e h d =
    let sorted : IsSorted (comes_first cursor) (front ++ x ∷ back) =
      subst (IsSorted (comes_first cursor)) e
        (sort-IsSorted (comes_first cursor) (comes_first-IsOrder cursor) items) in
    ap (take limit) (
      sort-select (comes_first cursor) (comes_first-IsOrder cursor) (is_behind cursor limit x) items
      ∙ ap (select (is_behind cursor limit x)) e
      ∙ select-is_behind cursor limit x h front back sorted d)
