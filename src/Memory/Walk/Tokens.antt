-- ===== src/Memory/Walk/Tokens.antt =====
-- One page of QueryService, its token, and the request that the token makes.
use financial_crime_complian.Common.{
  eqb, ◌-◌, ℕ, zero, suc, ◌+◌, ◌≤◌, ◌<◌, List, [], ◌∷◌, ◌++◌, ◌≡◌, ◌≢◌, refl, ap, ◌∙◌, true, false,
  arith, inl, inr, All, take, length, Bool-cases, ltb, subst,
}
use financial_crime_complian.Common.Int.{pos}
use financial_crime_complian.Common.Text.{is_empty}
use financial_crime_complian.Common.Sort.{sort, insert}
use financial_crime_complian.Effects.{ok}
use financial_crime_complian.Application.Queries.{
  Cursor, PageRequest, TokenCodec, page, token_of_last, new_page_request,
}
use financial_crime_complian.Memory.Order.{comes_first}
use financial_crime_complian.Memory.Pages.{list_page, before}
use financial_crime_complian.Memory.Paging.{page_after, select-All}
use financial_crime_complian.Memory.Walk.{IsFaithful}

module _ {ℓ} {A : Type ℓ} (cursor : A → Cursor) where
  take_short : (n : ℕ) (xs : List A) → length xs ≤ n → take n xs ≡ xs
  take_short zero [] h = refl
  take_short zero (x ∷ xs) h = absurd (omega (arith, h))
  take_short (suc n) [] h = refl
  take_short (suc n) (x ∷ xs) h = ap (λ ys. x ∷ ys) (take_short n xs (omega (arith, h)))

  length-take_long : (n : ℕ) (xs : List A) → n ≤ length xs → length (take n xs) ≡ n
  length-take_long zero xs h = refl
  length-take_long (suc n) [] h = absurd (omega (arith, h))
  length-take_long (suc n) (x ∷ xs) h = omega (arith, length-take_long n xs)

  take-take : (n : ℕ) (xs : List A) → take n (take (suc n) xs) ≡ take n xs
  take-take zero xs = refl
  take-take (suc n) [] = refl
  take-take (suc n) (x ∷ xs) = ap (λ ys. x ∷ ys) (take-take n xs)

  one_more : (n : ℕ) → suc n ≡ n + 1
  one_more n = omega arith

  -- A list past its first m + 1 items.
  cut_at :
      (m : ℕ) (xs : List A)
      → suc m < length xs
      → (front : List A) × (y : A) × (back : List A) × (xs ≡ front ++ y ∷ back)
        × (take (suc m) xs ≡ front ++ y ∷ [])
        × (length back < length xs)
  cut_at m [] h = absurd (omega (arith, h))
  cut_at zero (x ∷ xs) h = ([], x, xs, refl, refl, omega arith)
  cut_at (suc m) (x ∷ xs) h =
      let (front, y, back, e, f, l) = cut_at m xs (omega (arith, h)) in
      (x ∷ front, y, back, ap (λ ys. x ∷ ys) e, ap (λ ys. x ∷ ys) f, omega (arith, l))

  pub cut_before :
      (size : ℕ) (xs : List A)
      → 1 ≤ size
      → size < length xs
      → (front : List A) × (y : A) × (back : List A) × (xs ≡ front ++ y ∷ back)
        × (take size xs ≡ front ++ y ∷ [])
        × (length back < length xs)
  cut_before zero xs h k = absurd (omega (arith, h))
  cut_before (suc m) xs h k = cut_at m xs k

module _ {ℓ} {A : Type ℓ} (codec : TokenCodec) (cursor : A → Cursor) where
  pub token_of_last-append :
      (front : List A) (y : A)
      → token_of_last codec cursor (front ++ y ∷ []) ≡ codec.encode (cursor y)
  unfolding token_of_last
  token_of_last-append [] y = refl
  token_of_last-append (x ∷ []) y = refl
  token_of_last-append (x ∷ z ∷ front) y = token_of_last-append (z ∷ front) y

  pub last_page :
      (n : ℕ) (xs : List A)
      → length xs ≤ n
      → page codec cursor (take (n + 1) xs) (n + 1) ≡ record { items = xs; next_page_token = "" }
  unfolding page
  last_page n xs h =
      let short : take (n + 1) xs ≡ xs = take_short cursor (n + 1) xs (omega (arith, h)) in
      let fewer : ltb (length xs) (n + 1) ≡ true = ground arith in rw (short, fewer) refl

  pub full_page :
      (n : ℕ) (xs : List A)
      → n < length xs
      → page codec cursor (take (n + 1) xs) (n + 1)
        ≡ record { items = take n xs; next_page_token = token_of_last codec cursor (take n xs) }
  unfolding page
  full_page n xs h =
      let len : length (take (n + 1) xs) ≡ n + 1 =
        length-take_long cursor (n + 1) xs (omega (arith, h)) in
      let full : ltb (length (take (n + 1) xs)) (n + 1) ≡ false = ground (arith, len) in
      let limit : n + 1 - 1 ≡ n = omega arith in
      let kept : take n (take (n + 1) xs) ≡ take n xs =
        subst (λ k. take n (take k xs) ≡ take n xs) (one_more cursor n) (take-take cursor n xs) in
      rw (full, limit, kept) refl

  pub next_request :
      (size : ℕ) (c : Cursor)
      → IsFaithful codec
      → 1 ≤ size
      → size ≤ 100
      → c.time ≢ 0
      → is_empty c.id ≡ false
      → new_page_request codec (pos size) (codec.encode c) ≡ ok (page_after (size + 1) c)
  unfolding new_page_request
  next_request zero c f h k t i = absurd (omega (arith, h))
  next_request (suc m) c f h k t i =
      let low : ltb (suc m) 1 ≡ false = ground arith in
      let high : ltb 100 (suc m) ≡ false = ground arith in
      let dated : eqb c.time 0 ≡ false = ground arith in
      rw (low, high, f.is_token c, f.decodes c, dated, i) refl

-- The request without a token.
abbrev pub from_the_start : ℕ → PageRequest
from_the_start limit = record { limit = limit; cursor_time = 0; cursor_id = "" }

pub first_request :
    (codec : TokenCodec) (size : ℕ)
    → 1 ≤ size
    → size ≤ 100
    → new_page_request codec (pos size) "" ≡ ok (from_the_start (size + 1))
unfolding new_page_request
first_request codec zero h k = absurd (omega (arith, h))
first_request codec (suc m) h k =
    let low : ltb (suc m) 1 ≡ false = ground arith in
    let high : ltb 100 (suc m) ≡ false = ground arith in rw (low, high) refl

module _ {ℓ} {A : Type ℓ} (cursor : A → Cursor) where
  All-from_the_start :
      (limit : ℕ) (xs : List A) → All (λ x. before (from_the_start limit) (cursor x) ≡ true) xs
  All-from_the_start limit [] = tt
  All-from_the_start limit (x ∷ xs) = (refl, All-from_the_start limit xs)

  pub first_page :
      (limit : ℕ) (items : List A)
      → list_page cursor (from_the_start limit) items ≡ take limit (sort (comes_first cursor) items)
  unfolding list_page
  first_page limit items =
      ap (λ xs. take limit (sort (comes_first cursor) xs))
        (select-All (λ x. before (from_the_start limit) (cursor x)) items
          (All-from_the_start limit items))

  length-insert :
      (x : A) (xs : List A) → length (insert (comes_first cursor) x xs) ≡ suc (length xs)
  unfolding insert
  length-insert x [] = refl
  length-insert x (y ∷ ys) = elim (Bool-cases (comes_first cursor x y)) [
    | inl e ↦ rw e refl
    | inr e ↦ rw e (ap suc (length-insert x ys))
  ]

  pub length-sort : (xs : List A) → length (sort (comes_first cursor) xs) ≡ length xs
  unfolding sort
  length-sort [] = refl
  length-sort (x ∷ xs) = length-insert x (sort (comes_first cursor) xs) ∙ ap suc (length-sort xs)
