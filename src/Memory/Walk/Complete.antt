-- ===== src/Memory/Walk/Complete.antt =====
-- The walk reads the whole list.
use financial_crime_complian.Memory.Walk.Apart.{suffix-AllApart, sort-AllApart}
use financial_crime_complian.Memory.Walk.Tokens.{token_of_last-append, last_page}
use financial_crime_complian.Common.{
  ℕ, zero, suc, ◌+◌, ◌≤◌, ◌<◌, String, List, [], ◌∷◌, ◌++◌, ◌≡◌, ◌≢◌, refl, sym, ap, ◌∙◌, false,
  arith, inl, inr, All, take, length, Bool-cases, ltb, Option, none, some, if◌then◌else◌, subst,
}
use financial_crime_complian.Common.Int.{pos}
use financial_crime_complian.Common.Text.{is_empty}
use financial_crime_complian.Common.Sorted.{All-sort}
use mathlib.Core.List.{append_assoc}
use financial_crime_complian.Common.Sort.{sort}
use financial_crime_complian.Effects.{ok}
use financial_crime_complian.Application.Queries.{
  Cursor, PageRequest, Page, TokenCodec, page, token_of_last, new_page_request,
}
use financial_crime_complian.Memory.Order.{comes_first}
use financial_crime_complian.Memory.Pages.{list_page}
use financial_crime_complian.Memory.Paging.{page_after, next_page, in_the_middle}
use financial_crime_complian.Memory.Walk.{AllApart, IsFaithful, walk}
use financial_crime_complian.Memory.Walk.Tokens.{
  first_request, token_of_last-append, last_page, from_the_start, next_request, first_page,
  full_page, length-sort, cut_before,
}

module _ {ℓ} {A : Type ℓ} (codec : TokenCodec) (cursor : A → Cursor) (size : ℕ) (items : List A)
    (faithful : IsFaithful codec) (some_size : 1 ≤ size) (small : size ≤ 100)
    (apart : AllApart cursor items)
    (stamped : All (λ v. ((cursor v).time ≢ 0) × (is_empty (cursor v).id ≡ false)) items) where
  abbrev sorted : List A
  sorted = sort (comes_first cursor) items

  -- One round of the walk, on its page.
  abbrev page_then : ℕ → Page A → Option (List A)
  page_then fuel p =
      let rest =
        walk codec cursor size items fuel (new_page_request codec (pos size) p.next_page_token) in
      if is_empty p.next_page_token
      then some p.items
      else (elim rest [ none ↦ none | some more ↦ some (p.items ++ more) ])

  walk_last :
      (fuel : ℕ) (request : PageRequest) (kept : List A)
      → page codec cursor (list_page cursor request items) request.limit
        ≡ record { items = kept; next_page_token = "" }
      → walk codec cursor size items (suc fuel) (ok request) ≡ some kept
  unfolding walk
  walk_last fuel request kept e = rw e refl

  walk_more :
      (fuel : ℕ) (request : PageRequest) (kept more : List A) (token : String)
      → page codec cursor (list_page cursor request items) request.limit
        ≡ record { items = kept; next_page_token = token }
      → is_empty token ≡ false
      → walk codec cursor size items fuel (new_page_request codec (pos size) token) ≡ some more
      → walk codec cursor size items (suc fuel) (ok request) ≡ some (kept ++ more)
  unfolding walk
  walk_more fuel request kept more token e t w = ap (page_then fuel) e ∙ rw (t, w) refl

  item_at :
      (front back : List A) (y : A)
      → sorted ≡ front ++ y ∷ back
      → ((cursor y).time ≢ 0)
        × (is_empty (cursor y).id ≡ false)
        × All (λ v. cursor v ≢ cursor y) back
  item_at front back y e =
      let good : ((cursor y).time ≢ 0) × (is_empty (cursor y).id ≡ false) =
        in_the_middle (λ v. ((cursor v).time ≢ 0) × (is_empty (cursor v).id ≡ false)) front y back
          (subst (All (λ v. ((cursor v).time ≢ 0) × (is_empty (cursor v).id ≡ false))) e (
            All-sort (comes_first cursor)
              (λ v. ((cursor v).time ≢ 0) × (is_empty (cursor v).id ≡ false)) items stamped)) in
      let others : AllApart cursor (y ∷ back) =
        suffix-AllApart cursor front (y ∷ back)
          (subst (AllApart cursor) e (sort-AllApart cursor items apart)) in
      (good.0, good.1, others.0)

  -- With this fuel, the pages from a request on that lists what is behind `front` give the rest.
  Reads : ℕ → Type ℓ
  Reads fuel =
      (front rest : List A) (request : PageRequest)
      → sorted ≡ front ++ rest
      → list_page cursor request items ≡ take (size + 1) rest
      → request.limit ≡ size + 1
      → length rest < fuel
      → walk codec cursor size items fuel (ok request) ≡ some rest

  walk_on :
      (fuel : ℕ) (front rest : List A) (request : PageRequest)
      → Reads fuel
      → sorted ≡ front ++ rest
      → page codec cursor (list_page cursor request items) request.limit ≡ record {
        items = take size rest;
        next_page_token = token_of_last codec cursor (take size rest);
      }
      → length rest < suc fuel
      → (f : List A) × (y : A) × (back : List A) × (rest ≡ f ++ y ∷ back)
        × (take size rest ≡ f ++ y ∷ [])
        × (length back < length rest)
      → walk codec cursor size items (suc fuel) (ok request) ≡ some rest
  unfolding Reads
  walk_on fuel front rest request reads e p h (f, y, back, e1, e2, l) =
      let t : token_of_last codec cursor (take size rest) ≡ codec.encode (cursor y) =
        ap (token_of_last codec cursor) e2 ∙ token_of_last-append codec cursor f y in
      let at_y : sorted ≡ (front ++ f) ++ y ∷ back =
        e ∙ ap (λ r. front ++ r) e1 ∙ sym (append_assoc front f (y ∷ back)) in
      let behind_y : sorted ≡ ((front ++ f) ++ y ∷ []) ++ back =
        at_y ∙ sym (append_assoc (front ++ f) (y ∷ []) back) in
      let (dated, named, others) = item_at (front ++ f) back y at_y in
      let more : walk codec cursor size items fuel
            (new_page_request codec (pos size) (codec.encode (cursor y)))
          ≡ some back =
        ap (walk codec cursor size items fuel)
          (next_request codec cursor size (cursor y) faithful some_size small dated named)
        ∙ reads ((front ++ f) ++ y ∷ []) back (page_after (size + 1) (cursor y)) behind_y
            (next_page cursor (size + 1) items (front ++ f) back y at_y dated others) refl
            (omega (arith, h, l)) in
      let whole : take size rest ++ back ≡ rest =
        ap (λ r. r ++ back) e2 ∙ append_assoc f (y ∷ []) back ∙ sym e1 in
      walk_more fuel request (take size rest) back (codec.encode (cursor y))
        (p ∙ ap (λ u. record { items = take size rest; next_page_token = u }) t)
        (faithful.is_token (cursor y)) more
      ∙ ap some whole

  walk_from : (fuel : ℕ) → Reads fuel
  unfolding Reads
  walk_from zero front rest request e listed limit h = absurd (omega (arith, h))
  walk_from (suc fuel) front rest request e listed limit h =
      elim (Bool-cases (ltb size (length rest))) [
        | inr short ↦
            walk_last fuel request rest
              (rw (listed, limit) (last_page codec cursor size rest (ground arith)))
        | inl long ↦
            walk_on fuel front rest request (walk_from fuel) e
              (rw (listed, limit) (full_page codec cursor size rest (ground arith))) h
              (cut_before cursor size rest some_size (ground arith))
      ]

-- Reading a list page by page gives every item once, newest first: with pages of 1 to 100 items, and
-- tokens that give back their cursors, a client that starts without a token and follows the token
-- of each page reads the sorted list, if no two items have one cursor and every item has an
-- identifier and a time.
pub walk-eq-sort {ℓ} :
    {A : Type ℓ} (codec : TokenCodec) (cursor : A → Cursor) (size : ℕ) (items : List A)
    → IsFaithful codec
    → 1 ≤ size
    → size ≤ 100
    → AllApart cursor items
    → All (λ v. ((cursor v).time ≢ 0) × (is_empty (cursor v).id ≡ false)) items
    → walk codec cursor size items (suc (length items)) (new_page_request codec (pos size) "")
      ≡ some (sort (comes_first cursor) items)
walk-eq-sort codec cursor size items f h k apart stamped =
    ap (walk codec cursor size items (suc (length items))) (first_request codec size h k)
    ∙ unfold Reads in
      walk_from codec cursor size items f h k apart stamped (suc (length items)) []
        (sort (comes_first cursor) items) (from_the_start (size + 1)) refl
        (first_page cursor (size + 1) items) refl (omega (arith, length-sort cursor items))
