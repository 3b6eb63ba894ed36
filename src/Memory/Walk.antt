-- ===== src/Memory/Walk.antt =====
-- A client that reads a list page by page, each with the token of the page before.
pub mod Apart
pub mod Tokens
pub mod Complete
use financial_crime_complian.Common.{
  ℕ, zero, suc, ◌+◌, List, [], ◌∷◌, ◌++◌, ◌≡◌, ◌≢◌, false, All, Option, none, some, if◌then◌else◌,
}
use financial_crime_complian.Common.Int.{pos}
use financial_crime_complian.Common.Text.{is_empty}
use financial_crime_complian.Effects.{Result, ok, err}
use financial_crime_complian.Application.Queries.{
  Cursor, PageRequest, TokenCodec, page, new_page_request,
}
use financial_crime_complian.Memory.Pages.{list_page}

-- The items of a list are pairwise different by their cursors.
abbrev pub AllApart {ℓ} : {A : Type ℓ} → (A → Cursor) → List A → Type 0
AllApart cursor [] = Unit
AllApart cursor (x ∷ xs) = All (λ v. cursor v ≢ cursor x) xs × AllApart cursor xs

-- A token is not empty, and gives back the cursor that it was made of.
pub record IsFaithful (codec : TokenCodec) : Type 0 where
  pub decodes : (c : Cursor) → codec.decode (codec.encode c) ≡ some c
  pub is_token : (c : Cursor) → is_empty (codec.encode c) ≡ false

module _ {ℓ} {A : Type ℓ} (codec : TokenCodec) (cursor : A → Cursor) (size : ℕ)
    (items : List A) where
  -- The pages of `size` items from a request on, for at most as many pages as the fuel; nothing if
  -- a token is refused or a page is left.
  unfoldable pub walk : ℕ → Result PageRequest → Option (List A)
  walk zero request = none
  walk (suc fuel) (err e) = none
  walk (suc fuel) (ok request) =
      let p = page codec cursor (list_page cursor request items) request.limit in
      let rest = walk fuel (new_page_request codec (pos size) p.next_page_token) in
      if is_empty p.next_page_token
      then some p.items
      else (elim rest [ none ↦ none | some more ↦ some (p.items ++ more) ])
