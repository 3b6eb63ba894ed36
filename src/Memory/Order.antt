-- ===== src/Memory/Order.antt =====
-- The order of texts, and `newer` of memory/repository.go, which sorts by it.
use Prim.Native.String.{then}
use Prim.Native.String.compare
use Prim.Native.Nat.{Ordering}
use text.Mathlib.TextEquality.{codes_equal}
use Prim.Native.Char.{Char, code}
use financial_crime_complian.Common.{
  String, ◌≡◌, refl, ap, ◌∙◌, Bool, true, false, arith, ◌⊎◌, inl, inr, ltb, eqb, ◌&&◌, ◌||◌,
}
use financial_crime_complian.Common.Sorted.{IsOrder}
use financial_crime_complian.Application.Queries.{Cursor}
use financial_crime_complian.Memory.Notifications.{text_lt}
use financial_crime_complian.Memory.Pages.{newer}

lt_then :
    (o p : Ordering)
    → (elim (then o p) as (λ _. Bool) [ Ordering.lt ↦ true | _ ↦ false ]) ≡ (
        (elim o as (λ _. Bool) [ Ordering.lt ↦ true | _ ↦ false ])
        || ((elim o as (λ _. Bool) [ Ordering.eq ↦ true | _ ↦ false ])
            && (elim p as (λ _. Bool) [ Ordering.lt ↦ true | _ ↦ false ])))
lt_then Ordering.lt p = refl
lt_then Ordering.eq p = refl
lt_then Ordering.gt p = refl

text_lt_cons :
    (c d : Char) (s t : String)
    → text_lt (String.◌∷◌ c s) (String.◌∷◌ d t)
      ≡ (ltb (code c) (code d) || (eqb (code c) (code d) && text_lt s t))
text_lt_cons c d s t =
    ap (λ o. elim o as (λ _. Bool) [ Ordering.lt ↦ true | _ ↦ false ]) (compare.cons-cons c d s t)
    ∙ lt_then _ _

text_lt_nil : (d : Char) (t : String) → text_lt String.[] (String.◌∷◌ d t) ≡ true
text_lt_nil d t =
    ap (λ o. elim o as (λ _. Bool) [ Ordering.lt ↦ true | _ ↦ false ]) (compare.nil-cons d t)

text_lt_to_nil : (s : String) → text_lt s String.[] ≡ false
text_lt_to_nil String.[] = refl
text_lt_to_nil (String.◌∷◌ c s) =
    ap (λ o. elim o as (λ _. Bool) [ Ordering.lt ↦ true | _ ↦ false ]) (compare.cons-nil c s)

pub text_lt_asym : (s t : String) → text_lt s t ≡ true → text_lt t s ≡ false
text_lt_asym s String.[] h = ground (arith, text_lt_to_nil s)
text_lt_asym String.[] t h = text_lt_to_nil t
text_lt_asym (String.◌∷◌ c s) (String.◌∷◌ d t) h =
    ground (arith, text_lt_asym s t, text_lt_cons c d s t, text_lt_cons d c t s)

text_lt_cotrans :
    (s t u : String) → text_lt s t ≡ true → (text_lt s u ≡ true) ⊎ (text_lt u t ≡ true)
text_lt_cotrans s String.[] u h = ground (arith, text_lt_to_nil s)
text_lt_cotrans String.[] (String.◌∷◌ d t) String.[] h = inr (text_lt_nil d t)
text_lt_cotrans String.[] (String.◌∷◌ d t) (String.◌∷◌ e u) h = inl (text_lt_nil e u)
text_lt_cotrans (String.◌∷◌ c s) (String.◌∷◌ d t) String.[] h = inr (text_lt_nil d t)
text_lt_cotrans (String.◌∷◌ c s) (String.◌∷◌ d t) (String.◌∷◌ e u) h =
    ground (
      arith,
      text_lt_cotrans s t u,
      text_lt_cons c d s t,
      text_lt_cons c e s u,
      text_lt_cons e d u t,
    )

pub text_lt_total : (s t : String) → text_lt s t ≡ false → text_lt t s ≡ false → s ≡ t
text_lt_total String.[] String.[] h k = refl
text_lt_total String.[] (String.◌∷◌ d t) h k = ground (arith, text_lt_nil d t)
text_lt_total (String.◌∷◌ c s) String.[] h k = ground (arith, text_lt_nil c s)
text_lt_total (String.◌∷◌ c s) (String.◌∷◌ d t) h k =
    let same_code : code c ≡ code d = ground (arith, text_lt_cons c d s t, text_lt_cons d c t s) in
    let h' : text_lt s t ≡ false = ground (arith, text_lt_cons c d s t) in
    let k' : text_lt t s ≡ false = ground (arith, text_lt_cons d c t s) in
    λ i. String.◌∷◌ (codes_equal c d (ground arith) i) (text_lt_total s t h' k' i)

module _ {ℓ} {A : Type ℓ} (cursor : A → Cursor) where
  abbrev pub comes_first : A → A → Bool
  comes_first a b = newer (cursor a) (cursor b)

  pub comes_first-IsOrder : IsOrder comes_first
  comes_first-IsOrder = record {
    asym = λ x y h. ground (arith, text_lt_asym (cursor y).id (cursor x).id);
    cotrans = λ x y z h. ground (arith, text_lt_cotrans (cursor y).id (cursor x).id (cursor z).id);
  }

  -- Two items that neither comes before the other have one cursor.
  pub comes_first_total :
      (a b : A) → comes_first a b ≡ false → comes_first b a ≡ false → cursor a ≡ cursor b
  comes_first_total a b h k =
      let same_time : (cursor a).time ≡ (cursor b).time = ground arith in
      let same_id : (cursor a).id ≡ (cursor b).id =
        ground (arith, text_lt_total (cursor a).id (cursor b).id) in
      λ i. record { time = same_time i; id = same_id i }
