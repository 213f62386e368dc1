-- ===== src/Orm/Query/Agreement.antt =====
-- The fluent filters of crates/kernway-orm-memory/src/lib.rs beside the predicate trees of
-- crates/kernway-orm-core/src/spec.rs, which compare the printed text of a field.
use Prim.Native.Nat.{Ordering}
use kernway.Prelude.{
  ◌≡◌, refl, sym, ◌∙◌, Bool, false, Option, none, some, List, [], ◌∷◌, arith, any, Bytes,
  Option-cases, inl, inr,
}
use kernway.Orm.Ordered.{is_lt, is_eq, is_gt, is_le, is_ge, holds}
use kernway.Orm.Json.{
  Json, Value, null, bool, number, string, nested, bool_text, field_text, cmp_field_to_query,
  number_to_query,
}
use kernway.Orm.Spec.{Spec, matches, cmp}
use kernway.Orm.Entity.{Entity, field_value, get_field_str}
use kernway.Orm.Query.{Filter, matches_filter, compares}

-- What the printed text of a field tells of its value: that of a number is read back as the number,
-- and that of a truth value is no number.
pub record TextLaws {F64 Number Nested : Type 0} (j : Json F64 Number Nested) : Type 0 where
  pub read_back :
      (n : Number) (x : F64) → j.as_f64 n ≡ some x → j.parse_f64 (j.number_text n) ≡ some x
  pub some_float : (n : Number) → (x : F64) × (j.as_f64 n ≡ some x)
  pub no_number : (b : Bool) → j.parse_f64 (bool_text b) ≡ none

-- The tree of a filter that orders its field, or looks for a text in it.
abbrev pub spec_of : Filter → Option Spec
spec_of (Filter.gt f v) = some (Spec.gt f v)
spec_of (Filter.lt f v) = some (Spec.lt f v)
spec_of (Filter.gte f v) = some (Spec.gte f v)
spec_of (Filter.lte f v) = some (Spec.lte f v)
spec_of (Filter.like f v) = some (Spec.like f v)
spec_of (Filter.one_of f vs) = some (Spec.one_of f vs)
spec_of (Filter.between f lo hi) = some (Spec.between f lo hi)
spec_of (Filter.eq f v) = none
spec_of (Filter.ne f v) = none
spec_of (Filter.null f) = none
spec_of (Filter.not_null f) = none

module _ {T Key F64 Number Nested : Type 0} (j : Json F64 Number Nested)
    (entity : Entity T Key Number Nested) where
  -- No text field of the row looks like a number.
  pub record HasPlainTexts (row : T) : Type 0 where
    pub plain : (f s : Bytes) → field_value entity row f ≡ some (string s) → j.parse_f64 s ≡ none

  cmp_text :
      (laws : TextLaws j) (v : Value Number Nested) (query : Bytes)
      → ((s : Bytes) → v ≡ string s → j.parse_f64 s ≡ none)
      → cmp_field_to_query j v query ≡ cmp j (field_text j v) query
  unfolding cmp_field_to_query cmp field_text number_to_query
  cmp_text laws null query plain = refl
  cmp_text laws (bool b) query plain = rw (laws.no_number b) refl
  cmp_text laws (number n) query plain =
      let (x, e) = laws.some_float n in ground (arith, e, laws.read_back n x e)
  cmp_text laws (string s) query plain = ground (arith, plain s refl)
  cmp_text laws (nested a) query plain = refl

  text_absent :
      (row : T) (f : Bytes) → field_value entity row f ≡ none → get_field_str entity j row f ≡ none
  unfolding get_field_str
  text_absent row f e = rw (get_field_str, e) refl

  text_found :
      (row : T) (f : Bytes) (v : Value Number Nested)
      → field_value entity row f ≡ some v
      → get_field_str entity j row f ≡ field_text j v
  unfolding get_field_str
  text_found row f v e = rw (get_field_str, e) refl

  -- A test of a field is the test of its text.
  compares-cmp :
      (laws : TextLaws j) (p : Ordering → Bool) (row : T) (f query : Bytes)
      → HasPlainTexts row
      → compares j entity p row f query ≡ holds p (cmp j (get_field_str entity j row f) query)
  unfolding compares cmp
  compares-cmp laws p row f query texts = elim (Option-cases (field_value entity row f)) [
    | inl absent ↦ rw (absent, text_absent row f absent) refl
    | inr (v, found) ↦
        rw
          (
            found,
            text_found row f v found,
            cmp_text laws v query λ s e. texts.plain f s (found ∙ λ i. some (e i)),
          )
          refl
  ]

  any_none : (p : Bytes → Bool) (vs : List Bytes) → ((v : Bytes) → p v ≡ false) → any p vs ≡ false
  any_none p [] h = refl
  any_none p (v ∷ vs) h = rw (h v, any_none p vs h) refl

  any_congr :
      (p q : Bytes → Bool) (vs : List Bytes) → ((v : Bytes) → p v ≡ q v) → any p vs ≡ any q vs
  any_congr p q [] h = refl
  any_congr p q (v ∷ vs) h = rw (h v, any_congr p q vs h) refl

  one_of-cmp :
      (laws : TextLaws j) (row : T) (f : Bytes) (vs : List Bytes)
      → HasPlainTexts row
      → matches_filter j entity row (Filter.one_of f vs)
        ≡ matches j (Spec.one_of f vs) (get_field_str entity j row)
  unfolding matches_filter matches cmp
  one_of-cmp laws row f vs texts = elim (Option-cases (field_value entity row f)) [
    | inl absent ↦ rw (absent, text_absent row f absent) (sym (any_none (λ v. false) vs λ v. refl))
    | inr (v, found) ↦
        rw (found, text_found row f v found)
          (any_congr (λ q. holds is_eq (cmp_field_to_query j v q))
            (λ q. holds is_eq (cmp j (field_text j v) q)) vs
            λ query.
              rw (cmp_text laws v query λ s e. texts.plain f s (found ∙ λ i. some (e i))) refl)
  ]

  between-cmp :
      (laws : TextLaws j) (row : T) (f lo hi : Bytes)
      → HasPlainTexts row
      → matches_filter j entity row (Filter.between f lo hi)
        ≡ matches j (Spec.between f lo hi) (get_field_str entity j row)
  unfolding matches_filter matches cmp
  between-cmp laws row f lo hi texts = elim (Option-cases (field_value entity row f)) [
    | inl absent ↦ rw (absent, text_absent row f absent) refl
    | inr (v, found) ↦
        let plain = λ (s : Bytes) (e : v ≡ string s). texts.plain f s (found ∙ λ i. some (e i)) in
        rw (found, text_found row f v found, cmp_text laws v lo plain, cmp_text laws v hi plain)
          refl
  ]

  like-text :
      (row : T) (f v : Bytes)
      → matches_filter j entity row (Filter.like f v)
        ≡ matches j (Spec.like f v) (get_field_str entity j row)
  unfolding matches_filter matches
  like-text row f v = elim (Option-cases (get_field_str entity j row f)) [
    | inl absent ↦ rw absent refl
    | inr (c, found) ↦ rw found refl
  ]

  -- A filter that orders its field, bounds it on both sides, or looks for a text or for one of some values
  -- in it, seven of the eleven filters, admits the rows that its predicate tree admits, if no text
  -- field of the row reads as a number. Those for equality, which compare texts, and for nulls are left out.
  pub matches_filter-matches :
      (laws : TextLaws j) (row : T) (filter : Filter) (spec : Spec)
      → HasPlainTexts row
      → spec_of filter ≡ some spec
      → matches_filter j entity row filter ≡ matches j spec (get_field_str entity j row)
  unfolding matches_filter matches
  matches_filter-matches laws row (Filter.gt f v) spec texts e =
      ground (arith, e, compares-cmp laws is_gt row f v texts)
  matches_filter-matches laws row (Filter.lt f v) spec texts e =
      ground (arith, e, compares-cmp laws is_lt row f v texts)
  matches_filter-matches laws row (Filter.gte f v) spec texts e =
      ground (arith, e, compares-cmp laws is_ge row f v texts)
  matches_filter-matches laws row (Filter.lte f v) spec texts e =
      ground (arith, e, compares-cmp laws is_le row f v texts)
  matches_filter-matches laws row (Filter.like f v) spec texts e =
      ground (arith, e, like-text row f v)
  matches_filter-matches laws row (Filter.one_of f vs) spec texts e =
      ground (arith, e, one_of-cmp laws row f vs texts)
  matches_filter-matches laws row (Filter.between f lo hi) spec texts e =
      ground (arith, e, between-cmp laws row f lo hi texts)
  matches_filter-matches laws row _ spec texts e = absurd (ground (arith, e))
