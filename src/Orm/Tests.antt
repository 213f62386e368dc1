-- ===== src/Orm/Tests.antt =====
-- Rows with a rank that is 9 or 10, in which an id is written by as many marks, and each theorem on them.
use Prim.Native.Nat.{Ordering, compare}
use kernway.Prelude.{
  ℕ, zero, suc, ◌+◌, ◌≤◌, ◌≡◌, inl, inr, refl, ◌∙◌, Bool, true, false, Option, none, some, List, [],
  ◌∷◌, ◌++◌, arith, Bytes, codes, Map, lookup, insert, same, list_eq, nat_eq, lookup-insert,
  parse_u64, digits, digits_from, length, Bool-cases,
}
use kernway.Orm.Ordered.{
  IsTotalOrder, sort_by, insert_first, text_cmp, contains_text, has_prefix, text_eq,
}
use kernway.Orm.Json.{
  Json, Value, number, string, bool_text, compare_field_values, cmp_field_to_query, number_to_query,
  scalar, field_text,
}
use kernway.Orm.Json.Order.{JsonLaws}
use kernway.Orm.Spec
use kernway.Orm.Spec.{matches, cmp}
use kernway.Orm.Page.{new_page, has_next, div_ceil}
use kernway.Orm.Entity.{
  Entity, ColumnDef, integer, object, ok, raw_field_value, field_value, get_field_str,
}
use kernway.Orm.Query.{
  MemoryQueryBuilder, Store, Filter, asc, new_query, fetch_all, fetch_one, fetch_count, fetch_page,
  page_start, compares, compare_fields, first_row, collect_items, compare_entities, matches_filter,
  matches_filters, lock, sorted, apply_window,
}
use kernway.Orm.Query.Answers.{fetch_all-Answers, Answers}
use kernway.Orm.Query.Paging.{read_pages, read_pages-fetch_all}
use kernway.Orm.Query.Agreement.{TextLaws, HasPlainTexts, matches_filter-matches}
use kernway.Orm.Memory.{
  InMemoryRepository, new_repository, pk_field, maybe_assign_id, with_generated_id, as_object,
  store_row, with_rows, save, find_by_id, count,
}
use kernway.Orm.Memory.Defaults.{AgreesWithDefaults, memory-AgreesWithDefaults}
use kernway.Orm.Memory.Ids.{EntityLaws, Reached, save-fresh, save-overwrites}

data Rank : Type 0 where
  nine : Rank
  ten : Rank

abbrev rank_of : Rank → ℕ
rank_of nine = 9
rank_of ten = 10

abbrev rank_text : Rank → Bytes
rank_text nine = codes "9"
rank_text ten = codes "10"

abbrev json : Json ℕ Rank (Unit {0})
json = record {
  parse_f64 = parse_u64;
  partial_cmp = λ a b. some (compare a b);
  as_f64 = λ n. some (rank_of n);
  number_text = rank_text;
  string_text = λ s. b'"' ∷ s ++ b'"' ∷ [];
  nested_text = λ u. codes "[]";
}

abbrev by_rank : Rank → Rank → Ordering
by_rank a b = compare (rank_of a) (rank_of b)

by_rank-IsTotalOrder : IsTotalOrder by_rank
by_rank-IsTotalOrder = record {
  refl_eq = λ a. ground arith;
  swap = λ a b. ground arith;
  trans = λ a b c h k. ground (arith, h, k);
}

number_starts : (n : Rank) → (c : ℕ) × (t : Bytes) × (rank_text n ≡ c ∷ t) × (b'-' ≤ c) × (c ≤ b'9')
number_starts nine = (b'9', [], refl, omega arith, omega arith)
number_starts ten = (b'1', b'0' ∷ [], refl, omega arith, omega arith)

json-JsonLaws : JsonLaws json
json-JsonLaws = record {
  string_starts = λ s. (s ++ b'"' ∷ [], refl);
  number_starts = number_starts;
  magnitude = by_rank;
  magnitude_total = by_rank-IsTotalOrder;
  finite = λ n. (rank_of n, refl);
  compared = λ m n x y ex ey. ground (arith, ex, ey);
}

read_back : (n : Rank) (x : ℕ) → some (rank_of n) ≡ some x → parse_u64 (rank_text n) ≡ some x
unfolding parse_u64
read_back nine x h = h
read_back ten x h = h

no_number : (b : Bool) → parse_u64 (bool_text b) ≡ none
unfolding parse_u64 bool_text
no_number true = refl
no_number false = refl

json-TextLaws : TextLaws json
json-TextLaws = record {
  read_back = read_back;
  some_float = λ n. (rank_of n, refl);
  no_number = no_number;
}

record Todo : Type 0 where
  id : ℕ
  title : Bytes
  rank : Rank

abbrev JsonValue : Type 0
JsonValue = Value Rank (Unit {0})

abbrev marks : ℕ → Bytes
marks zero = []
marks (suc n) = b'I' ∷ marks n

abbrev read_text : Option JsonValue → Option Bytes
read_text (some (string s)) = some s
read_text _ = none

abbrev read_rank : Option JsonValue → Option Rank
read_rank (some (number n)) = some n
read_rank _ = none

abbrev built : Option Bytes → Option Bytes → Option Rank → Option Todo
built (some i) (some t) (some r) = some (record { id = length i; title = t; rank = r })
built _ _ _ = none

abbrev column : Bytes → Bool → ColumnDef
column name primary = record {
  name = name;
  field = name;
  col_type = integer;
  nullable = false;
  primary_key = primary;
  unique = primary;
  auto = primary;
}

abbrev entity : Entity Todo ℕ Rank (Unit {0})
entity = record {
  id = λ t. t.id;
  default_id = 0;
  columns = column (codes "title") false ∷ column (codes "id") true ∷ [];
  id_of_number = λ n. some n;
  id_to_value = λ k. some (string (marks k));
  to_value = λ t. object (
      (codes "id", string (marks t.id))
      ∷ (codes "title", string t.title)
      ∷ (codes "rank", number t.rank)
      ∷ []);
  from_value = λ m.
      built (read_text (lookup (codes "id") m)) (read_text (lookup (codes "title") m))
        (read_rank (lookup (codes "rank") m));
}

length-marks : (n : ℕ) → length (marks n) ≡ n
length-marks zero = refl
length-marks (suc n) = λ i. suc (length-marks n i)

built-id :
    (i : Bytes) (t : Option Bytes) (r : Option Rank) (stored : Todo)
    → built (some i) t r ≡ some stored
    → stored.id ≡ length i
built-id i none r stored h = cc
built-id i (some t) none stored h = cc
built-id i (some t) (some r) stored h = ground (arith, h)

written :
    (stored : Todo) (k : ℕ) (pk : Bytes) (v : JsonValue) (fields : Map Bytes JsonValue)
    → pk_field entity.columns ≡ some pk
    → entity.id_to_value k ≡ some v
    → entity.from_value (insert pk v fields) ≡ some stored
    → stored.id ≡ k
unfolding pk_field
written stored k pk v fields e f h =
    let key : codes "id" ≡ pk = ground (arith, e) in
    let value : string (marks k) ≡ v = ground (arith, f) in
    let found : lookup (codes "id") (insert pk v fields) ≡ some v =
      rw (← key, lookup-insert (codes "id") (codes "id") v fields) refl in
    let x = rw (found, ← value) at h in
    built-id (marks k) (read_text (lookup (codes "title") (insert pk (string (marks k)) fields)))
      (read_rank (lookup (codes "rank") (insert pk (string (marks k)) fields))) stored x
    ∙ length-marks k

entity-EntityLaws : EntityLaws entity
entity-EntityLaws = record { number_ids = λ m n k h h'. ground (arith, h, h'); written = written }

abbrev todo : ℕ → Bytes → Rank → Todo
todo i t r = record { id = i; title = t; rank = r }

abbrev first : Todo
first = todo 1 (codes "a") ten

abbrev second : Todo
second = todo 2 (codes "b") nine

abbrev third : Todo
third = todo 3 (codes "c") ten

abbrev store : Store Todo ℕ
store = record { rows = (1, first) ∷ (2, second) ∷ (3, third) ∷ []; poisoned = false }

abbrev by_rank_query : MemoryQueryBuilder
by_rank_query = record {
  filters = Filter.gte (codes "rank") (codes "9") ∷ [];
  spec = some (Spec.negated (Spec.eq (codes "title") (codes "c")));
  order = some (asc (codes "rank"));
  limit = some 2;
  offset = 0;
}

-- What the runs unfold.
engine : Unit {0}
unfolding fetch_all fetch_one fetch_count fetch_page page_start collect_items lock sorted
    apply_window matches_filters matches_filter matches compares get_field_str field_value
    raw_field_value sort_by insert_first compare_entities compare_fields compare_field_values
    cmp_field_to_query number_to_query cmp text_cmp scalar lookup field_text parse_u64 digits
    digits_from div_ceil has_next save maybe_assign_id with_generated_id pk_field as_object
    store_row with_rows insert find_by_id count contains_text has_prefix text_eq first_row new_query
engine = tt

-- The smaller rank comes first, though its text is the greater.
fetch_all-run : fetch_all json entity by_rank_query store ≡ ok (second ∷ first ∷ [])
unfolding engine
fetch_all-run = refl

fetch_page-run : fetch_page json entity new_query store 1 2 ≡ ok (new_page (third ∷ []) 3 1 2)
unfolding engine
fetch_page-run = refl

fetch_first-run :
    fetch_page json entity new_query store 0 2 ≡ ok (new_page (first ∷ second ∷ []) 3 0 2)
unfolding engine
fetch_first-run = refl

every-run : fetch_all json entity new_query store ≡ ok (first ∷ second ∷ third ∷ [])
unfolding engine
every-run = refl

fetch_all-Answers_example :
    (result : List Todo) × (fetch_all json entity by_rank_query store ≡ ok result)
    × Answers json entity by_rank_query store result
fetch_all-Answers_example = fetch_all-Answers json entity json-JsonLaws by_rank_query store refl

read_pages-fetch_all_example :
    read_pages json entity new_query store 2 2 ≡ ok (first ∷ second ∷ third ∷ [])
unfolding new_query div_ceil
read_pages-fetch_all_example =
    read_pages-fetch_all json entity new_query store (first ∷ second ∷ third ∷ []) 2
      (new_page (third ∷ []) 3 1 2) 1 every-run (omega arith) (λ bad. ground (arith, bad))
      fetch_page-run

abbrev repository : InMemoryRepository Todo ℕ
repository = record { store = store; next_id = 0 }

memory-AgreesWithDefaults_example : AgreesWithDefaults json entity repository
memory-AgreesWithDefaults_example = memory-AgreesWithDefaults json entity repository refl

abbrev counted : Map ℕ Todo → ℕ → InMemoryRepository Todo ℕ
counted rows next = record { store = record { rows = rows; poisoned = false }; next_id = next }

-- A first row without an id is stored under 1.
created-run :
    save json entity new_repository (todo 0 (codes "a") ten)
    ≡ (ok first, counted ((1, first) ∷ []) 1)
unfolding engine
created-run = refl

save-fresh_example :
    (find_by_id json entity new_repository 1 ≡ ok none)
    × ((n : ℕ)
        → count json entity new_repository ≡ ok n
        → count json entity (counted ((1, first) ∷ []) 1) ≡ ok (n + 1))
save-fresh_example =
    save-fresh json entity entity-EntityLaws new_repository (counted ((1, first) ∷ []) 1)
      (todo 0 (codes "a") ten) first Reached.start refl (omega arith) created-run

abbrev other : Todo
other = todo 1 (codes "b") nine

overwrite-run :
    save json entity (counted ((1, first) ∷ []) 0) (todo 0 (codes "b") nine)
    ≡ (ok other, counted ((1, other) ∷ []) 1)
unfolding engine
overwrite-run = refl

first-run : find_by_id json entity (counted ((1, first) ∷ []) 0) 1 ≡ ok (some first)
unfolding engine
first-run = refl

save-overwrites_example :
    (find_by_id json entity (counted ((1, other) ∷ []) 1) 1 ≡ ok (some other))
    × ((n : ℕ)
        → count json entity (counted ((1, first) ∷ []) 0) ≡ ok n
        → count json entity (counted ((1, other) ∷ []) 1) ≡ ok n)
save-overwrites_example =
    save-overwrites json entity entity-EntityLaws (counted ((1, first) ∷ []) 0)
      (counted ((1, other) ∷ []) 1) (todo 0 (codes "b") nine) first other refl first-run refl
      (omega arith) overwrite-run

texts-plain : (parse_u64 (codes "I") ≡ none) × (parse_u64 (codes "a") ≡ none)
unfolding parse_u64 digits digits_from
texts-plain = (refl, refl)

plain_as :
    (s t : Bytes)
    → parse_u64 t ≡ none
    → ◌≡◌ {A = Option JsonValue} (some (string t)) (some (string s))
    → parse_u64 s ≡ none
plain_as s t plain e = let same_text : t ≡ s = ground (arith, e) in rw (← same_text) plain

first-plain : (f s : Bytes) → field_value entity first f ≡ some (string s) → parse_u64 s ≡ none
unfolding field_value raw_field_value lookup scalar
first-plain f s e = elim (Bool-cases (same (codes "id") f)) [
  | inl is_id ↦ plain_as s (codes "I") texts-plain.0 (rw is_id at e)
  | inr not_id ↦ elim (Bool-cases (same (codes "title") f)) [
    | inl is_title ↦ plain_as s (codes "a") texts-plain.1 (rw (not_id, is_title) at e)
    | inr not_title ↦ elim (Bool-cases (same (codes "rank") f)) [
      | inl is_rank ↦ let x = rw (not_id, not_title, is_rank) at e in absurd (ground (arith, x))
      | inr not_rank ↦ let x = rw (not_id, not_title, not_rank) at e in absurd (ground (arith, x))
    ]
  ]
]

first-HasPlainTexts : HasPlainTexts json entity first
first-HasPlainTexts = record { plain = first-plain }

matches_filter-matches_example :
    matches_filter json entity first (Filter.gt (codes "rank") (codes "9"))
    ≡ matches json (Spec.gt (codes "rank") (codes "9")) (get_field_str entity json first)
matches_filter-matches_example =
    matches_filter-matches json entity json-TextLaws first (Filter.gt (codes "rank") (codes "9"))
      (Spec.gt (codes "rank") (codes "9")) first-HasPlainTexts refl
