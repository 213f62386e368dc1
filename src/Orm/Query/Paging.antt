-- ===== src/Orm/Query/Paging.antt =====
-- The pages of crates/kernway-orm-memory/src/lib.rs and the counts of crates/kernway-orm-core/src/page.rs: the pages
-- of a query put together are all its rows.
use mathlib.Core.Logic.Iff
use kernway.Prelude.{
  ℕ, zero, suc, ◌+◌, ◌-◌, ◌*◌, ◌/◌, ◌%◌, ◌^◌, ◌≤◌, ◌<◌, ◌≡◌, ◌≢◌, ◌↔◌, refl, ap, min, true, false,
  none, List, [], ◌∷◌, ◌++◌, arith, ltb, ◌==◌, take, drop, length, inl, inr, Bool-cases, ltb→lt,
  ltb→le, length-take, length-drop,
}
use native.Mathlib.Nat.{div-add-mod'}
use kernway.Orm.Json.{Json}
use kernway.Orm.Page.{Page, new_page, div_ceil, has_next}
use kernway.Orm.Entity.{Entity, Result, ok, err, ◌>>=◌}
use kernway.Orm.Query.{
  MemoryQueryBuilder, Store, collect_items, fetch_all, fetch_page, page_start, apply_window,
  matches_filters,
}

take_nil {ℓ} : {A : Type ℓ} (n : ℕ) → take {A = A} n [] ≡ []
take_nil zero = refl
take_nil (suc n) = refl

take_add {ℓ} :
    {A : Type ℓ} (m n : ℕ) (xs : List A) → take (m + n) xs ≡ take m xs ++ take n (drop m xs)
take_add zero n xs = ground arith
take_add (suc m) n [] = rw (take_nil n, take_nil (suc m + n)) refl
take_add (suc m) n (x ∷ xs) =
    let e : suc m + n ≡ suc (m + n) = omega arith in rw (e, take_add m n xs) refl

take_all {ℓ} : {A : Type ℓ} (n : ℕ) (xs : List A) → length xs ≤ n → take n xs ≡ xs
take_all zero [] h = refl
take_all zero (x ∷ xs) h = absurd (omega arith)
take_all (suc n) [] h = refl
take_all (suc n) (x ∷ xs) h = λ i. x ∷ take_all n xs (omega arith) i

drop_all {ℓ} : {A : Type ℓ} (n : ℕ) (xs : List A) → length xs ≤ n → drop n xs ≡ []
drop_all zero [] h = refl
drop_all zero (x ∷ xs) h = absurd (omega arith)
drop_all (suc n) [] h = refl
drop_all (suc n) (x ∷ xs) h = drop_all n xs (omega arith)

-- The saturation of the start of a page cuts nothing off: no list is that long.
drop-page_start {ℓ} :
    {A : Type ℓ} (page size : ℕ) (xs : List A)
    → length xs < 2 ^ 64
    → drop (page_start page size) xs ≡ drop (page * size) xs
unfolding page_start
drop-page_start page size xs h = elim (Bool-cases (ltb (2 ^ 64 - 1) (page * size))) [
  | inl e ↦
      let far = ltb→lt (2 ^ 64 - 1) (page * size) e in
      let start : min (page * size) (2 ^ 64 - 1) ≡ 2 ^ 64 - 1 = omega (arith, far) in
      rw
        (
          start,
          drop_all (2 ^ 64 - 1) xs (omega arith),
          drop_all (page * size) xs (omega (arith, far)),
        )
        refl
  | inr e ↦
      let near = ltb→le (2 ^ 64 - 1) (page * size) e in
      let start : min (page * size) (2 ^ 64 - 1) ≡ page * size = omega (arith, near) in
      rw start refl
]

div_ceil-bound : (total size : ℕ) → size ≢ 0 → total ≤ div_ceil total size * size
unfolding div_ceil
div_ceil-bound total size h = grind arith

mul_le : (m n k : ℕ) → m ≤ n → m * k ≤ n * k
mul_le m n k h = grind arith

suc_mul : (n k : ℕ) → suc n * k ≡ n * k + k
suc_mul n k = grind arith

div_ceil-lt : (total size n : ℕ) → size ≢ 0 → n < div_ceil total size → n * size < total
unfolding div_ceil
div_ceil-lt total size n h lt =
    let whole = div-add-mod' total size in
    elim (Bool-cases (ltb 0 (total % size))) [
      | inl e ↦
          let more = ltb→lt 0 (total % size) e in
          let lt' : n < total / size + 1 = rw e at lt in
          omega (arith, mul_le n (total / size) size (omega (arith, lt')), whole, more)
      | inr e ↦
          let lt' : suc n ≤ total / size = rw e at lt in
          let step = mul_le (suc n) (total / size) size lt' in
          omega (arith, step, suc_mul n size, whole)
    ]

lt-div_ceil : (total size n : ℕ) → size ≢ 0 → n * size < total → n < div_ceil total size
lt-div_ceil total size n h lt = elim (Bool-cases (ltb n (div_ceil total size))) [
  | inl e ↦ ltb→lt n (div_ceil total size) e
  | inr e ↦
      let over = mul_le (div_ceil total size) n size (ltb→le n (div_ceil total size) e) in
      absurd (omega (arith, over, div_ceil-bound total size h, lt))
]

-- A cut of a list is not empty exactly if it starts before the list's end.
cut_iff {ℓ} :
    {A : Type ℓ} (size n : ℕ) (xs : List A)
    → size ≢ 0
    → (n < length xs) ↔ (take size (drop n xs) ≢ [])
cut_iff {A} size n xs h = (inside, outside)
  where
    inside : n < length xs → take size (drop n xs) ≢ []
    inside lt bad =
        let some_size : 0 < size = ground (arith, h) in
        omega
          (arith, ap (λ (c : List A). length c) bad, length-take size (drop n xs), length-drop n xs)

    outside : take size (drop n xs) ≢ [] → n < length xs
    outside some_items = elim (Bool-cases (ltb n (length xs))) [
      | inl e ↦ ltb→lt n (length xs) e
      | inr e ↦
          absurd (some_items (rw (drop_all n xs (ltb→le n (length xs) e), take_nil size) refl))
    ]

new_page-has_next :
    {A : Type 0} (items : List A) (total page size : ℕ)
    → size ≢ 0
    → page + 1 < 2 ^ 64
    → (has_next (new_page items total page size) ≡ true) ↔ (page + 1 < div_ceil total size)
unfolding has_next
new_page-has_next items total page size h small =
    let nonzero : (size == 0) ≡ false = ground (arith, h) in
    let no_wrap : (page + 1) % 2 ^ 64 ≡ page + 1 = omega (arith, small) in
    rw (nonzero, no_wrap) (ground arith)

module _ {T Key F64 Number Nested : Type 0} (j : Json F64 Number Nested)
    (entity : Entity T Key Number Nested) where
  -- The rows of the first pages, one after the other.
  pub read_pages : MemoryQueryBuilder → Store T Key → ℕ → ℕ → Result (List T)
  read_pages q store size zero = ok []
  read_pages q store size (suc n) = do
    before ← read_pages q store size n
    p ← fetch_page j entity q store n size
    ok (before ++ p.items)

  read_pages-take :
      (q : MemoryQueryBuilder) (store : Store T Key) (rows : List T) (size n : ℕ)
      → collect_items j entity q store ≡ ok rows
      → length rows < 2 ^ 64
      → size ≢ 0
      → read_pages q store size n ≡ ok (take (n * size) rows)
  unfolding read_pages fetch_page
  read_pages-take q store rows size zero h short some_size =
      let none_read : zero * size ≡ 0 = omega arith in rw none_read refl
  read_pages-take q store rows size (suc n) h short some_size =
      let nonzero : (size == 0) ≡ false = ground (arith, some_size) in
      rw
        (
          read_pages-take q store rows size n h short some_size,
          h,
          nonzero,
          drop-page_start n size rows short,
          suc_mul n size,
          take_add (n * size) size rows,
        )
        refl

  -- The page that is given when no error is.
  fetch_page_inv :
      (q : MemoryQueryBuilder) (store : Store T Key) (size page : ℕ) (p : Page T)
      → size ≢ 0
      → fetch_page j entity q store page size ≡ ok p
      → (rows : List T) × (collect_items j entity q store ≡ ok rows)
        × (p ≡ new_page (take size (drop (page_start page size) rows)) (length rows) page size)
  unfolding fetch_page
  fetch_page_inv q store size page p some_size h = go (collect_items j entity q store) refl
    where
      go :
          (found : Result (List T))
          → collect_items j entity q store ≡ found
          → (rows : List T) × (collect_items j entity q store ≡ ok rows)
            × (p ≡ new_page (take size (drop (page_start page size) rows)) (length rows) page size)
      go (err e) c = let x = rw c at h in absurd (ground (arith, x))
      go (ok rows) c =
          let nonzero : (size == 0) ≡ false = ground (arith, some_size) in
          let x = rw (c, nonzero) at h in (rows, c, ground (arith, x))

  fetch_all-collect_items :
      (q : MemoryQueryBuilder) (store : Store T Key)
      → fetch_all j entity (record q { limit = none; offset = 0 }) store
        ≡ collect_items j entity q store
  unfolding fetch_all collect_items apply_window matches_filters
  fetch_all-collect_items q store = ground arith

  -- The pages of a query, read one after the other up to the number of pages that each of them
  -- names, are the rows that the query without a window gives, each once and in their order. It
  -- holds for a page size other than 0 and fewer than 2^64 rows.
  pub read_pages-fetch_all :
      (q : MemoryQueryBuilder) (store : Store T Key) (rows : List T) (size : ℕ) (p : Page T)
      (page : ℕ)
      → fetch_all j entity (record q { limit = none; offset = 0 }) store ≡ ok rows
      → length rows < 2 ^ 64
      → size ≢ 0
      → fetch_page j entity q store page size ≡ ok p
      → read_pages q store size p.total_pages ≡ ok rows
  read_pages-fetch_all q store rows size p page h short some_size e =
      let (found, c, made) = fetch_page_inv q store size page p some_size e in
      let c' : collect_items j entity q store ≡ ok rows =
        rw (fetch_all-collect_items q store) at h in
      let same : found ≡ rows = ground (arith, c, c') in
      let nonzero : (size == 0) ≡ false = ground (arith, some_size) in
      let pages : p.total_pages ≡ div_ceil (length rows) size = rw (made, same, nonzero) refl in
      rw
        (
          pages,
          read_pages-take q store rows size (div_ceil (length rows) size) c' short some_size,
          take_all (div_ceil (length rows) size * size) rows
              (div_ceil-bound (length rows) size some_size),
        )
        refl

  -- A page says that another follows exactly if that one has rows, for a page size other than 0,
  -- fewer than 2^64 rows and a page number below 2^64 - 1.
  pub has_next-items :
      (q : MemoryQueryBuilder) (store : Store T Key) (size page : ℕ) (p next : Page T)
      → size ≢ 0
      → page + 1 < 2 ^ 64
      → p.total < 2 ^ 64
      → fetch_page j entity q store page size ≡ ok p
      → fetch_page j entity q store (page + 1) size ≡ ok next
      → (has_next p ≡ true) ↔ (next.items ≢ [])
  has_next-items q store size page p next some_size small short e f =
      let (rows, c, made) = fetch_page_inv q store size page p some_size e in
      let (rows', c', made') = fetch_page_inv q store size (page + 1) next some_size f in
      let same : rows' ≡ rows = ground (arith, c, c') in
      let nonzero : (size == 0) ≡ false = ground (arith, some_size) in
      let fits : length rows < 2 ^ 64 = rw (ap (λ (x : Page T). x.total) made) at short in
      let shown : next.items ≡ take size (drop ((page + 1) * size) rows) =
        rw (made', same, drop-page_start (page + 1) size rows fits) refl in
      rw (made, shown)
        (Iff.trans
          (new_page-has_next (take size (drop (page_start page size) rows)) (length rows) page size
            some_size small)
          (Iff.trans
            (
              div_ceil-lt (length rows) size (page + 1) some_size,
              lt-div_ceil (length rows) size (page + 1) some_size,
            )
            (cut_iff size ((page + 1) * size) rows some_size)))
