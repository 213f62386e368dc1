-- ===== src/Orm/Memory/Ids.antt =====
-- The ids that crates/kernway-orm-memory/src/lib.rs generates: new ones as long as every row got its id that way,
-- and not else.
use kernway.Prelude.{
  ℕ, ◌+◌, ◌%◌, ◌^◌, ◌≤◌, ◌<◌, ◌≡◌, ◌≢◌, refl, ◌⊎◌, false, Option, none, some, arith, Bytes, Map,
  lookup, insert, remove, Eq, same, same_iff, same_refl, same_ne, Bool-cases, Option-cases, inl,
  inr, lookup-insert, lookup-remove, length-insert_new, length-insert_old, list_eq, nat_eq,
}
use kernway.Orm.Json.{Json, Value}
use kernway.Orm.Entity.{
  Entity, Result, ok, err, ◌>>=◌, ok_or, type_conversion, transaction, ok_or-eq-ok,
}
use kernway.Orm.Query.{Store, lock}
use kernway.Orm.Repository.{and_then}
use kernway.Orm.Memory.{
  InMemoryRepository, new_repository, pk_field, as_object, with_generated_id, maybe_assign_id,
  find_by_id, count, store_row, with_rows, save, delete_by_id,
}
use kernway.Orm.Memory.Saves.{Assigned, saved_state, save_inv, save-find_by_id}

-- What the code relies on: ids of different numbers differ, and a row that is read from an object
-- has the id that the object holds in the field of the primary key.
pub record EntityLaws {T Key Number Nested : Type 0} (entity : Entity T Key Number Nested)
    : Type 0 where
  pub number_ids :
      (m n : ℕ) (k : Key) → entity.id_of_number m ≡ some k → entity.id_of_number n ≡ some k → m ≡ n
  pub written :
      (stored : T) (k : Key) (pk : Bytes) (v : Value Number Nested)
      (fields : Map Bytes (Value Number Nested))
      → pk_field entity.columns ≡ some pk
      → entity.id_to_value k ≡ some v
      → entity.from_value (insert pk v fields) ≡ some stored
      → entity.id stored ≡ k

-- The chain that writes an id into a row, taken apart where it succeeds.
steps :
    {T Key V Fields : Type 0} (a : Option Bytes) (b : Option Key) (c : Result Fields)
    (d : Key → Option V) (r : Bytes → V → Fields → Option T) (stored : T)
    → (ok_or type_conversion a >>= λ pk. ok_or type_conversion b >>= λ k.
        c >>= λ fields. ok_or type_conversion (d k) >>= λ v. ok_or type_conversion (r pk v fields))
      ≡ ok stored
    → (pk : Bytes) × (k : Key) × (fields : Fields) × (v : V) × (a ≡ some pk)
      × (b ≡ some k)
      × (d k ≡ some v)
      × (r pk v fields ≡ some stored)
steps none b c d r stored h = cc
steps (some pk) none c d r stored h = cc
steps (some pk) (some k) (err x) d r stored h = cc
steps (some pk) (some k) (ok fields) d r stored h = elim (Option-cases (d k)) [
  | inl e ↦ let x = rw e at h in absurd (ground (arith, x))
  | inr (v, e) ↦
      let x = rw e at h in
      (pk, k, fields, v, refl, refl, e, ok_or-eq-ok type_conversion (r pk v fields) x)
]

module _ {T Key F64 Number Nested : Type 0} ⦃e : Eq Key⦄ (j : Json F64 Number Nested)
    (entity : Entity T Key Number Nested) where
  -- Every row was given its id from a number up to the counter.
  pub record IsNumbered (rows : Map Key T) (next : ℕ) : Type 0 where
    pub numbered :
        (k : Key) (row : T)
        → lookup k rows ≡ some row
        → (n : ℕ) × (entity.id_of_number n ≡ some k) × (n ≤ next)

  abbrev Numbered : InMemoryRepository T Key → Type 0
  Numbered repo = IsNumbered repo.store.rows repo.next_id

  -- The states that a program reaches which saves new rows without an id, and others only under
  -- ids that are there, as long as the counter does not wrap.
  pub data Reached : InMemoryRepository T Key → Type 0 where
    start : Reached new_repository
    created :
        {repo : InMemoryRepository T Key}
        → Reached repo
        → (row : T) → entity.id row ≡ entity.default_id
        → repo.next_id + 1 < 2 ^ 64
        → Reached (save j entity repo row).1
    updated :
        {repo : InMemoryRepository T Key}
        → Reached repo
        → (row old : T) → entity.id row ≢ entity.default_id
        → find_by_id j entity repo (entity.id row) ≡ ok (some old)
        → Reached (save j entity repo row).1
    deleted :
        {repo : InMemoryRepository T Key}
        → Reached repo
        → (k : Key) → Reached (delete_by_id j entity repo k).1

  found_row :
      (repo : InMemoryRepository T Key) (k : Key) (row : T)
      → find_by_id j entity repo k ≡ ok (some row)
      → lookup k repo.store.rows ≡ some row
  unfolding find_by_id lock
  found_row repo k row h = ground (arith, h)

  generated_id :
      (laws : EntityLaws entity) (next : ℕ) (row stored : T)
      → with_generated_id j entity next row ≡ ok stored
      → entity.id_of_number next ≡ some (entity.id stored)
  unfolding with_generated_id
  generated_id laws next row stored h =
      let (pk, k, fields, v, field, named, value, made) =
        steps (pk_field entity.columns) (entity.id_of_number next) (as_object (entity.to_value row))
          entity.id_to_value (λ pk v fields. entity.from_value (insert pk v fields)) stored h in
      rw (laws.written stored k pk v fields field value made) named

  lock-cases :
      (s : Store T Key) → (lock s ≡ err transaction) ⊎ ((lock s ≡ ok s.rows) × (s.poisoned ≡ false))
  unfolding lock
  lock-cases s = elim (Bool-cases s.poisoned) [
    | inl bad ↦ inl (rw bad refl)
    | inr good ↦ inr (rw good refl, good)
  ]

  IsNumbered-grow : (rows : Map Key T) (m n : ℕ) → m ≤ n → IsNumbered rows m → IsNumbered rows n
  IsNumbered-grow rows m n h inv = record {
    numbered = λ k row found. ground (arith, inv.numbered k row found, h);
  }

  IsNumbered-insert :
      (rows : Map Key T) (next n : ℕ) (row : T)
      → IsNumbered rows next
      → entity.id_of_number n ≡ some (entity.id row)
      → n ≤ next
      → IsNumbered (insert (entity.id row) row rows) next
  IsNumbered-insert rows next n row inv named low = record { numbered = each }
    where
      each :
          (k : Key) (old : T)
          → lookup k (insert (entity.id row) row rows) ≡ some old
          → (m : ℕ) × (entity.id_of_number m ≡ some k) × (m ≤ next)
      each k old found = elim (Bool-cases (same (entity.id row) k)) [
        | inl e1 ↦ (n, rw (← (same_iff (entity.id row) k).0 e1) named, low)
        | inr e1 ↦ inv.numbered k old (rw (lookup-insert (entity.id row) k row rows, e1) at found)
      ]

  store_row-Numbered :
      (repo : InMemoryRepository T Key) (row : T) (n : ℕ)
      → Numbered repo
      → entity.id_of_number n ≡ some (entity.id row)
      → n ≤ repo.next_id
      → Numbered (store_row j entity repo row).1
  unfolding store_row with_rows
  store_row-Numbered repo row n inv named low = elim (lock-cases repo.store) [
    | inl bad ↦ rw (store_row, bad) inv
    | inr (good, _) ↦
        rw (store_row, good) (IsNumbered-insert repo.store.rows repo.next_id n row inv named low)
  ]

  save_generated-Numbered :
      (laws : EntityLaws entity) (repo : InMemoryRepository T Key) (row : T) (made : Result T)
      → Numbered repo
      → repo.next_id + 1 < 2 ^ 64
      → with_generated_id j entity ((repo.next_id + 1) % 2 ^ 64) row ≡ made
      → Numbered
          (and_then
            (made, record repo { next_id = (repo.next_id + 1) % 2 ^ 64 })
            (λ assigned repo'. store_row j entity repo' assigned)).1
  save_generated-Numbered laws repo row (err x) inv small h =
      IsNumbered-grow repo.store.rows repo.next_id ((repo.next_id + 1) % 2 ^ 64)
        (omega (arith, small)) inv
  save_generated-Numbered laws repo row (ok stored) inv small h =
      let next = (repo.next_id + 1) % 2 ^ 64 in
      store_row-Numbered (record repo { next_id = next }) stored next
        (IsNumbered-grow repo.store.rows repo.next_id next (omega (arith, small)) inv)
        (generated_id laws next row stored h) (omega arith)

  save_new-Numbered :
      (laws : EntityLaws entity) (repo : InMemoryRepository T Key) (row : T)
      → Numbered repo
      → entity.id row ≡ entity.default_id
      → repo.next_id + 1 < 2 ^ 64
      → Numbered (save j entity repo row).1
  unfolding save maybe_assign_id
  save_new-Numbered laws repo row inv unset small =
      rw ((same_iff (entity.id row) entity.default_id).1 unset) (
        save_generated-Numbered laws repo row
          (with_generated_id j entity ((repo.next_id + 1) % 2 ^ 64) row) inv small refl)

  save_old-Numbered :
      (repo : InMemoryRepository T Key) (row old : T)
      → Numbered repo
      → entity.id row ≢ entity.default_id
      → find_by_id j entity repo (entity.id row) ≡ ok (some old)
      → Numbered (save j entity repo row).1
  unfolding save maybe_assign_id
  save_old-Numbered repo row old inv own found =
      let (n, named, low) =
        inv.numbered (entity.id row) old (found_row repo (entity.id row) old found) in
      rw (same_ne (entity.id row) entity.default_id own)
        (store_row-Numbered repo row n inv named low)

  delete-Numbered :
      (repo : InMemoryRepository T Key) (k : Key)
      → Numbered repo
      → Numbered (delete_by_id j entity repo k).1
  unfolding delete_by_id with_rows
  delete-Numbered repo k inv = elim (lock-cases repo.store) [
    | inl bad ↦ rw (delete_by_id, bad) inv
    | inr (good, _) ↦ rw (delete_by_id, good) (record { numbered = each })
  ]
    where
      each :
          (i : Key) (row : T)
          → lookup i (remove k repo.store.rows) ≡ some row
          → (n : ℕ) × (entity.id_of_number n ≡ some i) × (n ≤ repo.next_id)
      each i row found = elim (Bool-cases (same k i)) [
        | inl e1 ↦
            let x = rw (lookup-remove k i repo.store.rows, e1) at found in
            absurd (ground (arith, x))
        | inr e1 ↦ inv.numbered i row (rw (lookup-remove k i repo.store.rows, e1) at found)
      ]

  new-Numbered : Numbered new_repository
  unfolding lookup
  new-Numbered = record { numbered = λ k row found. cc }

  Reached-Numbered :
      (laws : EntityLaws entity) {repo : InMemoryRepository T Key} → Reached repo → Numbered repo
  Reached-Numbered laws start = new-Numbered
  Reached-Numbered laws (created {repo = repo} r row unset small) =
      save_new-Numbered laws repo row (Reached-Numbered laws r) unset small
  Reached-Numbered laws (updated {repo = repo} r row old own found) =
      save_old-Numbered repo row old (Reached-Numbered laws r) own found
  Reached-Numbered laws (deleted {repo = repo} r k) =
      delete-Numbered repo k (Reached-Numbered laws r)

  counted_new :
      (repo : InMemoryRepository T Key) (stored : T) (next n : ℕ)
      → repo.store.poisoned ≡ false
      → lookup (entity.id stored) repo.store.rows ≡ none
      → count j entity repo ≡ ok n
      → count j entity (saved_state j entity repo stored next) ≡ ok (n + 1)
  unfolding count saved_state lock
  counted_new repo stored next n good absent h =
      let x = rw good at h in
      rw (good, length-insert_new (entity.id stored) stored repo.store.rows absent)
        (ground (arith, x))

  counted_old :
      (repo : InMemoryRepository T Key) (stored old : T) (next n : ℕ)
      → repo.store.poisoned ≡ false
      → lookup (entity.id stored) repo.store.rows ≡ some old
      → count j entity repo ≡ ok n
      → count j entity (saved_state j entity repo stored next) ≡ ok n
  unfolding count saved_state lock
  counted_old repo stored old next n good present h =
      let x = rw good at h in
      rw (good, length-insert_old (entity.id stored) stored old repo.store.rows present)
        (ground (arith, x))

  absent_row :
      (repo : InMemoryRepository T Key) (k : Key)
      → lookup k repo.store.rows ≡ none
      → repo.store.poisoned ≡ false
      → find_by_id j entity repo k ≡ ok none
  unfolding find_by_id lock
  absent_row repo k absent good = rw (good, absent) refl

  -- What a save of a new row gives, when it succeeds.
  record IsCreated (repo repo' : InMemoryRepository T Key) (stored : T) : Type 0 where
    good : repo.store.poisoned ≡ false
    named : entity.id_of_number ((repo.next_id + 1) % 2 ^ 64) ≡ some (entity.id stored)
    state : repo' ≡ saved_state j entity repo stored repo'.next_id

  named_stored :
      (laws : EntityLaws entity) (repo : InMemoryRepository T Key) (row stored : T) (next : ℕ)
      → entity.id row ≡ entity.default_id
      → Assigned j entity repo row stored next
      → entity.id_of_number ((repo.next_id + 1) % 2 ^ 64) ≡ some (entity.id stored)
  named_stored laws repo row stored next unset (Assigned.kept own _ _) = absurd (own unset)
  named_stored laws repo row stored next unset (Assigned.generated _ counted made) =
      rw (← counted) (generated_id laws next row stored made)

  save_new-IsCreated :
      (laws : EntityLaws entity) (repo repo' : InMemoryRepository T Key) (row stored : T)
      → entity.id row ≡ entity.default_id
      → save j entity repo row ≡ (ok stored, repo')
      → IsCreated repo repo' stored
  save_new-IsCreated laws repo repo' row stored unset h =
      let (good, assigned, state) = save_inv j entity repo repo' row stored h in
      record {
        good = good;
        named = named_stored laws repo row stored repo'.next_id unset assigned;
        state = state;
      }

  -- No row has an id of a number above the counter.
  unused :
      (laws : EntityLaws entity) (repo : InMemoryRepository T Key) (m : ℕ) (k : Key)
      → Numbered repo
      → entity.id_of_number m ≡ some k
      → repo.next_id < m
      → lookup k repo.store.rows ≡ none
  unused laws repo m k inv named above = elim (Option-cases (lookup k repo.store.rows)) [
    | inl absent ↦ absent
    | inr (row, found) ↦
        let (n, other, low) = inv.numbered k row found in
        absurd (omega (arith, laws.number_ids m n k named other, low, above))
  ]

  -- In every state that is reached by saving new rows without an id and others only under ids that
  -- are there, a new row gets an id that no row has: nothing is overwritten, and the count grows by
  -- one. The counter must not have reached 2^64 - 1.
  pub save-fresh :
      (laws : EntityLaws entity) (repo repo' : InMemoryRepository T Key) (row stored : T)
      → Reached repo
      → entity.id row ≡ entity.default_id
      → repo.next_id + 1 < 2 ^ 64
      → save j entity repo row ≡ (ok stored, repo')
      → (find_by_id j entity repo (entity.id stored) ≡ ok none)
        × ((n : ℕ) → count j entity repo ≡ ok n → count j entity repo' ≡ ok (n + 1))
  save-fresh laws repo repo' row stored reached unset small h =
      let made = save_new-IsCreated laws repo repo' row stored unset h in
      let absent =
        unused laws repo ((repo.next_id + 1) % 2 ^ 64) (entity.id stored)
          (Reached-Numbered laws reached) made.named (omega (arith, small)) in
      (
        absent_row repo (entity.id stored) absent made.good,
        λ n counted.
            rw made.state (counted_new repo stored repo'.next_id n made.good absent counted),
      )

  found_stored :
      (repo repo' : InMemoryRepository T Key) (row stored : T)
      → save j entity repo row ≡ (ok stored, repo')
      → find_by_id j entity repo' (entity.id stored) ≡ ok (some stored)
  found_stored repo repo' row stored h =
      let found = (save-find_by_id j entity repo repo' row stored h).0 (entity.id stored) in
      rw (same_refl (entity.id stored)) at found

  -- A row that the program stored itself under the id of the counter's next number is replaced by
  -- the next new row that is saved, whose id is the same; the count stays as it is.
  pub save-overwrites :
      (laws : EntityLaws entity) (repo repo' : InMemoryRepository T Key) (row old stored : T)
      → entity.id_of_number (repo.next_id + 1) ≡ some (entity.id old)
      → find_by_id j entity repo (entity.id old) ≡ ok (some old)
      → entity.id row ≡ entity.default_id
      → repo.next_id + 1 < 2 ^ 64
      → save j entity repo row ≡ (ok stored, repo')
      → (find_by_id j entity repo' (entity.id old) ≡ ok (some stored))
        × ((n : ℕ) → count j entity repo ≡ ok n → count j entity repo' ≡ ok n)
  save-overwrites laws repo repo' row old stored next found unset small h =
      let made = save_new-IsCreated laws repo repo' row stored unset h in
      let no_wrap : (repo.next_id + 1) % 2 ^ 64 ≡ repo.next_id + 1 = omega (arith, small) in
      let named = rw no_wrap at made.named in
      let same_id : entity.id stored ≡ entity.id old = ground (arith, named, next) in
      let present : lookup (entity.id stored) repo.store.rows ≡ some old =
        rw same_id (found_row repo (entity.id old) old found) in
      (
        rw (← same_id) (found_stored repo repo' row stored h),
        λ n counted.
            rw made.state (counted_old repo stored old repo'.next_id n made.good present counted),
      )
