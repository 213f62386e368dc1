-- ===== src/Orm/Memory.antt =====
-- `InMemoryRepository` of crates/kernway-orm-memory/src/lib.rs: the store behind its lock, and the counter that ids
-- are generated from, which has no part in the lock.
pub mod Defaults
pub mod Saves
pub mod Ids
use kernway.Prelude.{
  ℕ, ◌+◌, ◌%◌, ◌^◌, Bool, true, false, not, Option, none, some, List, [], ◌∷◌, if◌then◌else◌,
  length, Bytes, Map, lookup, insert, remove, Eq, same, list_eq, nat_eq,
}
use kernway.Orm.Json.{Json, Value}
use kernway.Orm.Entity.{
  Entity, ColumnDef, Serialized, failed, not_object, object, OrmError, type_conversion, transaction,
  Result, ok, err, ◌>>=◌, ok_or,
}
use kernway.Orm.Query.{Store, lock, values, new_query, fetch_all, fetch_count}
use kernway.Orm.Repository.{Repository, push_row, is_some, and_then}

pub record InMemoryRepository (T Key : Type 0) : Type 0 where
  pub store : Store T Key
  pub next_id : ℕ

abbrev pub new_repository : {T Key : Type 0} → InMemoryRepository T Key
new_repository = record { store = record { rows = []; poisoned = false }; next_id = 0 }

unfoldable pub pk_field : List ColumnDef → Option Bytes
pk_field [] = none
pk_field (c ∷ cs) = let rest = pk_field cs in if c.primary_key then some c.field else rest

-- `serde_json::to_value` and `as_object_mut`
unfoldable pub as_object :
    {Number Nested : Type 0} → Serialized Number Nested → Result (Map Bytes (Value Number Nested))
as_object failed = err type_conversion
as_object not_object = err type_conversion
as_object (object fields) = ok fields

module _ {T Key F64 Number Nested : Type 0} ⦃e : Eq Key⦄ (j : Json F64 Number Nested)
    (entity : Entity T Key Number Nested) where
  -- The row with the generated id written into it.
  unfoldable pub with_generated_id : ℕ → T → Result T
  unfolding pk_field as_object
  with_generated_id next row = do
    pk ← ok_or type_conversion (pk_field entity.columns)
    new_id ← ok_or type_conversion (entity.id_of_number next)
    fields ← as_object (entity.to_value row)
    value ← ok_or type_conversion (entity.id_to_value new_id)
    ok_or type_conversion (entity.from_value (insert pk value fields))

  unfoldable pub maybe_assign_id :
      InMemoryRepository T Key → T → Result T × InMemoryRepository T Key
  maybe_assign_id repo row =
      if not (same (entity.id row) entity.default_id) then (ok row, repo) else (
        with_generated_id ((repo.next_id + 1) % 2 ^ 64) row,
        record repo { next_id = (repo.next_id + 1) % 2 ^ 64 },
      )

  unfoldable pub find_by_id : InMemoryRepository T Key → Key → Result (Option T)
  unfolding lock
  find_by_id repo id = do rows ← lock repo.store; ok (lookup id rows)

  unfoldable pub find_all : InMemoryRepository T Key → Result (List T)
  find_all repo = do rows ← lock repo.store; ok (values rows)

  unfoldable pub rows_of : Map Key T → List Key → List T
  rows_of rows [] = []
  rows_of rows (id ∷ ids) = push_row (lookup id rows) (rows_of rows ids)

  unfoldable pub find_all_by_ids : InMemoryRepository T Key → List Key → Result (List T)
  unfolding rows_of
  find_all_by_ids repo ids = do rows ← lock repo.store; ok (rows_of rows ids)

  unfoldable pub count : InMemoryRepository T Key → Result ℕ
  count repo = do rows ← lock repo.store; ok (length rows)

  unfoldable pub exists_by_id : InMemoryRepository T Key → Key → Result Bool
  exists_by_id repo id = do rows ← lock repo.store; ok (is_some (lookup id rows))

  unfoldable pub with_rows : InMemoryRepository T Key → Map Key T → InMemoryRepository T Key
  with_rows repo rows = record repo { store = record repo.store { rows = rows } }

  unfoldable pub store_row : InMemoryRepository T Key → T → Result T × InMemoryRepository T Key
  unfolding with_rows
  store_row repo row = elim (lock repo.store) [
    | err e ↦ (err e, repo)
    | ok rows ↦ (ok row, with_rows repo (insert (entity.id row) row rows))
  ]

  unfoldable pub save : InMemoryRepository T Key → T → Result T × InMemoryRepository T Key
  unfolding store_row maybe_assign_id with_generated_id
  save repo row = and_then (maybe_assign_id repo row) λ assigned repo'. store_row repo' assigned

  -- `.map(|entity| self.save_sync(entity)).collect()` stops at the first error.
  unfoldable pub save_all :
      InMemoryRepository T Key → List T → Result (List T) × InMemoryRepository T Key
  save_all repo [] = (ok [], repo)
  save_all repo (row ∷ rows) =
      and_then (save repo row)
        λ stored repo'. and_then (save_all repo' rows) λ rest after. (ok (stored ∷ rest), after)

  unfoldable pub delete_by_id :
      InMemoryRepository T Key → Key → Result (Unit {0}) × InMemoryRepository T Key
  delete_by_id repo id = elim (lock repo.store) [
    | err e ↦ (err e, repo)
    | ok rows ↦ (ok tt, with_rows repo (remove id rows))
  ]

  unfoldable pub remove_all : List Key → Map Key T → Map Key T
  remove_all [] rows = rows
  remove_all (id ∷ ids) rows = remove_all ids (remove id rows)

  unfoldable pub delete_all_by_ids :
      InMemoryRepository T Key → List Key → Result (Unit {0}) × InMemoryRepository T Key
  unfolding remove_all
  delete_all_by_ids repo ids = elim (lock repo.store) [
    | err e ↦ (err e, repo)
    | ok rows ↦ (ok tt, with_rows repo (remove_all ids rows))
  ]

  -- The operations as a driver of the trait.
  abbrev pub memory : Repository (InMemoryRepository T Key) T Key
  memory = record {
    find_by_id = find_by_id;
    save = save;
    delete_by_id = delete_by_id;
    fetch_all = λ repo. fetch_all j entity new_query repo.store;
    fetch_count = λ repo. fetch_count j entity new_query repo.store;
  }
