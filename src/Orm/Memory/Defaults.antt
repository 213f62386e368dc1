-- ===== src/Orm/Memory/Defaults.antt =====
-- crates/kernway-orm-memory/src/lib.rs overrides each operation that the trait of crates/kernway-orm-core builds on
-- the others. What it gives is what the trait gives.
use kernway.Prelude.{
  suc, ◌≡◌, refl, sym, ◌∙◌, Bool, true, false, List, [], ◌∷◌, Map, lookup, remove, Eq, keep, length,
  Bool-cases, inl, inr,
}
use kernway.Orm.Json.{Json}
use kernway.Orm.Entity.{Entity, ok}
use kernway.Orm.Query.{
  lock, values, new_query, fetch_all, fetch_count, collect_items, matches_filters, sorted,
  apply_window,
}
use kernway.Orm.Repository
use kernway.Orm.Repository.{push_row, is_some, and_then}
use kernway.Orm.Memory.{
  InMemoryRepository, memory, find_by_id, find_all, find_all_by_ids, rows_of, count, exists_by_id,
  save, save_all, delete_by_id, delete_all_by_ids, remove_all, with_rows,
}

keep_every : {A : Type 0} (p : A → Bool) (xs : List A) → ((x : A) → p x ≡ true) → keep p xs ≡ xs
keep_every p [] h = refl
keep_every p (x ∷ xs) h = rw (h x) λ i. x ∷ keep_every p xs h i

length-values : {K V : Type 0} (m : Map K V) → length (values m) ≡ length m
length-values [] = refl
length-values ((k, v) ∷ m) = λ i. suc (length-values m i)

module _ {T Key F64 Number Nested : Type 0} ⦃e : Eq Key⦄ (j : Json F64 Number Nested)
    (entity : Entity T Key Number Nested) where
  -- What a driver of the trait gives by its own operations is what the trait builds.
  pub record AgreesWithDefaults (repo : InMemoryRepository T Key) : Type 0 where
    pub all_rows : find_all j entity repo ≡ Repository.find_all (memory j entity) repo
    pub by_ids :
        (ids : List Key)
        → find_all_by_ids j entity repo ids ≡ Repository.find_all_by_ids (memory j entity) repo ids
    pub counted : count j entity repo ≡ Repository.count (memory j entity) repo
    pub exists :
        (id : Key)
        → exists_by_id j entity repo id ≡ Repository.exists_by_id (memory j entity) repo id
    pub saved :
        (rows : List T)
        → save_all j entity repo rows ≡ Repository.save_all (memory j entity) repo rows
    pub deleted :
        (ids : List Key)
        → delete_all_by_ids j entity repo ids
          ≡ Repository.delete_all_by_ids (memory j entity) repo ids

  unfiltered : (rows : List T) → keep (matches_filters j entity new_query) rows ≡ rows
  unfolding matches_filters new_query
  unfiltered rows = keep_every (matches_filters j entity new_query) rows (λ row. refl)

  find_all-default :
      (repo : InMemoryRepository T Key)
      → find_all j entity repo ≡ Repository.find_all (memory j entity) repo
  unfolding find_all Repository.find_all fetch_all collect_items lock apply_window sorted new_query
  find_all-default repo = elim (Bool-cases repo.store.poisoned) [
    | inl bad ↦ rw bad refl
    | inr good ↦ rw (good, unfiltered (values repo.store.rows)) refl
  ]

  count-default :
      (repo : InMemoryRepository T Key)
      → count j entity repo ≡ Repository.count (memory j entity) repo
  unfolding count Repository.count fetch_count collect_items lock sorted new_query
  count-default repo = elim (Bool-cases repo.store.poisoned) [
    | inl bad ↦ rw bad refl
    | inr good ↦ rw (good, unfiltered (values repo.store.rows), length-values repo.store.rows) refl
  ]

  exists-default :
      (repo : InMemoryRepository T Key) (id : Key)
      → exists_by_id j entity repo id ≡ Repository.exists_by_id (memory j entity) repo id
  unfolding exists_by_id find_by_id Repository.exists_by_id lock
  exists-default repo id = elim (Bool-cases repo.store.poisoned) [
    | inl bad ↦ rw bad refl
    | inr good ↦ rw good refl
  ]

  found_by_id :
      (repo : InMemoryRepository T Key) (id : Key)
      → repo.store.poisoned ≡ false
      → find_by_id j entity repo id ≡ ok (lookup id repo.store.rows)
  unfolding find_by_id lock
  found_by_id repo id good = rw good refl

  found_by_ids :
      (repo : InMemoryRepository T Key) (ids : List Key)
      → repo.store.poisoned ≡ false
      → find_all_by_ids j entity repo ids ≡ ok (rows_of j entity repo.store.rows ids)
  unfolding find_all_by_ids lock
  found_by_ids repo ids good = rw good refl

  by_ids-default :
      (repo : InMemoryRepository T Key) (ids : List Key)
      → repo.store.poisoned ≡ false
      → find_all_by_ids j entity repo ids ≡ Repository.find_all_by_ids (memory j entity) repo ids
  unfolding Repository.find_all_by_ids rows_of
  by_ids-default repo [] good = found_by_ids repo [] good
  by_ids-default repo (id ∷ ids) good =
      let rest = sym (found_by_ids repo ids good) ∙ by_ids-default repo ids good in
      rw (found_by_ids repo (id ∷ ids) good, found_by_id repo id good, ← rest, rows_of) refl

  save_all-default :
      (repo : InMemoryRepository T Key) (rows : List T)
      → save_all j entity repo rows ≡ Repository.save_all (memory j entity) repo rows
  unfolding save_all Repository.save_all
  save_all-default repo [] = refl
  save_all-default repo (row ∷ rows) = λ i.
      and_then (save j entity repo row)
        λ stored s1. and_then (save_all-default s1 rows i) λ rest s2. (ok (stored ∷ rest), s2)

  deleted_by_id :
      (repo : InMemoryRepository T Key) (id : Key)
      → repo.store.poisoned ≡ false
      → delete_by_id j entity repo id ≡ (ok tt, with_rows j entity repo (remove id repo.store.rows))
  unfolding delete_by_id lock
  deleted_by_id repo id good = rw good refl

  deleted_by_ids :
      (repo : InMemoryRepository T Key) (ids : List Key)
      → repo.store.poisoned ≡ false
      → delete_all_by_ids j entity repo ids
        ≡ (ok tt, with_rows j entity repo (remove_all j entity ids repo.store.rows))
  unfolding delete_all_by_ids lock
  deleted_by_ids repo ids good = rw good refl

  delete-default :
      (repo : InMemoryRepository T Key) (ids : List Key)
      → repo.store.poisoned ≡ false
      → delete_all_by_ids j entity repo ids
        ≡ Repository.delete_all_by_ids (memory j entity) repo ids
  unfolding Repository.delete_all_by_ids remove_all with_rows
  delete-default repo [] good = deleted_by_ids repo [] good
  delete-default repo (id ∷ ids) good =
      let smaller = with_rows j entity repo (remove id repo.store.rows) in
      let rest = sym (deleted_by_ids smaller ids good) ∙ delete-default smaller ids good in
      rw (deleted_by_ids repo (id ∷ ids) good, deleted_by_id repo id good) rest

  -- As long as no panic has poisoned the lock, each operation that the in-memory repository
  -- overrides gives, and leaves behind, what the trait builds from the primitive ones.
  pub memory-AgreesWithDefaults :
      (repo : InMemoryRepository T Key) → repo.store.poisoned ≡ false → AgreesWithDefaults repo
  memory-AgreesWithDefaults repo good = record {
    all_rows = find_all-default repo;
    by_ids = λ ids. by_ids-default repo ids good;
    counted = count-default repo;
    exists = exists-default repo;
    saved = save_all-default repo;
    deleted = λ ids. delete-default repo ids good;
  }
