-- ===== src/Orm/Memory/Saves.antt =====
-- What `save` and `delete_by_id` of crates/kernway-orm-memory/src/lib.rs change, and when an id that is generated
-- is a new one.
use kernway.Prelude.{
  ℕ, ◌+◌, ◌%◌, ◌^◌, ◌≡◌, ◌≢◌, refl, false, some, arith, if◌then◌else◌, insert, Eq, same, same_iff,
  ne_of_same, Bool-cases, inl, inr, lookup-insert, list_eq, nat_eq,
}
use kernway.Orm.Json.{Json}
use kernway.Orm.Entity.{Entity, Result, ok, err}
use kernway.Orm.Query.{lock}
use kernway.Orm.Repository.{and_then}
use kernway.Orm.Memory.{
  InMemoryRepository, with_generated_id, maybe_assign_id, find_by_id, store_row, with_rows, save,
}

module _ {T Key F64 Number Nested : Type 0} ⦃e : Eq Key⦄ (j : Json F64 Number Nested)
    (entity : Entity T Key Number Nested) where
  -- What a successful save stores: a row with an id of its own as it is, and else the row with the
  -- id of the next number, which the counter then stands at.
  pub data Assigned (repo : InMemoryRepository T Key) (row : T) (stored : T) (next : ℕ)
      : Type 0 where
    kept :
        entity.id row ≢ entity.default_id
        → stored ≡ row
        → next ≡ repo.next_id
        → Assigned repo row stored next
    generated :
        entity.id row ≡ entity.default_id
        → next ≡ (repo.next_id + 1) % 2 ^ 64
        → with_generated_id j entity next row ≡ ok stored
        → Assigned repo row stored next

  -- The state that a save leaves.
  unfoldable pub saved_state : InMemoryRepository T Key → T → ℕ → InMemoryRepository T Key
  saved_state repo stored next = record {
    store = record repo.store { rows = insert (entity.id stored) stored repo.store.rows };
    next_id = next;
  }

  store_row_inv :
      (repo repo' : InMemoryRepository T Key) (row stored : T)
      → store_row j entity repo row ≡ (ok stored, repo')
      → (repo.store.poisoned ≡ false) × (stored ≡ row) × (repo' ≡ saved_state repo row repo.next_id)
  unfolding store_row lock with_rows saved_state
  store_row_inv repo repo' row stored h = elim (Bool-cases repo.store.poisoned) [
    | inl bad ↦ let x = rw bad at h in absurd (ground (arith, x))
    | inr good ↦ let x = rw good at h in (good, ground (arith, x), ground (arith, x))
  ]

  save_own :
      (repo repo' : InMemoryRepository T Key) (row stored : T)
      → entity.id row ≢ entity.default_id
      → store_row j entity repo row ≡ (ok stored, repo')
      → (repo.store.poisoned ≡ false)
        × Assigned repo row stored repo'.next_id
        × (repo' ≡ saved_state repo stored repo'.next_id)
  unfolding saved_state
  save_own repo repo' row stored own h =
      let (good, same_row, state) = store_row_inv repo repo' row stored h in
      rw (state, same_row) (good, Assigned.kept own refl refl, refl)

  save_generated :
      (repo repo' : InMemoryRepository T Key) (row stored : T) (made : Result T)
      → entity.id row ≡ entity.default_id
      → with_generated_id j entity ((repo.next_id + 1) % 2 ^ 64) row ≡ made
      → and_then
          (made, record repo { next_id = (repo.next_id + 1) % 2 ^ 64 })
          (λ assigned repo1. store_row j entity repo1 assigned)
        ≡ (ok stored, repo')
      → (repo.store.poisoned ≡ false)
        × Assigned repo row stored repo'.next_id
        × (repo' ≡ saved_state repo stored repo'.next_id)
  unfolding saved_state
  save_generated repo repo' row stored (err x) unset made h = absurd (ground (arith, h))
  save_generated repo repo' row stored (ok assigned) unset made h =
      let counted = record repo { next_id = (repo.next_id + 1) % 2 ^ 64 } in
      let (good, same_row, state) = store_row_inv counted repo' assigned stored h in
      rw (state, same_row) (good, Assigned.generated unset refl made, refl)

  pub save_inv :
      (repo repo' : InMemoryRepository T Key) (row stored : T)
      → save j entity repo row ≡ (ok stored, repo')
      → (repo.store.poisoned ≡ false)
        × Assigned repo row stored repo'.next_id
        × (repo' ≡ saved_state repo stored repo'.next_id)
  unfolding save maybe_assign_id
  save_inv repo repo' row stored h = elim (Bool-cases (same (entity.id row) entity.default_id)) [
    | inl unset ↦
        save_generated repo repo' row stored
          (with_generated_id j entity ((repo.next_id + 1) % 2 ^ 64) row)
          ((same_iff (entity.id row) entity.default_id).0 unset) refl (rw unset at h)
    | inr own ↦
        save_own repo repo' row stored (ne_of_same (entity.id row) entity.default_id own)
          (rw own at h)
  ]

  kept_row :
      (repo : InMemoryRepository T Key) (row stored : T) (next : ℕ)
      → Assigned repo row stored next
      → entity.id row ≢ entity.default_id
      → stored ≡ row
  kept_row repo row stored next (Assigned.kept own e n) h = e
  kept_row repo row stored next (Assigned.generated unset n made) h = absurd (h unset)

  -- After a successful save the row that it gives back is found under its id, and what is found
  -- under every other id is unchanged. A row with an id of its own is given back as it was.
  pub save-find_by_id :
      (repo repo' : InMemoryRepository T Key) (row stored : T)
      → save j entity repo row ≡ (ok stored, repo')
      → ((id : Key)
          → find_by_id j entity repo' id ≡ (
              if same (entity.id stored) id then ok (some stored) else find_by_id j entity repo id))
        × (entity.id row ≢ entity.default_id → stored ≡ row)
  unfolding find_by_id lock saved_state
  save-find_by_id repo repo' row stored h =
      let (good, assigned, state) = save_inv repo repo' row stored h in
      (
        λ id.
            rw (state, good, lookup-insert (entity.id stored) id stored repo.store.rows)
              (ground arith),
        λ own. kept_row repo row stored repo'.next_id assigned own,
      )
