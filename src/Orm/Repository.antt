-- ===== src/Orm/Repository.antt =====
-- crates/kernway-orm-core/src/repository.rs: the operations that a driver must give, and those that the trait
-- builds on them. A driver's state is a parameter, and an operation that writes gives the new one.
use kernway.Prelude.{ℕ, Bool, true, false, Option, none, some, List, [], ◌∷◌}
use kernway.Orm.Entity.{Result, ok, err, ◌>>=◌}

pub record Repository (S T Key : Type 0) : Type 0 where
  pub find_by_id : S → Key → Result (Option T)
  pub save : S → T → Result T × S
  pub delete_by_id : S → Key → Result (Unit {0}) × S
  -- `query().fetch_all()` and `query().fetch_count()`
  pub fetch_all : S → Result (List T)
  pub fetch_count : S → Result ℕ

abbrev pub is_some {ℓ} : {A : Type ℓ} → Option A → Bool
is_some none = false
is_some (some a) = true

-- `if let Some(row) = .. { out.push(row) }`
abbrev pub push_row {ℓ} : {A : Type ℓ} → Option A → List A → List A
push_row none out = out
push_row (some row) out = row ∷ out

-- `?` on an operation that writes: what an error has written stays written.
abbrev pub and_then {ℓ κ} :
    {S : Type 0} {A : Type ℓ} {B : Type κ} → Result A × S → (A → S → Result B × S) → Result B × S
and_then (ok a, s) f = f a s
and_then (err e, s) f = (err e, s)

module _ {S T Key : Type 0} (driver : Repository S T Key) where
  unfoldable pub find_all : S → Result (List T)
  find_all s = driver.fetch_all s

  unfoldable pub find_all_by_ids : S → List Key → Result (List T)
  find_all_by_ids s [] = ok []
  find_all_by_ids s (id ∷ ids) = do
    row ← driver.find_by_id s id
    rest ← find_all_by_ids s ids
    ok (push_row row rest)

  unfoldable pub count : S → Result ℕ
  count s = driver.fetch_count s

  unfoldable pub exists_by_id : S → Key → Result Bool
  exists_by_id s id = do row ← driver.find_by_id s id; ok (is_some row)

  unfoldable pub save_all : S → List T → Result (List T) × S
  save_all s [] = (ok [], s)
  save_all s (row ∷ rows) =
      and_then (driver.save s row)
        λ stored s1. and_then (save_all s1 rows) λ rest s2. (ok (stored ∷ rest), s2)

  unfoldable pub delete_all_by_ids : S → List Key → Result (Unit {0}) × S
  delete_all_by_ids s [] = (ok tt, s)
  delete_all_by_ids s (id ∷ ids) =
      and_then (driver.delete_by_id s id) λ done s1. delete_all_by_ids s1 ids
