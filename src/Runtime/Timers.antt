-- ===== src/Runtime/Timers.antt =====
-- crates/rt-core/src/time.rs: the timers of one shard. An `Instant` is a number, a waker is of any type.
-- The heap, a `BinaryHeap` of `Reverse`, is the list of its entries in ascending order, whose first
-- is the one that `peek` shows.
pub mod Firing
pub mod Waiting
mod Tests
use kernway.Prelude.{
  ℕ, ◌+◌, ◌%◌, ◌^◌, Bool, true, false, not, ◌&&◌, ◌||◌, Option, none, some, List, [], ◌∷◌, ◌++◌,
  ltb, leb, ◌==◌, if◌then◌else◌, nat_eq, Map, lookup, insert, remove,
}

pub record Entry : Type 0 where
  pub deadline : ℕ
  pub id : ℕ

-- `Ord for Entry`: by time, then by id.
pub before : Entry → Entry → Bool
before e f = ltb e.deadline f.deadline || (e.deadline == f.deadline && leb e.id f.id)

pub push : Entry → List Entry → List Entry
push e [] = e ∷ []
push e (f ∷ fs) = let rest = push e fs in if before e f then e ∷ f ∷ fs else f ∷ rest

abbrev pub is_some {ℓ} : {A : Type ℓ} → Option A → Bool
is_some none = false
is_some (some a) = true

abbrev pushed_waker {ℓ} : {W : Type ℓ} → List W → Option W → List W
pushed_waker out none = out
pushed_waker out (some w) = out ++ w ∷ []

module _ (W : Type 0) where
  pub record Timers : Type 0 where
    pub heap : List Entry
    pub wakers : Map ℕ W
    pub next_id : ℕ

module _ {W : Type 0} where
  abbrev pub no_timers : Timers W
  no_timers = record { heap = []; wakers = []; next_id = 0 }

  pub allocate : Timers W → ℕ × Timers W
  allocate t = let id = (t.next_id + 1) % 2 ^ 64 in (id, record t { next_id = id })

  pub park : Timers W → ℕ → ℕ → W → Timers W
  park t id deadline w =
      let wakers = insert id w t.wakers in
      if is_some (lookup id t.wakers) then record t { wakers = wakers } else record t {
        wakers = wakers;
        heap = push (record { deadline = deadline; id = id }) t.heap;
      }

  pub is_idle : Timers W → Bool
  is_idle t = elim t.heap [ [] ↦ true | e ∷ es ↦ false ]

  pub cancel : Timers W → ℕ → Timers W
  cancel t id = record t { wakers = remove id t.wakers }

  -- The loop of `next_deadline`: the deadline and the heap that is left.
  pub next_from : List Entry → Map ℕ W → Option ℕ × List Entry
  next_from [] ws = (none, [])
  next_from (e ∷ es) ws =
      let rest = next_from es ws in
      if is_some (lookup e.id ws) then (some e.deadline, e ∷ es) else rest

  pub next_deadline : Timers W → Option ℕ × Timers W
  next_deadline t =
      let (found, heap) = next_from t.heap t.wakers in (found, record t { heap = heap })

  -- The loop of `fire_expired`.
  pub fire_from : ℕ → List Entry → Map ℕ W → List W → List Entry × Map ℕ W × List W
  fire_from now [] ws out = ([], ws, out)
  fire_from now (e ∷ es) ws out =
      let rest = fire_from now es (remove e.id ws) (pushed_waker out (lookup e.id ws)) in
      if ltb now e.deadline then (e ∷ es, ws, out) else rest

  pub fire_expired : Timers W → ℕ → List W → Timers W × List W
  fire_expired t now out =
      let (heap, ws, out') = fire_from now t.heap t.wakers out in
      (record t { heap = heap; wakers = ws }, out')
