-- ===== src/Runtime/Timers/Tests.antt =====
-- The timers of crates/rt-core/src/time.rs with numbers as wakers.
use kernway.Prelude.{
  ℕ, ◌≡◌, refl, arith, true, none, some, [], ◌∷◌, if◌then◌else◌, nat_eq, lookup, insert, remove,
}
use kernway.Runtime.Timers.{
  before, push, Timers, no_timers, allocate, park, is_idle, cancel, next_from, next_deadline,
  fire_from, fire_expired,
}
use kernway.Runtime.Timers.Firing.{due, IsIn, IsValid, fire_expired-due}
use kernway.Runtime.Timers.Waiting.{park-IsValid}

timers : Unit {0}
unfolding lookup insert remove before push allocate park is_idle cancel next_from next_deadline
    fire_from fire_expired
timers = tt

abbrev three : Timers ℕ
three = park (park (park no_timers 1 50 100) 2 30 200) 3 40 300

abbrev two : Timers ℕ
two = cancel three 2

no_timers-IsValid : IsValid {W = ℕ} no_timers
unfolding lookup
no_timers-IsValid = record { sorted = tt; covered = λ id w h. ground (arith, h) }

three-IsValid : IsValid three
three-IsValid =
    (park-IsValid (park (park no_timers 1 50 100) 2 30 200) 3 40 300
      (park-IsValid (park no_timers 1 50 100) 2 30 200
        (park-IsValid no_timers 1 50 100 no_timers-IsValid).0).0).0

two-IsValid : IsValid two
two-IsValid = (park-IsValid three 2 0 0 three-IsValid).1

runs :
    ((next_deadline three).0 ≡ some 30)
    × ((next_deadline two).0 ≡ some 40)
    × ((fire_expired two 45 []).1 ≡ 300 ∷ [])
    × ((next_deadline (fire_expired two 45 []).0).0 ≡ some 50)
    × (is_idle (fire_expired two 50 []).0 ≡ true)
unfolding timers
runs = (refl, refl, refl, refl, refl)

fire_expired-due_example :
    ((j : ℕ)
      → lookup j (fire_expired two 45 []).0.wakers
        ≡ (if due j 45 two.heap then none else lookup j two.wakers))
    × ((j : ℕ) (w : ℕ)
        → lookup j two.wakers ≡ some w
        → due j 45 two.heap ≡ true
        → IsIn w (fire_expired two 45 []).1)
    × ((w : ℕ) → IsIn w [] → IsIn w (fire_expired two 45 []).1)
    × IsValid (fire_expired two 45 []).0
fire_expired-due_example = fire_expired-due two 45 [] two-IsValid
