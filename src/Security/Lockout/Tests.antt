-- ===== src/Security/Lockout/Tests.antt =====
-- The login guard of crates/kernway-security/src/lockout.rs on concrete keys and times.
use kernway.Prelude.{
  ℕ, ◌+◌, ◌≡◌, refl, true, false, none, some, List, [], ◌∷◌, ◌++◌, arith, leb, if◌then◌else◌, Bytes,
  bytes_eq, codes, lookup, insert, remove, retain, same,
}
use kernway.Security.Lockout.{
  LoginGuard, new, check_at, swept, is_active, or_fresh, reopen, strike, record_failure_at,
  record_success, locked_for_at,
}
use kernway.Security.Lockout.Effects.{IsValid, check-record_failure, record_failure-IsValid}
use kernway.Security.Lockout.Burst.{failing, burst-locks}

lockout : Unit {0}
unfolding new check_at swept is_active or_fresh reopen strike record_failure_at record_success
    locked_for_at failing lookup insert remove retain
lockout = tt

abbrev alice : Bytes
alice = codes "alice"

abbrev bob : Bytes
bob = codes "bob"

abbrev guard : LoginGuard
guard = new 3 60

-- Three failures within the window.
abbrev grind_times : List ℕ
grind_times = 100 ∷ 110 ∷ []

locks_at_the_third :
    (check_at (failing guard alice grind_times) alice 110 ≡ true)
    × (check_at (failing guard alice (100 ∷ 110 ∷ 120 ∷ [])) alice 179 ≡ false)
    × (check_at (failing guard alice (100 ∷ 110 ∷ 120 ∷ [])) alice 180 ≡ true)
    × (locked_for_at (failing guard alice (100 ∷ 110 ∷ 120 ∷ [])) alice 130 ≡ some 50)
    × (check_at (failing guard alice (100 ∷ 110 ∷ 170 ∷ [])) alice 170 ≡ true)
unfolding lockout
locks_at_the_third = (refl, refl, refl, refl, refl)

guard-IsValid : IsValid guard
unfolding lockout
guard-IsValid = record { unique = tt; limit = omega arith; word = omega arith; below = λ k a h. cc }

burst-locks_example :
    (check_at (failing guard alice grind_times) alice 150 ≡ true)
    × (check_at (failing guard alice (grind_times ++ 120 ∷ [])) alice 150
        ≡ leb (120 + guard.lockout_secs) 150)
burst-locks_example =
    burst-locks guard alice grind_times 120 150 guard-IsValid (unfold lockout in refl)
      (unfold lockout in omega arith) (unfold lockout in omega arith)
      (unfold lockout in omega arith) (unfold lockout in omega arith)

abbrev struck_out : LoginGuard
struck_out = failing guard alice (100 ∷ 110 ∷ 120 ∷ [])

struck_out-IsValid : IsValid struck_out
unfolding failing
struck_out-IsValid =
    record_failure-IsValid _ alice 120
      (record_failure-IsValid _ alice 110 (record_failure-IsValid guard alice 100 guard-IsValid))

check-record_failure_example : check_at (record_failure_at struck_out alice 130).0 bob 140 ≡ (
    if same alice bob
    then elim (record_failure_at struck_out alice 130).1 [
      | none ↦ check_at struck_out alice 140
      | some u ↦ leb u 140
    ]
    else check_at struck_out bob 140)
check-record_failure_example =
    check-record_failure struck_out alice bob 130 140 struck_out-IsValid.unique (omega arith)
