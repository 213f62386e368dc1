-- ===== src/Security/Lockout/Effects.antt =====
-- What the methods of `LoginGuard` do to the answers of `check_at`, and the guard's invariant.
use kernway.Prelude.{
  ℕ, ◌+◌, ◌^◌, ◌≤◌, ◌<◌, ◌≡◌, ◌≢◌, refl, ◌∙◌, ◌↔◌, ◌⊎◌, true, false, none, some, arith, ltb, leb,
  if◌then◌else◌, Bool-cases, inl, inr, length, Bytes, bytes_eq, lookup, IsUnique, lookup-insert,
  lookup-remove, lookup-retain, insert-IsUnique, remove-IsUnique, retain-IsUnique, same, same_iff,
  same_refl, same_ne, keep_if,
}
use kernway.Security.Lockout.{
  Attempts, LoginGuard, check_at, is_active, swept, or_fresh, reopen, strike, record_failure_at,
  record_success, locked_for_at,
}

-- The keys are distinct, and every counter is below a limit that fits its word.
pub record IsValid (g : LoginGuard) : Type 0 where
  pub unique : IsUnique g.attempts
  pub limit : 0 < g.max_failures
  pub word : g.max_failures < 2 ^ 32
  pub below :
      (k : Bytes) (a : Attempts) → lookup k g.attempts ≡ some a → a.failures < g.max_failures

pub swept-IsUnique : (g : LoginGuard) (now : ℕ) → IsUnique g.attempts → IsUnique (swept g now)
unfolding swept
swept-IsUnique g now u = elim (Bool-cases (ltb 1024 (length g.attempts))) [
  | inl many ↦ rw many (retain-IsUnique (is_active g.window_secs now) g.attempts u)
  | inr few ↦ rw few u
]

-- A sweep loses only records that are not active.
pub lookup-swept :
    (g : LoginGuard) (now : ℕ) (k : Bytes)
    → IsUnique g.attempts
    → (lookup k (swept g now) ≡ lookup k g.attempts)
      ⊎ (lookup k (swept g now) ≡ keep_if (is_active g.window_secs now) (lookup k g.attempts))
unfolding swept
lookup-swept g now k u = elim (Bool-cases (ltb 1024 (length g.attempts))) [
  | inl many ↦ rw many (inr (lookup-retain (is_active g.window_secs now) k g.attempts u))
  | inr few ↦ rw few (inl refl)
]

check-record_failure_ne :
    (g : LoginGuard) (k j : Bytes) (now t : ℕ)
    → IsUnique g.attempts
    → k ≢ j
    → now ≤ t
    → check_at (record_failure_at g k now).0 j t ≡ check_at g j t
unfolding record_failure_at check_at is_active
check-record_failure_ne g k j now t u ne le =
    rw (check_at, lookup-insert k j _ (swept g now), same_ne k j ne)
      (ground (arith, lookup-swept g now j u))

-- What one failure leaves of the key's own record.
pub lookup-record_failure :
    (g : LoginGuard) (k : Bytes) (now : ℕ)
    → lookup k (record_failure_at g k now).0.attempts
      ≡ some (strike g now (reopen g.window_secs now (or_fresh now (lookup k (swept g now))))).0
unfolding record_failure_at
lookup-record_failure g k now = rw (lookup-insert k k _ (swept g now), same_refl k) refl

-- The record that a failure is counted on.
abbrev reopened : LoginGuard → Bytes → ℕ → Attempts
reopened g k now = reopen g.window_secs now (or_fresh now (lookup k (swept g now)))

strike-below :
    (g : LoginGuard) (now : ℕ) (a : Attempts)
    → 0 < g.max_failures
    → (strike g now a).0.failures < g.max_failures
unfolding strike
strike-below g now a h = ground arith

-- A valid guard stays valid: distinct keys, a counter below the limit for every key, and a limit
-- that fits the counter's word.
pub record_failure-IsValid :
    (g : LoginGuard) (k : Bytes) (now : ℕ) → IsValid g → IsValid (record_failure_at g k now).0
unfolding record_failure_at
record_failure-IsValid g k now v = record {
  unique = insert-IsUnique k _ (swept g now) (swept-IsUnique g now v.unique);
  limit = v.limit;
  word = v.word;
  below = λ j a. elim (Bool-cases (same k j)) [
    | inl eq ↦ λ h. ground (
      arith,
      lookup-insert k j (strike g now (reopened g k now)).0 (swept g now),
      strike-below g now (reopened g k now) v.limit,
    )
    | inr ne ↦ λ h. ground (
      arith,
      lookup-insert k j (strike g now (reopened g k now)).0 (swept g now),
      lookup-swept g now j v.unique,
      v.below j a,
    )
  ];
}

-- What the key's own answer is after a failure.
check-strike :
    (g : LoginGuard) (k : Bytes) (now t : ℕ)
    → IsUnique g.attempts
    → now ≤ t
    → check_at (record_failure_at g k now).0 k t
      ≡ elim (record_failure_at g k now).1 [ none ↦ check_at g k t | some u ↦ leb u t ]
unfolding check_at record_failure_at strike reopen or_fresh is_active
check-strike g k now t u le =
    rw (check_at, lookup-insert k k (strike g now (reopened g k now)).0 (swept g now), same_refl k)
      (ground (arith, lookup-swept g now k u))

-- After a failure of `k`, at every later time: another key may try as before. `k` may try as before
-- if the call returned no lock, and exactly from the returned time on if it did.
pub check-record_failure :
    (g : LoginGuard) (k j : Bytes) (now t : ℕ)
    → IsUnique g.attempts
    → now ≤ t
    → check_at (record_failure_at g k now).0 j t ≡ (
        if same k j
        then elim (record_failure_at g k now).1 [ none ↦ check_at g k t | some u ↦ leb u t ]
        else check_at g j t)
check-record_failure g k j now t u le = elim (Bool-cases (same k j)) [
  | inl e ↦ rw (e, ← (same_iff k j).0 e) (check-strike g k now t u le)
  | inr e ↦ rw e (check-record_failure_ne g k j now t u (λ p. cc (e, (same_iff k j).1 p)) le)
]

-- A failure of a key that is locked, where the failures counted on its record stay below the limit,
-- reports no lock, although the key is still locked.
pub record_failure-within_lock :
    (g : LoginGuard) (k : Bytes) (now : ℕ) (a : Attempts)
    → IsValid g
    → lookup k g.attempts ≡ some a
    → now < a.locked_until
    → a.failures + 1 < g.max_failures
    → ((record_failure_at g k now).1 ≡ none)
      × (check_at (record_failure_at g k now).0 k now ≡ false)
unfolding record_failure_at strike reopen or_fresh is_active
record_failure-within_lock g k now a v h locked few =
    let here : lookup k (swept g now) ≡ some a = ground (arith, lookup-swept g now k v.unique) in
    let no_lock : (record_failure_at g k now).1 ≡ none = rw here (ground (arith, v.word)) in
    (
      no_lock,
      check-strike g k now now v.unique (omega arith)
          ∙ rw no_lock (unfold check_at in rw h (ground arith)),
    )

pub record_success-IsValid : (g : LoginGuard) (k : Bytes) → IsValid g → IsValid (record_success g k)
unfolding record_success
record_success-IsValid g k v = record {
  unique = remove-IsUnique k g.attempts v.unique;
  limit = v.limit;
  word = v.word;
  below = λ j a h. ground (arith, lookup-remove k j g.attempts, v.below j a);
}

-- A success clears the key's lock at every time, and no other key's.
pub check-record_success :
    (g : LoginGuard) (k j : Bytes) (t : ℕ)
    → check_at (record_success g k) j t ≡ (if same k j then true else check_at g j t)
unfolding record_success check_at
check-record_success g k j t = rw (check_at, lookup-remove k j g.attempts) (ground arith)

-- `locked_for_at` gives the time left of the lock that `check_at` reports.
pub locked_for-iff-check :
    (g : LoginGuard) (k : Bytes) (now : ℕ)
    → ((locked_for_at g k now ≡ none) ↔ (check_at g k now ≡ true))
      × ((s : ℕ)
          → locked_for_at g k now ≡ some s
          → (0 < s) × ((t : ℕ) → check_at g k t ≡ leb (now + s) t))
unfolding locked_for_at check_at
locked_for-iff-check g k now = ground arith
