-- ===== src/Security/Lockout/Burst.antt =====
-- The limit of `LoginGuard`: a burst of failures locks a key exactly at the last allowed one.
use kernway.Prelude.{
  ℕ, suc, ◌+◌, ◌-◌, ◌%◌, ◌^◌, ◌<◌, ◌≡◌, refl, ◌∙◌, true, none, some, List, [], ◌∷◌, ◌++◌, arith,
  leb, length, All, All-append_inv, Bytes, bytes_eq, lookup,
}
use kernway.Security.Lockout.{
  Attempts, LoginGuard, check_at, is_active, swept, or_fresh, reopen, strike, record_failure_at,
}
use kernway.Security.Lockout.Effects.{
  IsValid, lookup-swept, lookup-record_failure, record_failure-IsValid,
}

-- The guard after failures of one key at the given times.
unfoldable pub failing : LoginGuard → Bytes → List ℕ → LoginGuard
failing g k [] = g
failing g k (t ∷ ts) = failing (record_failure_at g k t).0 k ts

-- The first of the times.
abbrev pub first : List ℕ → ℕ → ℕ
first [] t = t
first (s ∷ ts) t = s

-- The key's record while its window is open and no lock was set.
abbrev counted : ℕ → ℕ → Attempts
counted n start = record { failures = n; window_start = start; locked_until = 0 }

swept-counted :
    (g : LoginGuard) (k : Bytes) (n start now : ℕ)
    → IsValid g
    → lookup k g.attempts ≡ some (counted n start)
    → now - start < g.window_secs
    → lookup k (swept g now) ≡ some (counted n start)
unfolding is_active
swept-counted g k n start now v h open_ = ground (arith, lookup-swept g now k v.unique)

swept-none :
    (g : LoginGuard) (k : Bytes) (now : ℕ)
    → IsValid g
    → lookup k g.attempts ≡ none
    → lookup k (swept g now) ≡ none
swept-none g k now v h = ground (arith, lookup-swept g now k v.unique)

failure-counted :
    (g : LoginGuard) (k : Bytes) (n start now : ℕ)
    → IsValid g
    → lookup k g.attempts ≡ some (counted n start)
    → now - start < g.window_secs
    → suc n < g.max_failures
    → lookup k (record_failure_at g k now).0.attempts ≡ some (counted (suc n) start)
unfolding or_fresh reopen strike
failure-counted g k n start now v h open_ le =
    rw (lookup-record_failure g k now, swept-counted g k n start now v h open_)
      (ground (arith, v.word))

failure-last :
    (g : LoginGuard) (k : Bytes) (n start now : ℕ)
    → IsValid g
    → lookup k g.attempts ≡ some (counted n start)
    → now - start < g.window_secs
    → suc n ≡ g.max_failures
    → lookup k (record_failure_at g k now).0.attempts
      ≡ some (record {
        failures = 0;
        window_start = start;
        locked_until = (now + g.lockout_secs) % 2 ^ 64;
      })
unfolding or_fresh reopen strike
failure-last g k n start now v h open_ le =
    rw (lookup-record_failure g k now, swept-counted g k n start now v h open_)
      (ground (arith, v.word))

-- A first failure opens a window; it locks only where the limit is one.
failure-first :
    (g : LoginGuard) (k : Bytes) (now : ℕ)
    → IsValid g
    → lookup k g.attempts ≡ none
    → 0 < g.window_secs
    → lookup k (record_failure_at g k now).0.attempts ≡ some (strike g now (counted 0 now)).0
unfolding or_fresh reopen
failure-first g k now v h open_ =
    rw (lookup-record_failure g k now, swept-none g k now v h) (ground arith)

failing-counted :
    (g : LoginGuard) (k : Bytes) (n start : ℕ) (ts : List ℕ)
    → IsValid g
    → lookup k g.attempts ≡ some (counted n start)
    → All (λ s. s - start < g.window_secs) ts
    → n + length ts < g.max_failures
    → IsValid (failing g k ts)
      × (lookup k (failing g k ts).attempts ≡ some (counted (n + length ts) start))
      × ((failing g k ts).max_failures ≡ g.max_failures)
      × ((failing g k ts).window_secs ≡ g.window_secs)
      × ((failing g k ts).lockout_secs ≡ g.lockout_secs)
unfolding failing record_failure_at
failing-counted g k n start [] v h w le = (v, ground (arith, h), refl, refl, refl)
failing-counted g k n start (t ∷ ts) v h w le =
    let one = failure-counted g k n start t v h w.0 (omega arith) in
    let rest =
      failing-counted (record_failure_at g k t).0 k (suc n) start ts
        (record_failure-IsValid g k t v) one w.1 (omega arith) in
    (rest.0, ground (arith, rest.1), rest.2, rest.3, rest.4)

failing-append :
    (g : LoginGuard) (k : Bytes) (ts : List ℕ) (t : ℕ)
    → failing g k (ts ++ t ∷ []) ≡ (record_failure_at (failing g k ts) k t).0
unfolding failing
failing-append g k [] t = refl
failing-append g k (s ∷ ts) t = failing-append (record_failure_at g k s).0 k ts t

-- The counted record after one failure less than the limit, or none where the limit is one.
failing-open :
    (g : LoginGuard) (k : Bytes) (s : ℕ) (ts : List ℕ)
    → IsValid g
    → lookup k g.attempts ≡ none
    → 0 < g.window_secs
    → All (λ x. x - s < g.window_secs) ts
    → suc (length ts) < g.max_failures
    → IsValid (failing g k (s ∷ ts))
      × (lookup k (failing g k (s ∷ ts)).attempts ≡ some (counted (suc (length ts)) s))
      × ((failing g k (s ∷ ts)).max_failures ≡ g.max_failures)
      × ((failing g k (s ∷ ts)).window_secs ≡ g.window_secs)
      × ((failing g k (s ∷ ts)).lockout_secs ≡ g.lockout_secs)
unfolding failing record_failure_at
failing-open g k s ts v h open_ w le =
    let one : lookup k (record_failure_at g k s).0.attempts ≡ some (counted 1 s) =
      rw (failure-first g k s v h open_) (unfold strike in ground (arith, v.word)) in
    let rest =
      failing-counted (record_failure_at g k s).0 k 1 s ts (record_failure-IsValid g k s v) one w
        (omega arith) in
    (rest.0, ground (arith, rest.1), rest.2, rest.3, rest.4)

-- What `check_at` answers by the key's record.
check-some :
    (g : LoginGuard) (k : Bytes) (a : Attempts) (u : ℕ)
    → lookup k g.attempts ≡ some a
    → check_at g k u ≡ leb a.locked_until u
unfolding check_at
check-some g k a u h = rw h refl

check-none :
    (g : LoginGuard) (k : Bytes) (u : ℕ) → lookup k g.attempts ≡ none → check_at g k u ≡ true
unfolding check_at
check-none g k u h = rw h refl

-- A key with no record that fails at times within one window of the first may go on trying until
-- one failure short of the limit, at any time. The failure that reaches the limit, at `t`, locks it
-- until `t` plus the lockout, and not longer.
pub burst-locks :
    (g : LoginGuard) (k : Bytes) (ts : List ℕ) (t u : ℕ)
    → IsValid g
    → lookup k g.attempts ≡ none
    → 0 < g.window_secs
    → All (λ x. x - first ts t < g.window_secs) (ts ++ t ∷ [])
    → length ts + 1 ≡ g.max_failures
    → t + g.lockout_secs < 2 ^ 64
    → (check_at (failing g k ts) k u ≡ true)
      × (check_at (failing g k (ts ++ t ∷ [])) k u ≡ leb (t + g.lockout_secs) u)
burst-locks g k [] t u v h open_ w full word =
    let locked : lookup k (failing g k (t ∷ [])).attempts
        ≡ some (record { failures = 0; window_start = t; locked_until = t + g.lockout_secs }) =
      unfold failing in
      rw (failure-first g k t v h open_) (unfold strike in ground (arith, v.word)) in
    (unfold failing in check-none g k u h, check-some (failing g k (t ∷ [])) k _ u locked)
burst-locks g k (s ∷ ts) t u v h open_ w full word =
    let parts = All-append_inv (λ x. x - s < g.window_secs) ts (t ∷ []) w.1 in
    let most = failing-open g k s ts v h open_ parts.0 (omega arith) in
    let g' = failing g k (s ∷ ts) in
    let locked =
      failure-last g' k (suc (length ts)) s t most.0 most.1 (rw most.3 parts.1.0)
        (omega (arith, most.2)) in
    (
      check-some g' k _ u most.1 ∙ ground arith,
      rw (failing-append g k (s ∷ ts) t)
          (check-some (record_failure_at g' k t).0 k _ u locked ∙ ground (arith, most.4)),
    )
