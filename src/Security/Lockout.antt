-- ===== src/Security/Lockout.antt =====
-- crates/kernway-security/src/lockout.rs: `LoginGuard`, which locks a key out after too many failed
-- logins. Times are seconds; a method that changes the guard returns the new one. The lock around
-- the map serialises the methods, so each is one step; the methods that read the system clock are
-- those here with its value.
pub mod Effects
pub mod Burst
mod Tests
use kernway.Prelude.{
  ℕ, ◌+◌, ◌-◌, ◌%◌, ◌^◌, max, Bool, ◌||◌, Option, none, some, [], ltb, leb, if◌then◌else◌, length,
  Bytes, bytes_eq, Map, lookup, insert, remove, retain, keep_if, is_none_or,
}

-- The failure record for one key.
pub record Attempts : Type 0 where
  pub failures : ℕ
  pub window_start : ℕ
  pub locked_until : ℕ

pub record LoginGuard : Type 0 where
  pub max_failures : ℕ
  pub lockout_secs : ℕ
  pub window_secs : ℕ
  pub attempts : Map Bytes Attempts

-- `LoginGuard::new`
pub new : ℕ → ℕ → LoginGuard
new max_failures lockout = record {
  max_failures = max max_failures 1;
  lockout_secs = lockout;
  window_secs = lockout;
  attempts = [];
}

pub with_window : LoginGuard → ℕ → LoginGuard
with_window g window = record g { window_secs = window }

pub check_at : LoginGuard → Bytes → ℕ → Bool
check_at g key now = is_none_or (λ a. leb a.locked_until now) (lookup key g.attempts)

-- The test of the sweep: still locked, or in an active window.
pub is_active : ℕ → ℕ → Attempts → Bool
is_active window now a = ltb now a.locked_until || ltb (now - a.window_start) window

-- Drops the records that are neither locked nor in an active window, once there are many.
pub swept : LoginGuard → ℕ → Map Bytes Attempts
swept g now =
    if ltb 1024 (length g.attempts)
    then retain (is_active g.window_secs now) g.attempts
    else g.attempts

-- `entry(key).or_insert(..)`
pub or_fresh : ℕ → Option Attempts → Attempts
or_fresh now none = record { failures = 0; window_start = now; locked_until = 0 }
or_fresh now (some a) = a

-- Starts a fresh window if the last one has elapsed.
pub reopen : ℕ → ℕ → Attempts → Attempts
reopen window now a =
    if leb window (now - a.window_start) then record a { failures = 0; window_start = now } else a

-- Counts the failure and locks at the limit. The counter is a `u32`, the time a `u64`.
pub strike : LoginGuard → ℕ → Attempts → Attempts × Option ℕ
strike g now a =
    let failures = (a.failures + 1) % 2 ^ 32 in
    let until = (now + g.lockout_secs) % 2 ^ 64 in
    if leb g.max_failures failures
    then (record a { failures = 0; locked_until = until }, some until)
    else (record a { failures = failures }, none)

pub record_failure_at : LoginGuard → Bytes → ℕ → LoginGuard × Option ℕ
record_failure_at g key now =
    let m = swept g now in
    let (a, result) = strike g now (reopen g.window_secs now (or_fresh now (lookup key m))) in
    (record g { attempts = insert key a m }, result)

pub record_success : LoginGuard → Bytes → LoginGuard
record_success g key = record g { attempts = remove key g.attempts }

pub locked_for_at : LoginGuard → Bytes → ℕ → Option ℕ
locked_for_at g key now = elim (keep_if (λ a. ltb now a.locked_until) (lookup key g.attempts)) [
  | none ↦ none
  | some a ↦ some (a.locked_until - now)
]
