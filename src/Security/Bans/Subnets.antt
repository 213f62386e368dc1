-- ===== src/Security/Bans/Subnets.antt =====
-- crates/kernway-security/src/tracking.rs: the addresses that a subnet holds.
use kernway.Prelude.{
  ℕ, ◌+◌, ◌-◌, ◌*◌, ◌/◌, ◌^◌, ◌≤◌, ◌<◌, ◌≡◌, ◌↔◌, refl, sym, ap, true, false, arith, ◌==◌, ==_iff,
  Bool-cases, inl, inr,
}
use native.Mathlib.Nat.{
  div-mul-le_self, lt-div-mul-add, div-eq_of_lt-le, div-eq_of_lt, add-mul, one-le-pow,
}
use kernway.Security.Bans.{v4, v6, masked, in_network, in_family, cidr_contains}

-- The block of `d` addresses that holds the given one.
abbrev pub InBlock : (d n a : ℕ) → Type 0
InBlock d n a = (n / d * d ≤ a) × (a < n / d * d + d)

same_block : (d n a : ℕ) → 0 < d → (n / d * d ≡ a / d * d) ↔ InBlock d n a
same_block d n a h = (there, back)
  where
    there : n / d * d ≡ a / d * d → InBlock d n a
    there e =
        (omega (arith, e, div-mul-le_self a d), omega (arith, e, lt-div-mul-add {a = a} {b = d} h))

    back : InBlock d n a → n / d * d ≡ a / d * d
    back (low, high) =
        let q : a / d ≡ n / d = div-eq_of_lt-le d low (omega (arith, high, add-mul (n / d) 1 d)) in
        ap (λ (k : ℕ). k * d) (sym q)

in_network_iff :
    (width prefix n a : ℕ)
    → n < 2 ^ width
    → a < 2 ^ width
    → (in_network width prefix n a ≡ true) ↔ InBlock (2 ^ (width - prefix)) n a
unfolding in_network masked
in_network_iff width prefix n a hn ha = elim (Bool-cases (prefix == 0)) [
  | inl whole ↦
      let all : width - prefix ≡ width = omega (arith, (==_iff prefix 0).0 whole) in
      let first : n / 2 ^ width ≡ 0 = div-eq_of_lt hn in
      rw (whole, all, first) ((λ e. (omega arith, omega (arith, ha))), λ b. refl)
  | inr part ↦
      let d = 2 ^ (width - prefix) in
      let blocks = same_block d n a (one-le-pow (width - prefix) 2 (omega arith)) in
      let test = ==_iff (n / d * d) (a / d * d) in
      rw part ((λ e. blocks.0 (test.0 e)), λ b. test.1 (blocks.1 b))
]

-- A subnet of either family holds exactly the addresses of the block of `2 ^ (32 - prefix)`, or
-- `2 ^ (128 - prefix)`, addresses around its own, prefix zero included, and none of the other family.
pub cidr_contains_iff :
    (prefix n a m b : ℕ)
    → n < 2 ^ 32
    → a < 2 ^ 32
    → m < 2 ^ 128
    → b < 2 ^ 128
    → ((cidr_contains (record { network = v4 n; prefix = prefix }) (v4 a) ≡ true)
        ↔ InBlock (2 ^ (32 - prefix)) n a)
      × ((cidr_contains (record { network = v6 m; prefix = prefix }) (v6 b) ≡ true)
          ↔ InBlock (2 ^ (128 - prefix)) m b)
      × (cidr_contains (record { network = v4 n; prefix = prefix }) (v6 b) ≡ false)
      × (cidr_contains (record { network = v6 m; prefix = prefix }) (v4 a) ≡ false)
unfolding cidr_contains in_family
cidr_contains_iff prefix n a m b hn ha hm hb =
    (in_network_iff 32 prefix n a hn ha, in_network_iff 128 prefix m b hm hb, refl, refl)
