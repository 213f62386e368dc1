-- ===== src/Security/Bans/Forwarded.antt =====
-- crates/kernway-security/src/tracking.rs: the address of a client behind trusted proxies.
use kernway.Prelude.{
  ℕ, ◌≡◌, ◌≢◌, ◌⊎◌, refl, sym, ap, ◌∙◌, true, false, Option, none, some, List, [], ◌∷◌, ◌++◌, arith,
  ◌==◌, Bool-cases, Option-cases, inl, inr, Bytes, split, push_head, trim,
}
use mathlib.Core.Option.{some-injective}
use kernway.Security.Bans.{
  IpAddr, ip_eq, contains, untrusted, or_else, last_untrusted, behind_proxy, client_ip,
}

push_head-nonempty : (x : ℕ) (ws : List Bytes) → push_head x ws ≢ []
push_head-nonempty x [] h = ground (arith, h)
push_head-nonempty x (w ∷ ws) h = ground (arith, h)

split-nonempty : (c : ℕ) (s : Bytes) → split c s ≢ []
unfolding split
split-nonempty c [] h = ground (arith, h)
split-nonempty c (x ∷ s) h = elim (Bool-cases (x == c)) [
  | inl e ↦ let y : [] ∷ split c s ≡ [] = rw e at h in ground (arith, y)
  | inr e ↦ let y : push_head x (split c s) ≡ [] = rw e at h in push_head-nonempty x (split c s) y
]

push_head-append :
    (x : ℕ) (ws vs : List Bytes) → ws ≢ [] → push_head x (ws ++ vs) ≡ push_head x ws ++ vs
push_head-append x [] vs h = absurd (h refl)
push_head-append x (w ∷ ws) vs h = refl

pub split-append : (c : ℕ) (s t : Bytes) → split c (s ++ c ∷ t) ≡ split c s ++ split c t
unfolding split
split-append c [] t = ground arith
split-append c (x ∷ s) t = elim (Bool-cases (x == c)) [
  | inl e ↦ rw (e, split-append c s t) refl
  | inr e ↦
      rw (e, split-append c s t) (push_head-append x (split c s) (split c t) (split-nonempty c s))
]

or_else-none : {A : Type 0} (a : Option A) → a ≡ or_else a none
or_else-none none = refl
or_else-none (some a) = refl

or_else_assoc : {A : Type 0} (a b c : Option A) → or_else a (or_else b c) ≡ or_else (or_else a b) c
or_else_assoc none b c = refl
or_else_assoc (some a) b c = refl

module _ (parse_ip : Bytes → Option IpAddr) where
  last_untrusted-append :
      (trusted : List IpAddr) (xs ys : List Bytes)
      → last_untrusted parse_ip trusted (xs ++ ys)
        ≡ or_else (last_untrusted parse_ip trusted ys) (last_untrusted parse_ip trusted xs)
  unfolding last_untrusted
  last_untrusted-append trusted [] ys = or_else-none (last_untrusted parse_ip trusted ys)
  last_untrusted-append trusted (x ∷ xs) ys = rw (last_untrusted-append trusted xs ys) (
      sym (
        or_else_assoc (last_untrusted parse_ip trusted ys) (last_untrusted parse_ip trusted xs)
          (untrusted trusted (parse_ip (trim x)))))

  untrusted_sound :
      (trusted : List IpAddr) (o : Option IpAddr) (a : IpAddr)
      → untrusted trusted o ≡ some a
      → contains trusted a ≡ false
  untrusted_sound trusted none a h = cc
  untrusted_sound trusted (some b) a h = elim (Bool-cases (contains trusted b)) [
    | inl e ↦ let y : none ≡ some a = rw e at h in absurd (ground (arith, y))
    | inr e ↦
        let y : some b ≡ some a = rw e at h in
        ap (contains trusted) (sym (some-injective _ _ y)) ∙ e
  ]

  last_untrusted_sound :
      (trusted : List IpAddr) (xs : List Bytes) (a : IpAddr)
      → last_untrusted parse_ip trusted xs ≡ some a
      → contains trusted a ≡ false
  unfolding last_untrusted
  last_untrusted_sound trusted [] a h = cc
  last_untrusted_sound trusted (x ∷ xs) a h =
      elim (Option-cases (last_untrusted parse_ip trusted xs)) [
        | inl e ↦ untrusted_sound trusted (parse_ip (trim x)) a (rw (last_untrusted, e) at h)
        | inr (b, e) ↦
            let y : some b ≡ some a = rw (last_untrusted, e) at h in
            last_untrusted_sound trusted xs a (e ∙ y)
      ]

  -- Behind a trusted proxy, an untrusted address in the header hides whatever a client wrote to the
  -- left of it.
  pub client_ip-append :
      (peer a : IpAddr) (trusted : List IpAddr) (left right : Bytes)
      → contains trusted peer ≡ true
      → last_untrusted parse_ip trusted (split b',' right) ≡ some a
      → client_ip parse_ip (some peer) (some (left ++ b',' ∷ right)) trusted ≡ some a
  unfolding client_ip behind_proxy
  client_ip-append peer a trusted left right h k =
      rw
        (
          h,
          split-append b',' left right,
          last_untrusted-append trusted (split b',' left) (split b',' right),
          k,
        )
        refl

  -- The address that a request is given is its peer, or stands in the header and is that of no trusted
  -- proxy, and then the peer is a trusted proxy.
  pub client_ip_sound :
      (peer a : IpAddr) (forwarded_for : Option Bytes) (trusted : List IpAddr)
      → client_ip parse_ip (some peer) forwarded_for trusted ≡ some a
      → (a ≡ peer)
        ⊎ ((contains trusted a ≡ false)
            × (contains trusted peer ≡ true)
            × (behind_proxy parse_ip trusted forwarded_for ≡ some a))
  unfolding client_ip behind_proxy
  client_ip_sound peer a forwarded_for trusted h = elim (Bool-cases (contains trusted peer)) [
    | inr direct ↦
        let x : some peer ≡ some a = rw (client_ip, direct) at h in inl (ground (arith, x))
    | inl proxy ↦
        let x : or_else (behind_proxy parse_ip trusted forwarded_for) (some peer) ≡ some a =
          rw (client_ip, proxy) at h in
        named forwarded_for proxy x
  ]
    where
      named :
          (f : Option Bytes)
          → contains trusted peer ≡ true
          → or_else (behind_proxy parse_ip trusted f) (some peer) ≡ some a
          → (a ≡ peer)
            ⊎ ((contains trusted a ≡ false)
                × (contains trusted peer ≡ true)
                × (behind_proxy parse_ip trusted f ≡ some a))
      named none proxy x = inl (ground (arith, x))
      named (some f) proxy x =
          elim (Option-cases (last_untrusted parse_ip trusted (split b',' f))) [
            | inl e ↦ let y : some peer ≡ some a = rw e at x in inl (sym (some-injective _ _ y))
            | inr (b, e) ↦
                let y : some b ≡ some a = rw e at x in
                inr (last_untrusted_sound trusted (split b',' f) a (e ∙ y), proxy, e ∙ y)
          ]
