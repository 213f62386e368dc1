-- ===== src/Security/Bans/Rules.antt =====
-- crates/kernway-security/src/tracking.rs: whom the ban list blocks after a rule is added or removed.
use kernway.Prelude.{
  ◌≡◌, refl, ap, ◌∙◌, Bool, true, false, not, ◌||◌, Option, List, [], ◌∷◌, ◌++◌, arith, Bool-cases,
  inl, inr, any, keep, Bytes, bytes_eq, same, same_iff, same_refl,
}
use kernway.Security.Bans.{
  IpAddr, BanRule, rule_eq, ip_eq, BanList, contains, add_rule, remove_rule, is_user_rule,
  is_user_banned, matches, is_banned,
}

any-last :
    {A : Type 0} (p : A → Bool) (xs : List A) (x : A) → any p (xs ++ x ∷ []) ≡ (any p xs || p x)
any-last p [] x = ground arith
any-last p (y ∷ ys) x = ground (arith, any-last p ys x)

-- A rule that is in the list is one of those that are asked.
any-contains :
    (p : BanRule → Bool) (rs : List BanRule) (r : BanRule)
    → contains rs r ≡ true
    → p r ≡ true
    → any p rs ≡ true
any-contains p [] r h k = cc
any-contains p (s ∷ rs) r h k = elim (Bool-cases (same s r)) [
  | inl e ↦ let x : p s ≡ true = ap p ((same_iff s r).0 e) ∙ k in rw x refl
  | inr e ↦ ground (arith, any-contains p rs r (rw e at h) k)
]

any-keep :
    (p : BanRule → Bool) (rs : List BanRule) (r : BanRule)
    → p r ≡ false
    → any p (keep (λ s. not (same s r)) rs) ≡ any p rs
any-keep p [] r h = refl
any-keep p (s ∷ rs) r h = elim (Bool-cases (same s r)) [
  | inl e ↦ let x : p s ≡ false = ap p ((same_iff s r).0 e) ∙ h in rw (e, x) (any-keep p rs r h)
  | inr e ↦ rw e (ground (arith, any-keep p rs r h))
]

kept_not : (rs : List BanRule) (r : BanRule) → contains (keep (λ s. not (same s r)) rs) r ≡ false
kept_not [] r = refl
kept_not (s ∷ rs) r = elim (Bool-cases (same s r)) [
  | inl e ↦ rw e (kept_not rs r)
  | inr e ↦ rw e (rw e (kept_not rs r))
]

keep_all :
    (rs : List BanRule) (r : BanRule) → contains rs r ≡ false → keep (λ s. not (same s r)) rs ≡ rs
keep_all [] r h = refl
keep_all (s ∷ rs) r h = ground (arith, keep_all rs r, h)

keep-last :
    (rs : List BanRule) (r : BanRule)
    → contains rs r ≡ false
    → keep (λ s. not (same s r)) (rs ++ r ∷ []) ≡ rs
keep-last [] r h = rw (same_refl r) refl
keep-last (s ∷ rs) r h = ground (arith, keep-last rs r, h)

-- Adding a rule blocks the requests that it matches and changes nothing for the others, whether the
-- rule was there or not; the same holds of users.
pub is_banned-add_rule :
    (l : BanList) (r : BanRule) (a : Option IpAddr) (agent : Option Bytes) (name : Bytes)
    → (is_banned (add_rule l r) a agent ≡ (is_banned l a agent || matches a agent r))
      × (is_user_banned (add_rule l r) name ≡ (is_user_banned l name || is_user_rule name r))
unfolding is_banned is_user_banned add_rule
is_banned-add_rule l r a agent name = (added (matches a agent), added (is_user_rule name))
  where
    added : (p : BanRule → Bool) → any p (add_rule l r).rules ≡ (any p l.rules || p r)
    added p = elim (Bool-cases (contains l.rules r)) [
      | inl old ↦ rw old (ground (arith, any-contains p l.rules r old))
      | inr new ↦ rw new (any-last p l.rules r)
    ]

-- Removing a rule changes nothing for the requests and the users that it does not match, and afterwards
-- the rule is not in the list.
pub is_banned-remove_rule :
    (l : BanList) (r : BanRule) (a : Option IpAddr) (agent : Option Bytes) (name : Bytes)
    → (matches a agent r ≡ false → is_banned (remove_rule l r) a agent ≡ is_banned l a agent)
      × (is_user_rule name r ≡ false
          → is_user_banned (remove_rule l r) name ≡ is_user_banned l name)
      × (contains (remove_rule l r).rules r ≡ false)
unfolding is_banned is_user_banned remove_rule
is_banned-remove_rule l r a agent name = (
  any-keep (matches a agent) l.rules r,
  any-keep (is_user_rule name) l.rules r,
  kept_not l.rules r,
)

-- A ban that is lifted leaves the list as it was, where the rule was not in it before.
pub remove_rule-add_rule :
    (l : BanList) (r : BanRule) → contains l.rules r ≡ false → remove_rule (add_rule l r) r ≡ l
unfolding remove_rule add_rule
remove_rule-add_rule l r h =
    rw h (ap (λ (rs : List BanRule). record { rules = rs }) (keep-last l.rules r h))
