-- ===== src/Di/Beans/Lookup.antt =====
-- crates/di-core/src/context.rs: what the beans of a type are after each registration, and when a lookup finds
-- one.
use kernway.Prelude.{
  ℕ, ◌≡◌, ◌≢◌, ◌⊎◌, refl, sym, ap, ◌∙◌, Bool, true, false, not, Option, none, some, List, [], ◌∷◌,
  arith, ◌==◌, ==_iff, if◌then◌else◌, Bool-cases, inl, inr, any, keep, All, All-append, Bytes,
  bytes_eq, nat_eq, same_refl, lookup, lookup-insert, unwrap_or,
}
use kernway.Di.Beans.{
  BeanEntry, Instance, DiError, not_found, ambiguous, ok, panic, Filed, AppContext, is_default,
  filed, beans, register_with_entry, downcast, only, get_from, with_list, get, has_qualifier,
  get_qualified,
}

-- The beans of a type hold objects of that type, and are all defaults of the framework or none is.
pub record IsFiled (type_id : ℕ) (list : List Filed) : Type 0 where
  pub typed : All (λ (f : Filed). f.1.concrete ≡ type_id) list
  pub layered :
      All (λ (f : Filed). is_default f.0 ≡ true) list
      ⊎ All (λ (f : Filed). is_default f.0 ≡ false) list

abbrev pub IsValid : AppContext → Type 0
IsValid c = (type_id : ℕ) → IsFiled type_id (beans c type_id)

All-keep : {A : Type 0} (P : A → Type 0) (p : A → Bool) (xs : List A) → All P xs → All P (keep p xs)
All-keep P p [] h = tt
All-keep P p (x ∷ xs) (h, hs) = elim (Bool-cases (p x)) [
  | inl e ↦ rw e (h, All-keep P p xs hs)
  | inr e ↦ rw e (All-keep P p xs hs)
]

kept_users :
    (list : List Filed)
    → All (λ (f : Filed). is_default f.0 ≡ false) (keep (λ f. not (is_default f.0)) list)
kept_users [] = tt
kept_users (f ∷ list) = elim (Bool-cases (is_default f.0)) [
  | inl e ↦ rw e (kept_users list)
  | inr e ↦ rw e (e, kept_users list)
]

no_users :
    (list : List Filed)
    → any (λ f. not (is_default f.0)) list ≡ false
    → All (λ (f : Filed). is_default f.0 ≡ true) list
no_users [] h = tt
no_users (f ∷ list) h = (ground (arith, h), no_users list (ground (arith, h)))

filed-IsFiled :
    (type_id : ℕ) (e : BeanEntry) (i : Instance) (list : List Filed)
    → i.concrete ≡ type_id
    → IsFiled type_id list
    → IsFiled type_id (filed e i list)
unfolding filed
filed-IsFiled type_id e i list h v = elim (Bool-cases (is_default e)) [
  | inr mine ↦ rw mine (record {
    typed =
        All-append _ (keep (λ f. not (is_default f.0)) list) ((e, i) ∷ [])
          (All-keep _ (λ f. not (is_default f.0)) list v.typed) (h, tt);
    layered = inr (
        All-append _ (keep (λ f. not (is_default f.0)) list) ((e, i) ∷ []) (kept_users list)
          (mine, tt));
  })
  | inl default ↦ elim (Bool-cases (any (λ f. not (is_default f.0)) list)) [
    | inl taken ↦ rw (default, taken) v
    | inr open_ ↦
        rw (default, open_)
          (record {
            typed = All-append _ list ((e, i) ∷ []) v.typed (h, tt);
            layered = inl (All-append _ list ((e, i) ∷ []) (no_users list open_) (default, tt));
          })
  ]
]

beans-register :
    (c : AppContext) (e : BeanEntry) (i : Instance) (k : ℕ)
    → i.concrete ≡ e.type_id
    → beans (register_with_entry c e i).1 k
      ≡ (if e.type_id == k then filed e i (beans c e.type_id) else beans c k)
unfolding register_with_entry beans
beans-register c e i k h = ground (
  arith,
  h,
  lookup-insert e.type_id k (filed e i (unwrap_or (lookup e.type_id c.instances) [])) c.instances,
)

-- Registering a bean, whether it succeeds or is refused for its type, keeps the container valid: every
-- object is of the type it is filed under, and no type has beans of the user beside defaults.
pub register_with_entry-IsValid :
    (c : AppContext) (e : BeanEntry) (i : Instance)
    → IsValid c
    → IsValid (register_with_entry c e i).1
unfolding register_with_entry beans
register_with_entry-IsValid c e i v k = elim (Bool-cases (i.concrete == e.type_id)) [
  | inr wrong ↦ rw (register_with_entry, wrong) (v k)
  | inl right ↦
      let fits = (==_iff i.concrete e.type_id).0 right in
      rw (beans-register c e i k fits) (elim (Bool-cases (e.type_id == k)) [
        | inl here ↦
            let at_k = (==_iff e.type_id k).0 here in
            rw (here, ← at_k) (filed-IsFiled e.type_id e i (beans c e.type_id) fits (v e.type_id))
        | inr other ↦ rw other (v k)
      ])
]

only-safe :
    (k : ℕ) (a b : DiError) (list : List Filed)
    → All (λ (f : Filed). f.1.concrete ≡ k) list
    → only k a b list ≢ panic
unfolding only downcast
only-safe k a b [] h = λ bad. ground (arith, bad)
only-safe k a b (f ∷ []) (h, _) = λ bad. ground (arith, bad, h)
only-safe k a b (f ∷ g ∷ fs) h = λ bad. ground (arith, bad)

get_from-safe :
    (k : ℕ) (name : Bytes) (list : List Filed)
    → All (λ (f : Filed). f.1.concrete ≡ k) list
    → get_from k name list ≢ panic
unfolding get_from downcast
get_from-safe k name [] h = only-safe k (ambiguous name) (ambiguous name) [] h
get_from-safe k name (f ∷ []) (h, _) = λ bad. ground (arith, bad, h)
get_from-safe k name (f ∷ g ∷ fs) h =
    only-safe k (ambiguous name) (ambiguous name) (keep (λ x. x.0.is_primary) (f ∷ g ∷ fs))
      (All-keep (λ (x : Filed). x.1.concrete ≡ k) (λ x. x.0.is_primary) (f ∷ g ∷ fs) h)

-- In a valid container neither lookup panics: what is found downcasts to the type it was asked for.
pub get-safe :
    (c : AppContext) (k : ℕ) (name q : Bytes)
    → IsValid c
    → (get c k name ≢ panic) × (get_qualified c k name q ≢ panic)
unfolding get get_qualified with_list beans
get-safe c k name q v = (first (lookup k c.instances) refl, second (lookup k c.instances) refl)
  where
    first :
        (o : Option (List Filed))
        → lookup k c.instances ≡ o
        → with_list name (get_from k name) o ≢ panic
    first none e = λ bad. ground (arith, bad)
    first (some list) e = get_from-safe k name list (rw (beans, e) at (v k).typed)

    second :
        (o : Option (List Filed))
        → lookup k c.instances ≡ o
        → with_list name
            (λ l. only k (not_found name) (ambiguous name) (keep (has_qualifier q) l))
            o
          ≢ panic
    second none e = λ bad. ground (arith, bad)
    second (some list) e =
        only-safe k (not_found name) (ambiguous name) (keep (has_qualifier q) list) (
          All-keep (λ (x : Filed). x.1.concrete ≡ k) (has_qualifier q) list
            (rw (beans, e) at (v k).typed))

keep-no_users :
    (list : List Filed)
    → All (λ (f : Filed). is_default f.0 ≡ true) list
    → keep (λ f. not (is_default f.0)) list ≡ []
keep-no_users [] h = refl
keep-no_users (f ∷ list) (h, hs) = rw h (keep-no_users list hs)

get-sole :
    (c : AppContext) (k : ℕ) (name : Bytes) (f : Filed)
    → beans c k ≡ f ∷ []
    → f.1.concrete ≡ k
    → get c k name ≡ ok f.1
unfolding get with_list get_from downcast beans
get-sole c k name f h e = found (lookup k c.instances) h
  where
    found :
        (o : Option (List Filed))
        → unwrap_or o [] ≡ f ∷ []
        → with_list name (get_from k name) o ≡ ok f.1
    found none h = absurd (ground (arith, h))
    found (some list) h = rw h (ground (arith, e))

-- A bean of the user replaces the defaults of its type: the lookup of the type then gives it, where only
-- defaults, or nothing, had been filed; and a default that comes later does not change the answer.
pub get-register_user :
    (c : AppContext) (e d : BeanEntry) (i j : Instance) (name : Bytes)
    → i.concrete ≡ e.type_id
    → j.concrete ≡ e.type_id
    → d.type_id ≡ e.type_id
    → is_default e ≡ false
    → is_default d ≡ true
    → All (λ (f : Filed). is_default f.0 ≡ true) (beans c e.type_id)
    → (get (register_with_entry c e i).1 e.type_id name ≡ ok i)
      × (get (register_with_entry (register_with_entry c e i).1 d j).1 e.type_id name ≡ ok i)
unfolding filed
get-register_user c e d i j name hi hj hd mine default old =
    let c1 = (register_with_entry c e i).1 in
    let c2 = (register_with_entry c1 d j).1 in
    let first : beans c1 e.type_id ≡ (e, i) ∷ [] =
      beans-register c e i e.type_id hi ∙ rw (same_refl e.type_id) (sole (beans c e.type_id) old) in
    let filed_under : (d.type_id == e.type_id) ≡ true = (==_iff d.type_id e.type_id).1 hd in
    let held : beans c1 d.type_id ≡ (e, i) ∷ [] = ap (beans c1) hd ∙ first in
    let second : beans c2 e.type_id ≡ (e, i) ∷ [] =
      beans-register c1 d j e.type_id (hj ∙ sym hd) ∙ rw (filed_under, held) later in
    (get-sole c1 e.type_id name (e, i) first hi, get-sole c2 e.type_id name (e, i) second hi)
  where
    sole :
        (list : List Filed)
        → All (λ (f : Filed). is_default f.0 ≡ true) list
        → filed e i list ≡ (e, i) ∷ []
    sole list h = rw (filed, mine, keep-no_users list h) refl

    later : filed d j ((e, i) ∷ []) ≡ (e, i) ∷ []
    later = rw (filed, default, mine) refl
