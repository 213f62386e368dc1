-- ===== src/Server/Cors/Decision.antt =====
-- crates/kernway-server/src/cors.rs: which origin a response allows.
use kernway.Prelude.{
  ℕ, ◌≡◌, refl, sym, ap, ◌∙◌, inl, inr, Bool, true, false, not, Option, none, some, arith,
  Bool-cases, ◌⊎◌, List, [], ◌∷◌, any, same, same_iff, Bytes, bytes_eq, codes, is_empty, lowercase,
  to_lower,
}
use kernway.Core.Fields
use kernway.Core.Fields.{Fields}
use kernway.Core.Fields.View.{IsValid, iter-insert}
use kernway.Core.Fields.Get.{get-insert}
use kernway.Http.Parser.{Request}
use kernway.Http.Writer.{Response}
use kernway.Server.Cors.{
  Origins, any_origin, origin_list, Cors, ◌>>=◌, insert_when, header, allow_origin_value,
  stamp_common, allowed_headers, with_max_age, preflight, is_preflight, no_content, stamped,
  answered, handle, join,
}

abbrev pub allow_origin_name : Bytes
allow_origin_name = codes "access-control-allow-origin"

abbrev Lists : Bytes → List Bytes → Type 0
Lists origin [] = ⊥
Lists origin (o ∷ list) = (o ≡ origin) ⊎ Lists origin list

-- What a policy grants, by the origin of the request.
pub data Grants (c : Cors) : Option Bytes → Option Bytes → Type 0 where
  no_origin : Grants c none none
  wildcard :
      (origin : Bytes) (open_ : c.origins ≡ any_origin) (bare : c.credentials ≡ false)
      → Grants c (some origin) (some (codes "*"))
  mirrored :
      (origin : Bytes) (open_ : c.origins ≡ any_origin) (trusted : c.credentials ≡ true)
      → Grants c (some origin) (some origin)
  listed :
      (origin : Bytes) (list : List Bytes) (named : c.origins ≡ origin_list list)
      (member : Lists origin list)
      → Grants c (some origin) (some origin)
  unlisted :
      (origin : Bytes) (list : List Bytes) (named : c.origins ≡ origin_list list)
      (absent : ¬ Lists origin list)
      → Grants c (some origin) none

Lists-any :
    (origin : Bytes) (list : List Bytes) → any (λ o. same o origin) list ≡ true → Lists origin list
Lists-any origin [] h = absurd (ground (arith, h))
Lists-any origin (o ∷ list) h = elim (Bool-cases (same o origin)) [
  | inl here ↦ inl ((same_iff o origin).0 here)
  | inr other ↦ inr (Lists-any origin list (rw other at h))
]

any-Lists :
    (origin : Bytes) (list : List Bytes) → Lists origin list → any (λ o. same o origin) list ≡ true
any-Lists origin [] l = absurd l
any-Lists origin (o ∷ list) (inl here) = rw ((same_iff o origin).1 here) refl
any-Lists origin (o ∷ list) (inr later) = ground (arith, any-Lists origin list later)

Grants-value : (c : Cors) (origin : Bytes) → Grants c (some origin) (allow_origin_value c origin)
unfolding allow_origin_value
Grants-value c origin = go c.origins refl
  where
    go : (os : Origins) → c.origins ≡ os → Grants c (some origin) (allow_origin_value c origin)
    go any_origin e = elim (Bool-cases c.credentials) [
      | inl trusted ↦
          let value : allow_origin_value c origin ≡ some origin =
            rw (allow_origin_value, e, trusted) refl in
          rw value (Grants.mirrored origin e trusted)
      | inr bare ↦
          let value : allow_origin_value c origin ≡ some (codes "*") =
            rw (allow_origin_value, e, bare) refl in
          rw value (Grants.wildcard origin e bare)
    ]
    go (origin_list list) e = elim (Bool-cases (any (λ o. same o origin) list)) [
      | inl member ↦
          let value : allow_origin_value c origin ≡ some origin =
            rw (allow_origin_value, e, member) refl in
          rw value (Grants.listed origin list e (Lists-any origin list member))
      | inr absent ↦
          let value : allow_origin_value c origin ≡ none =
            rw (allow_origin_value, e, absent) refl in
          rw value
            (Grants.unlisted origin list e (λ l. ground (arith, any-Lists origin list l, absent)))
    ]

Grants-decision : (c : Cors) (o : Option Bytes) → Grants c o (o >>= allow_origin_value c)
Grants-decision c none = Grants.no_origin
Grants-decision c (some origin) = Grants-value c origin

bind_inv :
    {A B : Type 0} (m : Option A) (f : A → Option B) (b : B)
    → (m >>= f) ≡ some b
    → (a : A) × (m ≡ some a) × (f a ≡ some b)
bind_inv none f b h = absurd (ground (arith, h))
bind_inv (some a) f b h = (a, refl, h)

-- Headers that allow this origin, if any.
abbrev pub Allows : Option Bytes → Fields → Type 0
Allows o f = IsValid f × (Fields.get true f allow_origin_name ≡ o)

abbrev IsOther : Bytes → Type 0
IsOther name = Fields.matches true (Fields.normalized true name) allow_origin_name ≡ false

Allows-insert :
    (o : Option Bytes) (f g : Fields) (name value : Bytes)
    → IsOther name
    → Allows o f
    → Fields.insert true f name value ≡ some g
    → Allows o g
Allows-insert o f g name value other (valid, got) h = (
  (iter-insert true f g name value valid h).1,
  get-insert true f g name value allow_origin_name valid h ∙ rw other got,
)

Allows-insert_when :
    (o : Option Bytes) (b : Bool) (f g : Fields) (name value : Bytes)
    → IsOther name
    → Allows o f
    → insert_when b f name value ≡ some g
    → Allows o g
Allows-insert_when o true f g name value other a h = Allows-insert o f g name value other a h
Allows-insert_when o false f g name value other a h =
    let same : f ≡ g = ground (arith, h) in rw (← same) a

Allows-origin :
    (f g : Fields) (value : Bytes)
    → IsValid f
    → Fields.insert true f allow_origin_name value ≡ some g
    → Allows (some value) g
unfolding Fields.matches Fields.normalized lowercase to_lower
Allows-origin f g value valid h = (
  (iter-insert true f g allow_origin_name value valid h).1,
  get-insert true f g allow_origin_name value allow_origin_name valid h,
)

others :
    IsOther (codes "access-control-allow-credentials")
    × IsOther (codes "vary")
    × IsOther (codes "access-control-allow-methods")
    × IsOther (codes "access-control-allow-headers")
    × IsOther (codes "access-control-max-age")
    × IsOther (codes "access-control-expose-headers")
unfolding Fields.matches Fields.normalized lowercase to_lower
others = (refl, refl, refl, refl, refl, refl)

stamp_common-Allows :
    (c : Cors) (f g : Fields) (origin : Bytes)
    → IsValid f
    → stamp_common c f origin ≡ some g
    → Allows (some origin) g
unfolding stamp_common
stamp_common-Allows c f g origin valid h =
    let (f1, e1, h1) = bind_inv (Fields.insert true f allow_origin_name origin) _ g h in
    let (f2, e2, h2) =
      bind_inv
        (insert_when c.credentials f1 (codes "access-control-allow-credentials") (codes "true")) _ g
        h1 in
    let a1 = Allows-origin f f1 origin valid e1 in
    let a2 = Allows-insert_when (some origin) c.credentials f1 f2 _ _ others.0 a1 e2 in
    Allows-insert (some origin) f2 g _ _ others.1 a2 h2

preflight-Allows :
    (c : Cors) (req : Request) (origin : Bytes) (g : Fields)
    → preflight c req origin ≡ some g
    → Allows (some origin) g
unfolding preflight
preflight-Allows c req origin g h =
    let (f1, e1, h1) = bind_inv (stamp_common c Fields.new origin) _ g h in
    let (f2, e2, h2) =
      bind_inv (Fields.insert true f1 (codes "access-control-allow-methods") (join c.methods)) _ g
        h1 in
    let (f3, e3, h3) =
      bind_inv
        (insert_when (not (is_empty (allowed_headers c req))) f2
          (codes "access-control-allow-headers") (allowed_headers c req))
        _ g h2 in
    let a1 = stamp_common-Allows c Fields.new f1 origin tt e1 in
    let a2 = Allows-insert (some origin) f1 f2 _ _ others.2 a1 e2 in
    let a3 = Allows-insert_when (some origin) _ f2 f3 _ _ others.3 a2 e3 in aged c.max_age f3 a3 h3
  where
    aged :
        (m : Option ℕ) (f : Fields)
        → Allows (some origin) f
        → with_max_age m f ≡ some g
        → Allows (some origin) g
    aged none f a h = let same : f ≡ g = ground (arith, h) in rw (← same) a
    aged (some secs) f a h = Allows-insert (some origin) f g _ _ others.4 a h

stamped-Allows :
    (c : Cors) (o : Option Bytes) (f g : Fields)
    → Allows none f
    → stamped c o f ≡ some g
    → Allows o g
unfolding stamped
stamped-Allows c none f g a h = let same : f ≡ g = ground (arith, h) in rw (← same) a
stamped-Allows c (some origin) f g (valid, _) h =
    let (f1, e1, h1) = bind_inv (stamp_common c f origin) _ g h in
    Allows-insert_when (some origin) _ f1 g _ _ others.5
      (stamp_common-Allows c f f1 origin valid e1) h1

answered-Allows :
    (c : Cors) (req : Request) (o : Option Bytes) (g : Fields)
    → answered c req o ≡ some g
    → Allows o g
unfolding answered Fields.get Fields.find_last
answered-Allows c req none g h =
    let same : Fields.new ≡ g = ground (arith, h) in rw (← same) (tt, refl)
answered-Allows c req (some origin) g h = preflight-Allows c req origin g h

-- The origin that a response allows is the decision on the origin of the request.
handle-value :
    (next : Request → Option Response) (c : Cors) (req : Request) (resp : Response)
    → ((r : Response) → next req ≡ some r → Allows none r.headers)
    → handle next c req ≡ some resp
    → Fields.get true resp.headers allow_origin_name
      ≡ (header req (codes "origin") >>= allow_origin_value c)
unfolding handle
handle-value next c req resp inner h = elim (Bool-cases (is_preflight req)) [
  | inl pre ↦
      let (f, e, h1) =
        bind_inv (answered c req o) (λ f. some (no_content f)) resp (rw (handle, pre) at h) in
      let same : no_content f ≡ resp = ground (arith, h1) in
      ap (λ (x : Response). Fields.get true x.headers allow_origin_name) (sym same)
      ∙ (answered-Allows c req o f e).1
  | inr actual ↦
      let (r, e, h1) = bind_inv (next req) _ resp (rw (handle, actual) at h) in
      let (f, e2, h2) =
        bind_inv (stamped c o r.headers) (λ f. some (record r { headers = f })) resp h1 in
      let same : record r { headers = f } ≡ resp = ground (arith, h2) in
      ap (λ (x : Response). Fields.get true x.headers allow_origin_name) (sym same)
      ∙ (stamped-Allows c o r.headers f (inner r e) e2).1
]
  where
    o : Option Bytes
    o = header req (codes "origin") >>= allow_origin_value c

-- The origin that a response allows, be it to a preflight or to a request that ran, is what the policy grants
-- for the origin of the request, if the response that ran has no such header of its own: with every origin
-- allowed, "*" or, with credentials, the origin itself; with a list, the origin exactly when it is on it; and
-- none for a request without an origin.
pub handle-Allows :
    (next : Request → Option Response) (c : Cors) (req : Request) (resp : Response)
    → ((r : Response) → next req ≡ some r → Allows none r.headers)
    → handle next c req ≡ some resp
    → Grants c (header req (codes "origin")) (Fields.get true resp.headers allow_origin_name)
handle-Allows next c req resp inner h =
    rw (handle-value next c req resp inner h) (Grants-decision c (header req (codes "origin")))
