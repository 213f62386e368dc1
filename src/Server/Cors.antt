-- ===== src/Server/Cors.antt =====
-- crates/kernway-server/src/cors.rs: the middleware for cross-origin requests. What runs behind it is a parameter;
-- nothing stands for the panic of headers that outgrow their offsets.
pub mod Decision
mod Tests
use kernway.Prelude.{
  ℕ, Bool, true, false, not, ◌&&◌, Option, none, some, List, [], ◌∷◌, ◌++◌, if◌then◌else◌, any,
  Bytes, bytes_eq, same, codes, is_empty, decimal, eq_ignore_case,
}
use kernway.Core.Fields
use kernway.Core.Fields.{Fields}
use kernway.Http.Parser.{Request}
use kernway.Http.Writer.{Response, empty_body}

pub data Origins : Type 0 where
  any_origin : Origins
  origin_list : List Bytes → Origins

pub data AllowHeaders : Type 0 where
  mirror_request : AllowHeaders
  header_list : List Bytes → AllowHeaders

pub record Cors : Type 0 where
  pub origins : Origins
  pub methods : List Bytes
  pub headers : AllowHeaders
  pub exposed : List Bytes
  pub credentials : Bool
  pub max_age : Option ℕ

abbrev pub new_cors : Cors
new_cors = record {
  origins = origin_list [];
  methods = codes "GET" ∷ codes "HEAD" ∷ codes "POST" ∷ [];
  headers = header_list [];
  exposed = [];
  credentials = false;
  max_age = none;
}

abbrev permissive : Cors
permissive = record {
  origins = any_origin;
  methods =
      codes "GET"
      ∷ codes "HEAD"
      ∷ codes "POST"
      ∷ codes "PUT"
      ∷ codes "PATCH"
      ∷ codes "DELETE"
      ∷ codes "OPTIONS"
      ∷ [];
  headers = mirror_request;
  exposed = [];
  credentials = false;
  max_age = none;
}

pub allow_origin : Cors → Bytes → Cors
allow_origin c origin = elim c.origins [
  | any_origin ↦ c
  | origin_list list ↦ record c { origins = origin_list (list ++ origin ∷ []) }
]

allow_any_origin : Cors → Cors
allow_any_origin c = record c { origins = any_origin }

allow_methods : Cors → List Bytes → Cors
allow_methods c methods = record c { methods = methods }

allow_headers : Cors → List Bytes → Cors
allow_headers c headers = record c { headers = header_list headers }

allow_any_header : Cors → Cors
allow_any_header c = record c { headers = mirror_request }

expose_headers : Cors → List Bytes → Cors
expose_headers c headers = record c { exposed = headers }

allow_credentials : Cors → Bool → Cors
allow_credentials c yes_ = record c { credentials = yes_ }

max_age_of : Cors → ℕ → Cors
max_age_of c secs = record c { max_age = some secs }

-- `join(", ")`
abbrev pub join : List Bytes → Bytes
join [] = []
join (s ∷ []) = s
join (s ∷ t ∷ ss) = s ++ b',' ∷ 32 ∷ join (t ∷ ss)

infixl 5 ◌>>=◌
abbrev pub ◌>>=◌ : {A B : Type 0} → Option A → (A → Option B) → Option B
none >>= k = none
some a >>= k = k a

-- An insertion that some condition may skip.
abbrev pub insert_when : Bool → Fields → Bytes → Bytes → Option Fields
insert_when false f name value = some f
insert_when true f name value = Fields.insert true f name value

abbrev pub header : Request → Bytes → Option Bytes
header req name = Fields.get true req.headers name

pub allow_origin_value : Cors → Bytes → Option Bytes
allow_origin_value c origin = elim c.origins [
  | any_origin ↦ if c.credentials then some origin else some (codes "*")
  | origin_list list ↦ if any (λ o. same o origin) list then some origin else none
]

pub stamp_common : Cors → Fields → Bytes → Option Fields
stamp_common c f allow_origin =
    Fields.insert true f (codes "access-control-allow-origin") allow_origin >>= λ f.
    insert_when c.credentials f (codes "access-control-allow-credentials") (codes "true") >>= λ f.
    Fields.insert true f (codes "vary") (codes "Origin")

abbrev pub text_of : Option Bytes → Bytes
text_of none = []
text_of (some v) = v

pub allowed_headers : Cors → Request → Bytes
allowed_headers c req = elim c.headers [
  | header_list list ↦ join list
  | mirror_request ↦ text_of (header req (codes "access-control-request-headers"))
]

abbrev pub with_max_age : Option ℕ → Fields → Option Fields
with_max_age none f = some f
with_max_age (some secs) f = Fields.insert true f (codes "access-control-max-age") (decimal secs)

-- The headers of the answer to a preflight.
pub preflight : Cors → Request → Bytes → Option Fields
preflight c req allow_origin = stamp_common c Fields.new allow_origin >>= λ f.
    Fields.insert true f (codes "access-control-allow-methods") (join c.methods) >>= λ f.
    insert_when (not (is_empty (allowed_headers c req))) f (codes "access-control-allow-headers")
      (allowed_headers c req)
    >>= λ f. with_max_age c.max_age f

pub is_preflight : Request → Bool
is_preflight req =
    eq_ignore_case req.method (codes "OPTIONS")
    && Fields.contains_key true req.headers (codes "access-control-request-method")

abbrev pub no_content : Fields → Response
no_content f = record { status = 204; headers = f; body = empty_body }

-- The headers of an actual response, by the decision on its origin.
pub stamped : Cors → Option Bytes → Fields → Option Fields
stamped c none f = some f
stamped c (some origin) f = stamp_common c f origin >>= λ f.
    insert_when (not (is_empty c.exposed)) f (codes "access-control-expose-headers")
      (join c.exposed)

pub answered : Cors → Request → Option Bytes → Option Fields
answered c req none = some Fields.new
answered c req (some origin) = preflight c req origin

module _ (next : Request → Option Response) where
  pub handle : Cors → Request → Option Response
  handle c req =
      let origin = header req (codes "origin") >>= allow_origin_value c in
      if is_preflight req
      then (answered c req origin >>= λ f. some (no_content f))
      else (next req >>= λ r. stamped c origin r.headers >>= λ f. some (record r { headers = f }))
