-- ===== src/Dns/Message.antt =====
-- crates/kernway-dns/src/message.rs: the wire format of queries and responses. Offsets into a buffer are
-- written as natural numbers: they stay below its length, which a machine word holds. The label bytes of
-- a decoded name are kept as they are; the lossy conversion to text at the end of `name` is left out, since
-- its result is dropped by `skip_name`, the only caller.
pub mod Total
pub mod Labels
pub mod RoundTrip
pub mod Bounds
mod Tests
use kernway.Prelude.{
  ℕ, zero, suc, ◌+◌, ◌-◌, ◌*◌, ◌/◌, ◌%◌, ◌^◌, ◌&&◌, ◌||◌, Bool, true, false, Option, none, some,
  List, [], ◌∷◌, ◌++◌, ltb, leb, ◌==◌, if◌then◌else◌, length, take, drop, get_elem?, Bytes, split,
  is_empty,
}

abbrev pub type_a : ℕ
type_a = 1

abbrev pub type_aaaa : ℕ
type_aaaa = 28

abbrev pub type_opt : ℕ
type_opt = 41

abbrev pub class_in : ℕ
class_in = 1

abbrev pub max_label : ℕ
max_label = 63

abbrev pub max_name : ℕ
max_name = 255

abbrev pub max_jumps : ℕ
max_jumps = 32

pub data DnsError : Type 0 where
  truncated malformed_name name_too_long mismatch name_not_found : DnsError
  server_failure : ℕ → DnsError
  no_addresses : DnsError
  io : Bytes → DnsError

-- A result, or a panic. `no_fuel` is that of the model alone.
pub data Read (A : Type 0) : Type 0 where
  value : A → Read A
  failed : DnsError → Read A
  panicked no_fuel : Read A

abbrev pub map_read : {A B : Type 0} → (A → B) → Read A → Read B
map_read f (value a) = value (f a)
map_read f (failed e) = failed e
map_read f panicked = panicked
map_read f no_fuel = no_fuel

pub data Address : Type 0 where
  v4 : (a b c d : ℕ) → Address
  v6 : Bytes → Address

pub record ResolvedAddr : Type 0 where
  pub ip : Address
  pub ttl : ℕ

pub record Response : Type 0 where
  pub id : ℕ
  pub truncated : Bool
  pub rcode : ℕ
  pub addresses : List ResolvedAddr

-- `u16::to_be_bytes`
abbrev pub be16 : ℕ → Bytes
be16 n = n / 256 % 256 ∷ n % 256 ∷ []

-- `strip_suffix('.').unwrap_or(name)`
unfoldable pub without_dot : Bytes → Bytes
without_dot [] = []
without_dot (c ∷ []) = if c == b'.' then [] else c ∷ []
without_dot (c ∷ d ∷ s) = c ∷ without_dot (d ∷ s)

-- The loop over the labels; `total` is the length of the name so far.
unfoldable pub encode_labels : ℕ → List Bytes → Read Bytes
encode_labels total [] = value []
encode_labels total (label ∷ labels) =
    let rest = encode_labels (total + (1 + length label)) labels in
    if is_empty label || ltb max_label (length label)
    then failed name_too_long
    else if ltb max_name (total + (1 + length label))
    then failed name_too_long
    else map_read (λ bs. length label ∷ (label ++ bs)) rest

unfoldable pub encode_name : Bytes → Read Bytes
encode_name name =
    if is_empty (without_dot name)
    then value (0 ∷ [])
    else map_read (λ bs. bs ++ 0 ∷ []) (encode_labels 1 (split b'.' (without_dot name)))

unfoldable pub opt_record : Option ℕ → Bytes
opt_record none = []
opt_record (some udp) = 0 ∷ (be16 type_opt ++ (be16 udp ++ (0 ∷ 0 ∷ 0 ∷ 0 ∷ be16 0)))

unfoldable pub query_header : ℕ → Option ℕ → Bytes
query_header id edns =
    be16 id
    ++ (be16 0x0100
        ++ (be16 1 ++ (be16 0 ++ (be16 0 ++ be16 (elim edns [ none ↦ 0 | some _ ↦ 1 ])))))

unfoldable pub encode_query_inner : ℕ → Bytes → ℕ → Option ℕ → Read Bytes
encode_query_inner id name qtype edns =
    map_read
      (λ bs. query_header id edns ++ (bs ++ (be16 qtype ++ (be16 class_in ++ opt_record edns))))
      (encode_name name)

unfoldable pub encode_query : ℕ → Bytes → ℕ → Read Bytes
encode_query id name qtype = encode_query_inner id name qtype none

unfoldable pub encode_query_edns : ℕ → Bytes → ℕ → ℕ → Read Bytes
encode_query_edns id name qtype udp = encode_query_inner id name qtype (some udp)

-- A cursor in a buffer, and what reads from it.
pub record Reader : Type 0 where
  pub buf : Bytes
  pub pos : ℕ

abbrev pub Reading : Type 0 → Type 0
Reading A = Reader → Read (A × Reader)

infixl 5 ◌>>=◌
abbrev pub ◌>>=◌ : {A B : Type 0} → Reading A → (A → Reading B) → Reading B
m >>= f = λ r. elim (m r) [
  | value (a, r') ↦ f a r'
  | failed e ↦ failed e
  | panicked ↦ panicked
  | no_fuel ↦ no_fuel
]

abbrev pub pure : {A : Type 0} → A → Reading A
pure a r = value (a, r)

unfoldable pub u8 : Reading ℕ
u8 r = elim (get_elem? r.buf r.pos) [
  | none ↦ failed truncated
  | some b ↦ value (b, record r { pos = r.pos + 1 })
]

unfoldable pub u16 : Reading ℕ
u16 = do hi ← u8; lo ← u8; pure (hi * 256 + lo)

unfoldable pub u32 : Reading ℕ
u32 = do hi ← u16; lo ← u16; pure (hi * 65536 + lo)

-- `buf.get(start..end)`
abbrev pub slice : Bytes → ℕ → ℕ → Option Bytes
slice buf start end_ =
    if leb start end_ && leb end_ (length buf)
    then some (take (end_ - start) (drop start buf))
    else none

unfoldable pub take_bytes : ℕ → Reading Bytes
take_bytes n r = elim (slice r.buf r.pos (r.pos + n)) [
  | none ↦ failed truncated
  | some bytes ↦ value (bytes, record r { pos = r.pos + n })
]

-- The variables of the loop in `name`; `resume` is the cursor that it leaves behind.
pub record Walk : Type 0 where
  pub labels : Bytes
  pub name_len : ℕ
  pub pos : ℕ
  pub jumped : Bool
  pub jumps : ℕ
  pub resume : ℕ

-- What one turn of the loop does.
pub data Turn : Type 0 where
  again : Walk → Turn
  done : Bytes → ℕ → Turn
  bad : DnsError → Turn

unfoldable pub label_turn : Bytes → Walk → ℕ → Turn
label_turn buf w len = elim (slice buf (w.pos + 1) (w.pos + 1 + len)) [
  | none ↦ bad truncated
  | some label ↦
      if ltb max_name (w.name_len + (len + 1))
      then bad name_too_long
      else again (record w {
        labels = if is_empty w.labels then label else w.labels ++ b'.' ∷ label;
        name_len = w.name_len + (len + 1);
        pos = w.pos + 1 + len;
      })
]

unfoldable pub pointer_turn : Bytes → Walk → ℕ → Turn
pointer_turn buf w len = elim (get_elem? buf (w.pos + 1)) [
  | none ↦ bad truncated
  | some b2 ↦
      let target = len % 64 * 256 + b2 in
      if ltb max_jumps (w.jumps + 1) || leb w.pos target
      then bad malformed_name
      else again (record w {
        pos = target;
        jumped = true;
        jumps = w.jumps + 1;
        resume = if w.jumped then w.resume else w.pos + 2;
      })
]

-- The top bits of the byte say what it starts.
unfoldable pub turn : Bytes → Walk → Turn
turn buf w = elim (get_elem? buf w.pos) [
  | none ↦ bad truncated
  | some len ↦
      if len / 64 % 4 == 0
      then if len == 0
        then done w.labels (if w.jumped then w.resume else w.pos + 1)
        else label_turn buf w len
      else if len / 64 % 4 == 3
      then pointer_turn buf w len
      else bad malformed_name
]

unfoldable pub walk : ℕ → Bytes → Walk → Read (Bytes × Reader)
walk zero buf w = no_fuel
walk (suc fuel) buf w =
    let next = walk fuel buf in
    elim (turn buf w) [
      | again w' ↦ next w'
      | done labels pos ↦ value (labels, record { buf = buf; pos = pos })
      | bad e ↦ failed e
    ]

abbrev pub fresh_walk : ℕ → Walk
fresh_walk pos = record {
  labels = [];
  name_len = 0;
  pos = pos;
  jumped = false;
  jumps = 0;
  resume = pos;
}

-- Each turn adds to the name or to the jumps, which are bounded.
unfoldable pub name : Reading Bytes
name r = walk (max_name + max_jumps + 2) r.buf (fresh_walk r.pos)

unfoldable pub skip_name : Reading (Unit {0})
skip_name = do _ ← name; pure tt

unfoldable pub skip_questions : ℕ → Reading (Unit {0})
skip_questions zero = pure tt
skip_questions (suc n) = let rest = skip_questions n in do _ ← skip_name; _ ← u16; _ ← u16; rest

-- The address of a record, where it holds one; the reads of the bytes panic out of range.
unfoldable pub record_address : ℕ → ℕ → Bytes → ℕ → Read (List ResolvedAddr)
record_address rtype rdlen rdata ttl =
    if rtype == type_a && rdlen == 4
    then elim rdata [
      | a ∷ b ∷ c ∷ d ∷ _ ↦ value (record { ip = v4 a b c d; ttl = ttl } ∷ [])
      | _ ↦ panicked
    ]
    else if rtype == type_aaaa && rdlen == 16
    then (if length rdata == 16 then value (record { ip = v6 rdata; ttl = ttl } ∷ []) else panicked)
    else value []

unfoldable pub answer : Reading (List ResolvedAddr)
answer = do
  _ ← skip_name
  rtype ← u16
  _ ← u16
  ttl ← u32
  rdlen ← u16
  rdata ← take_bytes rdlen
  λ r. map_read (λ found. (found, r)) (record_address rtype rdlen rdata ttl)

unfoldable pub answers : ℕ → Reading (List ResolvedAddr)
answers zero = pure []
answers (suc n) = let rest = answers n in do found ← answer; more ← rest; pure (found ++ more)

unfoldable pub response : Reading Response
response = do
  id ← u16
  flags ← u16
  qdcount ← u16
  ancount ← u16
  _ ← u16
  _ ← u16
  _ ← skip_questions qdcount
  addresses ← answers ancount
  pure (record {
    id = id;
    truncated = flags / 512 % 2 == 1;
    rcode = flags % 16;
    addresses = addresses;
  })

unfoldable pub parse_response : Bytes → Read Response
parse_response buf = map_read (λ p. p.0) (response (record { buf = buf; pos = 0 }))
