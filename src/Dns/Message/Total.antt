-- ===== src/Dns/Message/Total.antt =====
-- crates/kernway-dns/src/message.rs: reading ends on every buffer, and never reads out of bounds.
use kernway.Prelude.{
  ℕ, zero, suc, ◌+◌, ◌-◌, ◌*◌, ◌/◌, ◌%◌, ◌≤◌, ◌<◌, ◌≡◌, ◌≢◌, ◌⊎◌, refl, sym, ap, ◌∙◌, inl, inr,
  ◌&&◌, ◌||◌, Bool, true, false, some, [], ◌∷◌, ◌++◌, ltb, leb, ◌==◌, if◌then◌else◌, arith,
  Bool-cases, Option-cases, length, take, drop, get_elem?, Bytes, is_empty, length-take,
  length-drop, min,
}
use kernway.Dns.Message.{
  max_name, max_jumps, DnsError, Read, value, failed, panicked, no_fuel, map_read, Response, Reader,
  Reading, ◌>>=◌, u8, u16, u32, slice, take_bytes, Walk, Turn, again, done, bad, label_turn,
  pointer_turn, turn, walk, fresh_walk, name, skip_name, skip_questions, record_address, answer,
  answers, response, parse_response,
}

-- Neither a panic nor out of fuel.
abbrev pub ends : {A : Type 0} → Read A → Bool
ends (value a) = true
ends (failed e) = true
ends panicked = false
ends no_fuel = false

abbrev Total : {A : Type 0} → Reading A → Type 0
Total m = (r : Reader) → ends (m r) ≡ true

bind-ends :
    {A B : Type 0} (m : Reading A) (f : A → Reading B) (r : Reader)
    → ends (m r) ≡ true
    → ((a : A) (r' : Reader) → m r ≡ value (a, r') → ends (f a r') ≡ true)
    → ends ((m >>= f) r) ≡ true
bind-ends {A} {B} m f r h k = go (m r) refl h
  where
    go :
        (x : Read (A × Reader))
        → m r ≡ x
        → ends x ≡ true
        → ends (elim x as (λ _. Read (B × Reader)) [
          | value (a, r') ↦ f a r'
          | failed e ↦ failed e
          | panicked ↦ panicked
          | no_fuel ↦ no_fuel
        ])
          ≡ true
    go (value (a, r')) e h = k a r' e
    go (failed e') e h = refl
    go panicked e h = absurd (ground (arith, h))
    go no_fuel e h = absurd (ground (arith, h))

bind-Total :
    {A B : Type 0} (m : Reading A) (f : A → Reading B)
    → Total m
    → ((a : A) → Total (f a))
    → Total (m >>= f)
bind-Total m f h k r = bind-ends m f r (h r) (λ a r' e. k a r')

u8-Total : Total u8
unfolding u8
u8-Total r = ground arith

u16-Total : Total u16
unfolding u16
u16-Total = bind-Total u8 _ u8-Total (λ hi. bind-Total u8 _ u8-Total (λ lo r. refl))

u32-Total : Total u32
unfolding u32
u32-Total = bind-Total u16 _ u16-Total (λ hi. bind-Total u16 _ u16-Total (λ lo r. refl))

take_bytes-Total : (n : ℕ) → Total (take_bytes n)
unfolding take_bytes
take_bytes-Total n r = ground arith

-- The turns that go on: one reads a label, one follows a pointer backward.
pub data Advances (buf : Bytes) (w w' : Walk) : Type 0 where
  by_label :
      (len : ℕ) (label : Bytes)
      → 1 ≤ len
      → slice buf (w.pos + 1) (w.pos + 1 + len) ≡ some label
      → w.name_len + (len + 1) ≤ max_name
      → record w {
        labels = if is_empty w.labels then label else w.labels ++ b'.' ∷ label;
        name_len = w.name_len + (len + 1);
        pos = w.pos + 1 + len;
      }
        ≡ w'
      → Advances buf w w'
  by_pointer :
      (target b2 : ℕ)
      → target < w.pos
      → w.jumps + 1 ≤ max_jumps
      → get_elem? buf (w.pos + 1) ≡ some b2
      → record w {
        pos = target;
        jumped = true;
        jumps = w.jumps + 1;
        resume = if w.jumped then w.resume else w.pos + 2;
      }
        ≡ w'
      → Advances buf w w'

label_turn-Advances :
    (buf : Bytes) (w w' : Walk) (len : ℕ)
    → 1 ≤ len
    → label_turn buf w len ≡ again w'
    → Advances buf w w'
unfolding label_turn
label_turn-Advances buf w w' len pos h =
    elim (Option-cases (slice buf (w.pos + 1) (w.pos + 1 + len))) [
      | inl e ↦ let x = rw (label_turn, e) at h in absurd (ground (arith, x))
      | inr (label, e) ↦ elim (Bool-cases (ltb max_name (w.name_len + (len + 1)))) [
        | inl long ↦ let x = rw (label_turn, e, long) at h in absurd (ground (arith, x))
        | inr short ↦
            let x = rw (label_turn, e, short) at h in
            by_label len label pos e (ground (arith, short)) (ground (arith, x))
      ]
    ]

pointer_turn-Advances :
    (buf : Bytes) (w w' : Walk) (len : ℕ) → pointer_turn buf w len ≡ again w' → Advances buf w w'
unfolding pointer_turn
pointer_turn-Advances buf w w' len h = elim (Option-cases (get_elem? buf (w.pos + 1))) [
  | inl e ↦ let x = rw (pointer_turn, e) at h in absurd (ground (arith, x))
  | inr (b2, e) ↦
      let target = len % 64 * 256 + b2 in
      elim (Bool-cases (ltb max_jumps (w.jumps + 1) || leb w.pos target)) [
        | inl bad_target ↦
            let x = rw (pointer_turn, e, bad_target) at h in absurd (ground (arith, x))
        | inr good ↦
            let x = rw (pointer_turn, e, good) at h in
            by_pointer target b2 (ground (arith, good)) (ground (arith, good)) e (ground (arith, x))
      ]
]

pub turn-Advances : (buf : Bytes) (w w' : Walk) → turn buf w ≡ again w' → Advances buf w w'
unfolding turn
turn-Advances buf w w' h = elim (Option-cases (get_elem? buf w.pos)) [
  | inl e ↦ let x = rw (turn, e) at h in absurd (ground (arith, x))
  | inr (len, e) ↦ elim (Bool-cases (len / 64 % 4 == 0)) [
    | inl low ↦ elim (Bool-cases (len == 0)) [
      | inl zero_ ↦ let x = rw (turn, e, low, zero_) at h in absurd (ground (arith, x))
      | inr some_ ↦
          label_turn-Advances buf w w' len (ground (arith, some_)) (rw (turn, e, low, some_) at h)
    ]
    | inr high ↦ elim (Bool-cases (len / 64 % 4 == 3)) [
      | inl pointer ↦ pointer_turn-Advances buf w w' len (rw (turn, e, high, pointer) at h)
      | inr reserved ↦ let x = rw (turn, e, high, reserved) at h in absurd (ground (arith, x))
    ]
  ]
]

-- The name and the jumps have limits, and a turn uses up what is left of them.
abbrev IsBounded : Walk → Type 0
IsBounded w = (w.name_len ≤ max_name) × (w.jumps ≤ max_jumps)

abbrev left : Walk → ℕ
left w = (max_name - w.name_len) + (max_jumps - w.jumps)

Advances-left :
    (buf : Bytes) (w w' : Walk)
    → Advances buf w w'
    → IsBounded w
    → IsBounded w' × (left w' < left w)
Advances-left buf w w' (by_label len label pos e short same) (a, b) =
    rw (← same) ((short, b), omega arith)
Advances-left buf w w' (by_pointer target b2 back few e same) (a, b) =
    rw (← same) ((a, few), omega arith)

pub Turn-cases :
    (t : Turn)
    → ((w : Walk) × (t ≡ again w))
      ⊎ (((labels : Bytes) × (pos : ℕ) × (t ≡ done labels pos)) ⊎ ((e : DnsError) × (t ≡ bad e)))
Turn-cases (again w) = inl (w, refl)
Turn-cases (done labels pos) = inr (inl (labels, pos, refl))
Turn-cases (bad e) = inr (inr (e, refl))

pub walk-again :
    (fuel : ℕ) (buf : Bytes) (w w' : Walk)
    → turn buf w ≡ again w'
    → walk (suc fuel) buf w ≡ walk fuel buf w'
unfolding walk
walk-again fuel buf w w' e = rw (walk, e) refl

pub walk-done :
    (fuel : ℕ) (buf : Bytes) (w : Walk) (labels : Bytes) (pos : ℕ)
    → turn buf w ≡ done labels pos
    → walk (suc fuel) buf w ≡ value (labels, record { buf = buf; pos = pos })
unfolding walk
walk-done fuel buf w labels pos e = rw (walk, e) refl

pub walk-bad :
    (fuel : ℕ) (buf : Bytes) (w : Walk) (e : DnsError)
    → turn buf w ≡ bad e
    → walk (suc fuel) buf w ≡ failed e
unfolding walk
walk-bad fuel buf w e h = rw (walk, h) refl

walk-ends :
    (fuel : ℕ) (buf : Bytes) (w : Walk)
    → left w < fuel
    → IsBounded w
    → ends (walk fuel buf w) ≡ true
walk-ends zero buf w f b = absurd (omega arith)
walk-ends (suc fuel) buf w f b = elim (Turn-cases (turn buf w)) [
  | inl (w', e) ↦
      let (b', less) = Advances-left buf w w' (turn-Advances buf w w' e) b in
      ap ends (walk-again fuel buf w w' e) ∙ walk-ends fuel buf w' (omega arith) b'
  | inr (inl (labels, pos, e)) ↦ ap ends (walk-done fuel buf w labels pos e)
  | inr (inr (e', e)) ↦ ap ends (walk-bad fuel buf w e' e)
]

name-Total : Total name
unfolding name
name-Total r = walk-ends _ r.buf (fresh_walk r.pos) (omega arith) (omega arith, omega arith)

skip_name-Total : Total skip_name
unfolding skip_name
skip_name-Total = bind-Total name _ name-Total (λ _ r. refl)

skip_questions-Total : (n : ℕ) → Total (skip_questions n)
unfolding skip_questions
skip_questions-Total zero = λ r. refl
skip_questions-Total (suc n) = bind-Total skip_name _ skip_name-Total (λ _.
    bind-Total u16 _ u16-Total (λ _. bind-Total u16 _ u16-Total (λ _. skip_questions-Total n)))

pub length-slice :
    (buf : Bytes) (start n : ℕ) (bytes : Bytes)
    → slice buf start (start + n) ≡ some bytes
    → length bytes ≡ n
length-slice buf start n bytes h =
    elim (Bool-cases (leb start (start + n) && leb (start + n) (length buf))) [
      | inr out ↦ let x = rw out at h in absurd (ground (arith, x))
      | inl within ↦
          let x : some (take (start + n - start) (drop start buf)) ≡ some bytes = rw within at h in
          let ends_in : start + n ≤ length buf = ground (arith, within) in
          let fits : min (start + n - start) (length (drop start buf)) ≡ n =
            omega (arith, length-drop start buf, ends_in) in
          let same : take (start + n - start) (drop start buf) ≡ bytes = ground (arith, x) in
          ap length (sym same) ∙ length-take (start + n - start) (drop start buf) ∙ fits
    ]

record_address-ends :
    (rtype rdlen ttl : ℕ) (rdata : Bytes)
    → length rdata ≡ rdlen
    → ends (record_address rtype rdlen rdata ttl) ≡ true
unfolding record_address
record_address-ends rtype rdlen ttl (a ∷ b ∷ c ∷ d ∷ rest) h = ground (arith, h)
record_address-ends rtype rdlen ttl (a ∷ b ∷ c ∷ []) h = ground (arith, h)
record_address-ends rtype rdlen ttl (a ∷ b ∷ []) h = ground (arith, h)
record_address-ends rtype rdlen ttl (a ∷ []) h = ground (arith, h)
record_address-ends rtype rdlen ttl [] h = ground (arith, h)

map_read-ends : {A B : Type 0} (f : A → B) (m : Read A) → ends (map_read f m) ≡ ends m
map_read-ends f (value a) = refl
map_read-ends f (failed e) = refl
map_read-ends f panicked = refl
map_read-ends f no_fuel = refl

length-take_bytes :
    (n : ℕ) (r r' : Reader) (bytes : Bytes) → take_bytes n r ≡ value (bytes, r') → length bytes ≡ n
unfolding take_bytes
length-take_bytes n r r' bytes h = elim (Option-cases (slice r.buf r.pos (r.pos + n))) [
  | inl e ↦ let x = rw (take_bytes, e) at h in absurd (ground (arith, x))
  | inr (found, e) ↦
      let x = rw (take_bytes, e) at h in length-slice r.buf r.pos n bytes (e ∙ ground (arith, x))
]

record-Total :
    (rtype rdlen ttl : ℕ)
    → Total (
        take_bytes rdlen >>= λ rdata r.
        map_read (λ found. (found, r)) (record_address rtype rdlen rdata ttl))
record-Total rtype rdlen ttl r =
    bind-ends (take_bytes rdlen) _ r (take_bytes-Total rdlen r) (λ rdata r' e.
      map_read-ends (λ found. (found, r')) (record_address rtype rdlen rdata ttl)
      ∙ record_address-ends rtype rdlen ttl rdata (length-take_bytes rdlen r r' rdata e))

answer-Total : Total answer
unfolding answer
answer-Total = bind-Total skip_name _ skip_name-Total (λ _. bind-Total u16 _ u16-Total (λ rtype.
    bind-Total u16 _ u16-Total (λ _.
      bind-Total u32 _ u32-Total
        (λ ttl. bind-Total u16 _ u16-Total (λ rdlen. record-Total rtype rdlen ttl)))))

answers-Total : (n : ℕ) → Total (answers n)
unfolding answers
answers-Total zero = λ r. refl
answers-Total (suc n) =
    bind-Total answer _ answer-Total
      (λ found. bind-Total (answers n) _ (answers-Total n) (λ more r. refl))

response-Total : Total response
unfolding response
response-Total = bind-Total u16 _ u16-Total (λ id. bind-Total u16 _ u16-Total (λ flags.
    bind-Total u16 _ u16-Total (λ qdcount. bind-Total u16 _ u16-Total (λ ancount.
      bind-Total u16 _ u16-Total (λ _. bind-Total u16 _ u16-Total (λ _.
        bind-Total (skip_questions qdcount) _ (skip_questions-Total qdcount)
          (λ _. bind-Total (answers ancount) _ (answers-Total ancount) (λ _ r. refl))))))))

-- Any buffer is parsed to a response or an error: no read is out of bounds, and the loop over a name,
-- which may follow pointers, ends within its limits.
pub parse_response-total :
    (buf : Bytes) → (parse_response buf ≢ panicked) × (parse_response buf ≢ no_fuel)
unfolding parse_response
parse_response-total buf =
    split (parse_response buf)
      (map_read-ends (λ p. p.0) (response (record { buf = buf; pos = 0 })) ∙ response-Total _)
  where
    split : (m : Read Response) → ends m ≡ true → (m ≢ panicked) × (m ≢ no_fuel)
    split (value a) h = (λ bad. ground (arith, bad), λ bad. ground (arith, bad))
    split (failed e) h = (λ bad. ground (arith, bad), λ bad. ground (arith, bad))
    split panicked h = absurd (ground (arith, h))
    split no_fuel h = absurd (ground (arith, h))
