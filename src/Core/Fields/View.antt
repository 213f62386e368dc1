-- ===== src/Core/Fields/View.antt =====
-- crates/kernway-core/src/fields.rs: what the pairs of `Fields` are after each operation, whatever
-- the buffer holds.
use kernway.Prelude.{
  ℕ, ◌+◌, ◌-◌, ◌^◌, ◌≤◌, ◌<◌, ◌≡◌, refl, ap, ◌∙◌, Bool, true, false, not, none, some, List, [], ◌∷◌,
  ◌++◌, map, arith, ltb, if◌then◌else◌, Bool-cases, inl, inr, length, take, drop, keep, All,
  All-append, append_assoc, length-append, length-drop, drop-append, drop-append_le, take-append_le,
  take-length, lt→ltb, suc, lowercase, Bytes,
}
use mathlib.Core.List.{map-append}
use kernway.Core.Fields.{
  Entry, Fields, range, normalized, matches, name_matches, byte_len, push, insert, append, iter,
}

-- The ranges of the entry lie in the buffer.
pub record InBuf (n : ℕ) (e : Entry) : Type 0 where
  pub named : e.name_start ≤ e.name_end
  pub name_in : e.name_end ≤ n
  pub valued : e.value_start ≤ e.value_end
  pub value_in : e.value_end ≤ n

abbrev pub IsValid : Fields → Type 0
IsValid f = All (InBuf (length f.buf)) f.entries

-- A range of a buffer is the same after more was written behind.
range-append :
    (buf more : Bytes) (start end : ℕ)
    → start ≤ end
    → end ≤ length buf
    → range (buf ++ more) start end ≡ range buf start end
unfolding range
range-append buf more start end h k =
    rw (drop-append_le start buf more (omega arith))
      (take-append_le (end - start) (drop start buf) more (omega (arith, length-drop start buf)))

-- What was written last.
range-last :
    (buf more : Bytes) (end : ℕ)
    → end ≡ length buf + length more
    → range (buf ++ more) (length buf) end ≡ more
unfolding range
range-last buf more end h =
    rw (drop-append buf more) (ap (λ n. take n more) (omega arith) ∙ take-length more)

-- The fields with one more pair.
abbrev pushed : Bool → Fields → Bytes → Bytes → Fields
pushed ci f name value =
    let named = f.buf ++ normalized ci name in
    record {
      buf = named ++ value;
      entries =
          f.entries
          ++ record {
            name_start = length f.buf;
            name_end = length named;
            value_start = length named;
            value_end = length (named ++ value);
          }
            ∷ [];
    }

-- A push succeeds exactly if the text stays below what an offset holds.
pub push-eq :
    (ci : Bool) (f : Fields) (name value : Bytes)
    → push ci f name value ≡ (
        if ltb (length ((f.buf ++ normalized ci name) ++ value)) (2 ^ 32)
        then some (pushed ci f name value)
        else none)
unfolding push
push-eq ci f name value = ground (
  arith,
  length-append f.buf (normalized ci name),
  length-append (f.buf ++ normalized ci name) value,
)

InBuf-append :
    (buf more : Bytes) (es : List Entry)
    → All (InBuf (length buf)) es
    → All (InBuf (length (buf ++ more))) es
InBuf-append buf more [] h = tt
InBuf-append buf more (e ∷ es) (h, hs) =
    (omega (arith, length-append buf more), InBuf-append buf more es hs)

abbrev pairs : Bytes → List Entry → List (Bytes × Bytes)
pairs buf es =
    map (λ e. (range buf e.name_start e.name_end, range buf e.value_start e.value_end)) es

pairs-append :
    (buf more : Bytes) (es : List Entry)
    → All (InBuf (length buf)) es
    → pairs (buf ++ more) es ≡ pairs buf es
pairs-append buf more [] h = refl
pairs-append buf more (e ∷ es) (h, hs) = cc (
  range-append buf more e.name_start e.name_end h.named h.name_in,
  range-append buf more e.value_start e.value_end h.valued h.value_in,
  pairs-append buf more es hs,
)

iter-pushed :
    (ci : Bool) (f : Fields) (name value : Bytes)
    → IsValid f
    → iter (pushed ci f name value) ≡ iter f ++ (normalized ci name, value) ∷ []
unfolding iter
iter-pushed ci f name value valid =
    let nm = normalized ci name in
    let named = f.buf ++ nm in
    let name_here : range (named ++ value) (length f.buf) (length named) ≡ nm =
      range-append named value (length f.buf) (length named) (omega (arith, length-append f.buf nm))
        (omega arith)
      ∙ range-last f.buf nm (length named) (length-append f.buf nm) in
    let value_here : range (named ++ value) (length named) (length (named ++ value)) ≡ value =
      range-last named value (length (named ++ value)) (length-append named value) in
    let old : pairs (named ++ value) f.entries ≡ pairs f.buf f.entries =
      ap (λ (b : Bytes). pairs b f.entries) (append_assoc f.buf nm value)
      ∙ pairs-append f.buf (nm ++ value) f.entries valid in
    rw (map-append, old, name_here, value_here) refl

pushed-IsValid :
    (ci : Bool) (f : Fields) (name value : Bytes) → IsValid f → IsValid (pushed ci f name value)
pushed-IsValid ci f name value valid =
    let nm = normalized ci name in
    let named = f.buf ++ nm in
    All-append (InBuf (length (named ++ value))) f.entries _
      (InBuf-append named value f.entries (InBuf-append f.buf nm f.entries valid))
      (omega (arith, length-append named value, length-append f.buf nm), tt)

-- Appending adds one pair at the end, its name in the stored case, and keeps every range within
-- the buffer.
pub iter-append :
    (ci : Bool) (f g : Fields) (name value : Bytes)
    → IsValid f
    → append ci f name value ≡ some g
    → (iter g ≡ iter f ++ (normalized ci name, value) ∷ []) × IsValid g
unfolding append
iter-append ci f g name value valid h =
    let done : pushed ci f name value ≡ g = ground (arith, push-eq ci f name value) in
    rw (← done) (iter-pushed ci f name value valid, pushed-IsValid ci f name value valid)

abbrev others : Bool → Fields → Bytes → Fields
others ci f name = record f { entries = keep (λ e. not (name_matches ci f.buf e name)) f.entries }

keep-IsValid :
    (n : ℕ) (p : Entry → Bool) (es : List Entry) → All (InBuf n) es → All (InBuf n) (keep p es)
keep-IsValid n p [] h = tt
keep-IsValid n p (e ∷ es) (h, hs) = elim (Bool-cases (p e)) [
  | inl t ↦ rw t (h, keep-IsValid n p es hs)
  | inr t ↦ rw t (keep-IsValid n p es hs)
]

pairs-keep :
    (ci : Bool) (buf name : Bytes) (es : List Entry)
    → pairs buf (keep (λ e. not (name_matches ci buf e name)) es)
      ≡ keep (λ p. not (matches ci p.0 name)) (pairs buf es)
unfolding name_matches
pairs-keep ci buf name [] = refl
pairs-keep ci buf name (e ∷ es) = ground (arith, pairs-keep ci buf name es)

-- Inserting drops every pair of that name and adds the new one at the end.
pub iter-insert :
    (ci : Bool) (f g : Fields) (name value : Bytes)
    → IsValid f
    → insert ci f name value ≡ some g
    → (iter g ≡ keep (λ p. not (matches ci p.0 name)) (iter f) ++ (normalized ci name, value) ∷ [])
      × IsValid g
unfolding insert iter
iter-insert ci f g name value valid h =
    let kept =
      keep-IsValid (length f.buf) (λ e. not (name_matches ci f.buf e name)) f.entries valid in
    let done : pushed ci (others ci f name) name value ≡ g =
      ground (arith, push-eq ci (others ci f name) name value) in
    rw (← done) (
      iter-pushed ci (others ci f name) name value kept
          ∙ ap (λ (ps : List (Bytes × Bytes)). ps ++ (normalized ci name, value) ∷ [])
              (pairs-keep ci f.buf name f.entries),
      pushed-IsValid ci (others ci f name) name value kept,
    )

length-lowercase : (s : Bytes) → length (lowercase s) ≡ length s
unfolding lowercase
length-lowercase [] = refl
length-lowercase (c ∷ s) = ap suc (length-lowercase s)

length-normalized : (ci : Bool) (s : Bytes) → length (normalized ci s) ≡ length s
unfolding normalized
length-normalized true s = length-lowercase s
length-normalized false s = refl

-- While the text stays short, an append has a result, and the buffer grows by what was appended.
pub append_grows :
    (ci : Bool) (f : Fields) (name value : Bytes)
    → byte_len f + length name + length value < 2 ^ 32
    → (g : Fields) × (append ci f name value ≡ some g)
      × (byte_len g ≡ byte_len f + length name + length value)
unfolding append byte_len
append_grows ci f name value h =
    let grown : length ((f.buf ++ normalized ci name) ++ value)
        ≡ length f.buf + length name + length value =
      omega (
        arith,
        length-append (f.buf ++ normalized ci name) value,
        length-append f.buf (normalized ci name),
        length-normalized ci name,
      ) in
    (pushed ci f name value, rw (push-eq ci f name value, grown, lt→ltb _ _ h) refl, grown)
