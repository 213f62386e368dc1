-- ===== src/Prelude/Text.antt =====
-- Text as its bytes: `&str` and `&[u8]` of the source are lists of numbers.
use Prim.Native.Nat.{ℕ, ◌+◌, ◌-◌}
use Prim.Native.Char.{code}
use Prim.Native.String.{String}
use mathlib.Core.Path.{◌≡◌, refl}
use mathlib.Core.Bool.{Bool, true, false, ◌&&◌}
use mathlib.Core.List.{List, [], ◌∷◌, map}
use native.Mathlib.Omega.{arith}
use kernway.Prelude.Tests.{leb, ◌==◌, if◌then◌else◌}
use kernway.Prelude.Equality.{Eq, same, nat_eq, list_eq}

abbrev pub Bytes : Type 0
Bytes = List ℕ

instance abbrev pub bytes_eq : Eq Bytes
bytes_eq = list_eq ⦃e = nat_eq⦄

-- The bytes of a literal; ASCII only.
abbrev pub codes : String → Bytes
codes String.[] = []
codes (String.◌∷◌ c s) = code c ∷ codes s

-- `u8::to_ascii_lowercase`.
unfoldable pub to_lower : ℕ → ℕ
to_lower c = if leb b'A' c && leb c b'Z' then c + 32 else c

-- `str::to_ascii_lowercase`.
unfoldable pub lowercase : Bytes → Bytes
unfolding to_lower
lowercase s = map to_lower s

pub to_lower_idem : (c : ℕ) → to_lower (to_lower c) ≡ to_lower c
unfolding to_lower
to_lower_idem c = ground arith

pub lowercase_idem : (s : Bytes) → lowercase (lowercase s) ≡ lowercase s
unfolding lowercase
lowercase_idem [] = refl
lowercase_idem (c ∷ s) = cc (to_lower_idem c, lowercase_idem s)

-- `u8::to_ascii_uppercase`.
unfoldable pub to_upper : ℕ → ℕ
to_upper c = if leb b'a' c && leb c b'z' then c - 32 else c

-- `str::to_ascii_uppercase`.
unfoldable pub uppercase : Bytes → Bytes
unfolding to_upper
uppercase s = map to_upper s

to_lower-to_upper : (c : ℕ) → to_lower (to_upper c) ≡ to_lower c
unfolding to_lower to_upper
to_lower-to_upper c = ground arith

pub lowercase-uppercase : (s : Bytes) → lowercase (uppercase s) ≡ lowercase s
unfolding lowercase uppercase
lowercase-uppercase [] = refl
lowercase-uppercase (c ∷ s) = cc (to_lower-to_upper c, lowercase-uppercase s)

-- `str::eq_ignore_ascii_case`.
abbrev pub eq_ignore_case : Bytes → Bytes → Bool
eq_ignore_case a b = same (lowercase a) (lowercase b)

-- `str::split` at a byte.
abbrev pub push_head : ℕ → List Bytes → List Bytes
push_head x [] = (x ∷ []) ∷ []
push_head x (w ∷ ws) = (x ∷ w) ∷ ws

unfoldable pub split : ℕ → Bytes → List Bytes
split c [] = [] ∷ []
split c (x ∷ xs) = let rest = split c xs in if x == c then [] ∷ rest else push_head x rest

abbrev pub is_empty {ℓ} : {A : Type ℓ} → List A → Bool
is_empty [] = true
is_empty (x ∷ xs) = false
