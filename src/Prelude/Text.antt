-- ===== src/Prelude/Text.antt =====
-- Go's strings and byte slices: both are sequences of bytes, and both are the native text here,
-- with one character for each byte. So `[]byte(s)` and `string(b)` are the identity, and `len`
-- is the count of characters.
use Prim.Native.Nat.{ℕ}
use Prim.Native.String.{String, count, compare}
use mathlib.Core.Path.{◌≡◌, refl}
use mathlib.Core.Bool.{Bool, true}
use text.Mathlib.Text.{◌==◌, is_lt}
use text.Mathlib.TextEquality.{eq_iff}
pub use Prim.Native.String.{String, ◌++◌ as ◌<>◌}

-- `a == b` on strings, and `bytes.Equal(a, b)`.
unfoldable pub same : String → String → Bool
same a b = a == b

pub same→eq : (a b : String) → same a b ≡ true → a ≡ b
unfolding same
same→eq a b = (eq_iff a b).0

pub eq→same : (a b : String) → a ≡ b → same a b ≡ true
unfolding same
eq→same a b = (eq_iff a b).1

pub same_refl : (a : String) → same a a ≡ true
same_refl a = eq→same a a refl

-- `s == ""` and `len(s) == 0`.
unfoldable pub is_empty : String → Bool
unfolding same
is_empty s = same s ""

-- `a < b` in the order of the bytes.
unfoldable pub text_lt : String → String → Bool
text_lt a b = is_lt (compare a b)

-- `len(s)`.
unfoldable pub size : String → ℕ
size s = count s
