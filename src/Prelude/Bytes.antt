-- ===== src/Prelude/Bytes.antt =====
-- Slices of byte slices, and what they do to a concatenation.
use Prim.Native.Nat.{ℕ, zero, suc}
use Prim.Native.String.{[], ◌∷◌}
use text.Mathlib.TextLemmas.{
  nil-append, cons-append, append-nil, length-nil, length-cons, length-append,
}
use snw_agent_link.Prelude.{
  String, ◌<>◌, ◌+◌, ◌-◌, ◌≤◌, ◌≡◌, refl, arith, size, ap, is_empty, same, same→eq, Bool-cases, inl,
  inr, false,
}

-- `s[:n]`
unfoldable pub prefix_of : ℕ → String → String
prefix_of zero s = []
prefix_of (suc n) [] = []
prefix_of (suc n) (c ∷ s) = c ∷ prefix_of n s

-- `s[n:]`
unfoldable pub suffix_of : ℕ → String → String
suffix_of zero s = s
suffix_of (suc n) [] = []
suffix_of (suc n) (c ∷ s) = suffix_of n s

pub size-append : (s t : String) → size (s <> t) ≡ size s + size t
unfolding size
size-append s t = length-append s t

pub prefix_of-append : (n : ℕ) (s t : String) → size s ≡ n → prefix_of n (s <> t) ≡ s
unfolding prefix_of size
prefix_of-append zero [] t h = refl
prefix_of-append zero (c ∷ s) t h = absurd (omega (arith, length-cons c s))
prefix_of-append (suc n) [] t h = absurd (omega (arith, length-nil))
prefix_of-append (suc n) (c ∷ s) t h =
    rw cons-append (rw (prefix_of-append n s t (omega (arith, length-cons c s))))

pub size-append_le : (s t : String) → size s ≤ size (s <> t)
size-append_le s t = omega (arith, size-append s t)

pub suffix_of-append : (n : ℕ) (s t : String) → size s ≡ n → suffix_of n (s <> t) ≡ t
unfolding suffix_of size
suffix_of-append zero [] t h = nil-append t
suffix_of-append zero (c ∷ s) t h = absurd (omega (arith, length-cons c s))
suffix_of-append (suc n) [] t h = absurd (omega (arith, length-nil))
suffix_of-append (suc n) (c ∷ s) t h =
    rw cons-append (suffix_of-append n s t (omega (arith, length-cons c s)))

pub prefix_of_all : (n : ℕ) (s : String) → size s ≤ n → prefix_of n s ≡ s
unfolding prefix_of size
prefix_of_all zero [] h = refl
prefix_of_all zero (c ∷ s) h = absurd (omega (arith, length-cons c s))
prefix_of_all (suc n) [] h = refl
prefix_of_all (suc n) (c ∷ s) h = rw (prefix_of_all n s (omega (arith, length-cons c s)))

pub suffix_of_all : (n : ℕ) (s : String) → size s ≤ n → suffix_of n s ≡ ""
unfolding suffix_of size
suffix_of_all zero [] h = refl
suffix_of_all zero (c ∷ s) h = absurd (omega (arith, length-cons c s))
suffix_of_all (suc n) [] h = refl
suffix_of_all (suc n) (c ∷ s) h = suffix_of_all n s (omega (arith, length-cons c s))

pub size-prefix_of : (n : ℕ) (s : String) → n ≤ size s → size (prefix_of n s) ≡ n
unfolding prefix_of size
size-prefix_of zero s h = length-nil
size-prefix_of (suc n) [] h = absurd (omega (arith, length-nil))
size-prefix_of (suc n) (c ∷ s) h = omega (
  arith,
  length-cons c s,
  length-cons c (prefix_of n s),
  size-prefix_of n s (omega (arith, length-cons c s)),
)

pub size-suffix_of : (n : ℕ) (s : String) → size (suffix_of n s) ≡ size s - n
unfolding suffix_of size
size-suffix_of zero s = omega arith
size-suffix_of (suc n) [] = omega (arith, length-nil)
size-suffix_of (suc n) (c ∷ s) = omega (arith, length-cons c s, size-suffix_of n s)

-- A string is its two parts.
pub prefix_of-suffix_of : (n : ℕ) (s : String) → prefix_of n s <> suffix_of n s ≡ s
unfolding prefix_of suffix_of
prefix_of-suffix_of zero s = nil-append s
prefix_of-suffix_of (suc n) [] = nil-append []
prefix_of-suffix_of (suc n) (c ∷ s) = rw cons-append (rw (prefix_of-suffix_of n s))

-- `n` zero bytes.
unfoldable pub zeros : ℕ → String
zeros zero = []
zeros (suc n) = "\0" <> zeros n

-- The first `n` bytes of what a read finds, or of what a hole in a file gives: zeros stand in for
-- what is missing.
unfoldable pub padded : ℕ → String → String
unfolding zeros
padded n s = prefix_of n s <> zeros (n - size s)

-- `file.WriteAt(data, offset)`
unfoldable pub write_at : String → ℕ → String → String
write_at bytes offset file = padded offset file <> bytes <> suffix_of (offset + size bytes) file

pub padded_whole : (n : ℕ) (s : String) → size s ≡ n → padded n s ≡ s
unfolding padded zeros
padded_whole n s h =
    let none_missing : n - size s ≡ 0 = omega (arith, h) in
    rw (none_missing, prefix_of_all n s (omega (arith, h))) (append-nil s)

pub padded_inside : (n : ℕ) (s : String) → n ≤ size s → padded n s ≡ prefix_of n s
unfolding padded zeros
padded_inside n s h =
    let none_missing : n - size s ≡ 0 = omega (arith, h) in
    rw none_missing (append-nil (prefix_of n s))

-- A write at the end of a file appends.
pub write_at_end : (bytes file : String) → write_at bytes (size file) file ≡ file <> bytes
unfolding write_at
write_at_end bytes file =
    rw
      (
        padded_whole (size file) file refl,
        suffix_of_all (size file + size bytes) file (omega arith),
      )
      (ap (λ t. file <> t) (append-nil bytes))

-- What has a part is not empty.
pub is_empty-append : (s t : String) → 1 ≤ size s → is_empty (s <> t) ≡ false
unfolding is_empty size
is_empty-append s t h = elim (Bool-cases (same (s <> t) "")) [
  | inl e ↦ absurd (omega (arith, h, ap size (same→eq (s <> t) "" e), size-append s t, length-nil))
  | inr e ↦ e
]
