-- ===== src/Prelude/Split.antt =====
-- Go's package strings, on the byte slices: prefixes, and splits at a separator of one byte.
use Prim.Native.String.{[], ◌∷◌, String}
use Prim.Native.Char.{Char}
use mathlib.Core.Path.{◌≡◌, refl}
use mathlib.Core.Bool.{Bool, true, false}
use mathlib.Core.Option.{Option, none, some}
use mathlib.Core.List.{List, [] as nil, ◌∷◌ as ◌::◌}
use text.Mathlib.TextLemmas.{nil-append, cons-append}
use snw_agent_link.Prelude.{
  All, ◌&&◌, Bool-cases, inl, inr, arith, same, same_refl, size, if◌then◌else◌, ◌<>◌,
}
use snw_agent_link.Prelude.Bytes.{prefix_of, suffix_of, prefix_of-append, suffix_of-append}

-- `strings.HasPrefix(s, p)`
unfoldable pub has_prefix : String → String → Bool
has_prefix p s = same (prefix_of (size p) s) p

-- `strings.TrimPrefix(s, p)`, where s has the prefix.
unfoldable pub after_prefix : String → String → String
after_prefix p s = suffix_of (size p) s

pub has_prefix-append : (p s : String) → has_prefix p (p <> s) ≡ true
unfolding has_prefix
has_prefix-append p s = rw (prefix_of-append (size p) p s refl) (same_refl p)

pub after_prefix-append : (p s : String) → after_prefix p (p <> s) ≡ s
unfolding after_prefix
after_prefix-append p s = suffix_of-append (size p) p s refl

abbrev is_char : Char → Char → Bool
is_char a b = same (a ∷ []) (b ∷ [])

abbrev with_first : Char → Option (String × String) → Option (String × String)
with_first c none = none
with_first c (some (a, b)) = some (c ∷ a, b)

-- The parts before and after the first separator: `strings.Index(s, sep)` with the two slices, and
-- `strings.SplitN(s, sep, 2)` where it has two parts.
unfoldable pub cut : Char → String → Option (String × String)
cut sep [] = none
cut sep (c ∷ s) = let rest = cut sep s in if is_char c sep then some ("", s) else with_first c rest

abbrev onto_first : Char → List String → List String
onto_first c nil = (c ∷ []) :: nil
onto_first c (s :: ss) = (c ∷ s) :: ss

-- `strings.Split(s, sep)`
unfoldable pub split : Char → String → List String
split sep [] = "" :: nil
split sep (c ∷ s) =
    let rest = split sep s in if is_char c sep then "" :: rest else onto_first c rest

-- The separator does not occur.
abbrev pub IsFree : Char → String → Type 0
IsFree sep [] = Unit
IsFree sep (c ∷ s) = (is_char c sep ≡ false) × IsFree sep s

-- A cut at a separator that the first part does not have.
pub cut-append : (sep : Char) (s t : String) → IsFree sep s → cut sep (s <> (sep ∷ t)) ≡ some (s, t)
unfolding cut
cut-append sep [] t h = rw nil-append (rw (same_refl (sep ∷ [])) refl)
cut-append sep (c ∷ s) t h = rw cons-append (rw (h.0, cut-append sep s t h.1) refl)

pub split_free : (sep : Char) (s : String) → IsFree sep s → split sep s ≡ s :: nil
unfolding split
split_free sep [] h = refl
split_free sep (c ∷ s) h = rw (h.0, split_free sep s h.1) refl

pub split-append :
    (sep : Char) (s t : String) → IsFree sep s → split sep (s <> (sep ∷ t)) ≡ s :: split sep t
unfolding split
split-append sep [] t h = rw nil-append (rw (same_refl (sep ∷ [])) refl)
split-append sep (c ∷ s) t h = rw cons-append (rw (h.0, split-append sep s t h.1) refl)

pub cut_free : (sep : Char) (s : String) → IsFree sep s → cut sep s ≡ none
unfolding cut
cut_free sep [] h = refl
cut_free sep (c ∷ s) h = rw (h.0, cut_free sep s h.1) refl

pub IsFree-append : (sep : Char) (s t : String) → IsFree sep s → IsFree sep t → IsFree sep (s <> t)
IsFree-append sep [] t h i = rw nil-append i
IsFree-append sep (c ∷ s) t h i = rw cons-append (h.0, IsFree-append sep s t h.1 i)

-- The separator that ends a literal.
pub cut-append_last :
    (sep : Char) (s t : String) → IsFree sep s → cut sep (s <> ((sep ∷ []) <> t)) ≡ some (s, t)
cut-append_last sep s t h = rw (cons-append sep [] t, nil-append t) (cut-append sep s t h)

pub split-append_last :
    (sep : Char) (s t : String)
    → IsFree sep s
    → split sep (s <> ((sep ∷ []) <> t)) ≡ s :: split sep t
split-append_last sep s t h = rw (cons-append sep [] t, nil-append t) (split-append sep s t h)

-- The test of `IsFree`.
unfoldable pub is_free : Char → String → Bool
is_free sep [] = true
is_free sep (c ∷ s) = let rest = is_free sep s in if is_char c sep then false else rest

pub is_free→IsFree : (sep : Char) (s : String) → is_free sep s ≡ true → IsFree sep s
unfolding is_free
is_free→IsFree sep [] h = tt
is_free→IsFree sep (c ∷ s) h = elim (Bool-cases (is_char c sep)) [
  | inl e ↦ absurd (ground (arith, h, e))
  | inr e ↦ (e, is_free→IsFree sep s (ground (arith, h, e)))
]

unfoldable pub all_free : Char → List String → Bool
all_free sep nil = true
all_free sep (s :: ss) = is_free sep s && all_free sep ss

pub All-IsFree : (sep : Char) (ss : List String) → all_free sep ss ≡ true → All (IsFree sep) ss
unfolding all_free
All-IsFree sep nil h = tt
All-IsFree sep (s :: ss) h =
    (is_free→IsFree sep s (ground (arith, h)), All-IsFree sep ss (ground (arith, h)))
