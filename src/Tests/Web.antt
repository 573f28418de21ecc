-- ===== src/Tests/Web.antt =====
-- Web and file functions that are small enough to compute: numbers are written in unary, a quoted
-- text stands between quotes, and a signature is one fixed text.
use Prim.Native.Char.{Char}
use Prim.Native.String.{[], ◌∷◌}
use mathlib.Core.List.{List, [] as nil, ◌∷◌ as ◌::◌}
use snw_agent_link.Prelude.{
  ℕ, All, ◌∙◌, zero, suc, ◌-◌, ◌≡◌, refl, ap, ◌<>◌, String, true, false, none, some, same, is_empty,
  size, arith, Bool-cases, inl, inr, same→eq, if◌then◌else◌,
}
use text.Mathlib.TextLemmas.{length-cons, length-nil}
use snw_agent_link.Prelude.Int.{ℤ, pos, negsuc}
use snw_agent_link.Prelude.Bytes.{
  prefix_of, suffix_of, size-append, suffix_of-append, prefix_of-append, is_empty-append,
}
use snw_agent_link.Prelude.Split.{split, IsFree, IsFree-append, split-append_last, split_free}
use snw_agent_link.Time.{Time}
use snw_agent_link.Platform.{Platform}
use snw_agent_link.Http.{Web}
use snw_agent_link.Http.Signature.{join_spaces, map_text}
use snw_agent_link.Http.Params.{IsLawfulWeb}
use snw_agent_link.Attachment.Service.{Library}
use snw_agent_link.Attachment.ByteRange.{FormatsNumbers}
use snw_agent_link.Tests.Toy.{toy}

unfoldable pub ones : ℕ → String
ones zero = []
ones (suc n) = "1" ∷ ones n

abbrev pub written : ℤ → String
written (pos n) = ones (suc n)
written (negsuc n) = "-"

-- What stands between the first and the last byte.
abbrev pub inner : String → String
inner s = prefix_of (size s - 2) (suffix_of 1 s)

abbrev pub toy_web : Web
toy_web = record {
  quote = λ s. "\"" <> s <> "\"";
  unquote = λ s. some (inner s);
  format_int = written;
  parse_int = λ s. if is_empty s then none else some (pos (size s - 1));
  fields = λ s. if is_empty s then nil else split " " s;
  trim_colons = inner;
  base64 = λ s. s;
  unbase64 = λ s. some s;
  unbase64_raw_url = λ s. some s;
}

-- 64 bytes, for a signature and for a checksum.
abbrev pub sixty_four : String
sixty_four = "0123456789abcdef0123456789abcdef0123456789abcdef0123456789abcdef"

abbrev pub signing : Platform
signing = record toy { sign = λ k m. sixty_four; verify = λ k m s. same s sixty_four }

abbrev pub toy_library : Library
toy_library = record {
  sha256_hex = λ s. sixty_four;
  is_hex = λ s. true;
  to_lower = λ s. s;
  base_name = λ s. s;
}

-- A second after 1970.
abbrev pub early : Time
early = 62135596801000000000

size-ones : (n : ℕ) → size (ones n) ≡ n
unfolding size ones
size-ones zero = refl
size-ones (suc n) = omega (arith, length-cons "1" (ones n), size-ones n)

ones_no_dash : (n : ℕ) → IsFree "-" (ones n)
unfolding ones same
ones_no_dash zero = tt
ones_no_dash (suc n) = (refl, ones_no_dash n)

ones_no_comma : (n : ℕ) → IsFree "," (ones n)
unfolding ones same
ones_no_comma zero = tt
ones_no_comma (suc n) = (refl, ones_no_comma n)

ones_some : (n : ℕ) → is_empty (ones (suc n)) ≡ false
unfolding is_empty size
ones_some n = elim (Bool-cases (same (ones (suc n)) "")) [
  | inl e ↦
      absurd (omega (arith, ap size (same→eq (ones (suc n)) "" e), size-ones (suc n), length-nil))
  | inr e ↦ e
]

reads_back : (n : ℕ) → toy_web.parse_int (ones (suc n)) ≡ some (pos n)
reads_back n =
    let whole : size (ones (suc n)) - 1 ≡ n = omega (arith, size-ones (suc n)) in
    rw (ones_some n, whole) refl

pub toy_web-FormatsNumbers : FormatsNumbers toy_web
toy_web-FormatsNumbers = record {
  parse_int-format_int = λ n h. reads_back n;
  is_some = ones_some;
  no_dash = λ n. ones_no_dash (suc n);
  no_comma = λ n. ones_no_comma (suc n);
}

inner_quoted : (s : String) → inner ("\"" <> s <> "\"") ≡ s
unfolding size
inner_quoted s =
    let raw = "\"" <> (s <> "\"") in
    let two : size raw - 2 ≡ size s =
      omega (arith, size-append "\"" (s <> "\""), size-append s "\"") in
    ap (λ n. prefix_of n (suffix_of 1 raw)) two
    ∙ ap (prefix_of (size s)) (suffix_of-append 1 "\"" (s <> "\"") refl)
    ∙ prefix_of-append (size s) s "\"" refl

ones_no_semicolon : (n : ℕ) → IsFree ";" (ones n)
unfolding ones same
ones_no_semicolon zero = tt
ones_no_semicolon (suc n) = (refl, ones_no_semicolon n)

quoted-IsFree :
    (sep : Char) (s : String) → IsFree sep "\"" → IsFree sep s → IsFree sep ("\"" <> s <> "\"")
quoted-IsFree sep s q h = IsFree-append sep "\"" (s <> "\"") q (IsFree-append sep s "\"" h q)

quoted_some : (s : String) → is_empty ("\"" <> s <> "\"") ≡ false
unfolding size
quoted_some s = is_empty-append "\"" (s <> "\"") (omega arith)

quoted_more : (s t : String) → is_empty (("\"" <> s <> "\"") <> t) ≡ false
unfolding size
quoted_more s t =
    is_empty-append ("\"" <> s <> "\"") t (omega (arith, size-append "\"" (s <> "\"")))

quoted_no_space : (s : String) → IsFree " " s → IsFree " " ("\"" <> s <> "\"")
unfolding same
quoted_no_space s h = quoted-IsFree " " s (refl, tt) h

split_joined :
    (s : String) (ss : List String)
    → All (IsFree " ") (s :: ss)
    → split " " (join_spaces (map_text toy_web.quote (s :: ss))) ≡ map_text toy_web.quote (s :: ss)
unfolding join_spaces
split_joined s nil h = split_free " " (toy_web.quote s) (quoted_no_space s h.0)
split_joined s (t :: ss) h =
    split-append_last " " (toy_web.quote s) (join_spaces (map_text toy_web.quote (t :: ss)))
      (quoted_no_space s h.0)
    ∙ ap (λ ts. toy_web.quote s :: ts) (split_joined t ss h.1)

joined_some :
    (s : String) (ss : List String)
    → is_empty (join_spaces (map_text toy_web.quote (s :: ss))) ≡ false
unfolding join_spaces
joined_some s nil = quoted_some s
joined_some s (t :: ss) = quoted_more s (" " <> join_spaces (map_text toy_web.quote (t :: ss)))

fields_joined :
    (ss : List String)
    → All (IsFree " ") ss
    → toy_web.fields (join_spaces (map_text toy_web.quote ss)) ≡ map_text toy_web.quote ss
unfolding join_spaces is_empty same
fields_joined nil h = refl
fields_joined (s :: ss) h = ground (arith, joined_some s ss, split_joined s ss h)

quoted_no_closing : (s : String) → IsFree ")" s → IsFree ")" ("\"" <> s <> "\"")
unfolding same
quoted_no_closing s h = quoted-IsFree ")" s (refl, tt) h

quoted_no_semicolon : (s : String) → IsFree ";" s → IsFree ";" ("\"" <> s <> "\"")
unfolding same
quoted_no_semicolon s h = quoted-IsFree ";" s (refl, tt) h

pub toy_web-IsLawfulWeb : IsLawfulWeb signing toy_web
toy_web-IsLawfulWeb = record {
  unquote-quote = λ s. ap some (inner_quoted s);
  quote_no_closing = quoted_no_closing;
  quote_no_semicolon = quoted_no_semicolon;
  parse_int-format_int = λ n h. reads_back n;
  number_no_semicolon = λ n. ones_no_semicolon (suc n);
  fields_quoted = fields_joined;
  trim_empty = refl;
  trim_number = λ n. refl;
  trim_key = λ s. refl;
  trim_nonce = λ s. refl;
  unbase64-base64 = λ s. refl;
}
