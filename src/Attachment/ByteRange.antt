-- ===== src/Attachment/ByteRange.antt =====
-- internal/attachment/http_signature.go, `ParseRange` and `ContentRange`: the ranges of bytes that a
-- request for a blob names.
use snw_agent_link.Prelude.{
  ℕ, ◌+◌, ◌-◌, ◌≤◌, ◌<◌, ◌≡◌, ◌<>◌, ◌||◌, not, Bool, true, false, Option, none, some, String,
  is_empty, ltb, leb, ◌==◌, same, if◌then◌else◌, arith, refl, Option-cases, Bool-cases, inl, inr,
}
use snw_agent_link.Prelude.Int.{ℤ, pos, negsuc, pos_part, int64_limit}
use snw_agent_link.Prelude.Split.{
  has_prefix, after_prefix, cut, IsFree, has_prefix-append, after_prefix-append, cut-append_last,
  cut_free, IsFree-append,
}
use snw_agent_link.Errors.{Result, ok, err, bad_range}
use snw_agent_link.Http.{Web}

abbrev occurs : Option (String × String) → Bool
occurs none = false
occurs (some parts) = true

module _ (w : Web) where
  unfoldable pub content_range : ℕ → ℕ → ℕ → String
  content_range a b n =
      "bytes " <> w.format_int (pos a) <> "-" <> w.format_int (pos b) <> "/" <> w.format_int (pos n)

  -- The range that a request asks for.
  unfoldable pub range_header : ℕ → ℕ → String
  range_header a b = "bytes=" <> w.format_int (pos a) <> "-" <> w.format_int (pos b)

  -- The last byte: that of the blob where none is named.
  abbrev last_byte : ℕ → String → Option ℤ
  last_byte n s = if is_empty s then some (pos (n - 1)) else w.parse_int s

  check_end : ℕ → ℕ → ℕ → Option ℤ → Result (ℕ × ℕ)
  check_end n max a none = err bad_range
  check_end n max a (some (negsuc b)) = err bad_range
  check_end n max a (some (pos b)) =
      if ltb b a || (leb n b || ltb max (b - a + 1)) then err bad_range else ok (a, b)

  check_start : ℕ → ℕ → Option ℤ → String → Result (ℕ × ℕ)
  unfolding check_end
  check_start n max none s = err bad_range
  check_start n max (some (negsuc a)) s = err bad_range
  check_start n max (some (pos a)) s =
      if leb n a then err bad_range else check_end n max a (last_byte n s)

  unfoldable pub parse_range : String → ℤ → ℕ → Result (ℕ × ℕ)
  unfolding check_start
  parse_range value size max =
      if pos_part size == 0
        || (max == 0 || (not (has_prefix "bytes=" value) || occurs (cut "," value)))
      then err bad_range
      else elim (cut "-" (after_prefix "bytes=" value)) [
        | none ↦ err bad_range
        | some (first, last) ↦
            if is_empty first
            then err bad_range
            else check_start (pos_part size) max (w.parse_int first) last
      ]

  check_end_within :
      (n max a : ℕ) (o : Option ℤ) (i j : ℕ)
      → check_end n max a o ≡ ok (i, j)
      → (i ≤ j) × (j < n) × (j - i + 1 ≤ max)
  unfolding check_end
  check_end_within n max a none i j h = absurd (ground (arith, h))
  check_end_within n max a (some (negsuc b)) i j h = absurd (ground (arith, h))
  check_end_within n max a (some (pos b)) i j h =
      (ground (arith, h), ground (arith, h), ground (arith, h))

  check_start_within :
      (n max : ℕ) (o : Option ℤ) (s : String) (i j : ℕ)
      → check_start n max o s ≡ ok (i, j)
      → (i ≤ j) × (j < n) × (j - i + 1 ≤ max)
  unfolding check_start
  check_start_within n max none s i j h = absurd (ground (arith, h))
  check_start_within n max (some (negsuc a)) s i j h = absurd (ground (arith, h))
  check_start_within n max (some (pos a)) s i j h = elim (Bool-cases (leb n a)) [
    | inl b ↦ absurd (ground (arith, h, b))
    | inr b ↦ check_end_within n max a (last_byte n s) i j (ground (arith, h, b))
  ]

  -- A range that is parsed from any header starts no later than it ends, ends within the blob, and is
  -- no longer than allowed.
  pub parse_range_within :
      (value : String) (size : ℤ) (max i j : ℕ)
      → parse_range value size max ≡ ok (i, j)
      → (i ≤ j) × (j < pos_part size) × (j - i + 1 ≤ max)
  unfolding parse_range
  parse_range_within value size max i j h =
      elim (Option-cases (cut "-" (after_prefix "bytes=" value))) [
        | inl e ↦ absurd (ground (arith, h, e))
        | inr (parts, e) ↦
            check_start_within (pos_part size) max (w.parse_int parts.0) parts.1 i j
              (ground (arith, h, e))
      ]

  -- strconv.ParseInt undoes FormatInt on every int64 that is not negative, and such a number is
  -- written with digits only.
  pub record FormatsNumbers : Type 0 where
    pub parse_int-format_int :
        (n : ℕ) → n < int64_limit → w.parse_int (w.format_int (pos n)) ≡ some (pos n)
    pub is_some : (n : ℕ) → is_empty (w.format_int (pos n)) ≡ false
    pub no_dash : (n : ℕ) → IsFree "-" (w.format_int (pos n))
    pub no_comma : (n : ℕ) → IsFree "," (w.format_int (pos n))

  range_header-IsFree : FormatsNumbers → (a b : ℕ) → IsFree "," (range_header a b)
  unfolding range_header same
  range_header-IsFree f a b =
      IsFree-append "," "bytes=" (w.format_int (pos a) <> "-" <> w.format_int (pos b))
        (refl, (refl, (refl, (refl, (refl, (refl, tt))))))
        (IsFree-append "," (w.format_int (pos a)) ("-" <> w.format_int (pos b)) (f.no_comma a)
          (IsFree-append "," "-" (w.format_int (pos b)) (refl, tt) (f.no_comma b)))

  -- Where numbers are formatted as strconv does and the size of the blob is an int64, the header of a
  -- range that starts no later than it ends, ends within the blob, and is no longer than allowed is
  -- parsed to that range.
  pub parse_range-range_header :
      FormatsNumbers
      → (n max a b : ℕ) → n < int64_limit
      → a ≤ b
      → b < n
      → b - a + 1 ≤ max
      → parse_range (range_header a b) (pos n) max ≡ ok (a, b)
  unfolding parse_range range_header
  parse_range-range_header f n max a b fits h i j =
      let first = w.format_int (pos a) in
      let last = w.format_int (pos b) in
      ground (
        arith,
        has_prefix-append "bytes=" (first <> "-" <> last),
        after_prefix-append "bytes=" (first <> "-" <> last),
        cut_free "," (range_header a b) (range_header-IsFree f a b),
        cut-append_last "-" first last (f.no_dash a),
        f.is_some a,
        f.is_some b,
        f.parse_int-format_int a (omega (arith, fits, h, i)),
        f.parse_int-format_int b (omega (arith, fits, i)),
        h,
        i,
        j,
      )
