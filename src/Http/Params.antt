-- ===== src/Http/Params.antt =====
-- The parameters of a signature, written and read back.
use snw_agent_link.Prelude.{
  ◌+◌, ◌-◌, ◌≤◌, ◌<◌, ◌≡◌, ◌<>◌, refl, sym, ap, ◌∙◌, true, false, some, List, [], ◌∷◌, String, same,
  same_refl, is_empty, size, All, arith, ℕ,
}
use text.Mathlib.TextLemmas.{append_assoc, nil-append}
use snw_agent_link.Prelude.Int.{pos, int64_limit}
use snw_agent_link.Prelude.Bytes.{
  prefix_of, suffix_of, prefix_of-append, suffix_of-append, size-append,
}
use snw_agent_link.Prelude.Split.{
  has_prefix, cut, split, IsFree, IsFree-append, has_prefix-append, cut-append_last, split_free,
  split-append_last,
}
use snw_agent_link.Errors.{ok}
use snw_agent_link.Platform.{Platform}
use snw_agent_link.Http.{Web}
use snw_agent_link.Http.Signature.{
  Metadata, join_spaces, map_text, unquote_all, signature_params, read_parameter, read_parameters,
  read_params_from, parse_signature_params, parse_signature_value,
}

-- A text that stands in a parameter as it is.
pub record IsPlain (s : String) : Type 0 where
  pub is_some : is_empty s ≡ false
  pub no_closing : IsFree ")" s
  pub no_semicolon : IsFree ";" s

-- What strconv, strings.Fields, strings.TrimSpace and encoding/base64 do: quoting, formatting and
-- base64 are undone, for a number where it is an int64, quoting brings in no parenthesis and no semicolon, fields are what stands between
-- spaces, and trimming leaves what begins and ends with another byte.
pub record IsLawfulWeb (p : Platform) (w : Web) : Type 0 where
  pub unquote-quote : (s : String) → w.unquote (w.quote s) ≡ some s
  pub quote_no_closing : (s : String) → IsFree ")" s → IsFree ")" (w.quote s)
  pub quote_no_semicolon : (s : String) → IsFree ";" s → IsFree ";" (w.quote s)
  pub parse_int-format_int :
      (n : ℕ) → n < int64_limit → w.parse_int (w.format_int (pos n)) ≡ some (pos n)
  pub number_no_semicolon : (n : ℕ) → IsFree ";" (w.format_int (pos n))
  pub fields_quoted :
      (ss : List String)
      → All (IsFree " ") ss
      → w.fields (p.trim_space (join_spaces (map_text w.quote ss))) ≡ map_text w.quote ss
  pub trim_empty : p.trim_space "" ≡ ""
  pub trim_number :
      (n : ℕ)
      → p.trim_space ("created=" <> w.format_int (pos n)) ≡ "created=" <> w.format_int (pos n)
  pub trim_key : (s : String) → p.trim_space ("keyid=" <> w.quote s) ≡ "keyid=" <> w.quote s
  pub trim_nonce : (s : String) → p.trim_space ("nonce=" <> w.quote s) ≡ "nonce=" <> w.quote s
  pub unbase64-base64 : (s : String) → w.unbase64 (w.base64 s) ≡ some s

module _ (p : Platform) (w : Web) (law : IsLawfulWeb p w) where
  unquote_all-map_text : (ss : List String) → unquote_all w (map_text w.quote ss) ≡ some ss
  unfolding unquote_all
  unquote_all-map_text [] = refl
  unquote_all-map_text (s ∷ ss) = rw (law.unquote-quote s, unquote_all-map_text ss) refl

  joined_no_closing :
      (ss : List String) → All (IsFree ")") ss → IsFree ")" (join_spaces (map_text w.quote ss))
  unfolding join_spaces same
  joined_no_closing [] h = tt
  joined_no_closing (s ∷ []) h = law.quote_no_closing s h.0
  joined_no_closing (s ∷ t ∷ ss) h =
      IsFree-append ")" (w.quote s) (" " <> join_spaces (map_text w.quote (t ∷ ss)))
        (law.quote_no_closing s h.0)
        (IsFree-append ")" " " (join_spaces (map_text w.quote (t ∷ ss))) (refl, tt)
          (joined_no_closing (t ∷ ss) h.1))

  -- A value between two colons.
  pub parse_signature_value-base64 :
      (s : String) → size s ≡ 64 → parse_signature_value p w (":" <> (w.base64 s <> ":")) ≡ some s
  unfolding parse_signature_value size
  parse_signature_value-base64 s h =
      let b = w.base64 s in
      let raw = ":" <> (b <> ":") in
      let length : size raw ≡ size b + 2 =
        omega (arith, size-append ":" (b <> ":"), size-append b ":") in
      let two : size raw - 2 ≡ size b = omega (arith, length) in
      let one : size raw - 1 ≡ size (":" <> b) = omega (arith, length, size-append ":" b) in
      let whole : raw ≡ (":" <> b) <> ":" = sym (append_assoc ":" b ":") in
      let last : suffix_of (size raw - 1) raw ≡ ":" =
        ap (λ n. suffix_of n raw) one
        ∙ ap (suffix_of (size (":" <> b))) whole
        ∙ suffix_of-append (size (":" <> b)) (":" <> b) ":" refl in
      let inside : prefix_of (size raw - 2) (suffix_of 1 raw) ≡ b =
        ap (λ n. prefix_of n (suffix_of 1 raw)) two
        ∙ ap (prefix_of (size b)) (suffix_of-append 1 ":" (b <> ":") refl)
        ∙ prefix_of-append (size b) b ":" refl in
      ground (
        arith,
        length,
        has_prefix-append ":" (b <> ":"),
        last,
        same_refl ":",
        inside,
        law.unbase64-base64 s,
        h,
      )

  piece :
      (name value rest : String)
      → (";" <> name) <> (value <> rest) ≡ ";" <> ((name <> value) <> rest)
  piece name value rest =
      append_assoc ";" name (value <> rest)
      ∙ ap (λ s. ";" <> s) (sym (append_assoc name value rest))

  module _ (n : ℕ) (key nonce : String) (cs : List String) where
    abbrev meta : Metadata
    meta = record { components = cs; created = pos n; key_id = key; nonce = nonce }

    abbrev number : String
    number = w.format_int (pos n)

    -- The parameters after the components.
    abbrev tail : String
    tail = ";created=" <> number <> ";keyid=" <> w.quote key <> ";nonce=" <> w.quote nonce

    number-IsFree : IsFree ";" ("created=" <> number)
    unfolding same
    number-IsFree =
        IsFree-append ";" "created=" number
          (refl, (refl, (refl, (refl, (refl, (refl, (refl, (refl, tt))))))))
          (law.number_no_semicolon n)

    key-IsFree : IsFree ";" key → IsFree ";" ("keyid=" <> w.quote key)
    unfolding same
    key-IsFree h =
        IsFree-append ";" "keyid=" (w.quote key) (refl, (refl, (refl, (refl, (refl, (refl, tt))))))
          (law.quote_no_semicolon key h)

    nonce-IsFree : IsFree ";" nonce → IsFree ";" ("nonce=" <> w.quote nonce)
    unfolding same
    nonce-IsFree h =
        IsFree-append ";" "nonce=" (w.quote nonce)
          (refl, (refl, (refl, (refl, (refl, (refl, tt)))))) (law.quote_no_semicolon nonce h)

    split-tail :
        IsFree ";" key
        → IsFree ";" nonce
        → split ";" tail
          ≡ ""
            ∷ ("created=" <> number)
            ∷ ("keyid=" <> w.quote key)
            ∷ ("nonce=" <> w.quote nonce)
            ∷ []
    split-tail hk hn =
        let a = "created=" <> number in
        let b = "keyid=" <> w.quote key in
        let c = "nonce=" <> w.quote nonce in
        let last = append_assoc ";" "nonce=" (w.quote nonce) in
        let middle = piece "keyid=" (w.quote key) (";nonce=" <> w.quote nonce) in
        let first =
          piece "created=" number (";keyid=" <> w.quote key <> ";nonce=" <> w.quote nonce) in
        let whole : tail ≡ "" <> (";" <> (a <> (";" <> (b <> (";" <> c))))) =
          first
          ∙ ap (λ s. ";" <> (a <> s)) (middle ∙ ap (λ s. ";" <> (b <> s)) last)
          ∙ sym (nil-append (";" <> (a <> (";" <> (b <> (";" <> c)))))) in
        ap (split ";") whole
        ∙ split-append_last ";" "" (a <> (";" <> (b <> (";" <> c)))) tt
        ∙ ap (λ ss. "" ∷ ss)
            (split-append_last ";" a (b <> (";" <> c)) number-IsFree
              ∙ ap (λ ss. a ∷ ss)
                  (split-append_last ";" b c (key-IsFree hk)
                    ∙ ap (λ ss. b ∷ ss) (split_free ";" c (nonce-IsFree hn))))

    read_empty : (m : Metadata) → read_parameter p w m "" ≡ some m
    unfolding read_parameter cut
    read_empty m = rw (read_parameter, law.trim_empty) refl

    read_created :
        (m : Metadata)
        → n < int64_limit
        → read_parameter p w m ("created=" <> number) ≡ some (record m { created = pos n })
    unfolding read_parameter same
    read_created m fits =
        let cuts =
          ap (cut "=") (append_assoc "created" "=" number)
          ∙ cut-append_last "=" "created" number
              (refl, (refl, (refl, (refl, (refl, (refl, (refl, tt))))))) in
        rw (read_parameter, law.trim_number n, cuts, law.parse_int-format_int n fits) refl

    read_key :
        (m : Metadata)
        → read_parameter p w m ("keyid=" <> w.quote key) ≡ some (record m { key_id = key })
    unfolding read_parameter same
    read_key m =
        let cuts =
          ap (cut "=") (append_assoc "keyid" "=" (w.quote key))
          ∙ cut-append_last "=" "keyid" (w.quote key) (refl, (refl, (refl, (refl, (refl, tt))))) in
        rw (read_parameter, law.trim_key key, cuts, law.unquote-quote key) refl

    read_nonce :
        (m : Metadata)
        → read_parameter p w m ("nonce=" <> w.quote nonce) ≡ some (record m { nonce = nonce })
    unfolding read_parameter same
    read_nonce m =
        let cuts =
          ap (cut "=") (append_assoc "nonce" "=" (w.quote nonce))
          ∙ cut-append_last "=" "nonce" (w.quote nonce)
              (refl, (refl, (refl, (refl, (refl, tt))))) in
        rw (read_parameter, law.trim_nonce nonce, cuts, law.unquote-quote nonce) refl

    read_four :
        (m : Metadata)
        → n < int64_limit
        → read_parameters p w m (
            ""
            ∷ ("created=" <> number)
            ∷ ("keyid=" <> w.quote key)
            ∷ ("nonce=" <> w.quote nonce)
            ∷ [])
          ≡ some (record m { created = pos n; key_id = key; nonce = nonce })
    unfolding read_parameters
    read_four m fits = ground (
      arith,
      read_empty m,
      read_created m fits,
      read_key (record m { created = pos n }),
      read_nonce (record m { created = pos n; key_id = key }),
    )

    params_whole :
        signature_params p w meta ≡ ("(" <> join_spaces (map_text w.quote cs)) <> (")" <> tail)
    unfolding signature_params
    params_whole =
        let j = join_spaces (map_text w.quote cs) in
        ap (λ s. "(" <> (j <> s))
          (append_assoc ")" ";created="
            (number <> ";keyid=" <> w.quote key <> ";nonce=" <> w.quote nonce))
        ∙ sym (append_assoc "(" j (")" <> tail))

    cut_params :
        All (IsFree ")") cs
        → cut ")" (signature_params p w meta)
          ≡ some ("(" <> join_spaces (map_text w.quote cs), tail)
    unfolding same
    cut_params h =
        let j = join_spaces (map_text w.quote cs) in
        ap (cut ")") params_whole
        ∙ cut-append_last ")" ("(" <> j) tail
            (IsFree-append ")" "(" j (refl, tt) (joined_no_closing cs h))

    opens : has_prefix "(" (signature_params p w meta) ≡ true
    opens =
        let j = join_spaces (map_text w.quote cs) in
        ap (has_prefix "(") (params_whole ∙ append_assoc "(" j (")" <> tail))
        ∙ has_prefix-append "(" (j <> (")" <> tail))

    -- The parameters that are written are read back.
    pub parse-signature_params :
        1 ≤ n
        → n < int64_limit
        → IsPlain key
        → IsPlain nonce
        → All (IsFree ")") cs
        → All (IsFree " ") cs
        → parse_signature_params p w (signature_params p w meta) ≡ ok meta
    unfolding parse_signature_params read_params_from size
    parse-signature_params positive fits k v closing spaces =
        let j = join_spaces (map_text w.quote cs) in
        ground (
          arith,
          cut_params closing,
          opens,
          suffix_of-append 1 "(" j refl,
          law.fields_quoted cs spaces,
          unquote_all-map_text cs,
          split-tail k.no_semicolon v.no_semicolon,
          read_four (record { components = cs; created = pos 0; key_id = ""; nonce = "" }) fits,
          k.is_some,
          v.is_some,
          positive,
        )
