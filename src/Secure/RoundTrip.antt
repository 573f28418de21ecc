-- ===== src/Secure/RoundTrip.antt =====
-- A sealed field opens to what was sealed.
use Prim.Native.String.{count}
use text.Mathlib.TextLemmas.{length-nil, length-append}
use snw_agent_link.Prelude.{
  String, ◌<>◌, ◌≡◌, some, arith, size, is_empty, Bool-cases, inl, inr, ap, ◌∙◌, same→eq, false,
}
use snw_agent_link.Prelude.Bytes.{prefix_of-append, suffix_of-append, size-append_le}
use snw_agent_link.Errors.{ok, Result-cases}
use snw_agent_link.Secure.{Gcm, Aead, gcm, nonce_size, encrypt, decrypt}

-- Open undoes Seal under the same key, nonce and associated data.
pub record IsLawful (g : Gcm) : Type 0 where
  pub opens :
      (nonce plaintext associated : String)
      → g.open_sealed nonce (g.seal nonce plaintext associated) associated ≡ some plaintext

-- What `Encrypt` returns for a nonce of the cipher's size, `Decrypt` opens, given the same
-- associated data.
pub decrypt-encrypt :
    (a : Aead) (g : Gcm) (nonce plaintext associated : String) {sealed : String}
    → gcm a ≡ ok g
    → IsLawful g
    → size nonce ≡ nonce_size
    → encrypt a nonce plaintext associated ≡ ok sealed
    → decrypt a sealed associated ≡ ok plaintext
unfolding encrypt decrypt
decrypt-encrypt a g nonce plaintext associated {sealed} e law n h =
    let ciphertext = g.seal nonce plaintext associated in
    ground (
      arith,
      law.opens nonce plaintext associated,
      prefix_of-append nonce_size nonce ciphertext n,
      suffix_of-append nonce_size nonce ciphertext n,
      size-append_le nonce ciphertext,
    )

-- It holds the nonce, so it is not empty.
pub is_empty-encrypt :
    (a : Aead) (nonce plaintext associated : String) {sealed : String}
    → size nonce ≡ nonce_size
    → encrypt a nonce plaintext associated ≡ ok sealed
    → is_empty sealed ≡ false
unfolding encrypt is_empty size
is_empty-encrypt a nonce plaintext associated {sealed} n h = elim (Bool-cases (is_empty sealed)) [
  | inr e ↦ e
  | inl e ↦ elim (Result-cases (gcm a)) [
    | inl (x, bad) ↦ absurd (ground arith)
    | inr (g, good) ↦
        let c = g.seal nonce plaintext associated in
        let whole : nonce <> c ≡ sealed = ground arith in
        let nothing : count (nonce <> c) ≡ count "" = ap count (whole ∙ same→eq sealed "" e) in
        absurd (omega (arith, nothing, length-nil, length-append nonce c, n))
  ]
]
