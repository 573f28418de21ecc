-- ===== src/Secure.antt =====
-- internal/secure/aead.go: fields sealed by AES-GCM under a provided key. The cipher of crypto/aes
-- and crypto/cipher is a parameter; the nonce that `Encrypt` draws at random is an argument.
pub mod RoundTrip
use snw_agent_link.Prelude.{ℕ, String, ◌<>◌, Option, none, some, ltb, if◌then◌else◌, size, Bool}
use snw_agent_link.Prelude.Bytes.{prefix_of, suffix_of}
use snw_agent_link.Errors.{Result, ok, err, unsealable}

-- A `cipher.AEAD`: Seal without its prefix, and Open.
pub record Gcm : Type 0 where
  pub seal : String → String → String → String
  pub open_sealed : String → String → String → Option String

-- `gcm.NonceSize()` of cipher.NewGCM.
abbrev pub nonce_size : ℕ
nonce_size = 12

-- `key` is the key that the provider returns, and `new_gcm` is aes.NewCipher with cipher.NewGCM.
pub record Aead : Type 0 where
  pub key : Result String
  pub new_gcm : String → Result Gcm

unfoldable pub gcm : Aead → Result Gcm
gcm a = elim a.key [ ok k ↦ a.new_gcm k | err e ↦ err e ]

-- The nonce stands before the sealed text.
unfoldable pub encrypt : Aead → String → String → String → Result String
unfolding gcm
encrypt a nonce plaintext associated = elim (gcm a) [
  | ok g ↦ ok (nonce <> g.seal nonce plaintext associated)
  | err e ↦ err e
]

open_with : Gcm → String → String → Result String
open_with g ciphertext associated =
    let nonce = prefix_of nonce_size ciphertext in
    if ltb (size ciphertext) nonce_size
    then err unsealable
    else elim (g.open_sealed nonce (suffix_of nonce_size ciphertext) associated) [
      | some plaintext ↦ ok plaintext
      | none ↦ err unsealable
    ]

unfoldable pub decrypt : Aead → String → String → Result String
unfolding gcm open_with
decrypt a ciphertext associated = elim (gcm a) [
  | ok g ↦ open_with g ciphertext associated
  | err e ↦ err e
]
