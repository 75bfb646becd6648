-- ===== src/Crypto.antt =====
-- internal/crypto: the interface DataCipher that the data channel uses, and what a pair of matching
-- ciphers promises. AES, GCM, CBC and HMAC-SHA256 are the standard library's and enter as parameters.
pub mod Gcm
pub mod Padding
pub mod Cbc
pub mod Samples
mod Tests
use go_openlawsvpn.Base.{ℕ, ◌+◌, ◌≡◌, ◌≤◌, Bool, true, if◌then◌else◌, length, Result, ok, Bytes}

pub data Error : Type 0 where
  aes_key nonce_tail cbc_aes_key cbc_hmac_key : Error
  gcm_too_short gcm_open : Error
  cbc_too_short cbc_not_aligned cbc_hmac : Error
  pkcs7_length pkcs7_value pkcs7_bytes : Error

-- `Seal` and `Open`. The first argument of `seal` is what rand.Read would draw for this packet, which
-- only the CBC cipher uses.
pub record DataCipher : Type 0 where
  pub seal : Bytes → ℕ → Bytes → Bytes → Bytes
  pub open_sealed : ℕ → Bytes → Bytes → Result Error Bytes
  pub is_aead : Bool
  pub overhead : ℕ

-- What `dec` promises of the packets that `enc` seals: it opens them under the same additional data,
-- and, if the mode is an AEAD, the same packet ID. A sealed packet has at least the tag, or the HMAC,
-- the IV and a block.
pub record Matches (enc dec : DataCipher) : Type 0 where
  pub same_mode : enc.is_aead ≡ dec.is_aead
  pub opens :
      (rand : Bytes) (id id' : ℕ) (plain aad : Bytes)
      → length rand ≡ 16
      → (enc.is_aead ≡ true → id ≡ id')
      → dec.open_sealed id' (enc.seal rand id plain aad) aad ≡ ok plain
  pub long_enough :
      (rand : Bytes) (id : ℕ) (plain aad : Bytes)
      → length rand ≡ 16
      → (if enc.is_aead then 16 else 64) ≤ length (enc.seal rand id plain aad)

-- By how much sealing lengthens a packet at most: by the tag, or the HMAC, the IV and the padding.
abbrev pub IsBounded : DataCipher → Type 0
IsBounded enc =
    (rand : Bytes) (id : ℕ) (plain aad : Bytes)
    → length rand ≡ 16
    → length (enc.seal rand id plain aad) ≤ length plain + (if enc.is_aead then 16 else 64)
