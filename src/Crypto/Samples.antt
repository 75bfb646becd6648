-- ===== src/Crypto/Samples.antt =====
-- Stand-ins for AES, GCM and HMAC that meet what is assumed of them, and ciphers made from them.
use go_openlawsvpn.Base.{
  ℕ, ◌-◌, ◌%◌, ◌≡◌, refl, ap, arith, some, Bytes, ok, ◌++◌, length, take, replicate, length-append,
  take-append,
}
use go_openlawsvpn.Crypto.{DataCipher, Matches}
use go_openlawsvpn.Crypto.Gcm.{Aead, IsAead, GcmCipher, new_gcm_cipher, gcm, gcm-Matches}
use go_openlawsvpn.Crypto.Cbc.{Primitives, ArePrimitives, CbcCipher}

-- The tag is sixteen times the number of bytes of additional data.
abbrev pub plain_aead : Aead
plain_aead = record {
  seal = λ key nonce plain aad. plain ++ replicate 16 (length aad);
  open_sealed = λ key nonce ct aad. some (take (length ct - 16) ct);
}

cut_tag :
    (plain : Bytes) (b : ℕ)
    → take (length (plain ++ replicate 16 b) - 16) (plain ++ replicate 16 b) ≡ plain
cut_tag plain b =
    let n : length (plain ++ replicate 16 b) - 16 ≡ length plain =
      omega (arith, length-append plain (replicate 16 b)) in
    rw n (take-append (length plain) plain (replicate 16 b) refl)

pub plain_aead-IsAead : IsAead plain_aead
plain_aead-IsAead = record {
  grows = λ key nonce plain aad. length-append plain (replicate 16 (length aad));
  opens = λ key nonce plain aad. ap some (cut_tag plain (length aad));
}

abbrev pub key : Bytes
key = replicate 16 1

abbrev pub gcm_key : GcmCipher
gcm_key = record { key = key; implicit_iv = replicate 8 2 }

new_gcm_key : new_gcm_cipher key (replicate 9 2) ≡ ok gcm_key
unfolding new_gcm_cipher
new_gcm_key = refl

abbrev pub cipher : DataCipher
cipher = gcm plain_aead gcm_key

pub cipher-Matches : Matches cipher cipher
cipher-Matches =
    gcm-Matches plain_aead key (replicate 9 2) gcm_key gcm_key plain_aead-IsAead new_gcm_key
      new_gcm_key

abbrev pub plain_primitives : Primitives
plain_primitives = record {
  cbc_encrypt = λ key iv plain. plain;
  cbc_decrypt = λ key iv ct. ct;
  hmac_sha256 = λ key message. replicate 32 (length message % 256);
}

pub plain_primitives-ArePrimitives : ArePrimitives plain_primitives
plain_primitives-ArePrimitives = record {
  keeps_length = λ key iv plain. refl;
  undoes = λ key iv plain h. refl;
  mac_size = λ key message. refl;
}

abbrev pub cbc_key : CbcCipher
cbc_key = record { aes_key = replicate 32 3; hmac_key = replicate 32 4 }
