-- ===== src/Crypto/Cbc.antt =====
-- internal/crypto/cbc.go: AES-256-CBC with HMAC-SHA256.
use go_openlawsvpn.Base.{
  ℕ, ◌+◌, ◌-◌, ◌%◌, ◌≤◌, ◌≡◌, refl, ap, ◌∙◌, sym, arith, false, not, ◌==◌, if◌then◌else◌, Bytes,
  ltb, Result, ok, err, ◌++◌, length, length-append, take, drop, take-append, drop-append,
  drop-drop, le→ltb, bytes_eq, bytes_eq_iff,
}
use go_openlawsvpn.Crypto.{
  IsBounded, DataCipher, Matches, Error, cbc_aes_key, cbc_hmac_key, cbc_too_short, cbc_not_aligned,
  cbc_hmac,
}
use go_openlawsvpn.Crypto.Padding.{
  block_size, pkcs7_pad, pkcs7_unpad, pkcs7_unpad_iff, length-pkcs7_pad, length-pkcs7_pad_le,
}

-- What the standard library gives: AES in CBC mode over whole blocks, by key and IV, and HMAC-SHA256.
pub record Primitives : Type 0 where
  pub cbc_encrypt : Bytes → Bytes → Bytes → Bytes
  pub cbc_decrypt : Bytes → Bytes → Bytes → Bytes
  pub hmac_sha256 : Bytes → Bytes → Bytes

-- What the packages document: CBC keeps the length, decryption undoes encryption of whole blocks under
-- the same key and IV, and an HMAC-SHA256 has 32 bytes.
pub record ArePrimitives (a : Primitives) : Type 0 where
  pub keeps_length : (key iv plain : Bytes) → length (a.cbc_encrypt key iv plain) ≡ length plain
  pub undoes :
      (key iv plain : Bytes)
      → length plain % block_size ≡ 0
      → a.cbc_decrypt key iv (a.cbc_encrypt key iv plain) ≡ plain
  pub mac_size : (key message : Bytes) → length (a.hmac_sha256 key message) ≡ 32

pub record CbcCipher : Type 0 where
  pub aes_key : Bytes
  pub hmac_key : Bytes

unfoldable pub new_cbc_cipher : Bytes → Bytes → Result Error CbcCipher
new_cbc_cipher aes_key hmac_key =
    if not (length aes_key == 32)
    then err cbc_aes_key
    else if not (length hmac_key == 32)
    then err cbc_hmac_key
    else ok (record { aes_key = aes_key; hmac_key = hmac_key })

abbrev pub hmac_len : ℕ
hmac_len = 32

module _ (a : Primitives) where
  -- `iv` is what rand.Read draws.
  unfoldable pub seal : CbcCipher → Bytes → Bytes → Bytes
  seal c iv plain =
      let ct = a.cbc_encrypt c.aes_key iv (pkcs7_pad plain block_size) in
      a.hmac_sha256 c.hmac_key (iv ++ ct) ++ (iv ++ ct)

  -- The checks of the body behind its length.
  unfoldable pub open_parts : CbcCipher → Bytes → Bytes → Bytes → Result Error Bytes
  open_parts c tag iv ct =
      if bytes_eq tag (a.hmac_sha256 c.hmac_key (iv ++ ct))
      then pkcs7_unpad (a.cbc_decrypt c.aes_key iv ct) block_size
      else err cbc_hmac

  unfoldable pub open_sealed : CbcCipher → Bytes → Result Error Bytes
  open_sealed c body =
      if ltb (length body) (hmac_len + block_size + block_size)
      then err cbc_too_short
      else if not ((length body - hmac_len - block_size) % block_size == 0)
      then err cbc_not_aligned
      else open_parts c (take hmac_len body) (take block_size (drop hmac_len body))
          (drop (hmac_len + block_size) body)

  unfoldable pub cbc : CbcCipher → DataCipher
  cbc c = record {
    seal = λ rand id plain aad. seal c rand plain;
    open_sealed = λ id body aad. open_sealed c body;
    is_aead = false;
    overhead = 32 + 16 + 16;
  }

  length-seal :
      (c : CbcCipher) (iv plain : Bytes)
      → ArePrimitives a
      → length iv ≡ block_size
      → (64 ≤ length (seal c iv plain)) × ((length (seal c iv plain) - 32 - 16) % 16 ≡ 0)
  unfolding seal
  length-seal c iv plain law hiv =
      let padded = pkcs7_pad plain block_size in
      let ct = a.cbc_encrypt c.aes_key iv padded in
      let (aligned, long, _) = length-pkcs7_pad plain in
      omega (
        arith,
        aligned,
        long,
        law.keeps_length c.aes_key iv padded,
        law.mac_size c.hmac_key (iv ++ ct),
        length-append (a.hmac_sha256 c.hmac_key (iv ++ ct)) (iv ++ ct),
        length-append iv ct,
      )

  open_parts-seal :
      (c : CbcCipher) (iv plain : Bytes)
      → ArePrimitives a
      → let ct = a.cbc_encrypt c.aes_key iv (pkcs7_pad plain block_size) in
        open_parts c (a.hmac_sha256 c.hmac_key (iv ++ ct)) iv ct ≡ ok plain
  unfolding open_parts
  open_parts-seal c iv plain law =
      let padded = pkcs7_pad plain block_size in
      let ct = a.cbc_encrypt c.aes_key iv padded in
      let tag = a.hmac_sha256 c.hmac_key (iv ++ ct) in
      rw ((bytes_eq_iff tag tag).1 refl, law.undoes c.aes_key iv padded (length-pkcs7_pad plain).0)
        ((pkcs7_unpad_iff padded plain).1 refl)

  -- What the CBC cipher seals with an IV of 16 bytes it opens, for every block cipher and HMAC that are
  -- as the standard library says.
  cbc_opens :
      (c : CbcCipher) (iv plain : Bytes)
      → ArePrimitives a
      → length iv ≡ block_size
      → open_sealed c (seal c iv plain) ≡ ok plain
  unfolding open_sealed
  cbc_opens c iv plain law hiv =
      let padded = pkcs7_pad plain block_size in
      let ct = a.cbc_encrypt c.aes_key iv padded in
      let tag = a.hmac_sha256 c.hmac_key (iv ++ ct) in
      let mac : length tag ≡ hmac_len = law.mac_size c.hmac_key (iv ++ ct) in
      let (long, aligned) = length-seal c iv plain law hiv in
      let body : seal c iv plain ≡ tag ++ (iv ++ ct) = unfold seal in refl in
      let front : take hmac_len (seal c iv plain) ≡ tag =
        rw body (take-append hmac_len tag (iv ++ ct) mac) in
      let behind : drop hmac_len (seal c iv plain) ≡ iv ++ ct =
        rw body (drop-append hmac_len tag (iv ++ ct) mac) in
      let middle : take block_size (drop hmac_len (seal c iv plain)) ≡ iv =
        rw behind (take-append block_size iv ct hiv) in
      let back : drop (hmac_len + block_size) (seal c iv plain) ≡ ct =
        sym (drop-drop block_size hmac_len (seal c iv plain))
        ∙ ap (drop block_size) behind
        ∙ drop-append block_size iv ct hiv in
      let short : ltb (length (seal c iv plain)) 64 ≡ false = le→ltb _ _ long in
      rw (short, aligned, front, middle, back) (open_parts-seal c iv plain law)

  -- Two CBC ciphers made from the same keys match.
  pub cbc-Matches :
      (aes_key hmac_key : Bytes) (c d : CbcCipher)
      → ArePrimitives a
      → new_cbc_cipher aes_key hmac_key ≡ ok c
      → new_cbc_cipher aes_key hmac_key ≡ ok d
      → Matches (cbc c) (cbc d)
  unfolding cbc
  cbc-Matches aes_key hmac_key c d law ec ed =
      let same : c ≡ d = ground (arith, ec, ed) in
      record {
        same_mode = refl;
        opens = λ rand id id' plain aad hr eq. rw (← same) (cbc_opens c rand plain law hr);
        long_enough = λ rand id plain aad hr. (length-seal c rand plain law hr).0;
      }

  pub cbc-IsBounded : (c : CbcCipher) → ArePrimitives a → IsBounded (cbc c)
  unfolding cbc seal
  cbc-IsBounded c law rand id plain aad hr =
      let padded = pkcs7_pad plain block_size in
      let ct = a.cbc_encrypt c.aes_key rand padded in
      omega (
        arith,
        length-pkcs7_pad_le plain,
        law.keeps_length c.aes_key rand padded,
        law.mac_size c.hmac_key (rand ++ ct),
        length-append (a.hmac_sha256 c.hmac_key (rand ++ ct)) (rand ++ ct),
        length-append rand ct,
        hr,
      )
