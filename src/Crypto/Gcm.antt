-- ===== src/Crypto/Gcm.antt =====
-- internal/crypto/cipher.go: AES-GCM with an explicit packet ID and an implicit IV, and with the tag
-- moved in front of the ciphertext.
use go_openlawsvpn.Base.{
  ℕ, ◌+◌, ◌-◌, ◌≤◌, ◌≡◌, refl, arith, Bool, true, false, ◌||◌, Option, none, some, ◌==◌,
  if◌then◌else◌, Bytes, ltb, Result, ok, err, ◌++◌, length, length-append, length-take, length-drop,
  take, drop, take-append, drop-append, take-append-drop, put_uint32, le→ltb,
}
use go_openlawsvpn.Crypto.{
  IsBounded, DataCipher, Matches, Error, aes_key, nonce_tail, gcm_too_short, gcm_open,
}

-- crypto/cipher's AEAD over a key: nonce, plaintext or ciphertext, additional data.
pub record Aead : Type 0 where
  pub seal : Bytes → Bytes → Bytes → Bytes → Bytes
  pub open_sealed : Bytes → Bytes → Bytes → Bytes → Option Bytes

-- What the package documents: the ciphertext is 16 bytes longer than the plaintext, and `Open` undoes
-- `Seal` under the same key, nonce and additional data.
pub record IsAead (a : Aead) : Type 0 where
  pub grows :
      (key nonce plain aad : Bytes) → length (a.seal key nonce plain aad) ≡ length plain + 16
  pub opens :
      (key nonce plain aad : Bytes)
      → a.open_sealed key nonce (a.seal key nonce plain aad) aad ≡ some plain

pub record GcmCipher : Type 0 where
  pub key : Bytes
  pub implicit_iv : Bytes

-- aes.NewCipher takes keys of 16, 24 or 32 bytes.
abbrev pub is_aes_key : Bytes → Bool
is_aes_key key = length key == 16 || length key == 24 || length key == 32

unfoldable pub new_gcm_cipher : Bytes → Bytes → Result Error GcmCipher
new_gcm_cipher key tail =
    if is_aes_key key
    then (if ltb (length tail) 8
        then err nonce_tail
        else ok (record { key = key; implicit_iv = take 8 tail }))
    else err aes_key

unfoldable pub build_nonce : GcmCipher → ℕ → Bytes
build_nonce g packet_id = put_uint32 packet_id ++ g.implicit_iv

abbrev pub tag_len : ℕ
tag_len = 16

module _ (a : Aead) where
  unfoldable pub seal : GcmCipher → ℕ → Bytes → Bytes → Bytes
  seal g packet_id plain aad =
      let out = a.seal g.key (build_nonce g packet_id) plain aad in
      drop (length out - tag_len) out ++ take (length out - tag_len) out

  unfoldable pub open_sealed : GcmCipher → ℕ → Bytes → Bytes → Result Error Bytes
  open_sealed g packet_id tag_then_ct aad =
      if ltb (length tag_then_ct) tag_len
      then err gcm_too_short
      else (elim (a.open_sealed g.key (build_nonce g packet_id)
          (drop tag_len tag_then_ct ++ take tag_len tag_then_ct) aad) [
            | none ↦ err gcm_open
            | some plain ↦ ok plain
          ])

  -- The cipher behind the interface.
  unfoldable pub gcm : GcmCipher → DataCipher
  gcm g = record {
    seal = λ rand id plain aad. seal g id plain aad;
    open_sealed = open_sealed g;
    is_aead = true;
    overhead = 16;
  }

  tag_length :
      (out : Bytes) → tag_len ≤ length out → length (drop (length out - tag_len) out) ≡ tag_len
  tag_length out h = omega (arith, length-drop (length out - tag_len) out)

  -- Moving the tag to the front and back again.
  tag_moved :
      (out : Bytes)
      → tag_len ≤ length out
      → let sealed = drop (length out - tag_len) out ++ take (length out - tag_len) out in
        (drop tag_len sealed ++ take tag_len sealed ≡ out) × (length sealed ≡ length out)
  tag_moved out h =
      let n = length out - tag_len in
      let e = tag_length out h in
      (
        rw
            (
              drop-append tag_len (drop n out) (take n out) e,
              take-append tag_len (drop n out) (take n out) e,
            )
            (take-append-drop n out),
        omega (arith, length-append (drop n out) (take n out), e, length-take n out),
      )

  -- What the GCM cipher seals under a packet ID and additional data, its tag moved to the front, it opens
  -- under the same, for every AEAD that is as crypto/cipher says.
  gcm_opens :
      (g : GcmCipher) (id : ℕ) (plain aad : Bytes)
      → IsAead a
      → open_sealed g id (seal g id plain aad) aad ≡ ok plain
  unfolding seal open_sealed
  gcm_opens g id plain aad law =
      let nonce = build_nonce g id in
      let out = a.seal g.key nonce plain aad in
      let (whole, same) = tag_moved out (omega (arith, law.grows g.key nonce plain aad)) in
      let long = law.grows g.key nonce plain aad in
      let sealed = drop (length out - tag_len) out ++ take (length out - tag_len) out in
      let enough : ltb (length sealed) tag_len ≡ false = le→ltb _ _ (omega (arith, same, long)) in
      rw (enough, whole, law.opens)

  -- Two GCM ciphers made from the same key and nonce tail match.
  pub gcm-Matches :
      (key tail : Bytes) (g h : GcmCipher)
      → IsAead a
      → new_gcm_cipher key tail ≡ ok g
      → new_gcm_cipher key tail ≡ ok h
      → Matches (gcm g) (gcm h)
  unfolding gcm
  gcm-Matches key tail g h law eg eh =
      let same : g ≡ h = ground (arith, eg, eh) in
      record {
        same_mode = refl;
        opens =
            λ rand id id' plain aad hr eq. rw (← eq refl, ← same) (gcm_opens g id plain aad law);
        long_enough = λ rand id plain aad hr.
            let out = a.seal g.key (build_nonce g id) plain aad in
            let long = law.grows g.key (build_nonce g id) plain aad in
            unfold seal in omega (arith, (tag_moved out (omega (arith, long))).1, long);
      }

  -- A sealed packet is sixteen bytes longer.
  pub gcm-IsBounded : (g : GcmCipher) → IsAead a → IsBounded (gcm g)
  unfolding gcm seal
  gcm-IsBounded g law rand id plain aad hr =
      let out = a.seal g.key (build_nonce g id) plain aad in
      let long = law.grows g.key (build_nonce g id) plain aad in
      omega (arith, (tag_moved out (omega (arith, long))).1, long)
