-- ===== src/Prf/Expansion.antt =====
-- Derive against the P_hash construction of RFC 5246, and the slots of ExpandKeys.
use go_openlawsvpn.Base.{
  take-append, ◌-◌, All, take-drop-append, take-append-drop, ℕ, zero, suc, ◌+◌, ◌*◌, ◌≤◌, ◌≡◌, refl,
  sym, ap, ◌∙◌, arith, Bool-cases, inl, inr, false, [], ◌∷◌, ◌++◌, append_assoc, append-nil, length,
  length-append, length-take, length-drop, take, drop, ltb, ltb_false→le, le→ltb, ok, Bytes, pos,
}
use go_openlawsvpn.Compress.{codes}
use go_openlawsvpn.Prf.{KeyMaterial, slice, expand, derive, expand_keys}

slice_lem :
    (b : Bytes) (from to : ℕ)
    → from ≤ to
    → to ≤ length b
    → slice b from to ≡ ok (drop from (take to b))
slice_lem b from to h k = rw (le→ltb to from h, le→ltb (length b) to k) refl

-- Neighbouring slices join.
neighbours_join :
    (from to : ℕ) (b : Bytes) → from ≤ to → drop from (take to b) ++ drop to b ≡ drop from b
neighbours_join zero to b h = take-append-drop to b
neighbours_join (suc from) zero b h = absurd (omega arith)
neighbours_join (suc from) (suc to) [] h = refl
neighbours_join (suc from) (suc to) (x ∷ b) h = neighbours_join from to b (omega arith)

take_all : (n : ℕ) (b : Bytes) → length b ≡ n → take n b ≡ b
take_all n b h = ap (take n) (sym (append-nil b)) ∙ take-append n b [] h

length-slice :
    (from to : ℕ) (b : Bytes) → to ≤ length b → length (drop from (take to b)) ≡ to - from
length-slice from to b h = omega (arith, length-drop from (take to b), length-take to b)

abbrev slots : Bytes → KeyMaterial
slots raw = record {
  client_cipher = take 64 raw;
  client_hmac = drop 64 (take 128 raw);
  server_cipher = drop 128 (take 192 raw);
  server_hmac = drop 192 (take 256 raw);
}

slots-join :
    (raw : Bytes)
    → length raw ≡ 256
    → (k : KeyMaterial) × (k ≡ slots raw)
      × (k.client_cipher ++ (k.client_hmac ++ (k.server_cipher ++ k.server_hmac)) ≡ raw)
      × All
          (λ slot. length slot ≡ 64)
          (k.client_cipher ∷ (k.client_hmac ∷ (k.server_cipher ∷ (k.server_hmac ∷ []))))
slots-join raw h = (
  slots raw,
  refl,
  rw
      (
        take_all 256 raw h,
        neighbours_join 128 192 raw (omega arith),
        neighbours_join 64 128 raw (omega arith),
      )
      (take-append-drop 64 raw),
  (
    length-slice 0 64 raw (omega arith),
    (
      length-slice 64 128 raw (omega arith),
      (length-slice 128 192 raw (omega arith), (length-slice 192 256 raw (omega arith), tt)),
    ),
  ),
)

module _ (hmac : Bytes → Bytes → Bytes) where
  -- A(i) of RFC 5246.
  abbrev pub chain : Bytes → Bytes → ℕ → Bytes
  chain secret seed zero = seed
  chain secret seed (suc i) = hmac secret (chain secret seed i)

  -- The blocks HMAC(secret, A(i + 1) + seed), HMAC(secret, A(i + 2) + seed), ..., `count` of them.
  abbrev pub blocks : Bytes → Bytes → ℕ → ℕ → Bytes
  blocks secret seed i zero = []
  blocks secret seed i (suc count) =
      hmac secret (chain secret seed (suc i) ++ seed) ++ blocks secret seed (suc i) count

  -- What the loop returns: its first `n` bytes are those of `count` blocks behind `out`.
  abbrev FirstBytes : ℕ → Bytes → Bytes → Type 0
  FirstBytes n whole out = (take n out ≡ take n whole) × (n ≤ length out)

  full : (n : ℕ) (out rest : Bytes) → n ≤ length out → FirstBytes n (out ++ rest) out
  full n out rest h = (sym (take-drop-append n 0 out rest (omega arith)), h)

  expand-blocks :
      (secret seed : Bytes) (n fuel i count : ℕ) (out : Bytes)
      → ((key message : Bytes) → length (hmac key message) ≡ 32)
      → n ≤ length out + fuel
      → n ≤ length out + 32 * count
      → FirstBytes n
          (out ++ blocks secret seed i count)
          (expand hmac fuel secret seed (chain secret seed i) out n)
  unfolding expand
  expand-blocks secret seed n zero i count out law enough many =
      full n out (blocks secret seed i count) (omega arith)
  expand-blocks secret seed n (suc fuel) i zero out law enough many =
      let ends : ltb (length out) n ≡ false = le→ltb _ _ (omega arith) in
      rw ends (full n out [] (omega arith))
  expand-blocks secret seed n (suc fuel) i (suc count) out law enough many =
      let block = hmac secret (chain secret seed (suc i) ++ seed) in
      let longer : length (out ++ block) ≡ length out + 32 =
        omega (arith, length-append out block, law secret (chain secret seed (suc i) ++ seed)) in
      elim (Bool-cases (ltb (length out) n)) [
        | inl more ↦
            let later =
              expand-blocks secret seed n fuel (suc i) count (out ++ block) law
                (omega (arith, longer)) (omega (arith, longer)) in
            rw more (rw (append_assoc out block (blocks secret seed (suc i) count)) at later)
        | inr ends ↦ rw ends (full n out _ (ltb_false→le _ _ ends))
      ]

  -- `Derive` of a positive number of bytes returns the first that many bytes of the P_hash blocks of
  -- RFC 5246 over the label and the seed, for any number of blocks that holds them, if a MAC has 32 bytes.
  pub derive-blocks :
      (secret label seed : Bytes) (n count : ℕ)
      → ((key message : Bytes) → length (hmac key message) ≡ 32)
      → suc n ≤ 32 * count
      → (derive hmac secret label seed (pos (suc n))
          ≡ ok (take (suc n) (blocks secret (label ++ seed) 0 count)))
        × (length (take (suc n) (blocks secret (label ++ seed) 0 count)) ≡ suc n)
  unfolding derive
  derive-blocks secret label seed n count law h =
      let seed' = label ++ seed in
      let (same, long) =
        expand-blocks secret seed' (suc n) (suc n) 0 count [] law (omega arith) (omega arith) in
      let out = expand hmac (suc n) secret seed' seed' [] (suc n) in
      let within : ltb (length out) (suc n) ≡ false = le→ltb _ _ long in
      let forward : ltb (suc n) 0 ≡ false = le→ltb _ _ (omega arith) in
      (
        rw (within, forward, same) refl,
        ap length (sym same) ∙ omega (arith, length-take (suc n) out, long),
      )

  length-blocks :
      (secret seed : Bytes) (i count : ℕ)
      → ((key message : Bytes) → length (hmac key message) ≡ 32)
      → length (blocks secret seed i count) ≡ 32 * count
  length-blocks secret seed i zero law = omega arith
  length-blocks secret seed i (suc count) law =
      let block = hmac secret (chain secret seed (suc i) ++ seed) in
      omega (
        arith,
        length-append block (blocks secret seed (suc i) count),
        law secret (chain secret seed (suc i) ++ seed),
        length-blocks secret seed (suc i) count law,
      )

  -- `ExpandKeys` succeeds, and its four slots, of 64 bytes each, are the first eight blocks over the label
  -- and the two randoms in the order client cipher, client HMAC, server cipher, server HMAC.
  expand_keys-blocks :
      (master client server : Bytes)
      → ((key message : Bytes) → length (hmac key message) ≡ 32)
      → (k : KeyMaterial) × (expand_keys hmac master client server ≡ ok k)
        × (k.client_cipher ++ (k.client_hmac ++ (k.server_cipher ++ k.server_hmac))
            ≡ blocks master (codes "OpenVPN master secret" ++ (client ++ server)) 0 8)
        × All
            (λ slot. length slot ≡ 64)
            (k.client_cipher ∷ (k.client_hmac ∷ (k.server_cipher ∷ (k.server_hmac ∷ []))))
  unfolding expand_keys
  expand_keys-blocks master client server law =
      let full_seed = codes "OpenVPN master secret" ++ (client ++ server) in
      let all = blocks master full_seed 0 8 in
      let whole : length all ≡ 256 = length-blocks master full_seed 0 8 law in
      let (derived, _) =
        derive-blocks master (codes "OpenVPN master secret") (client ++ server) 255 8 law
          (omega arith) in
      let (k, e, joined, sizes) = slots-join all whole in
      (
        k,
        rw
            (
              derived,
              take_all 256 all whole,
              slice_lem all 0 64 (omega arith) (omega arith),
              slice_lem all 64 128 (omega arith) (omega arith),
              slice_lem all 128 192 (omega arith) (omega arith),
              slice_lem all 192 256 (omega arith) (omega arith),
            )
            (ap ok (sym e)),
        joined,
        sizes,
      )
