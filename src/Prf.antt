-- ===== src/Prf.antt =====
-- internal/prf/prf.go: the key-derivation function over HMAC-SHA256, and the four key slots.
pub mod Expansion
mod Tests
use go_openlawsvpn.Base.{
  ℕ, zero, suc, ◌+◌, ◌*◌, ◌≤◌, ◌≡◌, List, [], ◌∷◌, ◌++◌, length, take, drop, ltb, if◌then◌else◌,
  Result, ok, err, panic, ◌>>=◌, Bytes, ℤ, pos, negsuc,
}
use go_openlawsvpn.Compress.{codes}

pub data Error : Type 0 where
  not_positive : ℤ → Error

pub record KeyMaterial : Type 0 where
  pub client_cipher : Bytes
  pub client_hmac : Bytes
  pub server_cipher : Bytes
  pub server_hmac : Bytes

-- `b[from:to]`
abbrev pub slice : Bytes → ℕ → ℕ → Result Error Bytes
slice b from to =
    if ltb to from then panic else if ltb (length b) to then panic else ok (drop from (take to b))

-- `hmac` is HMAC-SHA256 by key and message.
module _ (hmac : Bytes → Bytes → Bytes) where
  -- The loop `for len(out) < n`. With one round of fuel per byte it ends by its test.
  unfoldable pub expand : ℕ → Bytes → Bytes → Bytes → Bytes → ℕ → Bytes
  expand zero secret full_seed a_current out n = out
  expand (suc fuel) secret full_seed a_current out n =
      let a_next = hmac secret a_current in
      let longer =
        expand fuel secret full_seed a_next (out ++ hmac secret (a_next ++ full_seed)) n in
      if ltb (length out) n then longer else out

  unfoldable pub derive : Bytes → Bytes → Bytes → ℤ → Result Error Bytes
  derive secret label seed (negsuc n) = err (not_positive (negsuc n))
  derive secret label seed (pos zero) = err (not_positive (pos 0))
  derive secret label seed (pos (suc n)) =
      let full_seed = label ++ seed in
      slice (expand (suc n) secret full_seed full_seed [] (suc n)) 0 (suc n)

  unfoldable pub expand_keys : Bytes → Bytes → Bytes → Result Error KeyMaterial
  expand_keys master_secret client_random server_random = do
    raw ←
        derive master_secret (codes "OpenVPN master secret") (client_random ++ server_random)
          (pos 256)
    client_cipher ← slice raw 0 64
    client_hmac ← slice raw 64 128
    server_cipher ← slice raw 128 192
    server_hmac ← slice raw 192 256
    ok (record {
      client_cipher = client_cipher;
      client_hmac = client_hmac;
      server_cipher = server_cipher;
      server_hmac = server_hmac;
    })
