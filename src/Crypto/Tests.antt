-- ===== src/Crypto/Tests.antt =====
-- The theorems on the two ciphers at concrete inputs.
use go_openlawsvpn.Base.{◌≡◌, refl, [], ◌∷◌, ◌++◌, replicate}
use go_openlawsvpn.Crypto.Gcm
use go_openlawsvpn.Crypto.Samples.{plain_aead, gcm_key}

tag_first : Gcm.seal plain_aead gcm_key 5 (1 ∷ 2 ∷ []) (9 ∷ []) ≡ replicate 16 1 ++ (1 ∷ 2 ∷ [])
unfolding Gcm.seal
tag_first = refl
