-- ===== src/Prf/Tests.antt =====
-- A stand-in for HMAC-SHA256, and the theorems at concrete inputs.
use go_openlawsvpn.Base.{
  ◌≡◌, refl, arith, [], ◌∷◌, ◌++◌, length, length-replicate, replicate, take, ok, err, Bytes, pos,
  negsuc,
}
use go_openlawsvpn.Compress.{codes}
use go_openlawsvpn.Prf.{derive, not_positive}
use go_openlawsvpn.Prf.Expansion.{blocks, derive-blocks}

abbrev mac : Bytes → Bytes → Bytes
mac key message = replicate 32 (length message)

length-mac : (key message : Bytes) → length (mac key message) ≡ 32
length-mac key message = length-replicate 32 (length message)

derive-blocks_example :
    (derive mac (1 ∷ []) (codes "label") (2 ∷ []) (pos 40)
      ≡ ok (take 40 (blocks mac (1 ∷ []) (codes "label" ++ (2 ∷ [])) 0 2)))
    × (length (take 40 (blocks mac (1 ∷ []) (codes "label" ++ (2 ∷ [])) 0 2)) ≡ 40)
derive-blocks_example =
    derive-blocks mac (1 ∷ []) (codes "label") (2 ∷ []) 39 2 length-mac (omega arith)

derive_negative : derive mac [] [] [] (negsuc 4) ≡ err (not_positive (negsuc 4))
unfolding derive
derive_negative = refl
