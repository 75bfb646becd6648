-- ===== src/Compress/Tests.antt =====
-- Option lists and stub bytes, and the theorems at concrete inputs.
use go_openlawsvpn.Base.{◌≡◌, refl, err, [], ◌∷◌}
use go_openlawsvpn.Compress.{mode_lz4, mode_lzo, unwrap, parse_mode, codes, unexpected_stub}

unwrap_unexpected : unwrap mode_lz4 (7 ∷ []) ≡ err (unexpected_stub 7)
unfolding unwrap
unwrap_unexpected = refl

parse_mode_blanks : parse_mode (codes "PUSH_REPLY, comp-lzo no ,compress lz4") ≡ mode_lzo
unfolding parse_mode
parse_mode_blanks = refl
