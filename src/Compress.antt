-- ===== src/Compress.antt =====
-- internal/compress/compress.go: the compression mode that a server pushes, and the stub byte that
-- frames each payload under it.
pub mod Laws
mod Tests
use Prim.Native.Char.{code}
use Prim.Native.String.{String}
use go_openlawsvpn.Base.{
  ℕ, zero, suc, Bool, true, false, ◌&&◌, ◌||◌, List, [], ◌∷◌, ◌++◌, ◌==◌, if◌then◌else◌, Option,
  none, some, Result, ok, err, Bytes, bytes_eq,
}

pub data Mode : Type 0 where
  mode_none mode_lz4 mode_lzo : Mode

abbrev pub stub_byte : ℕ
stub_byte = 0x69

pub data Error : Type 0 where
  empty_payload compressed_payload : Error
  unexpected_stub : ℕ → Error

unfoldable pub wrap : Mode → Bytes → Bytes
wrap mode_lz4 payload = stub_byte ∷ payload
wrap mode_none payload = payload
wrap mode_lzo payload = payload

-- The switch on the first byte under ModeLZ4.
strip_stub : Bytes → Result Error Bytes
strip_stub [] = err empty_payload
strip_stub (b ∷ rest) =
    if b == stub_byte
    then ok rest
    else if b == 0xfa
    then err compressed_payload
    else err (unexpected_stub b)

unfoldable pub unwrap : Mode → Bytes → Result Error Bytes
unfolding strip_stub
unwrap mode_none payload = ok payload
unwrap mode_lzo payload = ok payload
unwrap mode_lz4 payload = strip_stub payload

-- The bytes of an ASCII text.
abbrev pub codes : String → Bytes
codes String.[] = []
codes (String.◌∷◌ c s) = code c ∷ codes s

abbrev pub is_blank : ℕ → Bool
is_blank c = c == b' ' || c == b'\t'

-- The loop over `start`.
unfoldable pub trim_left : Bytes → Bytes
trim_left [] = []
trim_left (c ∷ s) = if is_blank c then trim_left s else c ∷ s

abbrev pub keep_nonblank : ℕ → Bytes → Bytes
keep_nonblank c [] = if is_blank c then [] else c ∷ []
keep_nonblank c (d ∷ s) = c ∷ (d ∷ s)

-- The loop over `end`: a byte is kept if it is no blank, or something behind it is kept.
unfoldable pub trim_right : Bytes → Bytes
trim_right [] = []
trim_right (c ∷ s) = keep_nonblank c (trim_right s)

unfoldable pub trim : Bytes → Bytes
unfolding trim_left trim_right
trim s = trim_right (trim_left s)

-- What the switch makes of one trimmed token: `none` goes on to the next token.
unfoldable pub token_mode : Bytes → Option Mode
unfolding bytes_eq
token_mode token =
    if bytes_eq token (codes "compress lz4") || bytes_eq token (codes "compress lz4-v2")
    then some mode_lz4
    else if bytes_eq token (codes "comp-lzo") || bytes_eq token (codes "comp-lzo no")
    then some mode_lzo
    else none

abbrev pub add_front : ℕ → List Bytes → List Bytes
add_front c [] = (c ∷ []) ∷ []
add_front c (t ∷ ts) = (c ∷ t) ∷ ts

-- The texts `pushReply[i:j]` that the loop looks at, in order: those between commas. Nothing behind a
-- comma at the very end makes no token.
unfoldable pub tokens : Bytes → List Bytes
tokens [] = []
tokens (c ∷ rest) = if c == b',' then [] ∷ tokens rest else add_front c (tokens rest)

-- The loop: the first token that names a mode decides.
unfoldable pub first_mode : List Bytes → Mode
first_mode [] = mode_none
first_mode (t ∷ ts) = elim (token_mode (trim t)) [ none ↦ first_mode ts | some m ↦ m ]

unfoldable pub parse_mode : Bytes → Mode
unfolding tokens first_mode token_mode trim
parse_mode push_reply = first_mode (tokens push_reply)
