-- ===== src/Profile/Lines.antt =====
-- profile/profile.go: the loop of ParseFile over the lines that bufio.Scanner yields, with the inline blocks.
use go_openlawsvpn.Base.{
  ◌-◌, Bool, not, ◌&&◌, ◌||◌, List, [], ◌∷◌, ◌++◌, length, take, drop, ltb, if◌then◌else◌, Option,
  none, some, Result, ok, err, panic, ◌>>=◌, Bytes, bytes_eq,
}
use go_openlawsvpn.Compress.{codes}
use go_openlawsvpn.Text.{Library, has_prefix, is_empty}
use go_openlawsvpn.Profile.{Profile, default_profile, has_suffix}
use go_openlawsvpn.Profile.Directives.{Error, read_error, no_remote, parse_fields}

-- The profile and the local variables of ParseFile. An empty tag means that no block is open.
pub record State : Type 0 where
  pub profile : Profile
  pub inline_tag : Bytes
  pub inline_buf : Bytes

abbrev pub start : State
start = record { profile = default_profile; inline_tag = []; inline_buf = [] }

-- Blank lines and comments.
unfoldable pub is_skipped : Bytes → Bool
is_skipped line = is_empty line || has_prefix (codes "#") line || has_prefix (codes ";") line

-- `"</" + inlineTag + ">"`
abbrev pub closing : Bytes → Bytes
closing tag = b'<' ∷ (b'/' ∷ (tag ++ (b'>' ∷ [])))

-- `switch inlineTag`
unfoldable pub store_block : Bytes → Bytes → Profile → Profile
store_block tag text p =
    if bytes_eq tag (codes "ca")
    then record p { ca = text }
    else if bytes_eq tag (codes "cert")
    then record p { cert = text }
    else if bytes_eq tag (codes "key")
    then record p { key = text }
    else p

-- A line while a block is open.
unfoldable pub inline_line : State → Bytes → State
inline_line st line =
    if bytes_eq line (closing st.inline_tag)
    then record {
      profile = store_block st.inline_tag st.inline_buf st.profile;
      inline_tag = [];
      inline_buf = [];
    }
    else record st { inline_buf = st.inline_buf ++ line ++ (b'\n' ∷ []) }

-- `line[1 : len(line)-1]`
abbrev pub inner : Bytes → Result Error Bytes
inner line = if ltb (length line - 1) 1 then panic else ok (take (length line - 2) (drop 1 line))

abbrev pub is_block_tag : Bytes → Bool
is_block_tag tag =
    bytes_eq tag (codes "ca") || bytes_eq tag (codes "cert") || bytes_eq tag (codes "key")

-- The tag of a block that the line opens.
unfoldable pub opened : Bytes → Result Error (Option Bytes)
opened line =
    if has_prefix (codes "<") line && has_suffix (codes ">") line
    then (inner line >>= λ tag. ok (if is_block_tag tag then some tag else none))
    else ok none

-- `failed` tells whether scanner.Err is an error.
abbrev pub finish : Bool → Profile → Result Error Profile
finish failed p =
    if failed then err read_error else if is_empty p.remote then err no_remote else ok p

module _ (lib : Library) where
  -- What a line does that stands in no block.
  abbrev pub outer_line : State → Bytes → Option Bytes → Result Error State
  outer_line st line (some tag) = ok (record st { inline_tag = tag; inline_buf = [] })
  outer_line st line none =
      parse_fields lib st.profile (lib.fields line) >>= λ p. ok (record st { profile = p })

  -- One round of the loop, on the line that TrimSpace leaves.
  unfoldable pub trimmed_line : State → Bytes → Result Error State
  trimmed_line st line =
      if is_skipped line
      then ok st
      else if not (is_empty st.inline_tag)
      then ok (inline_line st line)
      else opened line >>= λ tag. outer_line st line tag

  unfoldable pub parse_lines : List Bytes → State → Result Error State
  parse_lines [] st = ok st
  parse_lines (line ∷ lines) st =
      trimmed_line st (lib.trim_space line) >>= λ st'. parse_lines lines st'

  unfoldable pub parse_file : List Bytes → Bool → Result Error Profile
  parse_file lines failed = parse_lines lines start >>= λ st. finish failed st.profile
