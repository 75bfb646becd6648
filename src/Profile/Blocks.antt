-- ===== src/Profile/Blocks.antt =====
-- The inline blocks of a profile: what a block leaves in the profile, and what a missing end tag does.
use go_openlawsvpn.Base.{
  ◌≡◌, refl, sym, ap, ◌∙◌, Bool, false, Bool-cases, inl, inr, List, [], ◌∷◌, ◌++◌, All, append-nil,
  append_assoc, if◌then◌else◌, Result, ok, err, panic, ◌>>=◌, Bytes, bytes_eq,
}
use go_openlawsvpn.Compress.{codes}
use go_openlawsvpn.Text.{Library, after_prefix}
use go_openlawsvpn.Profile.{Profile}
use go_openlawsvpn.Profile.Directives.{Error}
use go_openlawsvpn.Profile.Lines.{
  State, start, is_skipped, closing, store_block, inline_line, opened, trimmed_line, parse_lines,
  finish, parse_file,
}

pub data Block : Type 0 where
  ca_block cert_block key_block : Block

abbrev pub tag_of : Block → Bytes
tag_of ca_block = codes "ca"
tag_of cert_block = codes "cert"
tag_of key_block = codes "key"

abbrev pub opening : Block → Bytes
opening b = b'<' ∷ (tag_of b ++ (b'>' ∷ []))

abbrev pub with_block : Block → Bytes → Profile → Profile
with_block ca_block text p = record p { ca = text }
with_block cert_block text p = record p { cert = text }
with_block key_block text p = record p { key = text }

store_block_lem :
    (b : Block) (text : Bytes) (p : Profile) → store_block (tag_of b) text p ≡ with_block b text p
unfolding store_block bytes_eq
store_block_lem ca_block text p = refl
store_block_lem cert_block text p = refl
store_block_lem key_block text p = refl

abbrev inside : Block → Profile → Bytes → State
inside b p text = record { profile = p; inline_tag = tag_of b; inline_buf = text }

abbrev outside_block : Profile → State
outside_block p = record { profile = p; inline_tag = []; inline_buf = [] }

module _ (lib : Library) where
  -- The lines of a block that are neither blank nor comments, trimmed and ended by a newline.
  unfoldable pub block_text : List Bytes → Bytes
  block_text [] = []
  block_text (line ∷ lines) =
      let text = lib.trim_space line in
      if is_skipped text then block_text lines else text ++ (b'\n' ∷ block_text lines)

  -- The line is not the end tag of the block.
  abbrev pub NotEnd : Block → Bytes → Type 0
  NotEnd b line = bytes_eq (lib.trim_space line) (closing (tag_of b)) ≡ false

  opening_line :
      (b : Block) (p : Profile) (buf : Bytes)
      → trimmed_line lib (record { profile = p; inline_tag = []; inline_buf = buf }) (opening b)
        ≡ ok (inside b p [])
  unfolding trimmed_line is_skipped opened after_prefix bytes_eq
  opening_line ca_block p buf = refl
  opening_line cert_block p buf = refl
  opening_line key_block p buf = refl

  body_line :
      (b : Block) (p : Profile) (text line : Bytes)
      → bytes_eq line (closing (tag_of b)) ≡ false
      → trimmed_line lib (inside b p text) line
        ≡ ok (inside b p (if is_skipped line then text else text ++ line ++ (b'\n' ∷ [])))
  unfolding trimmed_line inline_line
  body_line ca_block p text line h = elim (Bool-cases (is_skipped line)) [
    | inl e ↦ rw e refl
    | inr e ↦ rw (e, h) refl
  ]
  body_line cert_block p text line h = elim (Bool-cases (is_skipped line)) [
    | inl e ↦ rw e refl
    | inr e ↦ rw (e, h) refl
  ]
  body_line key_block p text line h = elim (Bool-cases (is_skipped line)) [
    | inl e ↦ rw e refl
    | inr e ↦ rw (e, h) refl
  ]

  block_text_step :
      (text : Bytes) (line : Bytes) (lines : List Bytes)
      → (if is_skipped (lib.trim_space line)
            then text
            else text ++ lib.trim_space line ++ (b'\n' ∷ []))
          ++ block_text lines
        ≡ text ++ block_text (line ∷ lines)
  unfolding block_text
  block_text_step text line lines = elim (Bool-cases (is_skipped (lib.trim_space line))) [
    | inl e ↦ rw e refl
    | inr e ↦ rw e (simp append_assoc)
  ]

  body_lines :
      (b : Block) (p : Profile) (body rest : List Bytes) (text : Bytes)
      → All (NotEnd b) body
      → parse_lines lib (body ++ rest) (inside b p text)
        ≡ parse_lines lib rest (inside b p (text ++ block_text body))
  unfolding parse_lines block_text
  body_lines b p [] rest text h =
      ap (λ t. parse_lines lib rest (inside b p t)) (sym (append-nil text))
  body_lines b p (line ∷ body) rest text (h, hs) =
      ap (λ r. r >>= λ st. parse_lines lib (body ++ rest) st)
        (body_line b p text (lib.trim_space line) h)
      ∙ body_lines b p body rest
          (if is_skipped (lib.trim_space line)
            then text
            else text ++ lib.trim_space line ++ (b'\n' ∷ []))
          hs
      ∙ ap (λ t. parse_lines lib rest (inside b p t)) (block_text_step text line body)

  parse_lines-append :
      (before after : List Bytes) (st : State)
      → parse_lines lib (before ++ after) st
        ≡ (parse_lines lib before st >>= λ st'. parse_lines lib after st')
  unfolding parse_lines
  parse_lines-append [] after st = refl
  parse_lines-append (line ∷ before) after st =
      behind (trimmed_line lib st (lib.trim_space line))
        (λ st'. parse_lines-append before after st')
    where
      behind :
          (r : Result Error State)
          → ((st' : State)
              → parse_lines lib (before ++ after) st'
                ≡ (parse_lines lib before st' >>= λ st''. parse_lines lib after st''))
          → (r >>= λ st'. parse_lines lib (before ++ after) st')
            ≡ ((r >>= λ st'. parse_lines lib before st') >>= λ st''. parse_lines lib after st'')
      behind (ok st') h = h st'
      behind (err e) h = refl
      behind panic h = refl

  -- If no line behind the start tag of a block is its end tag, ParseFile accepts the file just as if it
  -- ended in front of that block: none of these lines changes the profile, and none is an error.
  pub parse_file-unclosed :
      (b : Block) (p : Profile) (before body : List Bytes) (open_line : Bytes) (failed : Bool)
      → parse_lines lib before start ≡ ok (record { profile = p; inline_tag = []; inline_buf = [] })
      → lib.trim_space open_line ≡ opening b
      → All (NotEnd b) body
      → parse_file lib (before ++ (open_line ∷ body)) failed ≡ parse_file lib before failed
  unfolding parse_file parse_lines
  parse_file-unclosed b p before body open_line failed hp ho h =
      ap (λ r. r >>= λ st. finish failed st.profile)
        (parse_lines-append before (open_line ∷ body) start
          ∙ ap (λ r. r >>= λ st. parse_lines lib (open_line ∷ body) st) hp
          ∙ ap (λ t. trimmed_line lib (outside_block p) t >>= λ st. parse_lines lib body st) ho
          ∙ ap (λ r. r >>= λ st. parse_lines lib body st) (opening_line b p [])
          ∙ ap (λ l. parse_lines lib l (inside b p [])) (sym (append-nil body))
          ∙ body_lines b p body [] [] h)
      ∙ ap (λ r. r >>= λ st. finish failed st.profile) (sym hp)
