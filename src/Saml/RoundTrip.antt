-- ===== src/Saml/RoundTrip.antt =====
-- The messages of the control channel are read back as they were written, and so are the fields of a
-- challenge and the credential that answers it.
use go_openlawsvpn.Base.{
  ℕ, ◌+◌, ◌≤◌, ◌≡◌, refl, sym, ap, ◌∙◌, arith, false, [], ◌∷◌, ◌++◌, append_assoc, append-nil,
  length, length-append, ◌==◌, none, some, ok, ◌>>=◌, Bytes,
}
use go_openlawsvpn.Compress.{codes}
use go_openlawsvpn.Text.{after_prefix, cut_at, cut_at_pair, is_empty, Library, trim_right}
use go_openlawsvpn.Text.Laws.{
  cut_at-eq-none, trim_right-append, trim_right-front, cut_at_pair-append, cut_at-append,
  after_prefix-append,
}
use go_openlawsvpn.Saml.{crv1_prefix}
use go_openlawsvpn.Saml.Challenge.{
  remote_ip_of, parse_crv1, build_phase2_password, parse_phase2_credential,
}
use go_openlawsvpn.Saml.Control.{
  End, all_written, limit, collect, read_control_msg, parse_control_msg, write_control_msg,
}
use go_openlawsvpn.Saml.Session.{write_phase2_credential}

-- The text of a challenge.
abbrev pub crv1_text : Bytes → Bytes → Bytes → Bytes → Bytes
crv1_text flags state user url =
    crv1_prefix ++ (flags ++ (b':' ∷ (state ++ (b':' ∷ (user ++ (b':' ∷ url))))))

-- `ParseCRV1` reads the fields of a challenge back, whatever colons the URL contains, if the state and the
-- URL are not empty and the other fields contain no colon.
parse_crv1-crv1_text :
    (flags state user url : Bytes)
    → cut_at b':' flags ≡ none
    → cut_at b':' state ≡ none
    → cut_at b':' user ≡ none
    → is_empty state ≡ false
    → is_empty url ≡ false
    → parse_crv1 (crv1_text flags state user url)
      ≡ ok (record { state_id = state; saml_url = url; remote_ip = remote_ip_of flags })
unfolding parse_crv1
parse_crv1-crv1_text flags state user url hf hs hu state_set url_set =
    rw
      (
        after_prefix-append crv1_prefix
            (flags ++ (b':' ∷ (state ++ (b':' ∷ (user ++ (b':' ∷ url)))))),
        cut_at-append b':' flags (state ++ (b':' ∷ (user ++ (b':' ∷ url)))) hf,
        cut_at-append b':' state (user ++ (b':' ∷ url)) hs,
        cut_at-append b':' user url hu,
        state_set,
        url_set,
      )
      refl

-- A message without a NUL is collected up to its terminator.
collect-append :
    (max_bytes : ℕ) (buf msg rest : Bytes) (end : End)
    → cut_at 0 msg ≡ none
    → length buf + length msg ≤ max_bytes
    → collect max_bytes buf (msg ++ (0 ∷ rest)) end ≡ ok (buf ++ msg, rest)
unfolding collect cut_at
collect-append max_bytes buf [] rest end h fits = ap (λ b. ok (b, rest)) (sym (append-nil buf))
collect-append max_bytes buf (c ∷ msg) rest end h fits =
    let (other, later) = cut_at-eq-none 0 c msg h in
    let room : (length buf == max_bytes) ≡ false = ground (arith, fits) in
    let longer : length (buf ++ (c ∷ [])) + length msg ≤ max_bytes =
      omega (arith, length-append buf (c ∷ []), fits) in
    rw (other, room)
      (collect-append max_bytes (buf ++ (c ∷ [])) msg rest end later longer
        ∙ ap (λ b. ok (b, rest)) (append_assoc buf (c ∷ []) msg))

pub write_control_msg-eq-ok :
    (message : Bytes) (max_bytes : ℕ) {wire : Bytes}
    → write_control_msg message max_bytes all_written ≡ ok wire
    → (cut_at 0 message ≡ none) × (length message ≤ limit max_bytes) × (wire ≡ message ++ (0 ∷ []))
unfolding write_control_msg
write_control_msg-eq-ok message max_bytes h = ground (arith, h)

-- What `WriteControlMsg` puts on the wire, `ReadControlMsg` reads, under the same limit, as the message
-- that `ParseControlMsg` makes of the text, and it leaves what follows unread.
pub read_control_msg-write :
    (lib : Library) (message rest wire : Bytes) (max_bytes : ℕ) (end : End)
    → write_control_msg message max_bytes all_written ≡ ok wire
    → read_control_msg lib (wire ++ rest) end max_bytes
      ≡ (parse_control_msg lib message >>= λ cm. ok (cm, rest))
unfolding read_control_msg
read_control_msg-write lib message rest wire max_bytes end h =
    let (clean, fits, made) = write_control_msg-eq-ok message max_bytes h in
    let stream : wire ++ rest ≡ message ++ (0 ∷ rest) =
      ap (λ w. w ++ rest) made ∙ append_assoc message (0 ∷ []) rest in
    rw (stream, collect-append (limit max_bytes) [] message rest end clean (omega (arith, fits)))
      refl

-- `ParsePhase2Credential` reads back the state and the token from which the credential was built, if the
-- state is not empty and neither contains nor ends in what would make two colons, and the token does not
-- end in a NUL.
pub parse_phase2_credential-build :
    (state token : Bytes)
    → is_empty state ≡ false
    → cut_at_pair b':' (state ++ (b':' ∷ [])) ≡ none
    → trim_right 0 (build_phase2_password state token) ≡ build_phase2_password state token
    → parse_phase2_credential (write_phase2_credential (build_phase2_password state token))
      ≡ ok (state, token)
unfolding parse_phase2_credential write_phase2_credential
parse_phase2_credential-build state token state_set once whole =
    let cred = build_phase2_password state token in
    let trimmed : trim_right 0 (codes "AUTH_REPLY," ++ (cred ++ (0 ∷ [])))
        ≡ codes "AUTH_REPLY," ++ cred =
      ap (trim_right 0) (sym (append_assoc (codes "AUTH_REPLY,") cred (0 ∷ [])))
      ∙ trim_right-append 0 (codes "AUTH_REPLY," ++ cred)
      ∙ trim_right-front 0 (codes "AUTH_REPLY,") cred (unfold build_phase2_password in refl)
          whole in
    let body : after_prefix (codes "AUTH_REPLY,CRV1::") (codes "AUTH_REPLY," ++ cred)
        ≡ some (state ++ (codes "::" ++ token)) =
      unfold build_phase2_password in
      after_prefix-append (codes "AUTH_REPLY,CRV1::") (state ++ (codes "::" ++ token)) in
    rw (trimmed, body, cut_at_pair-append b':' state token once, state_set) refl
