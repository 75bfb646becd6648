-- ===== src/Saml/Exchange.antt =====
-- The two phases together: the credential that the client sends answers the challenge that it was sent.
use go_openlawsvpn.Base.{
  ◌≡◌, refl, sym, ap, ◌∙◌, Bool, false, ◌++◌, append_assoc, none, some, ok, Bytes,
}
use go_openlawsvpn.Compress.{codes}
use go_openlawsvpn.Text.{Library, after_prefix, cut_at, trim_right, is_empty}
use go_openlawsvpn.Text.Laws.{trim_right-front}
use go_openlawsvpn.Text.Cuts.{
  after_prefix-eq-some, cut_at-front, cut_at_pair-without, trim_right-without,
}
use go_openlawsvpn.Saml.{kind_auth_failed_crv1, crv1_prefix, classify_stripped, classify_msg}
use go_openlawsvpn.Saml.Challenge.{
  Challenge, DynamicChallenge, parse_crv1, build_phase2_password, parse_phase2_credential,
}
use go_openlawsvpn.Saml.Control.{
  ControlMessage, End, all_written, parse_control_msg, control_message, plain_message,
  write_control_msg,
}
use go_openlawsvpn.Saml.Session.{handle_phase1, complete_phase2, write_phase2_credential}
use go_openlawsvpn.Saml.Agreement.{challenges_agree, parse_crv1-eq-ok}
use go_openlawsvpn.Saml.RoundTrip.{
  write_control_msg-eq-ok, read_control_msg-write, parse_phase2_credential-build,
}

-- A text with the prefix of a challenge is one.
classify_challenge :
    (rest : Bytes) → classify_stripped (crv1_prefix ++ rest) ≡ kind_auth_failed_crv1
unfolding classify_stripped after_prefix
classify_challenge rest = refl

-- The state of a challenge is not empty and contains no colon.
state_id_lem :
    (text : Bytes) {c : Challenge}
    → parse_crv1 text ≡ ok c
    → (is_empty c.state_id ≡ false) × (cut_at b':' c.state_id ≡ none)
state_id_lem text h =
    let (rest, flags, state_rest, user_rest, user, e1, e2, e3, e4, state, url) =
      parse_crv1-eq-ok text h in
    (state, cut_at-front b':' state_rest e3)

abbrev challenge_message : Bytes → Challenge → DynamicChallenge → ControlMessage
challenge_message text c d = record (plain_message kind_auth_failed_crv1 text) {
  challenge = some c;
  dynamic_challenge = some d;
}

parse_control_msg-challenge :
    (lib : Library) (text : Bytes) (c : Challenge)
    → parse_crv1 text ≡ ok c
    → cut_at 0 text ≡ none
    → (d : DynamicChallenge) × (parse_control_msg lib text ≡ ok (challenge_message text c d))
unfolding parse_control_msg control_message classify_msg
parse_control_msg-challenge lib text c h clean =
    let (rest, flags, state_rest, user_rest, user, e1, e2, e3, e4, state, url) =
      parse_crv1-eq-ok text h in
    let (d, dynamic, same_state, same_prompt) = challenges_agree text c h in
    let stays = trim_right-without 0 text clean in
    let kind : classify_stripped text ≡ kind_auth_failed_crv1 =
      ap classify_stripped (after_prefix-eq-some crv1_prefix text e1) ∙ classify_challenge rest in
    (d, rw (stays, stays, kind, dynamic, h) refl)

-- The credential is read back if the state is one that ParseCRV1 gives and the token contains no NUL.
credential_lem :
    (state token : Bytes)
    → is_empty state ≡ false
    → cut_at b':' state ≡ none
    → cut_at 0 token ≡ none
    → parse_phase2_credential (write_phase2_credential (build_phase2_password state token))
      ≡ ok (state, token)
unfolding build_phase2_password cut_at
credential_lem state token set colons clean =
    let tail : trim_right 0 (codes "::" ++ token) ≡ codes "::" ++ token =
      trim_right-without 0 (codes "::" ++ token) (rw clean refl) in
    let whole : trim_right 0 (codes "CRV1::" ++ (state ++ (codes "::" ++ token)))
        ≡ codes "CRV1::" ++ (state ++ (codes "::" ++ token)) =
      ap (trim_right 0) (sym (append_assoc (codes "CRV1::") state (codes "::" ++ token)))
      ∙ trim_right-front 0 (codes "CRV1::" ++ state) (codes "::" ++ token) refl tail
      ∙ append_assoc (codes "CRV1::") state (codes "::" ++ token) in
    parse_phase2_credential-build state token set (cut_at_pair-without b':' state colons) whole

-- A challenge that ParseCRV1 accepts and that the server writes to the control channel: HandlePhase1
-- returns it and leaves the rest unread, and what CompletePhase2 then writes is read by
-- ParsePhase2Credential as the state of that challenge and the token, if the token contains no NUL.
pub phase2_answers_phase1 :
    (lib : Library) (text rest wire : Bytes) (c : Challenge) (token : Bytes) (end : End)
    (session_active : Bool) (answer : Bytes) (answer_end : End)
    → parse_crv1 text ≡ ok c
    → write_control_msg text 0 all_written ≡ ok wire
    → cut_at 0 token ≡ none
    → (cm : ControlMessage) × (handle_phase1 lib (wire ++ rest) end ≡ ok (cm, rest))
      × (cm.challenge ≡ some c)
      × (parse_phase2_credential
            (complete_phase2 lib c.state_id token session_active answer answer_end all_written).0
          ≡ ok (c.state_id, token))
unfolding handle_phase1 complete_phase2
phase2_answers_phase1 lib text rest wire c token end session_active answer answer_end h w clean =
    let (no_nul, fits, made) = write_control_msg-eq-ok text 0 w in
    let (d, message) = parse_control_msg-challenge lib text c h no_nul in
    let (set, colons) = state_id_lem text h in
    (
      challenge_message text c d,
      rw (read_control_msg-write lib text rest wire 0 end w, message) refl,
      refl,
      credential_lem c.state_id token set colons clean,
    )
