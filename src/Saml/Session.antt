-- ===== src/Saml/Session.antt =====
-- auth/saml/session.go and WrapAuthFailed of msg.go: the two phases of the challenge, over what the
-- server sends.
use go_openlawsvpn.Base.{Bool, [], ◌∷◌, ◌++◌, if◌then◌else◌, Result, ok, err, ◌>>=◌, Bytes}
use go_openlawsvpn.Compress.{codes}
use go_openlawsvpn.Text.{Library}
use go_openlawsvpn.Saml.{
  MsgKind, Error, kind_push_reply, kind_auth_failed_crv1, kind_auth_failed, authentication_failed,
  session_expired, phase1_rejected, phase2_rechallenged, write_failed, classify_msg,
}
use go_openlawsvpn.Saml.Challenge.{build_phase2_password}
use go_openlawsvpn.Saml.Control.{
  ControlMessage, End, read_control_msg, Written, all_written, part_written, write_error,
}

unfoldable pub wrap_auth_failed : Bytes → Bool → Error
wrap_auth_failed msg session_active =
    if session_active
    then session_expired (classify_msg msg)
    else authentication_failed (classify_msg msg)

unfoldable pub write_phase2_credential : Bytes → Bytes
write_phase2_credential credential = codes "AUTH_REPLY," ++ (credential ++ (0 ∷ []))

abbrev pub phase1_outcome : MsgKind → ControlMessage × Bytes → Result Error (ControlMessage × Bytes)
phase1_outcome kind_auth_failed found = err phase1_rejected
phase1_outcome _ found = ok found

module _ (lib : Library) where
  unfoldable pub handle_phase1 : Bytes → End → Result Error (ControlMessage × Bytes)
  handle_phase1 reader end = do
    found ← read_control_msg lib reader end 0
    phase1_outcome found.0.kind found

  abbrev pub phase2_outcome : MsgKind → ControlMessage → Bool → Result Error ControlMessage
  phase2_outcome kind_push_reply cm session_active = ok cm
  phase2_outcome kind_auth_failed_crv1 cm session_active = err phase2_rechallenged
  phase2_outcome _ cm session_active = err (wrap_auth_failed cm.raw session_active)

  -- The bytes written, and the outcome.
  unfoldable pub complete_phase2 :
      Bytes → Bytes → Bool → Bytes → End → Written → Bytes × Result Error ControlMessage
  complete_phase2 state_id saml_token session_active reader end written =
      let wire = write_phase2_credential (build_phase2_password state_id saml_token) in
      let answer = read_control_msg lib reader end 0 >>= λ found.
      phase2_outcome found.0.kind found.0 session_active in
      elim written [
        | write_error ↦ ([], err write_failed)
        | all_written ↦ (wire, answer)
        | part_written ↦ (wire, answer)
      ]
