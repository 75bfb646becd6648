-- ===== src/Saml.antt =====
-- auth/saml: the messages of the control channel, the CRV1 challenge, and the SAML response.
pub mod Challenge
pub mod Control
pub mod Session
pub mod Agreement
pub mod RoundTrip
pub mod Exchange
pub mod Response
pub mod Token
mod Tests
use go_openlawsvpn.Base.{
  ℕ, Bool, true, false, ◌||◌, List, if◌then◌else◌, Option, Bytes, bytes_eq, ◌++◌,
}
use go_openlawsvpn.Compress.{codes}
use go_openlawsvpn.Text.{trim_right, has_prefix, after_prefix}

pub data MsgKind : Type 0 where
  kind_unknown kind_push_reply kind_auth_failed_crv1 kind_auth_failed kind_cr_text : MsgKind
  kind_awscc kind_posture_check_interval : MsgKind

-- What goes wrong in this package; the kind is the server's message that an error stands for.
pub data Error : Type 0 where
  not_crv1 malformed_crv1 empty_state_id empty_saml_url : Error
  malformed_awscc malformed_posture : Error
  message_too_long message_has_nul read_failed no_progress write_failed short_write : Error
  authentication_failed session_expired : MsgKind → Error
  phase1_rejected phase2_rechallenged : Error
  not_a_credential missing_separator : Error
  empty_response response_too_long invalid_base64 invalid_padding invalid_xml : Error

abbrev pub crv1_prefix : Bytes
crv1_prefix = codes "AUTH_FAILED,CRV1:"

abbrev pub posture_prefix : Bytes
posture_prefix = codes "CRV1::POSTURE_CHECK_INTERVAL::"

-- The switch of ClassifyMsg, on a message without its terminator.
unfoldable pub classify_stripped : Bytes → MsgKind
classify_stripped msg =
    if has_prefix (codes "PUSH_REPLY") msg
    then kind_push_reply
    else if has_prefix crv1_prefix msg
    then kind_auth_failed_crv1
    else if has_prefix (codes "AUTH_FAILED") msg
    then kind_auth_failed
    else if bytes_eq msg (codes "CR_TEXT")
        || has_prefix (codes "CR_TEXT,") msg
        || has_prefix (codes "CR_TEXT:") msg
    then kind_cr_text
    else if has_prefix (codes "AWS_CC_MSG,") msg
    then kind_awscc
    else if has_prefix posture_prefix msg
    then kind_posture_check_interval
    else kind_unknown

unfoldable pub classify_msg : Bytes → MsgKind
classify_msg msg = classify_stripped (trim_right 0 msg)
