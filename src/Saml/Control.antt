-- ===== src/Saml/Control.antt =====
-- auth/saml/msg.go: ParseControlMsg, and the messages on the stream of the TLS channel.
use go_openlawsvpn.Base.{
  ℕ, ◌*◌, Bool, true, false, not, List, [], ◌∷◌, ◌++◌, length, drop, ltb, leb, ◌==◌, if◌then◌else◌,
  Option, none, some, Result, ok, err, ◌>>=◌, Bytes,
}
use go_openlawsvpn.Text.{Library, trim_right, trim_prefix, split_n, is_empty, cut_at}
use go_openlawsvpn.Saml.{
  MsgKind, Error, kind_auth_failed_crv1, kind_cr_text, kind_awscc, kind_posture_check_interval,
  malformed_awscc, malformed_posture, message_too_long, message_has_nul, read_failed, no_progress,
  write_failed, short_write, posture_prefix, classify_msg,
}
use go_openlawsvpn.Saml.Challenge.{
  Challenge, DynamicChallenge, challenge_text, need, parse_crv1, parse_dynamic_crv1,
}

pub record AwsccMetadata : Type 0 where
  pub timestamp_micros : ℕ
  pub fragment_count : ℕ
  pub fragment_index : ℕ
  pub fragment_bytes : ℕ

pub record ControlMessage : Type 0 where
  pub kind : MsgKind
  pub raw : Bytes
  pub challenge : Option Challenge
  pub dynamic_challenge : Option DynamicChallenge
  pub awscc : Option AwsccMetadata
  pub posture_check_interval_seconds : Option ℕ

abbrev pub plain_message : MsgKind → Bytes → ControlMessage
plain_message kind raw = record {
  kind = kind;
  raw = raw;
  challenge = none;
  dynamic_challenge = none;
  awscc = none;
  posture_check_interval_seconds = none;
}

-- The case of a CR_TEXT message: the prompt is what follows the word and one byte.
unfoldable pub text_challenge : Bytes → DynamicChallenge
text_challenge stripped =
    let prompt = drop 8 stripped in
    record {
      metadata = record {
        kind = challenge_text;
        flags = [];
        response_required = false;
        echo = false;
        prompt_present = not (is_empty prompt);
      };
      secrets = record { state_id = []; username = []; prompt = prompt };
    }

module _ (lib : Library) where
  -- The case of an AWS_CC_MSG.
  unfoldable pub awscc_of : List Bytes → Result Error AwsccMetadata
  awscc_of (_ ∷ (f1 ∷ (f2 ∷ (f3 ∷ (f4 ∷ []))))) = do
    timestamp ← need (lib.parse_uint f1) malformed_awscc
    count ← need (lib.parse_uint f2) malformed_awscc
    if count == 0 then err malformed_awscc else do
      index ← need (lib.parse_uint f3) malformed_awscc
      if leb count index
          then err malformed_awscc
          else ok (record {
            timestamp_micros = timestamp;
            fragment_count = count;
            fragment_index = index;
            fragment_bytes = length f4;
          })
  awscc_of _ = err malformed_awscc

  unfoldable pub posture_of : Bytes → Result Error ℕ
  posture_of stripped = do
    seconds ← need (lib.parse_uint (trim_prefix posture_prefix stripped)) malformed_posture
    if seconds == 0 then err malformed_posture else ok seconds

  -- The branches on the kind.
  unfoldable pub control_message : MsgKind → Bytes → Result Error ControlMessage
  unfolding awscc_of posture_of text_challenge
  control_message kind_auth_failed_crv1 stripped = do
    dynamic ← parse_dynamic_crv1 stripped
    c ← parse_crv1 stripped
    ok (record (plain_message kind_auth_failed_crv1 stripped) {
      challenge = some c;
      dynamic_challenge = some dynamic;
    })
  control_message kind_cr_text stripped = ok (record (plain_message kind_cr_text stripped) {
    dynamic_challenge = some (text_challenge stripped);
  })
  control_message kind_awscc stripped = do
    meta ← awscc_of (split_n 4 b',' stripped)
    ok (record (plain_message kind_awscc stripped) { awscc = some meta })
  control_message kind_posture_check_interval stripped = do
    seconds ← posture_of stripped
    ok (record (plain_message kind_posture_check_interval stripped) {
      posture_check_interval_seconds = some seconds;
    })
  control_message kind stripped = ok (plain_message kind stripped)

  unfoldable pub parse_control_msg : Bytes → Result Error ControlMessage
  unfolding control_message
  parse_control_msg msg =
      let stripped = trim_right 0 msg in control_message (classify_msg stripped) stripped

abbrev pub max_control_message_bytes : ℕ
max_control_message_bytes = 128 * 1024

-- `if maxBytes <= 0`; a negative limit is given as zero.
abbrev pub limit : ℕ → ℕ
limit max_bytes = if max_bytes == 0 then max_control_message_bytes else max_bytes

-- How a reader ends behind its last byte: at io.EOF, with another error, or by returning nothing at all.
pub data End : Type 0 where
  at_eof broken stuck : End

unfoldable pub at_end : Bytes → End → Result Error (Bytes × Bytes)
at_end buf at_eof = if is_empty buf then err read_failed else ok (buf, [])
at_end buf broken = err read_failed
at_end buf stuck = err no_progress

-- The loop of ReadControlMsg: the message, and what is left unread.
unfoldable pub collect : ℕ → Bytes → Bytes → End → Result Error (Bytes × Bytes)
unfolding at_end
collect max_bytes buf [] end = at_end buf end
collect max_bytes buf (c ∷ reader) end =
    let more = collect max_bytes (buf ++ (c ∷ [])) reader end in
    if c == 0
    then ok (buf, reader)
    else if length buf == max_bytes
    then err message_too_long
    else more

unfoldable pub read_control_msg : Library → Bytes → End → ℕ → Result Error (ControlMessage × Bytes)
unfolding collect parse_control_msg
read_control_msg lib reader end max_bytes = do
  found ← collect (limit max_bytes) [] reader end
  message ← parse_control_msg lib found.0
  ok (message, found.1)

-- How a write ended.
pub data Written : Type 0 where
  all_written part_written write_error : Written

abbrev pub contains_nul : Bytes → Bool
contains_nul msg = elim (cut_at 0 msg) [ none ↦ false | some _ ↦ true ]

-- The bytes on the wire.
unfoldable pub write_control_msg : Bytes → ℕ → Written → Result Error Bytes
write_control_msg message max_bytes written =
    if contains_nul message
    then err message_has_nul
    else if ltb (limit max_bytes) (length message)
    then err message_too_long
    else (elim written [
      | all_written ↦ ok (message ++ (0 ∷ []))
      | part_written ↦ err short_write
      | write_error ↦ err write_failed
    ])
