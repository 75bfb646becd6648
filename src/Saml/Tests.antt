-- ===== src/Saml/Tests.antt =====
-- Messages of the control channel, and the theorems at them.
use go_openlawsvpn.Base.{ℕ, ◌≡◌, refl, arith, none, some, [], ◌∷◌, ◌++◌, Option, ok, Bytes, false}
use go_openlawsvpn.Compress.{codes}
use go_openlawsvpn.Text.{cut_at, after_prefix}
use go_openlawsvpn.Text.Samples.{ascii}
use go_openlawsvpn.Saml.Challenge.{Challenge, parse_crv1, remote_ip_of, parse_phase2_credential}
use go_openlawsvpn.Saml.Control.{ControlMessage, at_eof, all_written, write_control_msg}
use go_openlawsvpn.Saml.Session.{handle_phase1, complete_phase2}
use go_openlawsvpn.Saml.Exchange.{phase2_answers_phase1}
use go_openlawsvpn.Saml.Token.{
  Stamp, this, further, NotLater, next_stamp, behind_first, parse_saml_time,
  earliest_not_on_or_after, earliest_not_on_or_after-NotLater,
}

abbrev challenge : Bytes
challenge = codes "AUTH_FAILED,CRV1:R,52.1.2.3:inst-1::https://portal/x"

abbrev fields : Challenge
fields = record {
  state_id = codes "inst-1";
  saml_url = codes "https://portal/x";
  remote_ip = codes "52.1.2.3";
}

parse_challenge : parse_crv1 challenge ≡ ok fields
unfolding parse_crv1 after_prefix cut_at remote_ip_of
parse_challenge = refl

phase2_answers_phase1_example :
    (cm : ControlMessage) × (handle_phase1 ascii ((challenge ++ (0 ∷ [])) ++ codes "next") at_eof
      ≡ ok (cm, codes "next"))
    × (cm.challenge ≡ some fields)
    × (parse_phase2_credential
          (complete_phase2 ascii (codes "inst-1") (codes "PHNhbWw+") false [] at_eof all_written).0
        ≡ ok (codes "inst-1", codes "PHNhbWw+"))
unfolding write_control_msg cut_at
phase2_answers_phase1_example =
    phase2_answers_phase1 ascii challenge (codes "next") (challenge ++ (0 ∷ [])) fields
      (codes "PHNhbWw+") at_eof false [] at_eof parse_challenge refl refl

-- A decoder that takes the text as it is.
abbrev same_text : Bytes → Option Bytes
same_text s = some s

-- A clock that reads one digit, and in which no time is zero.
abbrev one_digit : Bytes → Bytes → Option ℕ
one_digit layout (c ∷ []) = some c
one_digit layout _ = none

abbrev assertion : Bytes
assertion = codes "<a NotOnOrAfter=\"7\"/><b NotOnOrAfter=\"5\"/>"

second-Stamp : Stamp (codes "5") assertion
unfolding next_stamp behind_first after_prefix cut_at
second-Stamp =
    further {stamp = codes "7"} {behind = codes "/><b NotOnOrAfter=\"5\"/>"} refl
      (this {behind = codes "/>"} refl)

earliest_not_on_or_after-NotLater_example :
    NotLater 0
      (earliest_not_on_or_after one_digit 0 assertion)
      (parse_saml_time one_digit 0 (codes "5"))
unfolding parse_saml_time
earliest_not_on_or_after-NotLater_example =
    earliest_not_on_or_after-NotLater one_digit 0 assertion (codes "5") second-Stamp (omega arith)
