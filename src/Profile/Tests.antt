-- ===== src/Profile/Tests.antt =====
-- Profiles, and the theorems at them.
use go_openlawsvpn.Base.{
  ◌≡◌, ◌≢◌, ◌⊎◌, refl, true, false, List, [], ◌∷◌, ◌++◌, ok, err, Bytes, bytes_eq, pos,
}
use go_openlawsvpn.Compress.{codes}
use go_openlawsvpn.Text.{after_prefix, split}
use go_openlawsvpn.Text.Samples.{ascii}
use go_openlawsvpn.Routing.Push.{find_name}
use go_openlawsvpn.Profile.{Profile, default_profile, detect_flow, flow_aws_sso}
use go_openlawsvpn.Profile.Directives.{
  Error, Directive, directive_of, remote, port_arg, keepalive, apply, parse_fields,
}
use go_openlawsvpn.Profile.Lines.{start, is_skipped, opened, trimmed_line, parse_lines, parse_file}
use go_openlawsvpn.Profile.Valid.{IsValid}
use go_openlawsvpn.Profile.Accepted.{parse_file-IsValid}
use go_openlawsvpn.Profile.Blocks.{cert_block, parse_file-unclosed}
use go_openlawsvpn.Profile.Settings.{settings_of, parse_file-effective_keepalive}
use go_openlawsvpn.Client.Settings
use go_openlawsvpn.Client.Settings.{is_positive, effective_keepalive}

abbrev head : List Bytes
head =
    codes "# a profile"
    ∷ codes "remote cvpn-endpoint-1.prod.amazonaws.com 443"
    ∷ codes " keepalive 5 20"
    ∷ []

abbrev expected : Profile
expected = record default_profile {
  remote = codes "cvpn-endpoint-1.prod.amazonaws.com";
  port = pos 443;
  ping_interval = pos 5;
  ping_restart = pos 20;
}

head_parsed :
    parse_lines ascii head start
    ≡ ok (record { profile = expected; inline_tag = []; inline_buf = [] })
unfolding parse_lines trimmed_line is_skipped opened after_prefix split bytes_eq parse_fields
    directive_of find_name apply remote port_arg keepalive
head_parsed = refl

file_parsed : parse_file ascii head false ≡ ok expected
unfolding parse_file
file_parsed = rw head_parsed refl

flow : detect_flow expected ≡ flow_aws_sso
unfolding detect_flow after_prefix bytes_eq
flow = refl

bad_port :
    parse_file ascii (codes "port 70000" ∷ []) false
    ≡ err (Error.invalid Directive.d_port (codes "70000"))
unfolding parse_file parse_lines trimmed_line is_skipped opened after_prefix split bytes_eq
    parse_fields directive_of find_name apply
bad_port = refl

parse_file-IsValid_example :
    ((e : Error) × (parse_file ascii head false ≡ err e))
    ⊎ ((p : Profile) × (parse_file ascii head false ≡ ok p) × (p.remote ≢ []) × IsValid ascii p)
parse_file-IsValid_example = parse_file-IsValid ascii head false

abbrev pushed : Settings.PushOptions
pushed = record { ping_interval = pos 0; ping_restart = pos 0; ping_exit = pos 9 }

parse_file-effective_keepalive_example :
    (is_positive (effective_keepalive (settings_of expected) pushed).interval ≡ true)
    × (is_positive (effective_keepalive (settings_of expected) pushed).timeout ≡ true)
parse_file-effective_keepalive_example =
    parse_file-effective_keepalive ascii head false expected pushed file_parsed

parse_file-unclosed_example :
    parse_file ascii (head ++ (codes "<cert>" ∷ codes "port 99" ∷ [])) false
    ≡ parse_file ascii head false
unfolding bytes_eq
parse_file-unclosed_example =
    parse_file-unclosed ascii cert_block expected head (codes "port 99" ∷ []) (codes "<cert>") false
      head_parsed refl (refl, tt)
