-- ===== src/Routing/Push/Tests.antt =====
-- Replies, and the theorems at them.
use go_openlawsvpn.Base.{bytes_eq, ◌≡◌, ◌⊎◌, refl, [], ◌∷◌, ok, err, Bytes}
use go_openlawsvpn.Compress.{codes}
use go_openlawsvpn.Text.{split}
use go_openlawsvpn.Text.Samples.{ascii}
use go_openlawsvpn.Routing.Push.{PushOptions, Error, find_name, directive_of}
use go_openlawsvpn.Routing.Push.Directives.{parse_push_reply}
use go_openlawsvpn.Routing.Push.Consistent.Options.{IsConsistent}
use go_openlawsvpn.Routing.Push.Consistent.{parse_push_reply-IsConsistent}
use go_openlawsvpn.Routing.Push.Ignored.{IsUnknown}

abbrev reply : Bytes
reply = codes "PUSH_REPLY,topology subnet,ping 10,ping-restart 120,ping-exit 30,mssfix 1400"

parse_push_reply-IsConsistent_example :
    ((e : Error) × (parse_push_reply ascii reply ≡ err e))
    ⊎ ((o : PushOptions) × (parse_push_reply ascii reply ≡ ok o) × IsConsistent o)
parse_push_reply-IsConsistent_example = parse_push_reply-IsConsistent ascii reply

abbrev text : Bytes
text = codes "dhcp-option DNS 10.0.0.2"

text-IsUnknown : IsUnknown ascii text
unfolding split directive_of find_name bytes_eq
text-IsUnknown = (codes "dhcp-option", codes "DNS" ∷ codes "10.0.0.2" ∷ [], refl, refl)
