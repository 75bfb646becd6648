-- ===== src/Relay/Tests.antt =====
-- Frames, and the theorems at them.
use go_openlawsvpn.Base.{
  ◌≡◌, refl, arith, inl, true, false, List, [], ◌∷◌, ◌++◌, none, some, ok, Bytes,
}
use go_openlawsvpn.Compress.{codes}
use go_openlawsvpn.Relay.{Input, arrives, deadline, read_message}
use go_openlawsvpn.Relay.Wire.{arriving, wire_frame}
use go_openlawsvpn.Relay.Message.{part, ping, wire, read_message-fragments}
use go_openlawsvpn.Relay.Deadline.{read_message_loses}

abbrev key : Bytes
key = 1 ∷ 2 ∷ 3 ∷ 4 ∷ []

read_message-fragments_example :
    read_message (
      arriving (wire_frame false 1 none (codes "he"))
      ++ (arriving (wire (ping (some key) (7 ∷ []) ∷ part (some key) (codes "ll") ∷ []))
          ++ (arriving (wire_frame true 0 (some key) (codes "o")) ++ arriving (codes "next"))))
    ≡ ok (codes "hello", (7 ∷ []) ∷ [], arriving (codes "next"))
read_message-fragments_example =
    read_message-fragments 1 none (codes "he")
      (ping (some key) (7 ∷ []) ∷ part (some key) (codes "ll") ∷ []) (some key) (codes "o")
      (arriving (codes "next")) (inl refl) tt (omega arith) (omega arith) (omega arith)
      (omega arith) refl

abbrev stream : List Input
stream = deadline ∷ arriving (wire_frame true 1 none (codes "hi"))

read_message_loses_example :
    read_message (arrives 0x81 ∷ deadline ∷ arriving (codes "hi"))
    ≡ read_message (arriving (codes "hi"))
read_message_loses_example = read_message_loses 0x81 (arriving (codes "hi"))
