-- ===== src/Relay.antt =====
-- relay/relay.go: the WebSocket frames of the relay agent, readMessage and sendFrame. The connection is the
-- list of what its reader gives next, and the context is not cancelled; the four bytes of a mask key are an
-- argument.
pub mod Masking
pub mod Wire
pub mod Message
pub mod Deadline
mod Tests
use Prim.Native.Nat.{bit_and, bit_or, bit_xor}
use go_openlawsvpn.Base.{
  ℕ, zero, suc, ◌+◌, ◌*◌, ◌/◌, ◌%◌, ◌^◌, Bool, true, false, not, ◌||◌, List, [], ◌∷◌, ◌++◌, map,
  length, get_elem?, ltb, ◌==◌, if◌then◌else◌, Option, none, some, Result, ok, err, panic, ◌>>=◌,
  Bytes, put_uint32,
}
use go_openlawsvpn.Text.{is_empty}

-- A byte that arrives before the read deadline, or that deadline passing.
pub data Input : Type 0 where
  arrives : ℕ → Input
  deadline : Input

pub data Error : Type 0 where
  read_frame_header read_length read_mask_key read_payload server_closed : Error

-- How io.ReadFull ends; what it has read when the deadline passes is lost.
pub data Fill : Type 0 where
  got : Bytes → List Input → Fill
  timed_out : List Input → Fill
  ended : Fill

abbrev pub cons_fill : ℕ → Fill → Fill
cons_fill b (got bytes rest) = got (b ∷ bytes) rest
cons_fill b (timed_out rest) = timed_out rest
cons_fill b ended = ended

-- io.ReadFull.
unfoldable pub read_full : ℕ → List Input → Fill
read_full zero rdr = got [] rdr
read_full (suc n) [] = ended
read_full (suc n) (deadline ∷ rdr) = timed_out rdr
read_full (suc n) (arrives b ∷ rdr) = cons_fill b (read_full n rdr)

abbrev pub need : Fill → Error → Result Error (Bytes × List Input)
need (got bytes rest) e = ok (bytes, rest)
need (timed_out rest) e = err e
need ended e = err e

pub record Frame : Type 0 where
  pub fin : Bool
  pub opcode : ℕ
  pub payload : Bytes

-- `maskKey[i%4]`; the array has four bytes.
abbrev pub key_at : Bytes → ℕ → ℕ
key_at key i = elim (get_elem? key (i % 4)) [ none ↦ 0 | some k ↦ k ]

-- The loop `payload[i] = b ^ maskKey[i%4]`, from index `i` on.
unfoldable pub mask_from : Bytes → ℕ → Bytes → Bytes
mask_from key i [] = []
mask_from key i (b ∷ payload) = bit_xor b (key_at key i) ∷ mask_from key (suc i) payload

-- The two lengths, with the shifts as products: `int(ext[0])<<8 | int(ext[1])`, and the last four bytes of eight.
abbrev pub length16 : Bytes → ℕ
length16 (a ∷ b ∷ []) = a * 256 + b
length16 _ = 0

abbrev pub length64 : Bytes → ℕ
length64 (_ ∷ _ ∷ _ ∷ _ ∷ a ∷ b ∷ c ∷ d ∷ []) = a * 2 ^ 24 + b * 2 ^ 16 + c * 256 + d
length64 _ = 0

-- The switch on payloadLen.
unfoldable pub payload_length : ℕ → List Input → Result Error (ℕ × List Input)
payload_length len rdr =
    if len == 126
    then (need (read_full 2 rdr) read_length >>= λ ext. ok (length16 ext.0, ext.1))
    else if len == 127
    then (need (read_full 8 rdr) read_length >>= λ ext. ok (length64 ext.0, ext.1))
    else ok (len, rdr)

-- The mask key, if the frame is masked.
unfoldable pub read_mask : Bool → List Input → Result Error (Option Bytes × List Input)
read_mask false rdr = ok (none, rdr)
read_mask true rdr = need (read_full 4 rdr) read_mask_key >>= λ key. ok (some key.0, key.1)

abbrev pub unmask : Option Bytes → Bytes → Bytes
unmask none payload = payload
unmask (some key) payload = mask_from key 0 payload

-- What follows the two bytes of the header.
unfoldable pub read_body : ℕ → ℕ → List Input → Result Error (Frame × List Input)
unfolding read_full payload_length read_mask mask_from
read_body h0 h1 rdr = do
  len ← payload_length (bit_and h1 0x7F) rdr
  key ← read_mask (not (bit_and h1 0x80 == 0)) len.1
  body ← need (read_full len.0 key.1) read_payload
  let frame : Frame = record {
    fin = not (bit_and h0 0x80 == 0);
    opcode = bit_and h0 0x0F;
    payload = unmask key.0 body.0;
  }
  ok (frame, body.1)

-- What the switch on the opcode does with the message so far: deliver one, go on with what is then
-- accumulated, answer a ping, or end.
pub data Action : Type 0 where
  deliver keep pong : Bytes → Action
  close : Action

unfoldable pub on_frame : Frame → Bytes → Action
on_frame f msg =
    if f.opcode == 0
    then (if not f.fin
        then keep (msg ++ f.payload)
        else if is_empty (msg ++ f.payload)
        then keep []
        else deliver (msg ++ f.payload))
    else if f.opcode == 1 || f.opcode == 2
    then (if not f.fin
        then keep f.payload
        else if is_empty f.payload
        then keep msg
        else deliver f.payload)
    else if f.opcode == 8
    then close
    else if f.opcode == 9
    then pong f.payload
    else keep msg

-- The message, the payloads of the pongs that were sent before it, and what is left to read.
abbrev pub Received : Type 0
Received = Result Error (Bytes × List Bytes × List Input)

abbrev pub with_pong : Bytes → Received → Received
with_pong p out = out >>= λ r. ok (r.0, p ∷ r.1, r.2)

-- One round behind its header, given what the next rounds do.
abbrev pub behind_action : Action → Bytes → List Input → (Bytes → List Input → Received) → Received
behind_action (deliver m) msg rest again = ok (m, [], rest)
behind_action (keep m) msg rest again = again m rest
behind_action (pong p) msg rest again = with_pong p (again msg rest)
behind_action close msg rest again = err server_closed

abbrev pub round : Fill → Bytes → (Bytes → List Input → Received) → Received
round (got (h0 ∷ h1 ∷ []) rest) msg again =
    read_body h0 h1 rest >>= λ r. behind_action (on_frame r.0 msg) msg r.1 again
round (got _ rest) msg again = panic
round (timed_out rest) msg again = again msg rest
round ended msg again = err read_frame_header

-- The loop. A round takes one input at least, so that the number of inputs is enough fuel: without any,
-- the header cannot be read.
unfoldable pub read_loop : ℕ → Bytes → List Input → Received
read_loop zero msg rdr = err read_frame_header
read_loop (suc fuel) msg rdr = round (read_full 2 rdr) msg (λ m rest. read_loop fuel m rest)

unfoldable pub read_message : List Input → Received
unfolding read_loop
read_message rdr = read_loop (length rdr) [] rdr

-- The header of a frame up to the mask key, by the three cases on the length.
unfoldable pub frame_header : ℕ → ℕ → Bytes
frame_header opcode n =
    if ltb n 126
    then bit_or 0x80 opcode ∷ bit_or 0x80 (n % 256) ∷ []
    else if ltb n 65536
    then bit_or 0x80 opcode ∷ bit_or 0x80 126 ∷ n / 256 % 256 ∷ n % 256 ∷ []
    else bit_or 0x80 opcode ∷ bit_or 0x80 127 ∷ 0 ∷ 0 ∷ 0 ∷ 0 ∷ put_uint32 n

-- The bytes that sendFrame writes.
unfoldable pub send_frame : ℕ → Bytes → Bytes → Bytes
unfolding frame_header mask_from
send_frame opcode key payload =
    frame_header opcode (length payload) ++ (key ++ mask_from key 0 payload)

unfoldable pub send_text : Bytes → Bytes → Bytes
unfolding send_frame
send_text key payload = send_frame 0x1 key payload

unfoldable pub send_ping : Bytes → Bytes
unfolding send_frame
send_ping key = send_frame 0x9 key []
