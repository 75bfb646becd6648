-- ===== src/ControlTransport.antt =====
-- internal/ctls/ctls.go: ControlTransport, the stream that TLS reads and writes, over chunks that the
-- control channel delivers and sends. A Go channel is the list of the chunks in it. A call is one step:
-- that Close may come between the test of `closed` and the send of another call is not modelled.
pub mod Stream
mod Tests
use go_openlawsvpn.Base.{
  ℕ, zero, suc, Bool, true, false, List, [], ◌∷◌, ◌++◌, length, take, drop, ltb, if◌then◌else◌,
  Bytes,
}

-- The deadlines enter as arguments of the calls.
pub record Transport : Type 0 where
  pub inbound : List Bytes
  pub outbound : List Bytes
  pub closed : Bool
  pub read_buf : Bytes
  pub capacity : ℕ

unfoldable pub new_control_transport : ℕ → Transport
new_control_transport buf_size = record {
  inbound = [];
  outbound = [];
  closed = false;
  read_buf = [];
  capacity = if ltb 0 buf_size then buf_size else 64;
}

-- What a call comes to: it returns, or it waits, as `t.inbound <- chunk` does on a full channel.
pub data Outcome {ℓ} (A : Type ℓ) : Type ℓ where
  returns : A → Outcome A
  transport_closed eof timeout waits : Outcome A

unfoldable pub inject_inbound : Transport → Bytes → Transport × Outcome (Unit {0})
inject_inbound t data_in =
    if t.closed
    then (t, transport_closed)
    else if ltb (length t.inbound) t.capacity
    then (record t { inbound = t.inbound ++ (data_in ∷ []) }, returns tt)
    else (t, waits)

-- The receive from `t.inbound` in Read: a chunk, of which `n` bytes fit into `b`.
unfoldable pub read_chunk : Transport → ℕ → List Bytes → Transport × Outcome Bytes
read_chunk t n [] = (t, if t.closed then eof else waits)
read_chunk t n (chunk ∷ rest) =
    (record t { inbound = rest; read_buf = drop n chunk }, returns (take n chunk))

-- `n` is the length of `b`; `expired` says whether the read deadline is set and has passed.
unfoldable pub read : Transport → ℕ → Bool → Transport × Outcome Bytes
unfolding read_chunk
read t n expired =
    if ltb 0 (length t.read_buf)
    then (record t { read_buf = drop n t.read_buf }, returns (take n t.read_buf))
    else if expired
    then (t, timeout)
    else read_chunk t n t.inbound

unfoldable pub write : Transport → Bytes → Bool → Transport × Outcome ℕ
write t b expired =
    if t.closed
    then (t, transport_closed)
    else if expired
    then (t, timeout)
    else if ltb (length t.outbound) t.capacity
    then (record t { outbound = t.outbound ++ (b ∷ []) }, returns (length b))
    else (t, waits)

unfoldable pub drain_outbound : Transport → Transport × Outcome Bytes
drain_outbound t = elim t.outbound [
  | [] ↦ (t, if t.closed then eof else waits)
  | chunk ∷ rest ↦ (record t { outbound = rest }, returns chunk)
]

unfoldable pub close : Transport → Transport
close t = record t { closed = true }
