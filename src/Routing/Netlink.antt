-- ===== src/Routing/Netlink.antt =====
-- routing/netlink.go: the netlink messages that add routes, and the readers of the answers of the kernel.
-- The numbers of the Linux interface that package unix names stand under its names. The socket is left out.
pub mod Messages
pub mod Replies
pub mod Layout
pub mod RoundTrip
pub mod Unaligned
pub mod Gateway
mod Tests
use go_openlawsvpn.Base.{
  ℕ, zero, suc, ◌+◌, ◌-◌, ◌*◌, ◌/◌, ◌%◌, ◌^◌, Bool, true, false, not, ◌&&◌, ◌||◌, List, [], ◌∷◌,
  ◌++◌, length, take, drop, if◌then◌else◌, ltb, leb, ◌==◌, Option, none, some, Result, ok, err,
  panic, ◌>>=◌, slice_from, Bytes, ℤ, pos, ◌≤◌, ◌≡◌, refl, le→ltb,
}

abbrev pub nlmsg_hdr_size : ℕ
nlmsg_hdr_size = 16

abbrev pub nlmsg_error : ℕ
nlmsg_error = 2

abbrev pub nlmsg_done : ℕ
nlmsg_done = 3

abbrev pub rtm_newroute : ℕ
rtm_newroute = 24

abbrev pub rta_dst : ℕ
rta_dst = 1

abbrev pub rta_oif : ℕ
rta_oif = 4

abbrev pub rta_gateway : ℕ
rta_gateway = 5

abbrev pub af_inet : ℕ
af_inet = 2

abbrev pub af_inet6 : ℕ
af_inet6 = 10

abbrev pub rt_table_main : ℕ
rt_table_main = 254

abbrev pub rtprot_static : ℕ
rtprot_static = 4

abbrev pub rt_scope_link : ℕ
rt_scope_link = 253

abbrev pub rtn_unicast : ℕ
rtn_unicast = 1

-- The flags NLM_F_REQUEST and NLM_F_ACK.
abbrev pub request_ack : ℕ
request_ack = 5

-- binary.LittleEndian
abbrev pub put_uint16_le : ℕ → Bytes
put_uint16_le n = n % 256 ∷ n / 256 % 256 ∷ []

abbrev pub put_uint32_le : ℕ → Bytes
put_uint32_le n = n % 256 ∷ n / 256 % 256 ∷ n / 2 ^ 16 % 256 ∷ n / 2 ^ 24 % 256 ∷ []

abbrev pub uint16_le {κ} : {E : Type κ} → Bytes → Result E ℕ
uint16_le (a ∷ b ∷ rest) = ok (a + b * 256)
uint16_le _ = panic

abbrev pub uint32_le {κ} : {E : Type κ} → Bytes → Result E ℕ
uint32_le (a ∷ b ∷ c ∷ d ∷ rest) = ok (a + b * 256 + c * 2 ^ 16 + d * 2 ^ 24)
uint32_le _ = panic

-- `xs[lo:hi]`, within the length of the slice.
unfoldable pub slice {ℓ κ} : {E : Type κ} {A : Type ℓ} → List A → ℕ → ℕ → Result E (List A)
slice xs lo hi = if ltb (length xs) hi || ltb hi lo then panic else ok (take (hi - lo) (drop lo xs))

-- `(n + 3) &^ 3`
abbrev pub align : ℕ → ℕ
align n = (n + 3) / 4 * 4

pub slice_inside {ℓ κ} :
    {E : Type κ} {A : Type ℓ} (xs : List A) (lo hi : ℕ)
    → lo ≤ hi
    → hi ≤ length xs
    → slice {E = E} xs lo hi ≡ ok (take (hi - lo) (drop lo xs))
unfolding slice
slice_inside xs lo hi h k = rw (le→ltb (length xs) hi k, le→ltb hi lo h) refl
