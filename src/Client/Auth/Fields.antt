-- ===== src/Client/Auth/Fields.antt =====
-- A key-method-2 packet carries its fields: a reader of its own gets them back.
use go_openlawsvpn.Base.{
  ℕ, suc, ◌+◌, ◌-◌, ◌*◌, ◌%◌, ◌/◌, ◌^◌, ◌<◌, ◌≡◌, refl, sym, ap, ◌∙◌, arith, Bool, true, false,
  ◌&&◌, [], ◌∷◌, ◌++◌, append_assoc, append-nil, length, length-append, take, drop, take-append,
  drop-append, ltb, ◌==◌, ==_refl, if◌then◌else◌, Option, none, some, Result, ok, err, ◌>>=◌, Bytes,
}
use go_openlawsvpn.Client.Settings.{Proto}
use go_openlawsvpn.Client.Auth.{
  build_tunnel_options, peer_info, auth_str, auth_body, auth_header, send_auth_packet, Error,
  short_header, short_body, total_len_of,
}

-- A string of `n` bytes with the NUL behind it, which must be there. A length of zero is no string.
abbrev pub ends_in_nul : Bytes → Bool
ends_in_nul (c ∷ []) = c == 0
ends_in_nul _ = false

abbrev pub field : ℕ → Bytes → Result Error (Option Bytes × Bytes)
field n r =
    if n == 0
    then ok (none, r)
    else if ltb (length r) n
    then err short_body
    else if ends_in_nul (take 1 (drop (n - 1) r))
    then ok (some (take (n - 1) r), drop n r)
    else err short_body

abbrev pub read_string : Bool → Bytes → Result Error (Option Bytes × Bytes)
read_string true (a ∷ b ∷ c ∷ d ∷ r) = field (a * 2 ^ 24 + b * 2 ^ 16 + c * 256 + d) r
read_string false (a ∷ b ∷ r) = field (a * 256 + b) r
read_string _ _ = err short_body

-- The random bytes and the four strings, where `none` is a length of zero.
pub record Fields : Type 0 where
  pub random : Bytes
  pub options : Option Bytes
  pub username : Option Bytes
  pub password : Option Bytes
  pub peer : Option Bytes

-- How a string is to stand in the packet: the AWS format has an empty one as a length of zero.
abbrev pub stored : Bool → Bytes → Option Bytes
stored true [] = none
stored true (c ∷ s) = some (c ∷ s)
stored false s = some s

unfoldable pub read_fields : Bool → Bytes → Result Error (Fields × Bytes)
read_fields aws r = do
  options ← read_string aws (drop 112 r)
  username ← read_string aws options.1
  password ← read_string aws username.1
  peer ← read_string aws password.1
  let fields : Fields = record {
    random = take 112 r;
    options = options.0;
    username = username.0;
    password = password.0;
    peer = peer.0;
  }
  ok (fields, peer.1)

-- What the first four bytes say: the length of the packet in the AWS format, zero in the stock one.
abbrev pub expected_header : Bool → Bytes → ℕ
expected_header true p = length p
expected_header false p = 0

unfoldable pub read_packet : Bool → Bytes → Result Error (Fields × Bytes)
unfolding read_fields
read_packet aws (a ∷ b ∷ c ∷ d ∷ method ∷ r) =
    if method == 2
      && total_len_of (a ∷ b ∷ c ∷ d ∷ []) == expected_header aws (a ∷ b ∷ c ∷ d ∷ method ∷ r)
    then read_fields aws r
    else err short_header
read_packet aws _ = err short_header

-- A string whose length fits in the length in front of it.
abbrev pub Fits : Bool → Bytes → Type 0
Fits true s = length s + 1 < 2 ^ 32
Fits false s = length s + 1 < 2 ^ 16

field_lem : (s rest : Bytes) → field (length s + 1) (s ++ (0 ∷ rest)) ≡ ok (some s, rest)
field_lem s rest =
    let nonzero : (length s + 1 == 0) ≡ false = ground arith in
    let room : ltb (length (s ++ (0 ∷ rest))) (length s + 1) ≡ false =
      ground (arith, length-append s (0 ∷ rest)) in
    let front : take (length s + 1 - 1) (s ++ (0 ∷ rest)) ≡ s =
      take-append (length s + 1 - 1) s (0 ∷ rest) (omega arith) in
    let nul : drop (length s + 1 - 1) (s ++ (0 ∷ rest)) ≡ 0 ∷ rest =
      drop-append (length s + 1 - 1) s (0 ∷ rest) (omega arith) in
    let behind : drop (length s + 1) (s ++ (0 ∷ rest)) ≡ rest =
      ap (drop (length s + 1)) (sym (append_assoc s (0 ∷ []) rest))
      ∙ drop-append (length s + 1) (s ++ (0 ∷ [])) rest (omega (arith, length-append s (0 ∷ []))) in
    rw (nonzero, room, nul, front, behind) refl

-- The value of the bytes of a length.
abbrev value32 : ℕ → ℕ
value32 n = n / 2 ^ 24 % 256 * 2 ^ 24 + n / 2 ^ 16 % 256 * 2 ^ 16 + n / 256 % 256 * 256 + n % 256

abbrev value16 : ℕ → ℕ
value16 n = n / 256 % 256 * 256 + n % 256

value32_lem : (n : ℕ) → n < 2 ^ 32 → value32 (n % 2 ^ 32) ≡ n
value32_lem n h = omega (arith, h)

value16_lem : (n : ℕ) → n < 2 ^ 16 → value16 (n % 2 ^ 16) ≡ n
value16_lem n h = omega (arith, h)

field-append :
    (n : ℕ) (s rest : Bytes)
    → n ≡ length s + 1
    → field n ((s ++ (0 ∷ [])) ++ rest) ≡ ok (some s, rest)
field-append n s rest h =
    ap (field n) (append_assoc s (0 ∷ []) rest)
    ∙ ap (λ k. field k (s ++ (0 ∷ rest))) h
    ∙ field_lem s rest

read_string-auth_str :
    (aws : Bool) (s rest : Bytes)
    → Fits aws s
    → read_string aws (auth_str aws s ++ rest) ≡ ok (stored aws s, rest)
read_string-auth_str true [] rest h = refl
read_string-auth_str false [] rest h =
    let room : ltb (suc (length rest)) 1 ≡ false = ground arith in rw room refl
read_string-auth_str true (c ∷ s) rest h =
    field-append (value32 ((length (c ∷ s) + 1) % 2 ^ 32)) (c ∷ s) rest
      (value32_lem (length (c ∷ s) + 1) h)
read_string-auth_str false (c ∷ s) rest h =
    field-append (value16 ((length (c ∷ s) + 1) % 2 ^ 16)) (c ∷ s) rest
      (value16_lem (length (c ∷ s) + 1) h)

read_fields-body :
    (aws : Bool) (random options username password rest : Bytes)
    → length random ≡ 112
    → Fits aws options
    → Fits aws username
    → Fits aws password
    → Fits aws peer_info
    → read_fields aws (
        random
        ++ (auth_str aws options
            ++ (auth_str aws username
                ++ (auth_str aws password ++ (auth_str aws peer_info ++ rest)))))
      ≡ ok (
        record {
          random = random;
          options = stored aws options;
          username = stored aws username;
          password = stored aws password;
          peer = stored aws peer_info;
        },
        rest,
      )
unfolding read_fields
read_fields-body aws random options username password rest h o u p i =
    rw
      (
        drop-append 112 random _ h,
        take-append 112 random _ h,
        read_string-auth_str aws options _ o,
        read_string-auth_str aws username _ u,
        read_string-auth_str aws password _ p,
        read_string-auth_str aws peer_info rest i,
      )
      refl

pub peer_info-Fits : (aws : Bool) → Fits aws peer_info
peer_info-Fits true = omega arith
peer_info-Fits false = omega arith

pub auth_header_lem :
    (body : Bytes)
    → 4 + length body < 2 ^ 32
    → total_len_of (auth_header true body) ≡ 4 + length body
auth_header_lem body h = omega (arith, h)

abbrev pub strings : Bool → Bytes → Bytes → Bytes → Bytes
strings aws options username password =
    auth_str aws options
    ++ (auth_str aws username ++ (auth_str aws password ++ auth_str aws peer_info))

read_fields-strings :
    (aws : Bool) (random options username password : Bytes)
    → length random ≡ 112
    → Fits aws options
    → Fits aws username
    → Fits aws password
    → read_fields aws (random ++ strings aws options username password)
      ≡ ok (
        record {
          random = random;
          options = stored aws options;
          username = stored aws username;
          password = stored aws password;
          peer = stored aws peer_info;
        },
        [],
      )
read_fields-strings aws random options username password h o u p =
    ap
      (λ t. read_fields aws (
        random
        ++ (auth_str aws options ++ (auth_str aws username ++ (auth_str aws password ++ t)))))
      (sym (append-nil (auth_str aws peer_info)))
    ∙ read_fields-body aws random options username password [] h o u p (peer_info-Fits aws)

-- In both formats a packet that sendAuthPacket writes holds the key method, the random bytes, the tunnel
-- options, the username, the password and the peer info, and nothing more, in the layout of its comment:
-- each string stands behind its length, which counts the NUL at its end, and that NUL is there. Only an
-- empty username or password of the AWS format differs from the comment: it is a length of zero. Each
-- string must fit in the length in front of it, and the packet in 32 bits.
pub read_packet-send :
    (digits : ℕ → Bytes) (random : Bytes) (proto : Proto) (tun_mtu : ℕ) (username password : Bytes)
    (aws : Bool)
    → length random ≡ 112
    → Fits aws (build_tunnel_options digits proto tun_mtu)
    → Fits aws username
    → Fits aws password
    → length (send_auth_packet digits random proto tun_mtu username password aws) < 2 ^ 32
    → read_packet aws (send_auth_packet digits random proto tun_mtu username password aws)
      ≡ ok (
        record {
          random = random;
          options = some (build_tunnel_options digits proto tun_mtu);
          username = stored aws username;
          password = stored aws password;
          peer = some peer_info;
        },
        [],
      )
unfolding read_packet send_auth_packet build_tunnel_options
read_packet-send digits random proto tun_mtu username password true h o u p fits =
    let options = build_tunnel_options digits proto tun_mtu in
    let body = auth_body true random options username password in
    let total : (total_len_of (auth_header true body) == 4 + length body) ≡ true =
      ap (λ n. n == 4 + length body) (auth_header_lem body (omega (arith, fits)))
      ∙ ==_refl (4 + length body) in
    let whole : (total_len_of (auth_header true body) == length (auth_header true body ++ body))
        ≡ true =
      ap (λ n. total_len_of (auth_header true body) == n) (omega arith) ∙ total in
    rw whole (read_fields-strings true random options username password h o u p)
read_packet-send digits random proto tun_mtu username password false h o u p fits =
    read_fields-strings false random (build_tunnel_options digits proto tun_mtu) username password h
      o u p
