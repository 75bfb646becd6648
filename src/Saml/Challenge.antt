-- ===== src/Saml/Challenge.antt =====
-- auth/saml/saml.go and msg.go: the two readers of an AUTH_FAILED,CRV1 message, and the credential that
-- answers it.
use go_openlawsvpn.Base.{
  ◌≡◌, arith, Bool, false, ◌||◌, List, [], ◌∷◌, ◌++◌, if◌then◌else◌, Option, none, some, Result, ok,
  err, ◌>>=◌, Bytes, bytes_eq, not,
}
use go_openlawsvpn.Compress.{codes}
use go_openlawsvpn.Text.{trim_right, after_prefix, cut_at, cut_at_pair, split, split_n, is_empty}
use go_openlawsvpn.Saml.{
  Error, not_crv1, malformed_crv1, empty_state_id, empty_saml_url, not_a_credential,
  missing_separator, crv1_prefix,
}

pub record Challenge : Type 0 where
  pub state_id : Bytes
  pub saml_url : Bytes
  pub remote_ip : Bytes

abbrev pub need {ℓ} : {A : Type ℓ} → Option A → Error → Result Error A
need none e = err e
need (some a) e = ok a

pub need-eq-ok {ℓ} : {A : Type ℓ} (o : Option A) (e : Error) {a : A} → need o e ≡ ok a → o ≡ some a
need-eq-ok none e h = cc
need-eq-ok (some a) e h = ground (arith, h)

-- `flagsAndIP[commaIdx+1:]`, if there is a comma.
unfoldable pub remote_ip_of : Bytes → Bytes
remote_ip_of flags_and_ip = elim (cut_at b',' flags_and_ip) [ none ↦ [] | some (_, ip) ↦ ip ]

-- The tests on the fields.
abbrev pub checked : Challenge → Result Error Challenge
checked c =
    if is_empty c.state_id
    then err empty_state_id
    else if is_empty c.saml_url
    then err empty_saml_url
    else ok c

unfoldable pub parse_crv1 : Bytes → Result Error Challenge
parse_crv1 msg = do
  rest ← need (after_prefix crv1_prefix msg) not_crv1
  flags_rest ← need (cut_at b':' rest) malformed_crv1
  state_rest ← need (cut_at b':' flags_rest.1) malformed_crv1
  user_rest ← need (cut_at b':' state_rest.1) malformed_crv1
  checked (record {
    state_id = state_rest.0;
    saml_url = user_rest.1;
    remote_ip = remote_ip_of flags_rest.0;
  })

pub data ChallengeKind : Type 0 where
  challenge_crv1 challenge_text : ChallengeKind

pub record Metadata : Type 0 where
  pub kind : ChallengeKind
  pub flags : List Bytes
  pub response_required : Bool
  pub echo : Bool
  pub prompt_present : Bool

pub record Secrets : Type 0 where
  pub state_id : Bytes
  pub username : Bytes
  pub prompt : Bytes

pub record DynamicChallenge : Type 0 where
  pub metadata : Metadata
  pub secrets : Secrets

abbrev pub flag_r : Bytes
flag_r = codes "R"

abbrev pub flag_e : Bytes
flag_e = codes "E"

-- The loop of splitChallengeFlags.
unfoldable pub known_flags : List Bytes → List Bytes
known_flags [] = []
known_flags (flag ∷ flags) =
    let rest = known_flags flags in
    if bytes_eq flag flag_r || bytes_eq flag flag_e then flag ∷ rest else rest

unfoldable pub split_challenge_flags : Bytes → List Bytes
split_challenge_flags value = known_flags (split b',' value)

-- The loop over the flags, as the question whether one of them is `flag`.
unfoldable pub contains_flag : Bytes → List Bytes → Bool
contains_flag flag [] = false
contains_flag flag (f ∷ flags) = bytes_eq f flag || contains_flag flag flags

-- What the four fields make.
abbrev pub crv1_challenge : Bytes → Bytes → Bytes → Bytes → DynamicChallenge
crv1_challenge flags state user prompt =
    let known = split_challenge_flags flags in
    record {
      metadata = record {
        kind = challenge_crv1;
        flags = known;
        response_required = contains_flag flag_r known;
        echo = contains_flag flag_e known;
        prompt_present = not (is_empty prompt);
      };
      secrets = record { state_id = state; username = user; prompt = prompt };
    }

unfoldable pub dynamic_of : List Bytes → Result Error DynamicChallenge
dynamic_of (flags ∷ (state ∷ (user ∷ (prompt ∷ [])))) =
    if is_empty state then err malformed_crv1 else ok (crv1_challenge flags state user prompt)
dynamic_of _ = err malformed_crv1

unfoldable pub parse_dynamic_crv1 : Bytes → Result Error DynamicChallenge
unfolding dynamic_of
parse_dynamic_crv1 msg = do
  rest ← need (after_prefix crv1_prefix msg) not_crv1
  dynamic_of (split_n 3 b':' rest)

unfoldable pub build_phase2_password : Bytes → Bytes → Bytes
build_phase2_password state_id saml_token =
    codes "CRV1::" ++ (state_id ++ (codes "::" ++ saml_token))

unfoldable pub parse_phase2_credential : Bytes → Result Error (Bytes × Bytes)
parse_phase2_credential msg = do
  rest ← need (after_prefix (codes "AUTH_REPLY,CRV1::") (trim_right 0 msg)) not_a_credential
  parts ← need (cut_at_pair b':' rest) missing_separator
  if is_empty parts.0 then err empty_state_id else ok parts
