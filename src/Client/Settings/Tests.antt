-- ===== src/Client/Settings/Tests.antt =====
-- A profile with its settings, and the theorems at concrete inputs.
use go_openlawsvpn.Base.{
  ◌+◌, ◌≤◌, ◌≡◌, refl, arith, false, none, some, Option, [], ◌∷◌, replicate, pos, Bytes, bytes_eq,
}
use go_openlawsvpn.Compress.{mode_lz4, codes}
use go_openlawsvpn.Crypto.Gcm.{gcm, gcm-IsBounded}
use go_openlawsvpn.Crypto.Samples.{cipher, gcm_key, plain_aead, plain_aead-IsAead}
use go_openlawsvpn.Manager.{Manager}
use go_openlawsvpn.Manager
use go_openlawsvpn.Client.Settings.{
  Profile, PushOptions, proto_udp, effective_keepalive, effective_mss_fix, static_keepalive,
  pushed_keepalive,
}
use go_openlawsvpn.Client.Settings.Budget.{ip_header, segment, effective_mss_fix_fits}

abbrev profile : Profile
profile = record {
  ping_interval = pos 0;
  ping_restart = pos 120;
  ping_exit = pos 30;
  mss_fix = pos 0;
  mss_fix_set = false;
}

abbrev pushed : PushOptions
pushed = record { ping_interval = pos 1; ping_restart = pos 20; ping_exit = pos 0 }

pushed_timeout : (effective_keepalive profile pushed).timeout ≡ pos 20
unfolding effective_keepalive static_keepalive pushed_keepalive
pushed_timeout = refl

-- Addresses of four bytes are IPv4.
abbrev to4 : Bytes → Option Bytes
to4 (a ∷ b ∷ c ∷ d ∷ []) = some (a ∷ b ∷ c ∷ d ∷ [])
to4 _ = none

abbrev manager : Manager
manager = record {
  current = record {
    peer_id = 7;
    key_id = 0;
    encryptor = cipher;
    decryptor = cipher;
    send_seq = 0;
    replay_bit = λ _. false;
    replay_top = 0;
    replay_set = false;
  };
  secondary = none;
  previous = none;
  reneg_sec = 60;
  reneg_bytes = 1000;
  started_at = 5;
  bytes_sent = 400;
  bytes_recv = 600;
  compress = mode_lz4;
}

derived :
    effective_mss_fix bytes_eq to4 profile
      (pos 0)
      (pos 1500)
      proto_udp
      (codes "AES-256-GCM")
      mode_lz4
      (some (10 ∷ 0 ∷ 0 ∷ 1 ∷ []))
    ≡ (pos 0, pos 1397)
unfolding effective_mss_fix bytes_eq
derived = refl

effective_mss_fix_fits_example :
    ip_header to4 (some (10 ∷ 0 ∷ 0 ∷ 1 ∷ []))
      + segment proto_udp (Manager.encrypt manager (replicate 16 0) (replicate 100 9)).1
    ≤ 1450
unfolding bytes_eq gcm
effective_mss_fix_fits_example =
    effective_mss_fix_fits bytes_eq to4 profile (pos 0) proto_udp (codes "AES-256-GCM")
      (some (10 ∷ 0 ∷ 0 ∷ 1 ∷ [])) manager (replicate 16 0) (replicate 100 9) 1397 refl refl refl
      (gcm-IsBounded plain_aead gcm_key plain_aead-IsAead) refl derived (omega arith)
