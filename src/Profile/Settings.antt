-- ===== src/Profile/Settings.antt =====
-- profile/profile.go with client.go: the keepalive timers that effectiveKeepalive makes of a parsed profile,
-- and the flow of a profile that asks for SAML.
use go_openlawsvpn.Base.{
  ◌≡◌, arith, Bool, true, false, List, ok, Bytes, pos, negsuc, ℤ, lt_ℤ, inl, inr, subst,
}
use go_openlawsvpn.Text.{Library}
use go_openlawsvpn.Profile.{Profile}
use go_openlawsvpn.Profile.Valid.{AtLeast, IsValid}
use go_openlawsvpn.Profile.Accepted.{parse_file-IsValid}
use go_openlawsvpn.Profile.Lines.{parse_file}
use go_openlawsvpn.Client.Settings
use go_openlawsvpn.Client.Settings.{is_positive, effective_keepalive}
use go_openlawsvpn.Client.Settings.Timers.{effective_keepalive_lem}

-- The fields that the settings of the client read.
abbrev pub settings_of : Profile → Settings.Profile
settings_of p = record {
  ping_interval = p.ping_interval;
  ping_restart = p.ping_restart;
  ping_exit = p.ping_exit;
  mss_fix = p.mss_fix;
  mss_fix_set = p.mss_fix_set;
}

natural : (n : ℤ) → AtLeast 0 n → lt_ℤ n (pos 0) ≡ false
natural (pos n) h = ground arith
natural (negsuc n) h = absurd h

module _ (lib : Library) where
  accepted-IsValid :
      (lines : List Bytes) (failed : Bool) (p : Profile)
      → parse_file lib lines failed ≡ ok p
      → IsValid lib p
  accepted-IsValid lines failed p h = elim (parse_file-IsValid lib lines failed) [
    | inl (e, refused) ↦ cc
    | inr (q, accepted, named, valid) ↦
        let same : q ≡ p = ground (arith, h, accepted) in subst (IsValid lib) same valid
  ]

  -- For every profile that `ParseFile` accepts and every pushed options, the keepalive interval and the
  -- timeout that `effectiveKeepalive` chooses are positive.
  pub parse_file-effective_keepalive :
      (lines : List Bytes) (failed : Bool) (p : Profile) (push : Settings.PushOptions)
      → parse_file lib lines failed ≡ ok p
      → (is_positive (effective_keepalive (settings_of p) push).interval ≡ true)
        × (is_positive (effective_keepalive (settings_of p) push).timeout ≡ true)
  parse_file-effective_keepalive lines failed p push h =
      let v = accepted-IsValid lines failed p h in
      let k =
        effective_keepalive_lem (settings_of p) push (natural p.ping_interval v.2.0)
          (natural p.ping_restart v.2.1) in
      (k.0, k.1)
