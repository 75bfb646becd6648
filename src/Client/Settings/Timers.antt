-- ===== src/Client/Settings/Timers.antt =====
-- effectiveKeepalive of client.go: the timers are never switched off by the settings, and which directive
-- decides what happens when they run out.
use go_openlawsvpn.Base.{◌≡◌, ◌↔◌, ◌⊎◌, arith, true, false, pos, lt_ℤ}
use go_openlawsvpn.Client.Settings.{
  Profile, PushOptions, is_positive, static_keepalive, pushed_keepalive, effective_keepalive,
}

-- `effectiveKeepalive` on a profile without negative times returns positive times; the client is to exit
-- on the timeout exactly if ping-exit was pushed, or the profile has it and no ping-restart was pushed.
pub effective_keepalive_lem :
    (p : Profile) (push : PushOptions)
    → lt_ℤ p.ping_interval (pos 0) ≡ false
    → lt_ℤ p.ping_restart (pos 0) ≡ false
    → let k = effective_keepalive p push in
      (is_positive k.interval ≡ true)
      × (is_positive k.timeout ≡ true)
      × ((k.ping_exit ≡ true) ↔ (
          (is_positive push.ping_exit ≡ true)
          ⊎ ((is_positive push.ping_restart ≡ false) × (is_positive p.ping_exit ≡ true))))
unfolding effective_keepalive static_keepalive pushed_keepalive
effective_keepalive_lem p push hi hr =
    (ground arith, ground arith, (λ e. ground arith, λ h. ground arith))
