-- ===== src/Client/Lifecycle/Cleanup.antt =====
-- client.go: cleanup, which gives back what a tunnel holds. The calls that it makes are a list of actions.
use go_openlawsvpn.Base.{
  Bool, true, false, not, ◌&&◌, List, [], ◌∷◌, ◌++◌, if◌then◌else◌, ◌≡◌, refl,
}

-- Which fields of the client are set: dataCh, tunDev, dnsOwnership, dnsOpts, routeOwnership, pushOpts and
-- serverBypassIP, and the flag serverBypassOwned.
pub record Resources : Type 0 where
  pub data_ch : Bool
  pub tun_dev : Bool
  pub dns_ownership : Bool
  pub dns_opts : Bool
  pub route_ownership : Bool
  pub push_opts : Bool
  pub bypass_ip : Bool
  pub bypass_owned : Bool

abbrev pub no_resources : Resources
no_resources = record {
  data_ch = false;
  tun_dev = false;
  dns_ownership = false;
  dns_opts = false;
  route_ownership = false;
  push_opts = false;
  bypass_ip = false;
  bypass_owned = false;
}

pub data Action : Type 0 where
  close_data_ch cleanup_dns revert_dns cleanup_routes close_tun delete_routes : Action
  delete_bypass : Action

abbrev pub when : Bool → Action → List Action
when b a = if b then a ∷ [] else []

abbrev pub dns_actions : Resources → List Action
dns_actions r = if r.dns_ownership then cleanup_dns ∷ [] else when r.dns_opts revert_dns

-- The block on an open TUN device.
unfoldable pub cleanup_tun : Bool → Resources → Resources × List Action
cleanup_tun has_index r =
    let bypass = r.bypass_ip && r.bypass_owned in
    (
      record r {
        dns_ownership = false;
        route_ownership = false;
        tun_dev = false;
        bypass_ip = if bypass then false else r.bypass_ip;
        bypass_owned = if bypass then false else r.bypass_owned;
      },
      dns_actions r
          ++ (when r.route_ownership cleanup_routes
              ++ (close_tun
                  ∷ (when (r.push_opts && has_index && not r.route_ownership) delete_routes
                      ++ when bypass delete_bypass))),
    )

abbrev pub behind_data : Bool → Resources → Resources × List Action
behind_data has_index r = if r.tun_dev then cleanup_tun has_index r else (r, [])

unfoldable pub cleanup : Bool → Resources → Resources × List Action
unfolding cleanup_tun
cleanup has_index r =
    let rest = behind_data has_index (record r { data_ch = false }) in
    (rest.0, when r.data_ch close_data_ch ++ rest.1)

-- A second cleanup does nothing: the channel of the data is closed once, and so is the TUN device.
pub cleanup_twice :
    (has_index again : Bool) (r : Resources)
    → cleanup again (cleanup has_index r).0 ≡ ((cleanup has_index r).0, [])
unfolding cleanup cleanup_tun
cleanup_twice has_index again r = given r.tun_dev refl
  where
    given :
        (b : Bool)
        → r.tun_dev ≡ b
        → cleanup again (cleanup has_index r).0 ≡ ((cleanup has_index r).0, [])
    given true e = rw e refl
    given false e = rw e refl
