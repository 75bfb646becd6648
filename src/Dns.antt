-- ===== src/Dns.antt =====
-- dns/dns.go: ParsePushReply and Merge. How net.IP prints an address is an argument.
pub mod Merged
pub mod Ownership
mod Tests
use go_openlawsvpn.Base.{
  Bool, true, false, ◌||◌, List, [], ◌∷◌, ◌++◌, map, if◌then◌else◌, Option, none, some, Result, ok,
  err, ◌>>=◌, Bytes, bytes_eq,
}
use go_openlawsvpn.Compress.{codes}
use go_openlawsvpn.Text.{Library, split, trim_prefix, trim_right, is_empty}

-- An address is nil if it is `none`.
pub record Config : Type 0 where
  pub servers : List (Option Bytes)
  pub search_domains : List Bytes
  pub route_domains : List Bytes

abbrev pub empty_config : Config
empty_config = record { servers = []; search_domains = []; route_domains = [] }

pub data Error : Type 0 where
  invalid_ip : Bytes → Error

module _ (lib : Library) where
  abbrev pub add_server : Config → Bytes → Option Bytes → Result Error Config
  add_server cfg text none = err (invalid_ip text)
  add_server cfg text (some ip) = ok (record cfg { servers = cfg.servers ++ (some ip ∷ []) })

  -- The switch on the kind of a dhcp-option.
  unfoldable pub dhcp_option : Config → Bytes → Bytes → Result Error Config
  dhcp_option cfg kind value =
      let word = lib.to_upper kind in
      if bytes_eq word (codes "DNS")
      then add_server cfg value (lib.parse_ip value)
      else if bytes_eq word (codes "DOMAIN")
      then ok (record cfg { search_domains = cfg.search_domains ++ (value ∷ []) })
      else if bytes_eq word (codes "DOMAIN-ROUTE")
      then ok (record cfg { route_domains = cfg.route_domains ++ (value ∷ []) })
      else ok cfg

  unfoldable pub parse_parts : Config → List Bytes → Result Error Config
  unfolding dhcp_option
  parse_parts cfg (name ∷ kind ∷ value ∷ _) =
      if lib.equal_fold name (codes "dhcp-option") then dhcp_option cfg kind value else ok cfg
  parse_parts cfg _ = ok cfg

  -- The loop over the fields.
  unfoldable pub parse_fields : Config → List Bytes → Result Error Config
  unfolding parse_parts
  parse_fields cfg [] = ok cfg
  parse_fields cfg (text ∷ fields) =
      let field = lib.trim_space text in
      (if is_empty field then ok cfg else parse_parts cfg (lib.fields field)) >>= λ next.
      parse_fields next fields

  unfoldable pub parse_push_reply : Bytes → Result Error Config
  unfolding parse_fields
  parse_push_reply msg =
      parse_fields empty_config (split b',' (trim_right 0 (trim_prefix (codes "PUSH_REPLY,") msg)))

-- Whether a key is in the map.
unfoldable pub found : Bytes → List Bytes → Bool
found key [] = false
found key (k ∷ keys) = bytes_eq key k || found key keys

-- One of the inner loops of Merge: the keys of its map, and the values that it has merged.
unfoldable pub add_new {ℓ} :
    {A : Type ℓ} → (A → Bytes) → List Bytes × List A → List A → List Bytes × List A
unfolding found
add_new key merged [] = merged
add_new key merged (x ∷ xs) =
    let again = add_new key merged xs in
    let with_it = add_new key (key x ∷ merged.0, merged.1 ++ (x ∷ [])) xs in
    if found (key x) merged.0 then again else with_it

-- The servers that are not nil.
unfoldable pub present : List (Option Bytes) → List Bytes
present [] = []
present (none ∷ servers) = present servers
present (some ip ∷ servers) = ip ∷ present servers

-- The three maps, and what is merged.
pub record Merging : Type 0 where
  pub servers : List Bytes × List Bytes
  pub search_domains : List Bytes × List Bytes
  pub route_domains : List Bytes × List Bytes

abbrev pub nothing_merged : Merging
nothing_merged = record { servers = ([], []); search_domains = ([], []); route_domains = ([], []) }

abbrev pub merged_config : Merging → Config
merged_config m = record {
  servers = map some m.servers.1;
  search_domains = m.search_domains.1;
  route_domains = m.route_domains.1;
}

module _ (ip_string to_lower : Bytes → Bytes) where
  unfoldable pub merge_config : Merging → Option Config → Merging
  unfolding add_new present
  merge_config m none = m
  merge_config m (some cfg) = record {
    servers = add_new ip_string m.servers (present cfg.servers);
    search_domains = add_new to_lower m.search_domains cfg.search_domains;
    route_domains = add_new to_lower m.route_domains cfg.route_domains;
  }

  unfoldable pub merge_loop : Merging → List (Option Config) → Merging
  unfolding merge_config
  merge_loop m [] = m
  merge_loop m (cfg ∷ configs) = merge_loop (merge_config m cfg) configs

  unfoldable pub merge : List (Option Config) → Config
  unfolding merge_loop
  merge configs = merged_config (merge_loop nothing_merged configs)
