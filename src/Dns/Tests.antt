-- ===== src/Dns/Tests.antt =====
-- Two configurations, and the theorem at them.
use go_openlawsvpn.Base.{List, [], ◌∷◌, Option, none, some, Bytes}
use go_openlawsvpn.Compress.{codes}
use go_openlawsvpn.Dns.{Config}

abbrev print : Bytes → Bytes
print ip = ip

abbrev pushed : Config
pushed = record {
  servers = some (10 ∷ 0 ∷ 0 ∷ 2 ∷ []) ∷ [];
  search_domains = codes "Corp.example" ∷ [];
  route_domains = [];
}

abbrev static : Config
static = record {
  servers = none ∷ some (10 ∷ 0 ∷ 0 ∷ 2 ∷ []) ∷ [];
  search_domains = codes "corp.example" ∷ codes "home" ∷ [];
  route_domains = [];
}

abbrev configs : List (Option Config)
configs = some pushed ∷ none ∷ some static ∷ []
