-- ===== src/Dns/Merged.antt =====
-- Merge keeps one value of each key, and one for every value given.
use go_openlawsvpn.Base.{◌≡◌, Bool, false, ◌||◌, List, [], ◌∷◌, Option, none, some, Bytes, bytes_eq}
use go_openlawsvpn.Dns.{Config, found, present, Merging}

module _ {ℓ} {A : Type ℓ} (key : A → Bytes) where
  -- Whether a value with the key is among the values.
  abbrev pub has_key : Bytes → List A → Bool
  has_key k [] = false
  has_key k (x ∷ xs) = bytes_eq k (key x) || has_key k xs

  -- No two values have one key.
  abbrev pub Distinct : List A → Type 0
  Distinct [] = Unit {0}
  Distinct (x ∷ xs) = (has_key (key x) xs ≡ false) × Distinct xs

  -- The map holds the keys of the values, which are distinct.
  abbrev IsMap : List Bytes × List A → Type 0
  IsMap m = ((k : Bytes) → found k m.0 ≡ has_key k m.1) × Distinct m.1

-- Whether one of the configurations has a value with the key.
abbrev pub some_has {ℓ} :
    {A : Type ℓ} → (A → Bytes) → (Config → List A) → Bytes → List (Option Config) → Bool
some_has key values k [] = false
some_has key values k (none ∷ configs) = some_has key values k configs
some_has key values k (some cfg ∷ configs) =
    has_key key k (values cfg) || some_has key values k configs

abbrev pub servers_of : Config → List Bytes
servers_of cfg = present cfg.servers

module _ (ip_string to_lower : Bytes → Bytes) where
  abbrev AreMaps : Merging → Type 0
  AreMaps m =
      IsMap ip_string m.servers × IsMap to_lower m.search_domains × IsMap to_lower m.route_domains

  abbrev HasKeys : Merging → List (Option Config) → Merging → Bytes → Type 0
  HasKeys m configs out k =
      (has_key ip_string k out.servers.1
        ≡ has_key ip_string k m.servers.1 || some_has ip_string servers_of k configs)
      × (has_key to_lower k out.search_domains.1
          ≡ has_key to_lower k m.search_domains.1
            || some_has to_lower (λ c. c.search_domains) k configs)
      × (has_key to_lower k out.route_domains.1
          ≡ has_key to_lower k m.route_domains.1
            || some_has to_lower (λ c. c.route_domains) k configs)
