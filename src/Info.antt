-- ===== src/Info.antt =====
-- info.rs: `RelayInfo`, the public description of the relay, and the JSON form that serde derives.
pub mod Laws
use nostrd.Base.{ℕ, String, Option, none, some, List, [], ◌∷◌, map}
use nostrd.Config.{Info}
use nostrd.Json.{Value, string, unsigned, array_of, object, Fields, end, field}
use nostrd.Primitives.{Primitives, PublicKey}

module _ ⦃lib : Primitives⦄ where
  -- The program makes only one list of `supported_nips`, of positive numbers.
  pub record RelayInfo : Type 0 where
    pub id : Option String
    pub name : Option String
    pub description : Option String
    pub pubkey : Option PublicKey
    pub contact : Option String
    pub supported_nips : Option (List ℕ)
    pub software : Option String
    pub version : Option String

  -- `RelayInfo::from`; the version of the package is that of the build
  unfoldable pub relay_info : Option String → Info → RelayInfo
  relay_info version i = record {
    id = i.relay_url;
    name = i.name;
    description = i.description;
    pubkey = i.pubkey;
    contact = i.contact;
    supported_nips = some (1 ∷ 2 ∷ 11 ∷ []);
    software = some "https://github.com/rajarshimaitra/rust-nostr";
    version = version;
  }

  -- `skip_serializing_if = "Option::is_none"`
  abbrev pub optional {ℓ} : {A : Type ℓ} → String → (A → Value) → Option A → Fields → Fields
  optional key to_value none rest = rest
  optional key to_value (some a) rest = field key (to_value a) rest

  -- `Serialize for RelayInfo`
  unfoldable pub relay_info_to_value : RelayInfo → Value
  relay_info_to_value r = object (
      optional "id" string r.id (
        optional "name" string r.name (
          optional "description" string r.description (
            optional "pubkey" lib.key.to_value r.pubkey (
              optional "contact" string r.contact (
                optional "supported_nips" (λ nips. array_of (map unsigned nips)) r.supported_nips
                  (optional "software" string r.software
                    (optional "version" string r.version end))))))))
