-- ===== src/Info/Laws.antt =====
-- info.rs: what the public description of the relay says under each key.
use mathlib.Core.Option
use nostrd.Base.{
  ◌≡◌, refl, arith, String, Option, none, some, List, [], ◌∷◌, true, any, str_eq, if◌then◌else◌,
}
use nostrd.Config.{Info}
use nostrd.Json.{Value, string, unsigned, array_of, Fields, end, field, object}
use nostrd.Info.{optional, relay_info, relay_info_to_value}
use nostrd.Primitives.{Primitives}

-- the value under a key, if there is one: the first
abbrev pub value_of : String → Fields → Option Value
value_of k end = none
value_of k (field j v rest) = if str_eq j k then some v else value_of k rest

abbrev pub keys : List String
keys =
    "id" ∷ "name" ∷ "description" ∷ "pubkey" ∷ "contact" ∷ "supported_nips" ∷ "software" ∷ "version"
    ∷ []

-- every key is one of those
abbrev pub HasKeys : Fields → Type 0
HasKeys end = Unit
HasKeys (field j v rest) = (any (λ k. str_eq k j) keys ≡ true) × HasKeys rest

abbrev first_of : Option Value → Option Value → Option Value
first_of none o = o
first_of (some v) o = some v

first_of-none : (o : Option Value) → first_of o none ≡ o
first_of-none none = refl
first_of-none (some v) = refl

module _ ⦃lib : Primitives⦄ where
  value_of-optional {ℓ} :
      {A : Type ℓ} (k key : String) (f : A → Value) (o : Option A) (rest : Fields)
      → value_of k (optional key f o rest)
        ≡ (if str_eq key k then first_of (Option.map f o) (value_of k rest) else value_of k rest)
  value_of-optional k key f none rest = ground arith
  value_of-optional k key f (some a) rest = refl

  HasKeys-optional {ℓ} :
      {A : Type ℓ} (key : String) (f : A → Value) (o : Option A) (rest : Fields)
      → any (λ k. str_eq k key) keys ≡ true
      → HasKeys rest
      → HasKeys (optional key f o rest)
  HasKeys-optional key f none rest known h = h
  HasKeys-optional key f (some a) rest known h = (known, h)

  -- The fields say what the settings and the version of the build say, and nothing is said of what
  -- these leave open.
  pub record IsDescription (build : Option String) (info : Info) (fs : Fields) : Type 0 where
    pub id : value_of "id" fs ≡ Option.map string info.relay_url
    pub name : value_of "name" fs ≡ Option.map string info.name
    pub description : value_of "description" fs ≡ Option.map string info.description
    pub pubkey : value_of "pubkey" fs ≡ Option.map lib.key.to_value info.pubkey
    pub contact : value_of "contact" fs ≡ Option.map string info.contact
    pub supported_nips :
        value_of "supported_nips" fs ≡ some (array_of (unsigned 1 ∷ unsigned 2 ∷ unsigned 11 ∷ []))
    pub software :
        value_of "software" fs ≡ some (string "https://github.com/rajarshimaitra/rust-nostr")
    pub version : value_of "version" fs ≡ Option.map string build
    pub no_other : HasKeys fs

  pub relay_info-IsDescription :
      (version : Option String) (info : Info)
      → (fs : Fields) × (relay_info_to_value (relay_info version info) ≡ object fs)
        × IsDescription version info fs
  unfolding relay_info relay_info_to_value any
  relay_info-IsDescription version info = (
    _,
    refl,
    record {
      id = simp (value_of-optional, first_of-none);
      name = simp (value_of-optional, first_of-none);
      description = simp (value_of-optional, first_of-none);
      pubkey = simp (value_of-optional, first_of-none);
      contact = simp (value_of-optional, first_of-none);
      supported_nips = simp (value_of-optional);
      software = simp (value_of-optional);
      version = simp (value_of-optional, first_of-none);
      no_other = HasKeys-optional "id" string info.relay_url _ refl (
          HasKeys-optional "name" string info.name _ refl (
            HasKeys-optional "description" string info.description _ refl (
              HasKeys-optional "pubkey" lib.key.to_value info.pubkey _ refl (
                HasKeys-optional "contact" string info.contact _ refl
                  (refl, (refl, HasKeys-optional "version" string version end refl tt))))));
    },
  )
