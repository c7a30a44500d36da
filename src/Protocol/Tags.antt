-- ===== src/Protocol/Tags.antt =====
-- protocol/tags.rs: the tags of an event and their JSON form.
pub mod RoundTrip
use nostrd.Base.{
  ℕ, String, Option, none, some, List, [], ◌∷◌, ◌++◌, map, Bool, ltb, ◌==◌, str_eq, eqb, length,
  get_elem?, if◌then◌else◌, String_discrete,
}
use nostrd.Base.Outcome.{Outcome, ok, err, panic, ◌>>=◌, lift, collect, ok_or, index}
use nostrd.Json.{
  Value, string, array_of, as_array, as_str, JsonError, custom, invalid_type, invalid_value,
  invalid_length,
}
use nostrd.Error.{Error, generic_error}
use nostrd.Primitives.{Primitives, EventId, PublicKey}

pub data TagType : Type 0 where
  event_type pubkey_type : TagType

unfoldable pub TagType-discrete : Discrete TagType
TagType-discrete = hlevel

module _ ⦃lib : Primitives⦄ where
  pub record EventTag : Type 0 where
    pub event_id : EventId
    pub recommended_url : Option String

  pub record PubkeyTag : Type 0 where
    pub pubkey : PublicKey
    pub recommended_url : Option String

  pub data Tag : Type 0 where
    event : EventTag → Tag
    pubkey : PubkeyTag → Tag

  -- the derived `PartialEq`
  unfoldable pub Tag-discrete : Discrete Tag
  Tag-discrete = hlevel (lib.hash.discrete, lib.key.discrete, String_discrete)

  -- the optional last element of the sequence
  abbrev pub url_element : Option String → List Value
  url_element none = []
  url_element (some url) = string url ∷ []

  -- `Serialize for Tag`
  unfoldable pub tag_to_value : Tag → Value
  tag_to_value (event t) =
      array_of (string "e" ∷ string (lib.hash.to_hex t.event_id) ∷ url_element t.recommended_url)
  tag_to_value (pubkey t) =
      array_of (string "p" ∷ string (lib.key.to_hex t.pubkey) ∷ url_element t.recommended_url)

  -- `Display for Tag`
  unfoldable pub tag_to_string : Tag → String
  tag_to_string t = lib.json.print (tag_to_value t)

  -- the check of one element, and of all
  unfoldable pub string_element : Value → Outcome JsonError String
  string_element v = ok_or (invalid_type "tag json data" "json string") (as_str v)

  -- `if values.len() == 3 { Some(values[2].into()) } else { None }`
  unfoldable pub url_of : List String → Outcome JsonError (Option String)
  url_of values = if length values == 3 then (do url ← index values 2; ok (some url)) else ok none

  -- `match values[0]`
  unfoldable pub tag_of_flag : String → List String → Outcome JsonError Tag
  unfolding url_of
  tag_of_flag flag values =
      if str_eq flag "e"
      then (do
        text ← index values 1
        id ← lift custom (lib.hash.from_hex text)
        url ← url_of values
        ok (event (record { event_id = id; recommended_url = url })))
      else if str_eq flag "p"
      then (do
        text ← index values 1
        key ← lift custom (lib.key.from_hex text)
        url ← url_of values
        ok (pubkey (record { pubkey = key; recommended_url = url })))
      else err (invalid_value "tag type flag" "'e' or 'p'")

  -- the length check and the match
  unfoldable pub tag_of_strings : List String → Outcome JsonError Tag
  unfolding tag_of_flag
  tag_of_strings values =
      if ltb 3 (length values)
      then err (invalid_length (length values) "tag length is 2 or 3")
      else do flag ← index values 0; tag_of_flag flag values

  -- `Deserialize for Tag`
  unfoldable pub tag_from_value : Value → Outcome JsonError Tag
  tag_from_value received = do
    elements ← ok_or (invalid_type "tag json object" "json array") (as_array received)
    values ← collect string_element elements
    tag_of_strings values

  unfoldable pub from_event_id : EventId → Option String → Tag
  from_event_id id url = event (record { event_id = id; recommended_url = url })

  unfoldable pub from_pubkey : PublicKey → Option String → Tag
  from_pubkey key url = pubkey (record { pubkey = key; recommended_url = url })

  unfoldable pub get_recommended_url : Tag → Option String
  get_recommended_url (event t) = t.recommended_url
  get_recommended_url (pubkey t) = t.recommended_url

  unfoldable pub get_event_id : Tag → Outcome Error EventId
  get_event_id (event t) = ok t.event_id
  get_event_id (pubkey t) = err (generic_error "Expected event tag")

  unfoldable pub get_pubkey : Tag → Outcome Error PublicKey
  get_pubkey (pubkey t) = ok t.pubkey
  get_pubkey (event t) = err (generic_error "Expected pubkey tag")

  unfoldable pub match_event_id : Tag → EventId → Outcome Error Bool
  match_event_id (event t) id = ok (eqb lib.hash.discrete t.event_id id)
  match_event_id (pubkey t) id = err (generic_error "Pubkey Tag used for event matching")

  unfoldable pub match_pubkey : Tag → PublicKey → Outcome Error Bool
  match_pubkey (pubkey t) key = ok (eqb lib.key.discrete t.pubkey key)
  match_pubkey (event t) key = err (generic_error "Event Tag used for pubkey matching")

  unfoldable pub get_type : Tag → TagType
  get_type (event t) = event_type
  get_type (pubkey t) = pubkey_type
