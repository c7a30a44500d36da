-- ===== src/Protocol/Subscription/Serial.antt =====
-- protocol/subscription.rs: the JSON form of filters and subscriptions. The derived instances of
-- `ReqFilter` follow from its fields and their names; a field that is missing or null is `None`.
use nostrd.Base.{String, Option, none, some, List, [], ◌∷◌, map, str_eq, length, ltb, if◌then◌else◌}
use nostrd.Base.Outcome.{Outcome, ok, err, ◌>>=◌, ◌>>◌, lift, map_err, collect, ok_or, index}
use nostrd.Json.{
  Value, Fields, null, unsigned, string, array, object, end, field, array_of, to_list, as_array,
  merge, JsonError, custom, invalid_type, invalid_length,
}
use nostrd.Json.Reading.{
  u64_from_value, list_from_value, option_from_value, same_error, next, nothing_left,
}
use nostrd.Primitives.{Primitives, EventId, PublicKey}
use nostrd.Protocol.Event.Serial.{kind_to_u64, kind_from_value}
use nostrd.Protocol.Subscription.{ReqFilter, Subscription}

-- an optional field
abbrev pub option_to_value : {A : Type 0} → (A → Value) → Option A → Value
option_to_value write none = null
option_to_value write (some a) = write a

abbrev pub list_to_value : {A : Type 0} → (A → Value) → List A → Value
list_to_value write xs = array_of (map write xs)

-- `received[2..]`, after the check of the length
abbrev pub from_third : List Value → List Value
from_third (a ∷ b ∷ vs) = vs
from_third _ = []

module _ ⦃lib : Primitives⦄ where
  -- `Serialize for ReqFilter`
  unfoldable pub filter_to_value : ReqFilter → Value
  filter_to_value f = object (
      field "ids" (option_to_value (list_to_value lib.hash.to_value) f.ids) (
        field "kinds" (option_to_value (list_to_value (λ k. unsigned (kind_to_u64 k))) f.kinds) (
          field "#e" (option_to_value (list_to_value lib.hash.to_value) f.events) (
            field "#p" (option_to_value (list_to_value lib.key.to_value) f.pubkeys) (
              field "since" (option_to_value unsigned f.since) (
                field "until" (option_to_value unsigned f.until) (
                  field "authors" (option_to_value (list_to_value lib.key.to_value) f.authors)
                    end)))))))

  unfoldable pub ids_from_value : Value → Outcome JsonError (Option (List EventId))
  ids_from_value =
      option_from_value (list_from_value (λ v. lift same_error (lib.hash.from_value v)))

  unfoldable pub keys_from_value : Value → Outcome JsonError (Option (List PublicKey))
  keys_from_value =
      option_from_value (list_from_value (λ v. lift same_error (lib.key.from_value v)))

  -- One entry. The map comes from a `Value`, so no key is repeated.
  unfoldable pub read_filter_entry : ReqFilter → String → Value → Outcome JsonError ReqFilter
  read_filter_entry f key v =
      if str_eq key "ids"
      then (do a ← ids_from_value v; ok (record f { ids = a }))
      else if str_eq key "kinds"
      then (do
        a ← option_from_value (list_from_value kind_from_value) v
        ok (record f { kinds = a }))
      else if str_eq key "#e"
      then (do a ← ids_from_value v; ok (record f { events = a }))
      else if str_eq key "#p"
      then (do a ← keys_from_value v; ok (record f { pubkeys = a }))
      else if str_eq key "since"
      then (do a ← option_from_value u64_from_value v; ok (record f { since = a }))
      else if str_eq key "until"
      then (do a ← option_from_value u64_from_value v; ok (record f { until = a }))
      else if str_eq key "authors"
      then (do a ← keys_from_value v; ok (record f { authors = a }))
      else ok f

  unfoldable pub read_filter_entries : ReqFilter → Fields → Outcome JsonError ReqFilter
  read_filter_entries f end = ok f
  read_filter_entries f (field key v rest) = do
    g ← read_filter_entry f key v
    read_filter_entries g rest

  abbrev pub no_conditions : ReqFilter
  no_conditions = record {
    ids = none;
    kinds = none;
    events = none;
    pubkeys = none;
    since = none;
    until = none;
    authors = none;
  }

  unfoldable pub filter_of_seq : List Value → Outcome JsonError ReqFilter
  filter_of_seq vs = do
    (a, vs1) ← next 0 "struct ReqFilter with 7 elements" vs
    ids ← ids_from_value a
    (b, vs2) ← next 1 "struct ReqFilter with 7 elements" vs1
    kinds ← option_from_value (list_from_value kind_from_value) b
    (c, vs3) ← next 2 "struct ReqFilter with 7 elements" vs2
    events ← ids_from_value c
    (d, vs4) ← next 3 "struct ReqFilter with 7 elements" vs3
    pubkeys ← keys_from_value d
    (e, vs5) ← next 4 "struct ReqFilter with 7 elements" vs4
    since ← option_from_value u64_from_value e
    (f, vs6) ← next 5 "struct ReqFilter with 7 elements" vs5
    until ← option_from_value u64_from_value f
    (g, vs7) ← next 6 "struct ReqFilter with 7 elements" vs6
    authors ← keys_from_value g
    nothing_left (invalid_length (length vs) "fewer elements in array") vs7
    ok (record {
      ids = ids;
      kinds = kinds;
      events = events;
      pubkeys = pubkeys;
      since = since;
      until = until;
      authors = authors;
    })

  -- `Deserialize for ReqFilter`
  unfoldable pub filter_from_value : Value → Outcome JsonError ReqFilter
  filter_from_value (object fs) = read_filter_entries no_conditions fs
  filter_from_value (array vs) = filter_of_seq (to_list vs)
  filter_from_value _ = err (invalid_type "value" "struct ReqFilter")

  -- `Serialize for Subscription`
  unfoldable pub subscription_to_value : Subscription → Value
  subscription_to_value s =
      array_of (string "REQ" ∷ lib.hash.to_value s.id ∷ map filter_to_value s.filters)

  -- the check of the message flag
  unfoldable pub check_req_flag : Value → Outcome JsonError Unit
  check_req_flag (string tag) =
      if str_eq tag "REQ" then ok tt else err (custom "Invalid tag in subscription message")
  check_req_flag _ = err (invalid_type "json type in subscription message flag" "json string")

  unfoldable pub subscription_parts : Value → List Value → Outcome JsonError Subscription
  subscription_parts (string id) rest = do
    filters ← map_err (λ e. custom (lib.json.message e)) (collect filter_from_value rest)
    id ← lift custom (lib.hash.from_hex id)
    ok (record { id = id; filters = filters })
  subscription_parts _ rest = err (invalid_type "json type in subscription id" "json string")

  unfoldable pub subscription_of_values : List Value → Outcome JsonError Subscription
  subscription_of_values received =
      if ltb (length received) 3 then err (custom "Not enough data in subscription message") else do
        flag ← index received 0
        check_req_flag flag
        id ← index received 1
        subscription_parts id (from_third received)

  -- `Deserialize for Subscription`
  unfoldable pub subscription_from_value : Value → Outcome JsonError Subscription
  subscription_from_value v = do
    received ← ok_or (invalid_type "value" "a sequence") (as_array v)
    subscription_of_values (map merge received)

  -- `Subscription::calculate_id`; the conversions cannot fail
  unfoldable pub calculate_id : Subscription → EventId
  calculate_id s = lib.sha256 (lib.json.print (array_of (map filter_to_value s.filters)))
