-- ===== src/Protocol/Subscription/RoundTrip.antt =====
-- protocol/subscription.rs: reading back filters and subscriptions, and that no text makes the
-- deserializer panic.
use nostrd.Base.{
  ℕ, ◌≡◌, ◌≢◌, refl, Option, none, some, List, [], ◌∷◌, map, arith, ltb, length, false,
}
use nostrd.Base.Outcome.{Outcome, ok, collect, collect-map}
use nostrd.Json.{Value, string, unsigned, to_list-from_list, merge, insert_field, JsonError}
use nostrd.Json.Merge.{merge-array, merge-to_value}
use nostrd.Json.Reading.{u64_from_value, list_from_value, option_from_value}
use nostrd.Primitives.{Primitives, EventId, PublicKey}
use nostrd.Protocol.Event.{EventKind}
use nostrd.Protocol.Event.Serial.{kind_to_u64, kind_from_value}
use nostrd.Protocol.Event.RoundTrip.{kind_from_value-kind_to_u64}
use nostrd.Protocol.Subscription.{ReqFilter, Subscription}
use nostrd.Protocol.Subscription.Serial.{
  option_to_value, list_to_value, filter_to_value, ids_from_value, keys_from_value,
  filter_from_value, read_filter_entries, read_filter_entry, subscription_to_value, check_req_flag,
  subscription_parts, subscription_of_values, subscription_from_value,
}

module _ {A : Type 0} (write : A → Value) (read : Value → Outcome JsonError A) where
  list_roundtrip :
      ((a : A) → read (write a) ≡ ok a)
      → (xs : List A) → list_from_value read (list_to_value write xs) ≡ ok xs
  unfolding list_from_value
  list_roundtrip h xs = rw (to_list-from_list, collect-map write read h xs)

merge-option :
    {A : Type 0} (write : A → Value)
    → ((a : A) → merge (write a) ≡ write a)
    → (o : Option A) → merge (option_to_value write o) ≡ option_to_value write o
unfolding merge
merge-option write h none = refl
merge-option write h (some a) = h a

option_list_roundtrip :
    {A : Type 0} (write : A → Value) (read : Value → Outcome JsonError A)
    → ((a : A) → read (write a) ≡ ok a)
    → (o : Option (List A))
    → option_from_value (list_from_value read) (option_to_value (list_to_value write) o) ≡ ok o
unfolding option_from_value
option_list_roundtrip write read h none = refl
option_list_roundtrip write read h (some xs) = rw (list_roundtrip write read h xs)

option_u64_roundtrip :
    (o : Option ℕ) → option_from_value u64_from_value (option_to_value unsigned o) ≡ ok o
unfolding option_from_value u64_from_value
option_u64_roundtrip none = refl
option_u64_roundtrip (some n) = refl

module _ ⦃lib : Primitives⦄ where
  ids_roundtrip :
      (o : Option (List EventId))
      → ids_from_value (option_to_value (list_to_value lib.hash.to_value) o) ≡ ok o
  unfolding ids_from_value
  ids_roundtrip = option_list_roundtrip lib.hash.to_value _ (λ a. rw lib.hash.from_value-to_value)

  keys_roundtrip :
      (o : Option (List PublicKey))
      → keys_from_value (option_to_value (list_to_value lib.key.to_value) o) ≡ ok o
  unfolding keys_from_value
  keys_roundtrip = option_list_roundtrip lib.key.to_value _ (λ a. rw lib.key.from_value-to_value)

  kinds_roundtrip :
      (o : Option (List EventKind))
      → option_from_value
          (list_from_value kind_from_value)
          (option_to_value (list_to_value (λ k. unsigned (kind_to_u64 k))) o)
        ≡ ok o
  kinds_roundtrip = option_list_roundtrip _ kind_from_value kind_from_value-kind_to_u64

  -- A filter that is serialized is deserialized to itself.
  pub filter_from_value-filter_to_value :
      (f : ReqFilter) → filter_from_value (filter_to_value f) ≡ ok f
  unfolding filter_from_value filter_to_value read_filter_entries read_filter_entry
  filter_from_value-filter_to_value f = rw (
    ids_roundtrip f.ids,
    kinds_roundtrip f.kinds,
    ids_roundtrip f.events,
    keys_roundtrip f.pubkeys,
    option_u64_roundtrip f.since,
    option_u64_roundtrip f.until,
    keys_roundtrip f.authors,
  )

  merge-ids :
      (o : Option (List EventId))
      → merge (option_to_value (list_to_value lib.hash.to_value) o)
        ≡ option_to_value (list_to_value lib.hash.to_value) o
  merge-ids = merge-option _ (merge-array lib.hash.to_value (merge-to_value lib.hash))

  merge-keys :
      (o : Option (List PublicKey))
      → merge (option_to_value (list_to_value lib.key.to_value) o)
        ≡ option_to_value (list_to_value lib.key.to_value) o
  merge-keys = merge-option _ (merge-array lib.key.to_value (merge-to_value lib.key))

  merge-kinds :
      (o : Option (List EventKind))
      → merge (option_to_value (list_to_value (λ k. unsigned (kind_to_u64 k))) o)
        ≡ option_to_value (list_to_value (λ k. unsigned (kind_to_u64 k))) o
  merge-kinds =
      merge-option _ (merge-array (λ k. unsigned (kind_to_u64 k)) (λ k. unfold merge in refl))

  merge-u64 : (o : Option ℕ) → merge (option_to_value unsigned o) ≡ option_to_value unsigned o
  merge-u64 = merge-option _ (λ n. unfold merge in refl)

  pub merge-filter : (f : ReqFilter) → merge (filter_to_value f) ≡ filter_to_value f
  unfolding filter_to_value merge insert_field
  merge-filter f = rw (
    merge-ids f.ids,
    merge-kinds f.kinds,
    merge-ids f.events,
    merge-keys f.pubkeys,
    merge-u64 f.since,
    merge-u64 f.until,
    merge-keys f.authors,
  )

  map-merge-filters :
      (fs : List ReqFilter) → map merge (map filter_to_value fs) ≡ map filter_to_value fs
  map-merge-filters [] = refl
  map-merge-filters (f ∷ fs) = rw (merge-filter f, map-merge-filters fs)

  filters_roundtrip :
      (fs : List ReqFilter) → collect filter_from_value (map merge (map filter_to_value fs)) ≡ ok fs
  filters_roundtrip fs =
      rw map-merge-filters
        (collect-map filter_to_value filter_from_value filter_from_value-filter_to_value fs)

  three_values : (a b : Value) (fs : List Value) → fs ≢ [] → ltb (length (a ∷ b ∷ fs)) 3 ≡ false
  three_values a b [] h = absurd (h refl)
  three_values a b (f ∷ fs) h = ground arith

  map_nonempty : (fs : List ReqFilter) → fs ≢ [] → map merge (map filter_to_value fs) ≢ []
  map_nonempty [] h = absurd (h refl)
  map_nonempty (f ∷ fs) h = λ e. cc

  -- A subscription with at least one filter, once serialized, is deserialized to itself.
  pub subscription_from_value-subscription_to_value :
      (s : Subscription) → s.filters ≢ [] → subscription_from_value (subscription_to_value s) ≡ ok s
  unfolding subscription_from_value subscription_to_value subscription_of_values check_req_flag
      subscription_parts merge
  subscription_from_value-subscription_to_value s some_filter =
      let enough =
        three_values (string "REQ") (string (lib.hash.to_hex s.id)) _
          (map_nonempty s.filters some_filter) in
      rw (
        to_list-from_list,
        lib.hash.to_value_lem s.id,
        enough,
        filters_roundtrip s.filters,
        lib.hash.from_hex-to_hex s.id,
      )
