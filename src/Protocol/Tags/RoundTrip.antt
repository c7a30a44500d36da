-- ===== src/Protocol/Tags/RoundTrip.antt =====
-- protocol/tags.rs: reading a tag back, and which inputs panic.
use nostrd.Base.{
  String, ◌≡◌, refl, Option, none, some, List, [], ◌∷◌, map, arith, ◌⊎◌, inl, inr, eq_iff, ◌↔◌,
}
use nostrd.Base.Outcome.{ok, panic, collect, collect-map}
use nostrd.Json.{string, array_of, to_list, from_list, to_list-from_list}
use nostrd.Primitives.{Primitives}
use nostrd.Protocol.Tags.{
  Tag, event, pubkey, tag_to_value, tag_from_value, tag_of_strings, string_element,
}

module _ ⦃lib : Primitives⦄ where
  collect_strings : (ss : List String) → collect string_element (map string ss) ≡ ok ss
  collect_strings = collect-map string string_element (λ s. unfold string_element in refl)

  -- Deserializing an array of strings is deciding on the strings.
  pub tag_from_value-strings :
      (ss : List String) → tag_from_value (array_of (map string ss)) ≡ tag_of_strings ss
  unfolding tag_from_value
  tag_from_value-strings ss = rw (to_list-from_list, collect_strings)

  -- A tag that is serialized is deserialized to itself, with its URL or without.
  pub tag_from_value-tag_to_value : (t : Tag) → tag_from_value (tag_to_value t) ≡ ok t
  unfolding tag_to_value tag_of_strings tag_from_value string_element collect to_list from_list
  tag_from_value-tag_to_value (event t) = ground (arith, lib.hash.from_hex-to_hex t.event_id)
  tag_from_value-tag_to_value (pubkey t) = ground (arith, lib.key.from_hex-to_hex t.pubkey)

  -- What a text without the elements that the code indexes leads to.
  abbrev pub IsShort : List String → Type 0
  IsShort ss = (ss ≡ []) ⊎ ((ss ≡ "e" ∷ []) ⊎ (ss ≡ "p" ∷ []))

  panic→short : (ss : List String) → tag_of_strings ss ≡ panic → IsShort ss
  unfolding tag_of_strings
  panic→short [] h = inl refl
  panic→short (s ∷ []) h = ground (arith, eq_iff s "e", eq_iff s "p")
  panic→short (s ∷ t ∷ []) h = ground arith
  panic→short (s ∷ t ∷ u ∷ []) h = ground arith
  panic→short (s ∷ t ∷ u ∷ v ∷ ss) h = ground arith

  short→panic : (ss : List String) → IsShort ss → tag_of_strings ss ≡ panic
  unfolding tag_of_strings
  short→panic ss (inl e) = rw e
  short→panic ss (inr (inl e)) = rw e
  short→panic ss (inr (inr e)) = rw e

  -- An array of strings makes the deserializer of tags panic exactly when it is empty, or is the
  -- flag "e" or "p" alone: `values[0]` and `values[1]` are read without a check of the length.
  pub tag_from_value-panic_iff :
      (ss : List String) → (tag_from_value (array_of (map string ss)) ≡ panic) ↔ IsShort ss
  tag_from_value-panic_iff ss = rw tag_from_value-strings (panic→short ss, short→panic ss)

  abbrev pub url_texts : Option String → List String
  url_texts none = []
  url_texts (some url) = url ∷ []

  -- The flag, a text that is read as the identifier, and the URL if there is one.
  abbrev pub HasShape : List String → Tag → Type 0
  HasShape ss (event t) =
      (body : String) × (lib.hash.from_hex body ≡ inr t.event_id)
      × (ss ≡ "e" ∷ body ∷ url_texts t.recommended_url)
  HasShape ss (pubkey t) =
      (body : String) × (lib.key.from_hex body ≡ inr t.pubkey)
      × (ss ≡ "p" ∷ body ∷ url_texts t.recommended_url)

  accepted→shape : (ss : List String) (t : Tag) → tag_of_strings ss ≡ ok t → HasShape ss t
  unfolding tag_of_strings
  accepted→shape [] t h = ground arith
  accepted→shape (s ∷ []) t h = ground arith
  accepted→shape (s ∷ b ∷ []) (event t) h = (b, ground arith, ground (arith, eq_iff s "e"))
  accepted→shape (s ∷ b ∷ []) (pubkey t) h = (b, ground arith, ground (arith, eq_iff s "p"))
  accepted→shape (s ∷ b ∷ u ∷ []) (event t) h = (b, ground arith, ground (arith, eq_iff s "e"))
  accepted→shape (s ∷ b ∷ u ∷ []) (pubkey t) h = (b, ground arith, ground (arith, eq_iff s "p"))
  accepted→shape (s ∷ b ∷ u ∷ v ∷ ss) t h = ground arith

  shape→accepted : (ss : List String) (t : Tag) → HasShape ss t → tag_of_strings ss ≡ ok t
  unfolding tag_of_strings
  shape→accepted ss (event t) (b, read, e) = rw e (ground arith)
  shape→accepted ss (pubkey t) (b, read, e) = rw e (ground arith)

  -- The deserializer accepts an array of strings as a tag exactly when it is the flag of the tag's
  -- type, a text that is read as the tag's identifier, and the tag's URL if there is one.
  pub tag_from_value-HasShape_iff :
      (ss : List String) (t : Tag)
      → (tag_from_value (array_of (map string ss)) ≡ ok t) ↔ HasShape ss t
  tag_from_value-HasShape_iff ss t =
      rw tag_from_value-strings (accepted→shape ss t, shape→accepted ss t)
