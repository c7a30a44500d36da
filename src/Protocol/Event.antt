-- ===== src/Protocol/Event.antt =====
-- protocol/event.rs: events, their kinds, and the tags that an event refers by.
pub mod References
pub mod Serial
pub mod Validity
pub mod RoundTrip
use nostrd.Base.{
  ℕ, String, Option, none, some, List, [], Bool, false, any, keep, is_empty, eqb, contains,
  set_extend, if◌then◌else◌,
}
use nostrd.Base.Outcome.{Outcome, ok, err, panic}
use text.Mathlib.Text.{get?}
use nostrd.Error.{Error}
use nostrd.Primitives.{Primitives, EventId, PublicKey, Signature}
use nostrd.Protocol.Tags.{
  Tag, Tag-discrete, TagType, TagType-discrete, event_type, pubkey_type, get_type, match_event_id,
  match_pubkey,
}

pub data EventKind : Type 0 where
  set_metadata text_note recommended_server : EventKind

unfoldable pub EventKind-discrete : Discrete EventKind
EventKind-discrete = hlevel

-- `Result::unwrap_or`, of a result that is no panic
abbrev pub unwrap_or {ℓ} : {E A : Type ℓ} → Outcome E A → A → A
unwrap_or (ok a) d = a
unwrap_or (err e) d = d
unwrap_or panic d = d

module _ ⦃lib : Primitives⦄ where
  pub record Event : Type 0 where
    pub id : EventId
    pub pubkey : PublicKey
    pub created_at : ℕ
    pub kind : EventKind
    pub tags : List Tag
    pub content : String
    pub sig : Signature

  -- `PartialEq for Event`
  unfoldable pub event_eq : Event → Event → Bool
  event_eq a b = eqb lib.hash.discrete a.id b.id

  unfoldable pub get_tags_of_type : Event → TagType → Option (List Tag)
  get_tags_of_type e tagtype =
      let tags = keep (λ tag. eqb TagType-discrete (get_type tag) tagtype) e.tags in
      if is_empty tags then none else some tags

  unfoldable pub get_event_tags : Event → Option (List Tag)
  unfolding get_tags_of_type
  get_event_tags e = elim (get_tags_of_type e event_type) [ some tags ↦ some tags | none ↦ none ]

  unfoldable pub get_pubkey_tags : Event → Option (List Tag)
  unfolding get_tags_of_type
  get_pubkey_tags e = elim (get_tags_of_type e pubkey_type) [ some tags ↦ some tags | none ↦ none ]

  unfoldable pub refs_event : Event → EventId → Bool
  refs_event e id = elim (get_event_tags e) [
    | some tags ↦ any (λ tag. unwrap_or (match_event_id tag id) false) tags
    | none ↦ false
  ]

  unfoldable pub refs_pubkey : Event → PublicKey → Bool
  refs_pubkey e key = elim (get_pubkey_tags e) [
    | some tags ↦ any (λ tag. unwrap_or (match_pubkey tag key) false) tags
    | none ↦ false
  ]

  -- A `HashSet<Tag>` is a list without repetitions; its order is never read.
  unfoldable pub tag_intersect : Event → List Tag → List Tag
  tag_intersect e tagset =
      let own_set = set_extend Tag-discrete [] e.tags in
      keep (λ tag. contains Tag-discrete tag tagset) own_set

  unfoldable pub tag_type_intersect : Event → TagType → List Tag → List Tag
  tag_type_intersect e tagtype tagset =
      keep (λ tag. eqb TagType-discrete (get_type tag) tagtype) (tag_intersect e tagset)

  -- `[..8]` of the hexadecimal text, which panics on a shorter one
  unfoldable pub get_short_event_id : Event → Outcome Error String
  get_short_event_id e = elim (get? (lib.hash.to_hex e.id) 0 8) [ none ↦ panic | some s ↦ ok s ]
