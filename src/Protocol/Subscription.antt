-- ===== src/Protocol/Subscription.antt =====
-- protocol/subscription.rs: request filters, subscriptions, and which events they match.
pub mod Serial
pub mod AskedTags
pub mod Matching
pub mod RoundTrip
pub mod NoPanic
use nostrd.Base.{
  ℕ, Option, none, some, List, [], map, Bool, true, ◌&&◌, any, ltb, eqb, contains, set_extend,
}
use nostrd.Primitives.{Primitives, EventId, PublicKey}
use nostrd.Protocol.Tags.{
  Tag, Tag-discrete, TagType-discrete, event_type, pubkey_type, get_type, from_event_id,
  from_pubkey,
}
use nostrd.Protocol.Event.{EventKind, EventKind-discrete, Event, tag_intersect}

-- `Option::unwrap_or(&Vec::new())`
abbrev pub or_empty {ℓ} : {A : Type ℓ} → Option (List A) → List A
or_empty none = []
or_empty (some xs) = xs

-- `if let Some(x) = field { test(x) } else { true }`
abbrev pub if_some {ℓ} : {A : Type ℓ} → Option A → (A → Bool) → Bool
if_some none test = true
if_some (some a) test = test a

module _ ⦃lib : Primitives⦄ where
  pub record ReqFilter : Type 0 where
    pub ids : Option (List EventId)
    pub kinds : Option (List EventKind)
    pub events : Option (List EventId)
    pub pubkeys : Option (List PublicKey)
    pub since : Option ℕ
    pub until : Option ℕ
    pub authors : Option (List PublicKey)

  pub record Subscription : Type 0 where
    pub id : EventId
    pub filters : List ReqFilter

  unfoldable pub ids_match : ReqFilter → Event → Bool
  ids_match f e = if_some f.ids (contains lib.hash.discrete e.id)

  unfoldable pub author_match : ReqFilter → Event → Bool
  author_match f e = if_some f.authors (contains lib.key.discrete e.pubkey)

  -- the set of tags that the filter asks for
  unfoldable pub asked_tags : ReqFilter → List Tag
  asked_tags f =
      let event_tags =
        set_extend Tag-discrete [] (map (λ id. from_event_id id none) (or_empty f.events)) in
      let pubkey_tags =
        set_extend Tag-discrete [] (map (λ key. from_pubkey key none) (or_empty f.pubkeys)) in
      set_extend Tag-discrete event_tags pubkey_tags

  -- `ReqFilter::tag_intersect`
  unfoldable pub filter_tag_intersect : ReqFilter → Event → List Tag
  filter_tag_intersect f e = tag_intersect e (asked_tags f)

  unfoldable pub event_tag_match : ReqFilter → Event → Bool
  event_tag_match f e =
      if_some f.events (λ _.
        any (λ tag. eqb TagType-discrete (get_type tag) event_type) (filter_tag_intersect f e))

  unfoldable pub pubkey_tag_match : ReqFilter → Event → Bool
  pubkey_tag_match f e =
      if_some f.pubkeys (λ _.
        any (λ tag. eqb TagType-discrete (get_type tag) pubkey_type) (filter_tag_intersect f e))

  unfoldable pub kind_match : ReqFilter → Event → Bool
  kind_match f e = if_some f.kinds (contains EventKind-discrete e.kind)

  unfoldable pub since_match : ReqFilter → Event → Bool
  since_match f e = if_some f.since (λ since. ltb since e.created_at)

  unfoldable pub until_match : ReqFilter → Event → Bool
  until_match f e = if_some f.until (λ until. ltb e.created_at until)

  -- `ReqFilter::interested_in_event`
  unfoldable pub filter_interested : ReqFilter → Event → Bool
  filter_interested f e =
      ids_match f e
      && since_match f e
      && until_match f e
      && kind_match f e
      && author_match f e
      && pubkey_tag_match f e
      && event_tag_match f e

  -- `Subscription::interested_in_event`
  unfoldable pub interested_in_event : Subscription → Event → Bool
  interested_in_event s e = any (λ filter. filter_interested filter e) s.filters
