-- ===== src/Protocol/Subscription/AskedTags.antt =====
-- protocol/subscription.rs: the tags that a filter asks for, and when an event has one of them.
use mathlib.Core.HLevel.{hedberg, ×_prop}
use mathlib.Core.List.{not-mem-nil, exists_of_mem-map, mem-map_of_mem}
use mathlib.Core.Logic.Or
use mathlib.Core.Logic.{◌∨₁◌, ∥∥₁_elim}
use nostrd.Base.{
  String, String_discrete, ◌≡◌, refl, ◌↔◌, Option, none, List, [], map, Mem, true, arith, any, eqb,
  eqb_iff, mem-any, any-mem, mem-set_extend, set_extend,
}
use nostrd.Primitives.{Primitives, EventId, PublicKey}
use nostrd.Protocol.Tags.{
  Tag, Tag-discrete, EventTag, PubkeyTag, event, pubkey, TagType-discrete, event_type, pubkey_type,
  get_type, from_event_id, from_pubkey,
}
use nostrd.Protocol.Event.{Event}
use nostrd.Protocol.Event.References.{mem-tag_intersect}
use nostrd.Protocol.Subscription.{ReqFilter, or_empty, asked_tags, filter_tag_intersect}

url_discrete : Discrete (Option String)
url_discrete = hlevel String_discrete

module _ ⦃lib : Primitives⦄ where
  mem-collected : (ts : List Tag) (t : Tag) → Mem t (set_extend Tag-discrete [] ts) → Mem t ts
  mem-collected ts t m =
      Or.elim squash₁ ((mem-set_extend Tag-discrete ts [] t).0 m) (λ (r : Mem t ts). r)
        (λ (r : Mem t []). absurd (not-mem-nil r))

  event_tags : ReqFilter → List Tag
  event_tags f = map (λ id. from_event_id id none) (or_empty f.events)

  pubkey_tags : ReqFilter → List Tag
  pubkey_tags f = map (λ key. from_pubkey key none) (or_empty f.pubkeys)

  mem-asked_tags :
      (f : ReqFilter) (t : Tag)
      → Mem t (asked_tags f) ↔ (Mem t (event_tags f) ∨₁ Mem t (pubkey_tags f))
  unfolding asked_tags event_tags pubkey_tags
  mem-asked_tags f t = (
    λ m.
        Or.elim squash₁ ((mem-set_extend Tag-discrete _ _ t).0 m)
          (λ p. Or.inr (mem-collected (pubkey_tags f) t p))
          (λ q. Or.inl (mem-collected (event_tags f) t q)),
    λ d. (mem-set_extend Tag-discrete _ _ t).1 (
        Or.elim squash₁ d (λ q. Or.inr ((mem-set_extend Tag-discrete _ [] t).1 (Or.inl q)))
          (λ p. Or.inl ((mem-set_extend Tag-discrete _ [] t).1 (Or.inl p)))),
  )

  -- An asked event tag names an asked identifier and has no URL.
  asked_event :
      (f : ReqFilter) (t : EventTag)
      → Mem (event t) (asked_tags f)
      → Mem t.event_id (or_empty f.events) × (t.recommended_url ≡ none)
  unfolding event_tags pubkey_tags from_event_id from_pubkey
  asked_event f t m =
      Or.elim (×_prop squash₁ (hedberg url_discrete _ _)) ((mem-asked_tags f (event t)).0 m)
        (λ q.
          ∥∥₁_elim (exists_of_mem-map q) (×_prop squash₁ (hedberg url_discrete _ _))
            (λ s. let same : s.0 ≡ t.event_id = cc s.2 in (rw same at s.1, cc s.2)))
        (λ p.
          ∥∥₁_elim (exists_of_mem-map p) (×_prop squash₁ (hedberg url_discrete _ _)) (λ s. cc s.2))

  asked_pubkey :
      (f : ReqFilter) (t : PubkeyTag)
      → Mem (pubkey t) (asked_tags f)
      → Mem t.pubkey (or_empty f.pubkeys) × (t.recommended_url ≡ none)
  unfolding event_tags pubkey_tags from_event_id from_pubkey
  asked_pubkey f t m =
      Or.elim (×_prop squash₁ (hedberg url_discrete _ _)) ((mem-asked_tags f (pubkey t)).0 m)
        (λ q.
          ∥∥₁_elim (exists_of_mem-map q) (×_prop squash₁ (hedberg url_discrete _ _)) (λ s. cc s.2))
        (λ p.
          ∥∥₁_elim (exists_of_mem-map p) (×_prop squash₁ (hedberg url_discrete _ _))
            (λ s. let same : s.0 ≡ t.pubkey = cc s.2 in (rw same at s.1, cc s.2)))

  asks_event :
      (f : ReqFilter) {id : EventId}
      → Mem id (or_empty f.events)
      → Mem (from_event_id id none) (asked_tags f)
  unfolding event_tags
  asks_event f m = (mem-asked_tags f _).1 (Or.inl (mem-map_of_mem (λ id. from_event_id id none) m))

  asks_pubkey :
      (f : ReqFilter) {key : PublicKey}
      → Mem key (or_empty f.pubkeys)
      → Mem (from_pubkey key none) (asked_tags f)
  unfolding pubkey_tags
  asks_pubkey f m = (mem-asked_tags f _).1 (Or.inr (mem-map_of_mem (λ key. from_pubkey key none) m))

  -- an event tag without a URL that names one of the identifiers
  abbrev pub RefersTo : List EventId → Event → Type 0
  RefersTo ids e = (id : EventId) × Mem id ids × Mem (from_event_id id none) e.tags

  abbrev pub Mentions : List PublicKey → Event → Type 0
  Mentions keys e = (key : PublicKey) × Mem key keys × Mem (from_pubkey key none) e.tags

  RefersTo-by_tag :
      (f : ReqFilter) (e : Event) (t : Tag)
      → Mem t e.tags
      → Mem t (asked_tags f)
      → get_type t ≡ event_type
      → RefersTo (or_empty f.events) e
  unfolding get_type from_event_id
  RefersTo-by_tag f e (event t) own asked h =
      let (named, bare) = asked_event f t asked in
      let same : event t ≡ event (record { event_id = t.event_id; recommended_url = none }) =
        ground arith in
      (t.event_id, named, rw same at own)
  RefersTo-by_tag f e (pubkey t) own asked h = cc

  Mentions-by_tag :
      (f : ReqFilter) (e : Event) (t : Tag)
      → Mem t e.tags
      → Mem t (asked_tags f)
      → get_type t ≡ pubkey_type
      → Mentions (or_empty f.pubkeys) e
  unfolding get_type from_pubkey
  Mentions-by_tag f e (pubkey t) own asked h =
      let (named, bare) = asked_pubkey f t asked in
      let same : pubkey t ≡ pubkey (record { pubkey = t.pubkey; recommended_url = none }) =
        ground arith in
      (t.pubkey, named, rw same at own)
  Mentions-by_tag f e (event t) own asked h = cc

  pub event_tags_found :
      (f : ReqFilter) (e : Event)
      → (any (λ tag. eqb TagType-discrete (get_type tag) event_type) (filter_tag_intersect f e)
          ≡ true)
        ↔ RefersTo (or_empty f.events) e
  unfolding filter_tag_intersect
  event_tags_found f e = (
    λ h.
        let (t, m, typed) = mem-any _ _ h in
        let (own, asked) = (mem-tag_intersect e (asked_tags f) t).0 m in
        RefersTo-by_tag f e t own asked
          ((eqb_iff TagType-discrete (get_type t) event_type).0 typed),
    λ r. any-mem _ _ ((mem-tag_intersect e (asked_tags f) _).1 (r.2, asks_event f r.1)) (
        (eqb_iff TagType-discrete (get_type (from_event_id r.0 none)) event_type).1
          (unfold from_event_id get_type in refl)),
  )

  pub pubkey_tags_found :
      (f : ReqFilter) (e : Event)
      → (any (λ tag. eqb TagType-discrete (get_type tag) pubkey_type) (filter_tag_intersect f e)
          ≡ true)
        ↔ Mentions (or_empty f.pubkeys) e
  unfolding filter_tag_intersect
  pubkey_tags_found f e = (
    λ h.
        let (t, m, typed) = mem-any _ _ h in
        let (own, asked) = (mem-tag_intersect e (asked_tags f) t).0 m in
        Mentions-by_tag f e t own asked
          ((eqb_iff TagType-discrete (get_type t) pubkey_type).0 typed),
    λ r. any-mem _ _ ((mem-tag_intersect e (asked_tags f) _).1 (r.2, asks_pubkey f r.1)) (
        (eqb_iff TagType-discrete (get_type (from_pubkey r.0 none)) pubkey_type).1
          (unfold from_pubkey get_type in refl)),
  )
