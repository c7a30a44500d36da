-- ===== src/Protocol/Event/References.antt =====
-- protocol/event.rs: what an event refers to by its tags, against membership in its list of tags.
use mathlib.Core.List.{not-mem-nil, mem-cons_self}
use mathlib.Core.Logic.Or
use nostrd.Base.{
  ◌≢◌, Bool-cases, inl, inr, String, ◌≡◌, refl, ◌↔◌, Option, none, some, List, [], ◌∷◌, Mem, Bool,
  true, false, arith, any, keep, eqb, eqb_iff, contains_iff, mem-any, any-mem, mem-keep,
  mem-set_extend,
}
use nostrd.Primitives.{Primitives, EventId, PublicKey}
use nostrd.Protocol.Event.{
  Event, get_tags_of_type, get_event_tags, get_pubkey_tags, refs_event, refs_pubkey, tag_intersect,
  tag_type_intersect, unwrap_or,
}
use nostrd.Protocol.Tags.{
  Tag, Tag-discrete, event, pubkey, TagType, TagType-discrete, event_type, pubkey_type, get_type,
  match_event_id, match_pubkey, from_event_id, from_pubkey,
}

module _ ⦃lib : Primitives⦄ where
  of_type : TagType → Tag → Bool
  of_type tagtype tag = eqb TagType-discrete (get_type tag) tagtype

  -- what `get_tags_of_type` returns for the tags that pass
  nonempty : List Tag → Option (List Tag)
  nonempty [] = none
  nonempty (t ∷ ts) = some (t ∷ ts)

  get_tags-nonempty :
      (e : Event) (t : TagType) → get_tags_of_type e t ≡ nonempty (keep (of_type t) e.tags)
  unfolding get_tags_of_type of_type nonempty
  get_tags-nonempty e t = ground arith

  nonempty-none :
      (p : Tag → Bool) (ts : List Tag)
      → (nonempty (keep p ts) ≡ none) ↔ ((t : Tag) → Mem t ts → p t ≡ false)
  unfolding nonempty
  nonempty-none p ts = (
    λ h t m. elim (Bool-cases (p t)) [
      | inl passed ↦ absurd (kept_some (keep p ts) h ((mem-keep p ts t).1 (m, passed)))
      | inr failed ↦ failed
    ],
    λ h.
        none_kept (keep p ts)
          (λ t m. let (own, passed) = (mem-keep p ts t).0 m in cc (h t own, passed)),
  )
    where
      kept_some : (ks : List Tag) {t : Tag} → nonempty ks ≡ none → ¬ Mem t ks
      kept_some [] h = not-mem-nil
      kept_some (k ∷ ks) h = λ m. cc h

      none_kept : (ks : List Tag) → ((t : Tag) → Mem t ks → ⊥) → nonempty ks ≡ none
      none_kept [] h = refl
      none_kept (k ∷ ks) h = absurd (h k mem-cons_self)

  -- No tag list is returned for a type exactly when no tag of the event has that type.
  pub get_tags_of_type-none_iff :
      (e : Event) (ty : TagType)
      → (get_tags_of_type e ty ≡ none) ↔ ((t : Tag) → Mem t e.tags → get_type t ≢ ty)
  unfolding of_type
  get_tags_of_type-none_iff e ty =
      let none_passes = nonempty-none (of_type ty) e.tags in
      rw get_tags-nonempty (
        λ h t m same. cc (none_passes.0 h t m, (eqb_iff TagType-discrete (get_type t) ty).1 same),
        λ h. none_passes.1 (λ t m. elim (Bool-cases (of_type ty t)) [
          | inl passed ↦ absurd (h t m ((eqb_iff TagType-discrete (get_type t) ty).0 passed))
          | inr failed ↦ failed
        ]),
      )

  pub get_event_tags_lem : (e : Event) → get_event_tags e ≡ get_tags_of_type e event_type
  unfolding get_event_tags
  get_event_tags_lem e = ground arith

  pub get_pubkey_tags_lem : (e : Event) → get_pubkey_tags e ≡ get_tags_of_type e pubkey_type
  unfolding get_pubkey_tags
  get_pubkey_tags_lem e = ground arith

  refs_event-any :
      (e : Event) (id : EventId)
      → refs_event e id
        ≡ any (λ tag. unwrap_or (match_event_id tag id) false) (keep (of_type event_type) e.tags)
  unfolding refs_event get_event_tags of_type any
  refs_event-any e id = ground arith

  refs_pubkey-any :
      (e : Event) (key : PublicKey)
      → refs_pubkey e key
        ≡ any (λ tag. unwrap_or (match_pubkey tag key) false) (keep (of_type pubkey_type) e.tags)
  unfolding refs_pubkey get_pubkey_tags of_type any
  refs_pubkey-any e key = ground arith

  event_match :
      (tag : Tag) (id : EventId)
      → unwrap_or (match_event_id tag id) false ≡ true
      → (url : Option String) × (tag ≡ from_event_id id url)
  unfolding match_event_id from_event_id
  event_match (event t) id h = (t.recommended_url, ground arith)
  event_match (pubkey t) id h = ground arith

  pubkey_match :
      (tag : Tag) (key : PublicKey)
      → unwrap_or (match_pubkey tag key) false ≡ true
      → (url : Option String) × (tag ≡ from_pubkey key url)
  unfolding match_pubkey from_pubkey
  pubkey_match (event t) key h = ground arith
  pubkey_match (pubkey t) key h = (t.recommended_url, ground arith)

  -- `refs_event` finds an identifier exactly when one of the tags is an event tag with that
  -- identifier, whatever its URL.
  pub refs_event_iff :
      (e : Event) (id : EventId)
      → (refs_event e id ≡ true) ↔ ((url : Option String) × Mem (from_event_id id url) e.tags)
  refs_event_iff e id = rw refs_event-any (
    λ h.
        let (tag, m, found) = mem-any _ _ h in
        let (url, same) = event_match tag id found in
        (url, rw same at ((mem-keep (of_type event_type) e.tags tag).0 m).0),
    λ s.
        any-mem _ _
          ((mem-keep (of_type event_type) e.tags (from_event_id id s.0)).1
            (s.1, unfold of_type from_event_id get_type TagType-discrete in refl))
          (unfold from_event_id match_event_id in ground arith),
  )

  -- `refs_pubkey` finds a key exactly when one of the tags is a pubkey tag with that key, whatever
  -- its URL.
  pub refs_pubkey_iff :
      (e : Event) (key : PublicKey)
      → (refs_pubkey e key ≡ true) ↔ ((url : Option String) × Mem (from_pubkey key url) e.tags)
  refs_pubkey_iff e key = rw refs_pubkey-any (
    λ h.
        let (tag, m, found) = mem-any _ _ h in
        let (url, same) = pubkey_match tag key found in
        (url, rw same at ((mem-keep (of_type pubkey_type) e.tags tag).0 m).0),
    λ s.
        any-mem _ _
          ((mem-keep (of_type pubkey_type) e.tags (from_pubkey key s.0)).1
            (s.1, unfold of_type from_pubkey get_type TagType-discrete in refl))
          (unfold from_pubkey match_pubkey in ground arith),
  )

  -- `tag_intersect` holds exactly the tags that the event and the given set share.
  pub mem-tag_intersect :
      (e : Event) (tagset : List Tag) (tag : Tag)
      → Mem tag (tag_intersect e tagset) ↔ (Mem tag e.tags × Mem tag tagset)
  unfolding tag_intersect
  mem-tag_intersect e tagset tag = (
    λ m.
        let (own, shared) = (mem-keep _ _ tag).0 m in
        (
          Or.elim squash₁ ((mem-set_extend Tag-discrete e.tags [] tag).0 own)
              (λ (r : Mem tag e.tags). r) (λ (r : Mem tag []). absurd (not-mem-nil r)),
          (contains_iff Tag-discrete tag tagset).0 shared,
        ),
    λ h. (mem-keep _ _ tag).1 (
      (mem-set_extend Tag-discrete e.tags [] tag).1 (Or.inl h.0),
      (contains_iff Tag-discrete tag tagset).1 h.1,
    ),
  )

  -- `tag_type_intersect` holds exactly the tags of the given type that the event and the given set
  -- share.
  pub mem-tag_type_intersect :
      (e : Event) (t : TagType) (tagset : List Tag) (tag : Tag)
      → Mem tag (tag_type_intersect e t tagset)
        ↔ (Mem tag e.tags × Mem tag tagset × (get_type tag ≡ t))
  unfolding tag_type_intersect
  mem-tag_type_intersect e t tagset tag = (
    λ m.
        let (shared, same) = (mem-keep _ _ tag).0 m in
        let (own, given) = (mem-tag_intersect e tagset tag).0 shared in
        (own, given, (eqb_iff TagType-discrete (get_type tag) t).0 same),
    λ h. (mem-keep _ _ tag).1 (
      (mem-tag_intersect e tagset tag).1 (h.0, h.1),
      (eqb_iff TagType-discrete (get_type tag) t).1 h.2,
    ),
  )
