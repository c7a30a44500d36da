-- ===== src/Db/Query/Interest.antt =====
-- db.rs and protocol/subscription.rs: what a query selects, its subscription is interested in.
use nostrd.Base.{
  ◌&&◌, ◌≡◌, refl, inl, inr, Option, none, some, List, [], ◌∷◌, Bool, true, false, arith, any,
  any-mem, mem-any, is_empty, keep, mem-keep, contains, contains_iff, Bool-cases,
}
use nostrd.Db.Sqlite.{Engine}
use nostrd.Db.Query.{
  Component, author_in, kind_in, hash_in, referenced_event_in, referenced_pubkey_in, created_after,
  created_before, JoinedRow, is_hex, meets, meets_all, is_selected, filter_components, hex_ids,
  hex_keys,
}
use nostrd.Db.Query.Laws.{meets_all-filter_components}
use nostrd.Db.Query.Agreement.{is_listed-hash_bytes, is_listed-key_bytes, any-same_kind}
use nostrd.Db.Reader.{is_wanted}
use nostrd.Primitives.{Primitives}
use nostrd.Protocol.Event.{Event}
use nostrd.Protocol.Event.Serial.{kind_to_u64}
use nostrd.Protocol.Subscription.{
  if_some, ReqFilter, Subscription, filter_interested, interested_in_event, ids_match, author_match,
  kind_match, since_match, until_match, event_tag_match, pubkey_tag_match,
}

if_some_imp :
    {A : Type 0} (o : Option A) (f g : A → Bool)
    → ((a : A) → f a ≡ true → g a ≡ true)
    → if_some o f ≡ true
    → if_some o g ≡ true
if_some_imp none f g h k = refl
if_some_imp (some a) f g h k = h a k

contains-keep :
    {A : Type 0} (dec : Discrete A) (p : A → Bool) (a : A) (xs : List A)
    → contains dec a (keep p xs) ≡ true
    → contains dec a xs ≡ true
contains-keep dec p a xs h =
    (contains_iff dec a xs).1 ((mem-keep p xs a).0 ((contains_iff dec a (keep p xs)).0 h)).0

-- of seven tests, in the order of the query and in that of the filter
all_seven :
    (a k i ev key s u a' k' i' ev' key' s' u' : Bool)
    → (a ≡ true → a' ≡ true)
    → (k ≡ true → k' ≡ true)
    → (i ≡ true → i' ≡ true)
    → (ev ≡ true → ev' ≡ true)
    → (key ≡ true → key' ≡ true)
    → (s ≡ true → s' ≡ true)
    → (u ≡ true → u' ≡ true)
    → ((((((a && k) && i) && ev) && key) && s) && u) ≡ true
    → (i' && s' && u' && k' && a' && key' && ev') ≡ true
all_seven a k i ev key s u a' k' i' ev' key' s' u' = ground arith

module _ ⦃lib : Primitives⦄ ⦃sql : Engine⦄ where
  -- the columns of the row are those of the event, and it has no references
  pub record IsPlainRow (e : Event) (r : JoinedRow) : Type 0 where
    pub hash : r.event.event_hash ≡ sql.hash_bytes e.id
    pub author : r.event.author ≡ sql.key_bytes e.pubkey
    pub created : r.event.created_at ≡ e.created_at
    pub kind : r.event.kind ≡ kind_to_u64 e.kind
    pub no_event : r.referenced_event ≡ none
    pub no_pubkey : r.referenced_pubkey ≡ none

  module _ (f : ReqFilter) (e : Event) (r : JoinedRow) (p : IsPlainRow e r) where
    by_author :
        if_some f.authors (λ keys. meets r (author_in (hex_keys keys))) ≡ true
        → author_match f e ≡ true
    unfolding meets author_match
    by_author = if_some_imp f.authors _ _ (λ keys h.
        contains-keep lib.key.discrete (λ key. is_hex (lib.key.to_hex key)) e.pubkey keys
          (rw (← is_listed-key_bytes e.pubkey (hex_keys keys)) (rw p.author at h)))

    by_kind : if_some f.kinds (λ kinds. meets r (kind_in kinds)) ≡ true → kind_match f e ≡ true
    unfolding meets kind_match
    by_kind =
        if_some_imp f.kinds _ _ (λ kinds h. rw (← any-same_kind e.kind kinds) (rw p.kind at h))

    by_id : if_some f.ids (λ ids. meets r (hash_in (hex_ids ids))) ≡ true → ids_match f e ≡ true
    unfolding meets ids_match
    by_id = if_some_imp f.ids _ _ (λ ids h.
        contains-keep lib.hash.discrete (λ id. is_hex (lib.hash.to_hex id)) e.id ids
          (rw (← is_listed-hash_bytes e.id (hex_ids ids)) (rw p.hash at h)))

    by_event :
        if_some f.events (λ ids. meets r (referenced_event_in (hex_ids ids))) ≡ true
        → event_tag_match f e ≡ true
    unfolding meets event_tag_match
    by_event = if_some_imp f.events _ _ (λ ids h. absurd (cc (rw p.no_event at h)))

    by_pubkey :
        if_some f.pubkeys (λ keys. meets r (referenced_pubkey_in (hex_keys keys))) ≡ true
        → pubkey_tag_match f e ≡ true
    unfolding meets pubkey_tag_match
    by_pubkey = if_some_imp f.pubkeys _ _ (λ keys h. absurd (cc (rw p.no_pubkey at h)))

    by_since : if_some f.since (λ t. meets r (created_after t)) ≡ true → since_match f e ≡ true
    unfolding meets since_match
    by_since = if_some_imp f.since _ _ (λ t h. rw p.created at h)

    by_until : if_some f.until (λ t. meets r (created_before t)) ≡ true → until_match f e ≡ true
    unfolding meets until_match
    by_until = if_some_imp f.until _ _ (λ t h. rw p.created at h)

    meets_all-interested : meets_all r (filter_components f) ≡ true → filter_interested f e ≡ true
    unfolding filter_interested
    meets_all-interested h =
        all_seven _ _ _ _ _ _ _ _ _ _ _ _ _ _ by_author by_kind by_id by_event by_pubkey by_since
          by_until (rw (meets_all-filter_components r f) at h)

    -- A filter that sets no field has no component, so all of them hold.
    is_selected-interested : is_selected r f ≡ true → filter_interested f e ≡ true
    unfolding is_selected
    is_selected-interested h = elim (Bool-cases (is_empty (filter_components f))) [
      | inl unset ↦ meets_all-interested (no_components (filter_components f) unset)
      | inr some_field ↦ meets_all-interested (rw some_field at h)
    ]
      where
        no_components : (cs : List Component) → is_empty cs ≡ true → meets_all r cs ≡ true
        no_components [] e = unfold meets_all in refl
        no_components (c ∷ cs) e = absurd (cc e)

  any-imp :
      {A : Type 0} (f g : A → Bool) (xs : List A)
      → ((a : A) → f a ≡ true → g a ≡ true)
      → any f xs ≡ true
      → any g xs ≡ true
  any-imp f g xs h k = let (x, m, e) = mem-any f xs k in any-mem g xs m (h x e)

  -- A query of a subscription with a filter selects the row of an event without references only if
  -- the subscription is interested in the event.
  pub is_wanted-interested :
      (sub : Subscription) (e : Event) (r : JoinedRow)
      → IsPlainRow e r
      → is_empty sub.filters ≡ false
      → is_wanted sub r ≡ true
      → interested_in_event sub e ≡ true
  unfolding is_wanted interested_in_event
  is_wanted-interested sub e r p some_filter h =
      any-imp (λ f. is_selected r f) (λ f. filter_interested f e) sub.filters
        (λ f. is_selected-interested f e r p) (rw some_filter at h)
