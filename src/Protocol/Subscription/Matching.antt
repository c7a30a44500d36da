-- ===== src/Protocol/Subscription/Matching.antt =====
-- protocol/subscription.rs: the matching of filters, against a declarative description.
use nostrd.Base.{
  ◌<◌, ◌≡◌, ◌≢◌, refl, ap, ◌↔◌, Option, none, some, List, Mem, Bool, true, false, arith, inl, inr,
  contains_iff, ltb_iff, Bool-cases, ◌&&◌, ◌⊎◌, mem-any, any-mem,
}
use nostrd.Primitives.{Primitives, EventId, PublicKey}
use nostrd.Protocol.Tags.{Tag, get_recommended_url, from_event_id, from_pubkey}
use nostrd.Protocol.Event.{EventKind-discrete, Event}
use nostrd.Protocol.Subscription.{
  ReqFilter, Subscription, or_empty, ids_match, author_match, if_some, event_tag_match,
  pubkey_tag_match, kind_match, since_match, until_match, filter_interested, interested_in_event,
}
use nostrd.Protocol.Subscription.AskedTags.{RefersTo, Mentions, event_tags_found, pubkey_tags_found}

module _ ⦃lib : Primitives⦄ where
  -- A condition that a filter's field sets, if it sets one.
  abbrev pub IfSet : {A : Type 0} → Option A → (A → Type 0) → Type 0
  IfSet none P = Unit
  IfSet (some a) P = P a

  -- What a filter asks of an event: each field that is there is a condition.
  pub record IsWanted (f : ReqFilter) (e : Event) : Type 0 where
    pub by_id : IfSet f.ids (λ ids. Mem e.id ids)
    pub by_since : IfSet f.since (λ t. t < e.created_at)
    pub by_until : IfSet f.until (λ t. e.created_at < t)
    pub by_kind : IfSet f.kinds (λ kinds. Mem e.kind kinds)
    pub by_author : IfSet f.authors (λ authors. Mem e.pubkey authors)
    pub by_pubkey : IfSet f.pubkeys (λ keys. Mentions keys e)
    pub by_event : IfSet f.events (λ ids. RefersTo ids e)

  if_some-IfSet :
      {A : Type 0} (o : Option A) (test : A → Bool) (P : A → Type 0)
      → ((a : A) → o ≡ some a → (test a ≡ true) ↔ P a)
      → (if_some o test ≡ true) ↔ IfSet o P
  if_some-IfSet none test P h = (λ _. tt, λ _. refl)
  if_some-IfSet (some a) test P h = h a refl

  by_event_iff :
      (f : ReqFilter) (e : Event)
      → (event_tag_match f e ≡ true) ↔ IfSet f.events (λ ids. RefersTo ids e)
  unfolding event_tag_match
  by_event_iff f e =
      if_some-IfSet f.events _ (λ ids. RefersTo ids e)
        (λ ids p.
          let listed : or_empty f.events ≡ ids = ap or_empty p in
          rw listed at (event_tags_found f e))

  by_pubkey_iff :
      (f : ReqFilter) (e : Event)
      → (pubkey_tag_match f e ≡ true) ↔ IfSet f.pubkeys (λ keys. Mentions keys e)
  unfolding pubkey_tag_match
  by_pubkey_iff f e =
      if_some-IfSet f.pubkeys _ (λ keys. Mentions keys e)
        (λ keys p.
          let listed : or_empty f.pubkeys ≡ keys = ap or_empty p in
          rw listed at (pubkey_tags_found f e))

  and_iff : (a b : Bool) → ((a && b) ≡ true) ↔ ((a ≡ true) × (b ≡ true))
  and_iff a b = ground arith

  seven_iff :
      (a b c d e f g : Bool)
      → ((a && b && c && d && e && f && g) ≡ true)
        ↔ ((a ≡ true) × (b ≡ true) × (c ≡ true) × (d ≡ true) × (e ≡ true) × (f ≡ true) × (g ≡ true))
  seven_iff a b c d e f g = ground arith

  -- A filter matches an event exactly when every field that it sets holds of the event: the
  -- identifier, kind and author are listed, the time lies strictly between `since` and `until`, and
  -- some listed identifier and some listed key stand in a tag of the event that has no URL.
  pub filter_interested_iff :
      (f : ReqFilter) (e : Event) → (filter_interested f e ≡ true) ↔ IsWanted f e
  unfolding filter_interested ids_match since_match until_match kind_match author_match
  filter_interested_iff f e =
      let by_id = if_some-IfSet f.ids _ _ (λ ids _. contains_iff lib.hash.discrete e.id ids) in
      let by_since = if_some-IfSet f.since _ _ (λ t _. ltb_iff t e.created_at) in
      let by_until = if_some-IfSet f.until _ _ (λ t _. ltb_iff e.created_at t) in
      let by_kind = if_some-IfSet f.kinds _ _ (λ ks _. contains_iff EventKind-discrete e.kind ks) in
      let by_author =
        if_some-IfSet f.authors _ _ (λ ks _. contains_iff lib.key.discrete e.pubkey ks) in
      (
        λ h.
            let r = (seven_iff _ _ _ _ _ _ _).0 h in
            record {
              by_id = by_id.0 r.0;
              by_since = by_since.0 r.1;
              by_until = by_until.0 r.2;
              by_kind = by_kind.0 r.3;
              by_author = by_author.0 r.4;
              by_pubkey = (by_pubkey_iff f e).0 r.5;
              by_event = (by_event_iff f e).0 r.6;
            },
        λ w. (seven_iff _ _ _ _ _ _ _).1 (
          by_id.1 w.by_id,
          by_since.1 w.by_since,
          by_until.1 w.by_until,
          by_kind.1 w.by_kind,
          by_author.1 w.by_author,
          (by_pubkey_iff f e).1 w.by_pubkey,
          (by_event_iff f e).1 w.by_event,
        ),
      )

  -- A subscription matches an event exactly when one of its filters asks for it.
  pub interested_in_event_iff :
      (s : Subscription) (e : Event)
      → (interested_in_event s e ≡ true) ↔ ((f : ReqFilter) × Mem f s.filters × IsWanted f e)
  unfolding interested_in_event
  interested_in_event_iff s e = (
    λ h. let (f, m, found) = mem-any _ _ h in (f, m, (filter_interested_iff f e).0 found),
    λ w. any-mem _ _ w.1 ((filter_interested_iff w.0 e).1 w.2),
  )

  abbrev pub HasUrl : Tag → Type 0
  HasUrl t = get_recommended_url t ≢ none

  RefersTo-by_bare_tag :
      (ids : Option (List EventId)) (e : Event)
      → ids ≢ none
      → IfSet ids (λ is. RefersTo is e)
      → (t : Tag) × Mem t e.tags × (get_recommended_url t ≡ none)
  unfolding get_recommended_url from_event_id
  RefersTo-by_bare_tag none e h w = absurd (h refl)
  RefersTo-by_bare_tag (some ids) e h (id, m, own) = (from_event_id id none, own, refl)

  Mentions-by_bare_tag :
      (keys : Option (List PublicKey)) (e : Event)
      → keys ≢ none
      → IfSet keys (λ ks. Mentions ks e)
      → (t : Tag) × Mem t e.tags × (get_recommended_url t ≡ none)
  unfolding get_recommended_url from_pubkey
  Mentions-by_bare_tag none e h w = absurd (h refl)
  Mentions-by_bare_tag (some keys) e h (key, m, own) = (from_pubkey key none, own, refl)

  -- a match of a filter that lists references needs a tag without a URL
  wanted_by_bare_tag :
      (f : ReqFilter) (e : Event)
      → (f.events ≢ none) ⊎ (f.pubkeys ≢ none)
      → IsWanted f e
      → (t : Tag) × Mem t e.tags × (get_recommended_url t ≡ none)
  wanted_by_bare_tag f e (inl h) w = RefersTo-by_bare_tag f.events e h w.by_event
  wanted_by_bare_tag f e (inr h) w = Mentions-by_bare_tag f.pubkeys e h w.by_pubkey

  -- An event whose tags all carry a recommended URL is matched by no filter that lists referenced
  -- identifiers or keys, whichever it lists.
  pub filter_misses_urls :
      (f : ReqFilter) (e : Event)
      → ((t : Tag) → Mem t e.tags → HasUrl t)
      → (f.events ≢ none) ⊎ (f.pubkeys ≢ none)
      → filter_interested f e ≡ false
  filter_misses_urls f e urls listed = elim (Bool-cases (filter_interested f e)) [
    | inl found ↦
        let (t, own, bare) = wanted_by_bare_tag f e listed ((filter_interested_iff f e).0 found) in
        absurd (urls t own bare)
    | inr missed ↦ missed
  ]
