-- ===== src/Db/Query/Laws.antt =====
-- db.rs: which rows the conditions of a query select.
use nostrd.Base.{
  ◌≡◌, ◌≢◌, refl, ◌∙◌, ◌⊎◌, inl, inr, Option, none, some, List, [], ◌∷◌, ◌++◌, Bool, true, false,
  ◌&&◌, arith, Option-cases, is_empty,
}
use nostrd.Db.Sqlite.{Engine}
use nostrd.Db.Query.{
  JoinedRow, Component, author_in, kind_in, hash_in, referenced_event_in, referenced_pubkey_in,
  created_after, created_before, filter_components, meets, meets_all, is_selected, push_some,
  hex_ids, hex_keys,
}
use nostrd.Primitives.{Primitives}
use nostrd.Protocol.Subscription.{ReqFilter, if_some}

module _ ⦃lib : Primitives⦄ ⦃sql : Engine⦄ where
  meets_all-append :
      (r : JoinedRow) (cs ds : List Component)
      → meets_all r (cs ++ ds) ≡ (meets_all r cs && meets_all r ds)
  unfolding meets_all
  meets_all-append r [] ds = refl
  meets_all-append r (c ∷ cs) ds = ground (arith, meets_all-append r cs ds)

  meets-hidden :
      (r : JoinedRow) (h : Option Bool) (c : Component)
      → meets (record r { event = record r.event { hidden = h } }) c ≡ meets r c
  unfolding meets
  meets-hidden r h (author_in keys) = refl
  meets-hidden r h (kind_in kinds) = refl
  meets-hidden r h (hash_in ids) = refl
  meets-hidden r h (referenced_event_in ids) = refl
  meets-hidden r h (referenced_pubkey_in keys) = refl
  meets-hidden r h (created_after t) = refl
  meets-hidden r h (created_before t) = refl

  meets_all-hidden :
      (r : JoinedRow) (h : Option Bool) (cs : List Component)
      → meets_all (record r { event = record r.event { hidden = h } }) cs ≡ meets_all r cs
  unfolding meets_all
  meets_all-hidden r h [] = refl
  meets_all-hidden r h (c ∷ cs) = rw (meets-hidden r h c, meets_all-hidden r h cs) refl

  -- A filter that sets any field selects rows without regard to whether they are hidden.
  pub is_selected-hidden :
      (f : ReqFilter) (r : JoinedRow) (h : Option Bool)
      → is_empty (filter_components f) ≡ false
      → is_selected (record r { event = record r.event { hidden = h } }) f ≡ is_selected r f
  unfolding is_selected
  is_selected-hidden f r h some_field =
      rw (some_field, meets_all-hidden r h (filter_components f)) refl

  meets_all-push_some :
      {A : Type 0} (r : JoinedRow) (o : Option A) (f : A → Component)
      → meets_all r (push_some o f) ≡ if_some o (λ a. meets r (f a))
  unfolding meets_all
  meets_all-push_some r none f = refl
  meets_all-push_some r (some a) f = ground arith

  -- the seven components, one by one
  pub meets_all-filter_components :
      (r : JoinedRow) (f : ReqFilter)
      → meets_all r (filter_components f) ≡ (
          (((((if_some f.authors (λ keys. meets r (author_in (hex_keys keys)))
                    && if_some f.kinds (λ kinds. meets r (kind_in kinds)))
                  && if_some f.ids (λ ids. meets r (hash_in (hex_ids ids))))
                && if_some f.events (λ ids. meets r (referenced_event_in (hex_ids ids))))
              && if_some f.pubkeys (λ keys. meets r (referenced_pubkey_in (hex_keys keys))))
            && if_some f.since (λ t. meets r (created_after t)))
          && if_some f.until (λ t. meets r (created_before t)))
  unfolding filter_components
  meets_all-filter_components r f = simp (meets_all-append, meets_all-push_some)

  is_empty-append : (cs ds : List Component) → is_empty (cs ++ ds) ≡ (is_empty cs && is_empty ds)
  is_empty-append [] ds = refl
  is_empty-append (c ∷ cs) ds = refl

  abbrev is_none : {A : Type 0} → Option A → Bool
  is_none none = true
  is_none (some _) = false

  is_empty-push_some :
      {A : Type 0} (o : Option A) (f : A → Component) → is_empty (push_some o f) ≡ is_none o
  is_empty-push_some none f = refl
  is_empty-push_some (some a) f = refl

  -- a filter has a component for each field that is set
  is_empty-filter_components :
      (f : ReqFilter)
      → is_empty (filter_components f) ≡ (
          (((((is_none f.authors && is_none f.kinds) && is_none f.ids) && is_none f.events)
              && is_none f.pubkeys)
            && is_none f.since)
          && is_none f.until)
  unfolding filter_components
  is_empty-filter_components f = simp (is_empty-append, is_empty-push_some)

  and_false : (a b : Bool) → (a ≡ false) ⊎ (b ≡ false) → (a && b) ≡ false
  and_false a b h = ground arith

  unselected :
      (r : JoinedRow) (f : ReqFilter)
      → is_empty (filter_components f) ≡ false
      → meets_all r (filter_components f) ≡ false
      → is_selected r f ≡ false
  unfolding is_selected
  unselected r f some_field missed = rw (some_field, missed) refl

  -- A filter that lists referenced identifiers or keys selects no row of an event without rows in
  -- `event_ref` and `pubkey_ref`.
  pub is_selected-no_references :
      (f : ReqFilter) (r : JoinedRow)
      → (f.events ≢ none) ⊎ (f.pubkeys ≢ none)
      → r.referenced_event ≡ none
      → r.referenced_pubkey ≡ none
      → is_selected r f ≡ false
  is_selected-no_references f r (inl listed) no_event no_pubkey = elim (Option-cases f.events) [
    | inl p ↦ absurd (listed p)
    | inr (ids, p) ↦
        unselected r f
          (is_empty-filter_components f
            ∙ rw p (
                and_false _ _
                  (inl (and_false _ _ (inl (and_false _ _ (inl (and_false _ _ (inr refl)))))))))
          (meets_all-filter_components r f
            ∙ unfold meets in
              rw (p, no_event)
                (and_false _ _
                  (inl (and_false _ _ (inl (and_false _ _ (inl (and_false _ _ (inr refl)))))))))
  ]
  is_selected-no_references f r (inr listed) no_event no_pubkey = elim (Option-cases f.pubkeys) [
    | inl p ↦ absurd (listed p)
    | inr (keys, p) ↦
        unselected r f
          (is_empty-filter_components f
            ∙ rw p (and_false _ _ (inl (and_false _ _ (inl (and_false _ _ (inr refl)))))))
          (meets_all-filter_components r f
            ∙ unfold meets in
              rw (p, no_pubkey)
                (and_false _ _ (inl (and_false _ _ (inl (and_false _ _ (inr refl)))))))
  ]
