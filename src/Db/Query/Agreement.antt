-- ===== src/Db/Query/Agreement.antt =====
-- db.rs and protocol/subscription.rs: a query selects the row of an event exactly when the filter is
-- interested in the event.
use nostrd.Base.{
  ℕ, ◌≡◌, refl, sym, Option, none, some, List, [], ◌∷◌, map, Bool, true, false, ◌&&◌, arith,
  is_empty, any, eqb, eqb_iff, Bool_ext, contains, ◌==◌, ap,
}
use nostrd.Db.Sqlite.{Engine, Blob}
use nostrd.Db.Write.{event_row}
use nostrd.Db.Query.{JoinedRow, filter_components, meets, is_selected, is_listed, hex_ids, hex_keys}
use nostrd.Db.Query.Laws.{meets_all-filter_components}
use nostrd.Primitives.{Primitives, EventId, PublicKey}
use nostrd.Protocol.Event.{
  Event, EventKind, EventKind-discrete, set_metadata, text_note, recommended_server,
}
use nostrd.Protocol.Event.Serial.{kind_to_u64}
use nostrd.Protocol.Subscription.{
  ReqFilter, if_some, ids_match, author_match, kind_match, since_match, until_match,
  event_tag_match, pubkey_tag_match, filter_interested,
}

module _ ⦃lib : Primitives⦄ ⦃sql : Engine⦄ where
  eqb-hash_bytes :
      (a b : EventId)
      → eqb sql.Bytes_discrete (sql.hash_bytes b) (sql.hash_bytes a) ≡ eqb lib.hash.discrete a b
  eqb-hash_bytes a b = Bool_ext _ _ (
    λ h.
        (eqb_iff lib.hash.discrete a b).1
          (sym (sql.hash_bytes_injective b a ((eqb_iff sql.Bytes_discrete _ _).0 h))),
    λ h.
        (eqb_iff sql.Bytes_discrete _ _).1
          (ap sql.hash_bytes (sym ((eqb_iff lib.hash.discrete a b).0 h))),
  )

  eqb-key_bytes :
      (a b : PublicKey)
      → eqb sql.Bytes_discrete (sql.key_bytes b) (sql.key_bytes a) ≡ eqb lib.key.discrete a b
  eqb-key_bytes a b = Bool_ext _ _ (
    λ h.
        (eqb_iff lib.key.discrete a b).1
          (sym (sql.key_bytes_injective b a ((eqb_iff sql.Bytes_discrete _ _).0 h))),
    λ h.
        (eqb_iff sql.Bytes_discrete _ _).1
          (ap sql.key_bytes (sym ((eqb_iff lib.key.discrete a b).0 h))),
  )

  pub is_listed-hash_bytes :
      (a : EventId) (ids : List EventId)
      → is_listed (some (sql.hash_bytes a)) (map sql.hash_bytes ids)
        ≡ contains lib.hash.discrete a ids
  unfolding contains any
  is_listed-hash_bytes a [] = refl
  is_listed-hash_bytes a (id ∷ ids) = rw (eqb-hash_bytes a id, is_listed-hash_bytes a ids) refl

  pub is_listed-key_bytes :
      (a : PublicKey) (keys : List PublicKey)
      → is_listed (some (sql.key_bytes a)) (map sql.key_bytes keys)
        ≡ contains lib.key.discrete a keys
  unfolding contains any
  is_listed-key_bytes a [] = refl
  is_listed-key_bytes a (key ∷ keys) = rw (eqb-key_bytes a key, is_listed-key_bytes a keys) refl

  same_kind : (a b : EventKind) → (kind_to_u64 b == kind_to_u64 a) ≡ eqb EventKind-discrete a b
  unfolding kind_to_u64 EventKind-discrete
  same_kind set_metadata set_metadata = refl
  same_kind set_metadata text_note = refl
  same_kind set_metadata recommended_server = refl
  same_kind text_note set_metadata = refl
  same_kind text_note text_note = refl
  same_kind text_note recommended_server = refl
  same_kind recommended_server set_metadata = refl
  same_kind recommended_server text_note = refl
  same_kind recommended_server recommended_server = refl

  pub any-same_kind :
      (a : EventKind) (kinds : List EventKind)
      → any (λ k. kind_to_u64 k == kind_to_u64 a) kinds ≡ contains EventKind-discrete a kinds
  unfolding contains any
  any-same_kind a [] = refl
  any-same_kind a (k ∷ kinds) = rw (same_kind a k, any-same_kind a kinds) refl

  if_some_cong :
      {A : Type 0} (o : Option A) (f g : A → Bool)
      → ((a : A) → o ≡ some a → f a ≡ g a)
      → if_some o f ≡ if_some o g
  if_some_cong none f g h = refl
  if_some_cong (some a) f g h = h a refl

  shuffle :
      (a k i s u : Bool)
      → ((((((a && k) && i) && true) && true) && s) && u) ≡ (i && s && u && k && a && true && true)
  shuffle a k i s u = ground arith

  -- the row of an event in the join, its references as given
  abbrev pub joined : ℕ → ℕ → Event → Option Blob → Option Blob → JoinedRow
  joined now rowid e ev key = record {
    event = event_row now rowid e;
    referenced_event = ev;
    referenced_pubkey = key;
  }

  -- A filter that sets some field, but lists no references, selects the row of an event exactly when
  -- it is interested in the event, if the texts of the identifiers and authors that it lists are
  -- hexadecimal.
  pub is_selected-filter_interested :
      (f : ReqFilter) (now rowid : ℕ) (e : Event) (ev key : Option Blob)
      → is_empty (filter_components f) ≡ false
      → f.events ≡ none
      → f.pubkeys ≡ none
      → ((ids : List EventId) → f.ids ≡ some ids → hex_ids ids ≡ ids)
      → ((keys : List PublicKey) → f.authors ≡ some keys → hex_keys keys ≡ keys)
      → is_selected (joined now rowid e ev key) f ≡ filter_interested f e
  unfolding is_selected filter_interested ids_match author_match kind_match since_match until_match
      event_tag_match pubkey_tag_match meets event_row
  is_selected-filter_interested f now rowid e ev key some_field no_events no_pubkeys ids_hex
        keys_hex =
      let authors =
        if_some_cong f.authors
          (λ keys. is_listed (some (sql.key_bytes e.pubkey)) (map sql.key_bytes (hex_keys keys)))
          (contains lib.key.discrete e.pubkey)
          (λ keys p. rw (keys_hex keys p) (is_listed-key_bytes e.pubkey keys)) in
      let ids =
        if_some_cong f.ids
          (λ ids. is_listed (some (sql.hash_bytes e.id)) (map sql.hash_bytes (hex_ids ids)))
          (contains lib.hash.discrete e.id)
          (λ ids p. rw (ids_hex ids p) (is_listed-hash_bytes e.id ids)) in
      let kinds =
        if_some_cong f.kinds (λ kinds. any (λ k. kind_to_u64 k == kind_to_u64 e.kind) kinds)
          (contains EventKind-discrete e.kind) (λ kinds p. any-same_kind e.kind kinds) in
      rw
        (
          some_field,
          meets_all-filter_components (joined now rowid e ev key) f,
          no_events,
          no_pubkeys,
          authors,
          kinds,
          ids,
        )
        (shuffle (author_match f e) (kind_match f e) (ids_match f e) (since_match f e)
          (until_match f e))
