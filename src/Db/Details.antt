-- ===== src/Db/Details.antt =====
-- db.rs: what follows the INSERT of a new event: the references and the superseded rows.
use nostrd.Base.{
  ℕ, suc, String, ◌≡◌, refl, ◌↔◌, ◌⊎◌, inl, inr, Option, none, some, List, [], ◌∷◌, arith,
  Option-cases, if◌then◌else◌, ◌==◌,
}
use nostrd.Base.Outcome.{ok, panic, >>=-eq-ok}
use nostrd.Db.Sqlite.{Engine}
use nostrd.Db.{EventRow, RefRow, Tables}
use nostrd.Db.Write.{
  Statement, hide_metadata, hide_contacts, commit, insert_event_ref, insert_pubkey_ref, Faults,
  check, unwrap, insert_ref, insert_refs, hide_older, supersede, write_details,
}
use nostrd.Primitives.{Primitives}
use nostrd.Protocol.Tags.{Tag, event, pubkey, tag_to_string, tag_to_value}
use nostrd.Protocol.Event.Serial.{kind_to_u64}
use nostrd.Protocol.Event.{Event, get_event_tags, get_pubkey_tags}

module _ ⦃lib : Primitives⦄ ⦃sql : Engine⦄ where
  -- A tag's text is JSON, and no hexadecimal.
  hex_decode-tag : (t : Tag) → sql.hex_decode (tag_to_string t) ≡ none
  unfolding tag_to_string tag_to_value
  hex_decode-tag (event t) = rw sql.print-array (sql.hex_decode_refuses "[" _ refl)
  hex_decode-tag (pubkey t) = rw sql.print-array (sql.hex_decode_refuses "[" _ refl)

  insert_refs_keeps :
      (fault : ℕ → Option String) (ev_id i : ℕ) (tags : List Tag) (rows : List RefRow)
      → ((i : ℕ) → fault i ≡ none)
      → insert_refs fault ev_id i tags rows ≡ ok rows
  unfolding insert_refs insert_ref
  insert_refs_keeps fault ev_id i [] rows calm = refl
  insert_refs_keeps fault ev_id i (t ∷ tags) rows calm =
      rw (calm i, hex_decode-tag t) (insert_refs_keeps fault ev_id (suc i) tags rows calm)

  insert_refs-ok :
      (fault : ℕ → Option String) (ev_id i : ℕ) (tags : List Tag) (rows rows' : List RefRow)
      → insert_refs fault ev_id i tags rows ≡ ok rows'
      → rows' ≡ rows
  unfolding insert_refs insert_ref
  insert_refs-ok fault ev_id i [] rows rows' h = cc
  insert_refs-ok fault ev_id i (t ∷ tags) rows rows' h =
      let (u, passed, rest) = >>=-eq-ok (check (fault i)) _ h in
      insert_refs-ok fault ev_id (suc i) tags rows rows' (rw (hex_decode-tag t) at rest)

  -- The rows after a metadata event with row identifier `ev_id`: the older metadata of its author
  -- is hidden. Any other event hides nothing.
  abbrev pub superseded : Event → ℕ → List EventRow → List EventRow
  superseded e ev_id rows =
      if kind_to_u64 e.kind == 0
      then hide_older ev_id 0 (some (sql.key_bytes e.pubkey)) e.created_at rows
      else rows

  supersede-metadata :
      (fault : Option String) (e : Event) (ev_id : ℕ) (rows rows' : List EventRow)
      → supersede fault 0 ev_id e rows ≡ ok rows'
      → rows' ≡ superseded e ev_id rows
  unfolding supersede
  supersede-metadata fault e ev_id rows rows' h = ground (arith, sql.hex_decode-key e.pubkey)

  supersede-contacts :
      (fault : Option String) (e : Event) (ev_id : ℕ) (rows : List EventRow)
      → supersede fault 3 ev_id e rows ≡ ok rows
  unfolding supersede kind_to_u64
  supersede-contacts fault e ev_id rows = ground arith

  supersede_calm :
      (e : Event) (ev_id : ℕ) (rows : List EventRow)
      → supersede none 0 ev_id e rows ≡ ok (superseded e ev_id rows)
  unfolding supersede
  supersede_calm e ev_id rows = ground (arith, sql.hex_decode-key e.pubkey)

  details_calm :
      (faults : Faults) (e : Event) (ev_id : ℕ) (db : Tables) (es ps : List Tag)
      → ((s : Statement) → faults s ≡ none)
      → get_event_tags e ≡ some es
      → get_pubkey_tags e ≡ some ps
      → write_details faults e ev_id db
        ≡ ok (record db { events = superseded e ev_id db.events }, 1)
  unfolding write_details
  details_calm faults e ev_id db es ps calm events pubkeys = rw (
    events,
    insert_refs_keeps (λ i. faults (insert_event_ref i)) ev_id 0 es db.event_refs
        (λ i. calm (insert_event_ref i)),
    pubkeys,
    insert_refs_keeps (λ i. faults (insert_pubkey_ref i)) ev_id 0 ps db.pubkey_refs
        (λ i. calm (insert_pubkey_ref i)),
    calm hide_metadata,
    supersede_calm e ev_id db.events,
    supersede-contacts (faults hide_contacts) e ev_id (superseded e ev_id db.events),
    calm commit,
  )

  pub details-panic :
      (faults : Faults) (e : Event) (ev_id : ℕ) (db : Tables)
      → ((s : Statement) → faults s ≡ none)
      → (write_details faults e ev_id db ≡ panic)
        ↔ ((get_event_tags e ≡ none) ⊎ (get_pubkey_tags e ≡ none))
  details-panic faults e ev_id db calm = elim (Option-cases (get_event_tags e)) [
    | inl no_event ↦ (λ _. inl no_event, λ _. unfold write_details in rw no_event)
    | inr (es, events) ↦ elim (Option-cases (get_pubkey_tags e)) [
      | inl no_pubkey ↦ (
        λ _. inr no_pubkey,
        λ _.
            unfold write_details in
            rw (
              events,
              insert_refs_keeps (λ i. faults (insert_event_ref i)) ev_id 0 es db.event_refs
                  (λ i. calm (insert_event_ref i)),
              no_pubkey,
            ),
      )
      | inr (ps, pubkeys) ↦ (
        λ p. cc (details_calm faults e ev_id db es ps calm events pubkeys, p),
        λ missing. elim missing [ inl p ↦ cc | inr p ↦ cc ],
      )
    ]
  ]

  pub details-ok :
      (faults : Faults) (e : Event) (ev_id : ℕ) (db db' : Tables) (n : ℕ)
      → write_details faults e ev_id db ≡ ok (db', n)
      → (db' ≡ record db { events = superseded e ev_id db.events }) × (n ≡ 1)
  unfolding write_details
  details-ok faults e ev_id db db' n h =
      let (es, p1, h1) = >>=-eq-ok (unwrap (get_event_tags e)) _ h in
      let (refs, p2, h2) = >>=-eq-ok _ _ h1 in
      let (ps, p3, h3) = >>=-eq-ok (unwrap (get_pubkey_tags e)) _ h2 in
      let (keys, p4, h4) = >>=-eq-ok _ _ h3 in
      let (rows0, p5, h5) = >>=-eq-ok (supersede (faults hide_metadata) 0 ev_id e db.events) _ h4 in
      let (rows3, p6, h6) = >>=-eq-ok (supersede (faults hide_contacts) 3 ev_id e rows0) _ h5 in
      let (u, p7, h7) = >>=-eq-ok (check (faults commit)) _ h6 in
      let refs_same = insert_refs-ok _ ev_id 0 es db.event_refs refs p2 in
      let keys_same = insert_refs-ok _ ev_id 0 ps db.pubkey_refs keys p4 in
      let hidden = supersede-metadata (faults hide_metadata) e ev_id db.events rows0 p5 in
      let contacts = supersede-contacts (faults hide_contacts) e ev_id rows0 in
      let same_rows : rows3 ≡ superseded e ev_id db.events = cc (hidden, contacts, p6) in
      (cc (h7, same_rows, refs_same, keys_same), cc h7)
