-- ===== src/Db/Query.antt =====
-- db.rs: `query_from_sub`, the SQL text of a subscription, and what its conditions mean on a row.
pub mod Laws
pub mod Agreement
pub mod Interest
use Prim.Native.String.{[] as no_chars, ◌∷◌ as cons_char, ◌++◌ as append}
use nostrd.Base.{
  ℕ, String, Option, none, some, List, [], ◌∷◌, ◌++◌, map, Bool, true, false, ◌&&◌, any, keep,
  is_empty, eqb, ltb, ◌==◌, if◌then◌else◌,
}
use nostrd.Db.Sqlite.{Engine, Blob, is_ascii_hexdigit}
use nostrd.Db.{EventRow}
use nostrd.Db.Write.{is_shown}
use nostrd.Error.{decimal}
use nostrd.Primitives.{Primitives, EventId, PublicKey}
use nostrd.Protocol.Event.{EventKind}
use nostrd.Protocol.Event.Serial.{kind_to_u64}
use nostrd.Protocol.Subscription.{ReqFilter, Subscription}

unfoldable pub is_hex : String → Bool
is_hex no_chars = true
is_hex (cons_char c s) = is_ascii_hexdigit c && is_hex s

-- `join`
unfoldable pub join : String → List String → String
join separator [] = ""
join separator (s ∷ []) = s
join separator (s ∷ rest) = append s (append separator (join separator rest))

abbrev pub push_some {ℓ} : {A B : Type ℓ} → Option A → (A → B) → List B
push_some none f = []
push_some (some a) f = f a ∷ []

module _ ⦃lib : Primitives⦄ where
  -- one filter component, with the values that it lists
  pub data Component : Type 0 where
    author_in : List PublicKey → Component
    kind_in : List EventKind → Component
    hash_in referenced_event_in : List EventId → Component
    referenced_pubkey_in : List PublicKey → Component
    created_after created_before : ℕ → Component

  abbrev pub hex_ids : List EventId → List EventId
  hex_ids ids = keep (λ id. is_hex (lib.hash.to_hex id)) ids

  abbrev pub hex_keys : List PublicKey → List PublicKey
  hex_keys keys = keep (λ key. is_hex (lib.key.to_hex key)) keys

  unfoldable pub filter_components : ReqFilter → List Component
  filter_components f =
      push_some f.authors (λ keys. author_in (hex_keys keys))
      ++ push_some f.kinds (λ kinds. kind_in kinds)
      ++ push_some f.ids (λ ids. hash_in (hex_ids ids))
      ++ push_some f.events (λ ids. referenced_event_in (hex_ids ids))
      ++ push_some f.pubkeys (λ keys. referenced_pubkey_in (hex_keys keys))
      ++ push_some f.since (λ t. created_after t)
      ++ push_some f.until (λ t. created_before t)

  -- `format!("x'{}'", x)`
  abbrev pub blob_text : String → String
  blob_text s = append "x'" (append s "'")

  abbrev pub in_text : String → List String → String
  in_text column values = append column (append " IN (" (append (join ", " values) ")"))

  unfoldable pub component_text : Component → String
  component_text (author_in keys) = in_text "author" (map (λ k. blob_text (lib.key.to_hex k)) keys)
  component_text (kind_in kinds) = in_text "kind" (map (λ k. decimal (kind_to_u64 k)) kinds)
  component_text (hash_in ids) =
      in_text "event_hash" (map (λ id. blob_text (lib.hash.to_hex id)) ids)
  component_text (referenced_event_in ids) =
      in_text "referenced_event" (map (λ id. blob_text (lib.hash.to_hex id)) ids)
  component_text (referenced_pubkey_in keys) =
      in_text "referenced_pubkey" (map (λ k. blob_text (lib.key.to_hex k)) keys)
  component_text (created_after t) = append "created_at > " (decimal t)
  component_text (created_before t) = append "created_at < " (decimal t)

  unfoldable pub filter_clause : ReqFilter → String
  filter_clause f =
      let components = filter_components f in
      if is_empty components
      then "hidden!=TRUE"
      else append "( " (append (join " AND " (map component_text components)) " )")

  unfoldable pub query_from_sub : Subscription → String
  query_from_sub s =
      let query : String =
        "SELECT DISTINCT(e.content) FROM event e LEFT JOIN event_ref er ON e.id=er.event_id LEFT JOIN pubkey_ref pr ON e.id=pr.event_id " in
      let clauses = map filter_clause s.filters in
      append
        (if is_empty clauses then query else append query (append " WHERE " (join " OR " clauses)))
        " ORDER BY created_at ASC"

module _ ⦃lib : Primitives⦄ ⦃sql : Engine⦄ where
  -- a row of the join, its references NULL if the event has none
  pub record JoinedRow : Type 0 where
    pub event : EventRow
    pub referenced_event : Option Blob
    pub referenced_pubkey : Option Blob

  -- `column IN (…)`, which NULL does not satisfy
  abbrev pub is_listed : Option Blob → List Blob → Bool
  is_listed none blobs = false
  is_listed (some b) blobs = any (λ c. eqb sql.Bytes_discrete c b) blobs

  -- what SQL makes of a component on a row
  unfoldable pub meets : JoinedRow → Component → Bool
  meets r (author_in keys) = is_listed (some r.event.author) (map sql.key_bytes keys)
  meets r (kind_in kinds) = any (λ k. kind_to_u64 k == r.event.kind) kinds
  meets r (hash_in ids) = is_listed (some r.event.event_hash) (map sql.hash_bytes ids)
  meets r (referenced_event_in ids) = is_listed r.referenced_event (map sql.hash_bytes ids)
  meets r (referenced_pubkey_in keys) = is_listed r.referenced_pubkey (map sql.key_bytes keys)
  meets r (created_after t) = ltb t r.event.created_at
  meets r (created_before t) = ltb r.event.created_at t

  unfoldable pub meets_all : JoinedRow → List Component → Bool
  meets_all r [] = true
  meets_all r (c ∷ cs) = meets r c && meets_all r cs

  unfoldable pub is_selected : JoinedRow → ReqFilter → Bool
  is_selected r f =
      let components = filter_components f in
      if is_empty components then is_shown r.event.hidden else meets_all r components
