-- ===== src/Db/Write.antt =====
-- db.rs: `write_event`, a transaction of SQL statements. Every statement may fail; an error or a
-- panic drops the transaction, and the tables are as before.
use nostrd.Base.{
  ℕ, suc, String, Option, none, some, List, [], ◌∷◌, ◌++◌, map, Bool, true, false, ◌&&◌, not, any,
  eqb, leb, ltb, ◌==◌, ◌^◌, if◌then◌else◌,
}
use nostrd.Base.Outcome.{Outcome, ok, err, panic, ◌>>=◌, ◌>>◌}
use nostrd.Db.Sqlite.{Engine, Blob}
use nostrd.Db.{EventRow, RefRow, Tables}
use nostrd.Error.{Error, sql_error}
use nostrd.Primitives.{Primitives}
use nostrd.Protocol.Tags.{Tag, tag_to_string}
use nostrd.Protocol.Event.{Event, get_event_tags, get_pubkey_tags}
use nostrd.Protocol.Event.Serial.{kind_to_u64, event_to_value}

-- The statements of the transaction; a reference is numbered by its place in the loop.
pub data Statement : Type 0 where
  begin insert_event hide_metadata hide_contacts commit : Statement
  insert_event_ref insert_pubkey_ref : ℕ → Statement

-- The errors that the database reports, if any.
abbrev pub Faults : Type 0
Faults = Statement → Option String

-- `?` on the result of a statement
abbrev pub check : Option String → Outcome Error Unit
check none = ok tt
check (some message) = err (sql_error message)

-- `Option::unwrap`
abbrev pub unwrap {ℓ} : {E A : Type ℓ} → Option A → Outcome E A
unwrap none = panic
unwrap (some a) = ok a

module _ ⦃lib : Primitives⦄ ⦃sql : Engine⦄ where
  abbrev pub row_ids : List EventRow → List ℕ
  row_ids = map (λ r. r.id)

  -- the unique index on `event_hash`
  unfoldable pub has_hash : Blob → List EventRow → Bool
  has_hash h rows = any (λ r. eqb sql.Bytes_discrete r.event_hash h) rows

  -- the row that the INSERT writes at the time `now`
  unfoldable pub event_row : ℕ → ℕ → Event → EventRow
  event_row now rowid e = record {
    id = rowid;
    event_hash = sql.hash_bytes e.id;
    first_seen = now;
    created_at = e.created_at;
    author = sql.key_bytes e.pubkey;
    kind = kind_to_u64 e.kind;
    hidden = some false;
    content = lib.json.print (event_to_value e);
  }

  -- INSERT OR IGNORE INTO event_ref, pubkey_ref: NULL breaks NOT NULL, and the row is ignored.
  unfoldable pub insert_ref : ℕ → Option Blob → List RefRow → List RefRow
  insert_ref ev_id none rows = rows
  insert_ref ev_id (some b) rows = rows ++ (record { event_id = ev_id; referenced = b } ∷ [])

  -- the loop over the tags, from the `i`-th on
  unfoldable pub insert_refs :
      (ℕ → Option String) → ℕ → ℕ → List Tag → List RefRow → Outcome Error (List RefRow)
  insert_refs fault ev_id i [] rows = ok rows
  insert_refs fault ev_id i (tag ∷ tags) rows = check (fault i) >>= λ _.
      insert_refs fault ev_id (suc i) tags
        (insert_ref ev_id (sql.hex_decode (tag_to_string tag)) rows)

  -- `hidden!=TRUE`, which NULL does not satisfy
  abbrev pub is_shown : Option Bool → Bool
  is_shown none = false
  is_shown (some b) = not b

  -- `author=?`, which holds of no row if the parameter is NULL
  abbrev pub same_author : Option Blob → Blob → Bool
  same_author none author = false
  same_author (some b) author = eqb sql.Bytes_discrete author b

  -- UPDATE event SET hidden=TRUE WHERE id!=? AND kind=k AND author=? AND created_at <= ? and
  -- hidden!=TRUE, on one row
  unfoldable pub hide_row : ℕ → ℕ → Option Blob → ℕ → EventRow → EventRow
  hide_row ev_id kind author created_at r =
      if not (r.id == ev_id)
        && (r.kind == kind)
        && same_author author r.author
        && leb r.created_at created_at
        && is_shown r.hidden
      then record r { hidden = some true }
      else r

  unfoldable pub hide_older : ℕ → ℕ → Option Blob → ℕ → List EventRow → List EventRow
  unfolding hide_row
  hide_older ev_id kind author created_at rows = map (hide_row ev_id kind author created_at) rows

  -- one `if event_kind == k` with its UPDATE
  unfoldable pub supersede :
      Option String → ℕ → ℕ → Event → List EventRow → Outcome Error (List EventRow)
  supersede fault kind ev_id e rows =
      if kind_to_u64 e.kind == kind
      then check fault
        >> ok (hide_older ev_id kind (sql.hex_decode (lib.key.to_hex e.pubkey)) e.created_at rows)
      else ok rows

  -- what follows the INSERT of a new row
  unfoldable pub write_details : Faults → Event → ℕ → Tables → Outcome Error (Tables × ℕ)
  write_details faults e ev_id db = do
    etags ← unwrap (get_event_tags e)
    event_refs ← insert_refs (λ i. faults (insert_event_ref i)) ev_id 0 etags db.event_refs
    ptags ← unwrap (get_pubkey_tags e)
    pubkey_refs ← insert_refs (λ i. faults (insert_pubkey_ref i)) ev_id 0 ptags db.pubkey_refs
    rows0 ← supersede (faults hide_metadata) 0 ev_id e db.events
    rows3 ← supersede (faults hide_contacts) 3 ev_id e rows0
    check (faults commit)
    ok (record { events = rows3; event_refs = event_refs; pubkey_refs = pubkey_refs }, 1)

  -- INSERT OR IGNORE INTO event, and what follows if the row is new
  unfoldable pub insert_row : Faults → ℕ → Event → Tables → Outcome Error (Tables × ℕ)
  insert_row faults now e db =
      if has_hash (sql.hash_bytes e.id) db.events
      then ok (db, 0)
      else let ev_id = sql.fresh_rowid (row_ids db.events) in
        write_details faults e ev_id
          (record db { events = db.events ++ (event_row now ev_id e ∷ []) })

  -- the error of a `u64` parameter beyond `i64::MAX`
  unfoldable pub time_error : ℕ → Option String
  time_error created_at = if ltb created_at (2 ^ 63) then none else some sql.integer_error

  -- the body of the transaction: the tables at its end, and the number of rows inserted
  unfoldable pub write_body : Faults → ℕ → Event → Tables → Outcome Error (Tables × ℕ)
  unfolding time_error insert_row
  write_body faults now e db = do
    check (faults begin)
    check (time_error e.created_at)
    check (faults insert_event)
    insert_row faults now e db

  -- the state after a transaction
  unfoldable pub settle : Tables → Outcome Error (Tables × ℕ) → Tables × Outcome Error ℕ
  settle db (ok (db', n)) = (db', ok n)
  settle db (err e) = (db, err e)
  settle db panic = (db, panic)

  unfoldable pub write_event : Faults → ℕ → Event → Tables → Tables × Outcome Error ℕ
  unfolding settle
  write_event faults now e db = settle db (write_body faults now e db)
