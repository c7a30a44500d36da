-- ===== src/Db.antt =====
-- db.rs: the tables of the store, and how an event is written.
pub mod Sqlite
pub mod Write
pub mod Details
pub mod Writes
pub mod Unique
pub mod Metadata
pub mod Writer
pub mod Query
pub mod Reader
pub mod Schema
use nostrd.Base.{ℕ, String, Option, List, Bool}
use nostrd.Primitives.{Primitives}
use Sqlite.{Engine, Blob}

module _ ⦃lib : Primitives⦄ ⦃sql : Engine⦄ where
  -- the table `event`
  pub record EventRow : Type 0 where
    pub id : ℕ
    pub event_hash : Blob
    pub first_seen : ℕ
    pub created_at : ℕ
    pub author : Blob
    pub kind : ℕ
    pub hidden : Option Bool
    pub content : String

  -- the tables `event_ref` and `pubkey_ref`
  pub record RefRow : Type 0 where
    pub event_id : ℕ
    pub referenced : Blob

  pub record Tables : Type 0 where
    pub events : List EventRow
    pub event_refs : List RefRow
    pub pubkey_refs : List RefRow
