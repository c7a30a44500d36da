-- ===== src/Db/Sqlite.antt =====
-- What the store asks of `rusqlite`, SQLite and `hex`, as an interface.
use Prim.Native.Char.{Char, code}
use Prim.Native.String.{◌∷◌ as cons_char}
use nostrd.Base.{ℕ, String, ◌≡◌, ◌&&◌, ◌||◌, Bool, false, Option, none, some, List, Mem, leb}
use nostrd.Json.{Items, array}
use nostrd.Primitives.{Primitives, EventId, PublicKey}

-- `char::is_ascii_hexdigit`
abbrev pub is_ascii_hexdigit : Char → Bool
is_ascii_hexdigit c =
    (leb b'0' (code c) && leb (code c) b'9')
    || (leb b'a' (code c) && leb (code c) b'f')
    || (leb b'A' (code c) && leb (code c) b'F')

pub record Engine ⦃lib : Primitives⦄ : Type 1 where
  -- byte strings, as BLOB values
  pub Bytes : Type 0
  pub Bytes_discrete : Discrete Bytes
  -- `as_inner().to_vec()` of a hash, and `serialize().to_vec()` of a key
  pub hash_bytes : EventId → Bytes
  pub key_bytes : PublicKey → Bytes
  pub hash_bytes_injective : (a b : EventId) → hash_bytes a ≡ hash_bytes b → a ≡ b
  pub key_bytes_injective : (a b : PublicKey) → key_bytes a ≡ key_bytes b → a ≡ b
  -- `hex::decode(text).ok()`: the bytes of a key's text are the key's, and a text that begins with
  -- no hexadecimal digit is refused
  pub hex_decode : String → Option Bytes
  pub hex_decode-key : (k : PublicKey) → hex_decode (lib.key.to_hex k) ≡ some (key_bytes k)
  pub hex_decode_refuses :
      (c : Char) (s : String) → is_ascii_hexdigit c ≡ false → hex_decode (cons_char c s) ≡ none
  -- JSON text of an array begins with a bracket
  pub print_array : Items → String
  pub print-array : (vs : Items) → lib.json.print (array vs) ≡ cons_char "[" (print_array vs)
  -- the row identifier that a table gives a new row, unlike those in use
  pub fresh_rowid : List ℕ → ℕ
  pub fresh_rowid-new : (ids : List ℕ) → ¬ Mem (fresh_rowid ids) ids
  -- the error of a `u64` parameter that is no `i64`
  pub integer_error : String

abbrev pub Blob : ⦃lib : Primitives⦄ ⦃sql : Engine⦄ → Type 0
Blob ⦃lib⦄ ⦃sql⦄ = sql.Bytes
