-- ===== src/Primitives.antt =====
-- The libraries that the relay stands on, as an interface: `bitcoin_hashes`, `secp256k1`, `hex` and
-- `serde_json`. Every module takes a value of `Primitives` as an instance argument.
use nostrd.Base.{ℕ, String, ◌≡◌, ◌⊎◌, inr, Option}
use nostrd.Json.{Value, string, JsonError, JsonText}

-- A type of bytes written as hexadecimal text: `sha256::Hash`, `XOnlyPublicKey`,
-- `schnorr::Signature`. `from_hex` is `FromStr` with the text of its error, `to_hex` is
-- `ToHex::to_hex` and `Display`; `to_value` and `from_value` are the serde instances.
pub record HexType : Type 1 where
  pub Carrier : Type 0
  pub discrete : Discrete Carrier
  pub to_hex : Carrier → String
  pub from_hex : String → String ⊎ Carrier
  pub to_value : Carrier → Value
  pub from_value : Value → JsonError ⊎ Carrier
  pub from_hex-to_hex : (a : Carrier) → from_hex (to_hex a) ≡ inr a
  pub to_value_lem : (a : Carrier) → to_value a ≡ string (to_hex a)
  pub from_value-to_value : (a : Carrier) → from_value (to_value a) ≡ inr a

-- `tungstenite::Error`: the two values that the program matches on, and any other with its text.
pub data WsError : Type 0 where
  already_closed connection_closed : WsError
  other_ws_error : String → WsError

pub record Primitives : Type 1 where
  -- `sha256::Hash`
  pub hash : HexType
  -- `len` of a hash: the number of its bytes
  pub hash_len : hash.Carrier → ℕ
  pub hash_len_lem : (h : hash.Carrier) → hash_len h ≡ 32
  -- `XOnlyPublicKey`
  pub key : HexType
  -- `schnorr::Signature`
  pub signature : HexType
  -- `sha256::Hash::hash` of the bytes of a text
  pub sha256 : String → hash.Carrier
  -- `SECP.verify_schnorr`, `none` if the signature is good, else the text of the error
  pub verify_schnorr : signature.Carrier → hash.Carrier → key.Carrier → Option String
  -- `secp256k1::Message::from_slice` of the bytes of a hash, `none` if it succeeds
  pub message_from_slice : hash.Carrier → Option String
  -- `Display` of `tungstenite::Error`
  pub ws_message : WsError → String
  -- `serde_json`
  pub json : JsonText

module _ ⦃lib : Primitives⦄ where
  abbrev pub EventId : Type 0
  EventId = lib.hash.Carrier

  abbrev pub PublicKey : Type 0
  PublicKey = lib.key.Carrier

  abbrev pub Signature : Type 0
  Signature = lib.signature.Carrier
