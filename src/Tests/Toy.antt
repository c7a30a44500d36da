-- ===== src/Tests/Toy.antt =====
-- The primitives and the engine of the tests: identifiers, keys and signatures are texts behind one
-- hexadecimal digit, a text is its own hash, and the signature "good" verifies.
use Prim.Native.Char.{Char, code}
use Prim.Native.String.{[] as no_chars, ◌∷◌ as cons_char}
use mathlib.Core.Logic.Or
use mathlib.Core.List.{not-mem-nil, eq-or-mem_of_mem-cons}
use nostrd.Base.{
  ℕ, suc, ◌+◌, ltb, ltb_iff, Bool-true-prop, true, String, String_discrete, ◌≡◌, refl, ap, ◌⊎◌, inl,
  inr, Option, none, some, List, [], ◌∷◌, Mem, false, ◌==◌, eqb, if◌then◌else◌, arith,
}
use nostrd.Json.{Value, string, array, JsonError, custom}
use nostrd.Primitives.{HexType, WsError, Primitives}
use nostrd.Db.Sqlite.{Engine, is_ascii_hexdigit}
use nostrd.Tests.Text.{codec, put}

abbrev pub read_hex : String → String ⊎ String
read_hex no_chars = inl "odd length"
read_hex (cons_char c s) = if code c == b'f' then inr s else inl "bad hex"

abbrev pub read_value : Value → JsonError ⊎ String
read_value (string s) = elim (read_hex s) [ inl e ↦ inl (custom e) | inr a ↦ inr a ]
read_value _ = inl (custom "expected a string")

abbrev pub hex : HexType
hex = record {
  Carrier = String;
  discrete = String_discrete;
  to_hex = λ s. cons_char "f" s;
  from_hex = read_hex;
  to_value = λ s. string (cons_char "f" s);
  from_value = read_value;
  from_hex-to_hex = λ a. refl;
  to_value_lem = λ a. refl;
  from_value-to_value = λ a. refl;
}

abbrev pub verify : String → String → String → Option String
verify sig id key = if eqb String_discrete sig "good" then none else some "malformed signature"

abbrev pub ws_text : WsError → String
ws_text WsError.already_closed = "closed already"
ws_text WsError.connection_closed = "closed"
ws_text (WsError.other_ws_error s) = s

instance abbrev pub toy : Primitives
toy = record {
  hash = hex;
  hash_len = λ _. 32;
  hash_len_lem = λ _. refl;
  key = hex;
  signature = hex;
  sha256 = λ s. s;
  verify_schnorr = verify;
  message_from_slice = λ _. none;
  ws_message = ws_text;
  json = codec;
}

abbrev pub decode : String → Option String
decode no_chars = some ""
decode (cons_char c s) = if is_ascii_hexdigit c then some (cons_char c s) else none

pub decode_refuses :
    (c : Char) (s : String) → is_ascii_hexdigit c ≡ false → decode (cons_char c s) ≡ none
decode_refuses c s h = rw h refl

abbrev pub tail : String → String
tail no_chars = ""
tail (cons_char _ s) = s

abbrev pub total : List ℕ → ℕ
total [] = 0
total (n ∷ ns) = n + total ns

mem-total : (n : ℕ) (ns : List ℕ) → Mem n ns → ltb n (suc (total ns)) ≡ true
mem-total n [] h = absurd (not-mem-nil h)
mem-total n (m ∷ ns) h =
    Or.elim (Bool-true-prop _) (eq-or-mem_of_mem-cons h)
      (λ (e : n ≡ m). (ltb_iff _ _).1 (omega (arith, e)))
      (λ (h' : Mem n ns). (ltb_iff _ _).1 (omega (arith, (ltb_iff _ _).0 (mem-total n ns h'))))

pub fresh-new : (ns : List ℕ) → ¬ Mem (suc (total ns)) ns
fresh-new ns h = omega (arith, (ltb_iff _ _).0 (mem-total (suc (total ns)) ns h))

instance abbrev pub toy_engine : Engine
toy_engine = record {
  Bytes = String;
  Bytes_discrete = String_discrete;
  hash_bytes = λ s. cons_char "f" s;
  key_bytes = λ s. cons_char "f" s;
  hash_bytes_injective = λ a b h. ap tail h;
  key_bytes_injective = λ a b h. ap tail h;
  hex_decode = decode;
  hex_decode-key = λ k. refl;
  hex_decode_refuses = decode_refuses;
  print_array = λ vs. put (array vs) "";
  print-array = λ vs. refl;
  fresh_rowid = λ ns. suc (total ns);
  fresh_rowid-new = fresh-new;
  integer_error = "out of range integral type conversion attempted";
}
