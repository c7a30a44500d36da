-- ===== src/Tests/Text.antt =====
-- A text for every JSON value, in reverse Polish notation, with its reader: what the tests use for
-- `serde_json`.
use Prim.Native.Char.{Char, code}
use Prim.Native.String.{[] as no_chars, ◌∷◌ as cons_char}
use nostrd.Base.{
  ℕ, zero, suc, String, ◌≡◌, refl, ◌⊎◌, inl, inr, List, [], ◌∷◌, Bool, true, false, ◌==◌,
  if◌then◌else◌,
}
use nostrd.Json.{
  Value, Items, Fields, null, yes_value, no_value, unsigned, other_number, string, array, object,
  nil, cons, end, field, JsonError, syntax, JsonText,
}

-- what the reader has on its stack
pub data Frame : Type 0 where
  value : Value → Frame
  items : Items → Frame
  fields : Fields → Frame
  number : ℕ → Frame
  text : String → Frame

pub data Op : Type 0 where
  make_null make_yes make_no zero_op suc_op close_number empty_text quote close_text other_text : Op
  empty_items push_item close_items empty_fields push_field close_fields unknown : Op

abbrev pub op : Char → Op
op c =
    if code c == b'n'
    then make_null
    else if code c == b't'
    then make_yes
    else if code c == b'f'
    then make_no
    else if code c == b'0'
    then zero_op
    else if code c == b'i'
    then suc_op
    else if code c == b'#'
    then close_number
    else if code c == b'e'
    then empty_text
    else if code c == b'.'
    then quote
    else if code c == b's'
    then close_text
    else if code c == b'o'
    then other_text
    else if code c == b'['
    then empty_items
    else if code c == b','
    then push_item
    else if code c == b']'
    then close_items
    else if code c == b'{'
    then empty_fields
    else if code c == b':'
    then push_field
    else if code c == b'}'
    then close_fields
    else unknown

abbrev pub act : Op → List Frame → List Frame
act make_null st = value null ∷ st
act make_yes st = value yes_value ∷ st
act make_no st = value no_value ∷ st
act zero_op st = number 0 ∷ st
act suc_op (number n ∷ st) = number (suc n) ∷ st
act close_number (number n ∷ st) = value (unsigned n) ∷ st
act empty_text st = text "" ∷ st
act close_text (text s ∷ st) = value (string s) ∷ st
act other_text (text s ∷ st) = value (other_number s) ∷ st
act empty_items st = items nil ∷ st
act push_item (value v ∷ items vs ∷ st) = items (cons v vs) ∷ st
act close_items (items vs ∷ st) = value (array vs) ∷ st
act empty_fields st = fields end ∷ st
act push_field (value v ∷ text k ∷ fields fs ∷ st) = fields (field k v fs) ∷ st
act close_fields (fields fs ∷ st) = value (object fs) ∷ st
act _ st = []

abbrev pub is_quote : Op → Bool
is_quote quote = true
is_quote _ = false

abbrev pub take_char : Char → List Frame → List Frame
take_char c (text s ∷ st) = text (cons_char c s) ∷ st
take_char c _ = []

-- a quoted character is added to the text on the stack
unfoldable pub scan : Bool → String → List Frame → List Frame
scan _ no_chars st = st
scan true (cons_char c s) st = scan false s (take_char c st)
scan false (cons_char c s) st =
    if is_quote (op c) then scan true s st else scan false s (act (op c) st)

abbrev pub put_number : ℕ → String → String
put_number zero k = cons_char "0" k
put_number (suc n) k = put_number n (cons_char "i" k)

abbrev pub put_text : String → String → String
put_text no_chars k = cons_char "e" k
put_text (cons_char c s) k = put_text s (cons_char "." (cons_char c k))

unfoldable mutual
  pub put : Value → String → String
  put null k = cons_char "n" k
  put yes_value k = cons_char "t" k
  put no_value k = cons_char "f" k
  put (unsigned n) k = put_number n (cons_char "#" k)
  put (other_number s) k = put_text s (cons_char "o" k)
  put (string s) k = put_text s (cons_char "s" k)
  put (array vs) k = put_items vs (cons_char "]" k)
  put (object fs) k = put_fields fs (cons_char "}" k)

  pub put_items : Items → String → String
  put_items nil k = cons_char "[" k
  put_items (cons v vs) k = put_items vs (put v (cons_char "," k))

  pub put_fields : Fields → String → String
  put_fields end k = cons_char "{" k
  put_fields (field key v fs) k = put_fields fs (put_text key (put v (cons_char ":" k)))

scan-number :
    (n : ℕ) (k : String) (st : List Frame)
    → scan false (put_number n k) st ≡ scan false k (number n ∷ st)
unfolding scan
scan-number zero k st = refl
scan-number (suc n) k st = scan-number n (cons_char "i" k) st

scan-text :
    (s k : String) (st : List Frame) → scan false (put_text s k) st ≡ scan false k (text s ∷ st)
unfolding scan
scan-text no_chars k st = refl
scan-text (cons_char c s) k st = scan-text s (cons_char "." (cons_char c k)) st

mutual
  unfolding scan put

  scan-put :
      (v : Value) (k : String) (st : List Frame)
      → scan false (put v k) st ≡ scan false k (value v ∷ st)
  scan-put null k st = refl
  scan-put yes_value k st = refl
  scan-put no_value k st = refl
  scan-put (unsigned n) k st = scan-number n (cons_char "#" k) st
  scan-put (other_number s) k st = scan-text s (cons_char "o" k) st
  scan-put (string s) k st = scan-text s (cons_char "s" k) st
  scan-put (array vs) k st = scan-items vs (cons_char "]" k) st
  scan-put (object fs) k st = scan-fields fs (cons_char "}" k) st

  scan-items :
      (vs : Items) (k : String) (st : List Frame)
      → scan false (put_items vs k) st ≡ scan false k (items vs ∷ st)
  scan-items nil k st = refl
  scan-items (cons v vs) k st = rw (scan-items vs, scan-put v) refl

  scan-fields :
      (fs : Fields) (k : String) (st : List Frame)
      → scan false (put_fields fs k) st ≡ scan false k (fields fs ∷ st)
  scan-fields end k st = refl
  scan-fields (field key v fs) k st = rw (scan-fields fs, scan-text key, scan-put v) refl

abbrev pub result : List Frame → JsonError ⊎ Value
result (value v ∷ []) = inr v
result _ = inl (syntax "expected value")

abbrev pub print : Value → String
print v = cons_char "[" (put v "")

abbrev pub read : String → JsonError ⊎ Value
read no_chars = inl (syntax "EOF while parsing a value")
read (cons_char _ s) = result (scan false s [])

pub read-print : (v : Value) → read (print v) ≡ inr v
unfolding scan
read-print v = rw (scan-put v "" []) refl

abbrev pub error_text : JsonError → String
error_text (JsonError.custom s) = s
error_text (syntax s) = s
error_text _ = "invalid value"

abbrev pub codec : JsonText
codec = record { print = print; read = read; message = error_text; read-print = read-print }
