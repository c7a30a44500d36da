-- ===== src/Json/Reading.antt =====
-- serde's own instances for `u64`, `String`, `Vec` and `Option`, and the steps of a derived struct
-- that is read from a sequence.
use nostrd.Base.{ℕ, String, Option, none, some, List, [], ◌∷◌}
use nostrd.Base.Outcome.{Outcome, ok, err, ◌>>=◌, collect, ok_or}
use nostrd.Json.{Value, null, as_array, as_str, as_u64, JsonError, invalid_type, invalid_length}

unfoldable pub u64_from_value : Value → Outcome JsonError ℕ
u64_from_value v = ok_or (invalid_type "value" "u64") (as_u64 v)

unfoldable pub string_from_value : Value → Outcome JsonError String
string_from_value v = ok_or (invalid_type "value" "a string") (as_str v)

unfoldable pub list_from_value :
    {A : Type 0} → (Value → Outcome JsonError A) → Value → Outcome JsonError (List A)
list_from_value read v = do
  vs ← ok_or (invalid_type "value" "a sequence") (as_array v)
  collect read vs

unfoldable pub option_from_value :
    {A : Type 0} → (Value → Outcome JsonError A) → Value → Outcome JsonError (Option A)
option_from_value read null = ok none
option_from_value read v = do a ← read v; ok (some a)

-- the error of a serde instance is passed on
abbrev pub same_error : JsonError → JsonError
same_error e = e

-- the next value of the sequence, the `i`-th
abbrev pub next : ℕ → String → List Value → Outcome JsonError (Value × List Value)
next i expected [] = err (invalid_length i expected)
next i expected (v ∷ vs) = ok (v, vs)

-- the end of the sequence
abbrev pub nothing_left : JsonError → List Value → Outcome JsonError Unit
nothing_left e [] = ok tt
nothing_left e (v ∷ vs) = err e
