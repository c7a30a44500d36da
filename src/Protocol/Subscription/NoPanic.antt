-- ===== src/Protocol/Subscription/NoPanic.antt =====
-- protocol/subscription.rs: no REQ message makes the deserializer panic.
use nostrd.Base.{ℕ, String, ◌≢◌, List, [], ◌∷◌, arith, map}
use nostrd.Base.Outcome.{
  Outcome, panic, collect-no_panic, bind-no_panic, map_err-no_panic, lift-no_panic,
}
use nostrd.Json.{Value, Fields, null, string, array, object, end, field, merge, JsonError, to_list}
use nostrd.Json.Reading.{u64_from_value, list_from_value, option_from_value, next, nothing_left}
use nostrd.Primitives.{Primitives}
use nostrd.Protocol.Event.Serial.{kind_from_value}
use nostrd.Protocol.Subscription.{ReqFilter}
use nostrd.Protocol.Subscription.Serial.{
  no_conditions, ids_from_value, keys_from_value, filter_from_value, read_filter_entries,
  read_filter_entry, filter_of_seq, check_req_flag, subscription_parts, subscription_of_values,
  subscription_from_value,
}

next-no_panic : (i : ℕ) (expected : String) (vs : List Value) → next i expected vs ≢ panic
next-no_panic i expected [] = λ p. cc
next-no_panic i expected (v ∷ vs) = λ p. cc

nothing_left-no_panic : (e : JsonError) (vs : List Value) → nothing_left e vs ≢ panic
nothing_left-no_panic e [] = λ p. cc
nothing_left-no_panic e (v ∷ vs) = λ p. cc

list-no_panic :
    {A : Type 0} (read : Value → Outcome JsonError A)
    → ((v : Value) → read v ≢ panic)
    → (v : Value) → list_from_value read v ≢ panic
unfolding list_from_value
list-no_panic read h (array vs) = collect-no_panic read h (to_list vs)
list-no_panic read h _ = λ p. cc

option-no_panic :
    {A : Type 0} (read : Value → Outcome JsonError A)
    → ((v : Value) → read v ≢ panic)
    → (v : Value) → option_from_value read v ≢ panic
unfolding option_from_value
option-no_panic read h null = λ p. cc
option-no_panic read h v = ground (arith, h v)

kind-no_panic : (v : Value) → kind_from_value v ≢ panic
unfolding kind_from_value
kind-no_panic v = ground arith

u64-no_panic : (v : Value) → u64_from_value v ≢ panic
unfolding u64_from_value
u64-no_panic v = ground arith

kinds-no_panic : (v : Value) → option_from_value (list_from_value kind_from_value) v ≢ panic
kinds-no_panic = option-no_panic _ (list-no_panic kind_from_value kind-no_panic)

time-no_panic : (v : Value) → option_from_value u64_from_value v ≢ panic
time-no_panic = option-no_panic u64_from_value u64-no_panic

module _ ⦃lib : Primitives⦄ where
  ids-no_panic : (v : Value) → ids_from_value v ≢ panic
  unfolding ids_from_value
  ids-no_panic = option-no_panic _ (list-no_panic _ (λ v. lift-no_panic _ (lib.hash.from_value v)))

  keys-no_panic : (v : Value) → keys_from_value v ≢ panic
  unfolding keys_from_value
  keys-no_panic = option-no_panic _ (list-no_panic _ (λ v. lift-no_panic _ (lib.key.from_value v)))

  entry-no_panic : (f : ReqFilter) (key : String) (v : Value) → read_filter_entry f key v ≢ panic
  unfolding read_filter_entry
  entry-no_panic f key v =
      ground (arith, ids-no_panic v, keys-no_panic v, kinds-no_panic v, time-no_panic v)

  entries-no_panic : (f : ReqFilter) (fs : Fields) → read_filter_entries f fs ≢ panic
  unfolding read_filter_entries
  entries-no_panic f end = λ p. cc
  entries-no_panic f (field key v rest) =
      bind-no_panic (read_filter_entry f key v) _ (entry-no_panic f key v)
        (λ g. entries-no_panic g rest)

  seq-no_panic : (vs : List Value) → filter_of_seq vs ≢ panic
  unfolding filter_of_seq
  seq-no_panic vs = bind-no_panic _ _ (next-no_panic 0 _ vs) λ a.
      bind-no_panic _ _ (ids-no_panic a.0) λ ids. bind-no_panic _ _ (next-no_panic 1 _ a.1) λ b.
        bind-no_panic _ _ (kinds-no_panic b.0) λ kinds.
          bind-no_panic _ _ (next-no_panic 2 _ b.1) λ c.
            bind-no_panic _ _ (ids-no_panic c.0) λ events.
              bind-no_panic _ _ (next-no_panic 3 _ c.1) λ d.
                bind-no_panic _ _ (keys-no_panic d.0) λ pubkeys.
                  bind-no_panic _ _ (next-no_panic 4 _ d.1) λ e.
                    bind-no_panic _ _ (time-no_panic e.0) λ since.
                      bind-no_panic _ _ (next-no_panic 5 _ e.1) λ f.
                        bind-no_panic _ _ (time-no_panic f.0) λ until.
                          bind-no_panic _ _ (next-no_panic 6 _ f.1) λ g.
                            bind-no_panic _ _ (keys-no_panic g.0) λ authors.
                              bind-no_panic _ _ (nothing_left-no_panic _ g.1) λ done p. cc

  filter-no_panic : (v : Value) → filter_from_value v ≢ panic
  unfolding filter_from_value
  filter-no_panic (object fs) = entries-no_panic no_conditions fs
  filter-no_panic (array vs) = seq-no_panic (to_list vs)
  filter-no_panic _ = λ p. cc

  parts-no_panic : (v : Value) (rest : List Value) → subscription_parts v rest ≢ panic
  unfolding subscription_parts
  parts-no_panic (string id) rest =
      bind-no_panic _ _
        (map_err-no_panic _ _ (collect-no_panic filter_from_value filter-no_panic rest))
        λ filters. bind-no_panic _ _ (lift-no_panic _ (lib.hash.from_hex id)) λ a p. cc
  parts-no_panic _ rest = λ p. cc

  values-no_panic : (vs : List Value) → subscription_of_values vs ≢ panic
  unfolding subscription_of_values check_req_flag
  values-no_panic [] = ground arith
  values-no_panic (a ∷ []) = ground arith
  values-no_panic (a ∷ b ∷ []) = ground arith
  values-no_panic (a ∷ b ∷ c ∷ vs) = ground (arith, parts-no_panic b (c ∷ vs))

  -- Whatever value is read as a REQ message, the deserializer returns a subscription or an error:
  -- the check of the length stands before every index.
  pub subscription_from_value-no_panic : (v : Value) → subscription_from_value v ≢ panic
  unfolding subscription_from_value
  subscription_from_value-no_panic (array vs) = values-no_panic (map merge (to_list vs))
  subscription_from_value-no_panic _ = λ p. cc
