-- ===== src/Stream/Requests.antt =====
-- protostream.rs and protocol/subscription.rs: a REQ message that is let through has a filter.
use Prim.Native.String.{len}
use nostrd.Base.{
  ℕ, String, ◌≡◌, refl, Option, none, some, List, [], ◌∷◌, false, arith, is_empty, length, map, ltb,
}
use nostrd.Base.Outcome.{
  Outcome, ok, err, panic, collect, lift, map_err, ok_or, >>=-eq-ok, map_err-eq-ok,
}
use nostrd.Config.{Settings}
use nostrd.Error.{Error}
use nostrd.Json.{Value, JsonError, custom, no_variant, as_array}
use nostrd.Json.{merge}
use nostrd.Primitives.{Primitives, already_closed, connection_closed, other_ws_error}
use nostrd.Protocol.Commands.{EventCmd, Close, event_cmd_from_value, close_from_value}
use nostrd.Protocol.Subscription.{Subscription}
use nostrd.Protocol.Subscription.Serial.{
  filter_from_value, check_req_flag, subscription_parts, subscription_of_values,
  subscription_from_value,
}
use nostrd.Stream.{
  NostrMessage, WsPoll, ws_pending, ws_end, ws_message, ws_error, text, binary, ping, pong,
  close_frame, item, poll_next, or_else, event, req, close, message_from_value, message_from_str,
  checked, convert,
}

module _ ⦃lib : Primitives⦄ where
  abbrev pub HasFilter : Subscription → Type 0
  HasFilter sub = is_empty sub.filters ≡ false

  collect-some :
      {E A B : Type 0} (f : A → Outcome E B) (x : A) (xs : List A) (ys : List B)
      → collect f (x ∷ xs) ≡ ok ys
      → is_empty ys ≡ false
  unfolding collect
  collect-some f x xs ys h =
      let (y, p, h1) = >>=-eq-ok (f x) _ h in
      let (zs, q, h2) = >>=-eq-ok (collect f xs) _ h1 in
      let same : y ∷ zs ≡ ys = cc h2 in rw (← same) refl

  parts-HasFilter :
      (id v : Value) (rest : List Value) (sub : Subscription)
      → subscription_parts id (v ∷ rest) ≡ ok sub
      → HasFilter sub
  unfolding subscription_parts
  parts-HasFilter (Value.string id) v rest sub h =
      let (filters, p, h1) = >>=-eq-ok (map_err _ (collect filter_from_value (v ∷ rest))) _ h in
      let (key, q, h2) = >>=-eq-ok (lift custom (lib.hash.from_hex id)) _ h1 in
      let some_filter = collect-some filter_from_value v rest filters (map_err-eq-ok _ _ p) in
      let made : record { id = key; filters = filters } ≡ sub = cc h2 in rw (← made) some_filter
  parts-HasFilter _ v rest sub h = absurd (cc h)

  values-HasFilter :
      (received : List Value) (sub : Subscription)
      → subscription_of_values received ≡ ok sub
      → HasFilter sub
  unfolding subscription_of_values
  values-HasFilter [] sub h = absurd (cc h)
  values-HasFilter (a ∷ []) sub h = absurd (cc h)
  values-HasFilter (a ∷ b ∷ []) sub h = absurd (cc h)
  values-HasFilter (a ∷ b ∷ v ∷ rest) sub h =
      let long : ltb (length (a ∷ b ∷ v ∷ rest)) 3 ≡ false = ground arith in
      let (flag, p, h1) =
        >>=-eq-ok {E = JsonError} (check_req_flag a) (λ _. subscription_parts b (v ∷ rest))
          (rw long at h) in
      parts-HasFilter b v rest sub h1

  request-HasFilter :
      (v : Value) (sub : Subscription) → subscription_from_value v ≡ ok sub → HasFilter sub
  unfolding subscription_from_value
  request-HasFilter v sub h =
      let (received, p, h1) = >>=-eq-ok (ok_or _ (as_array v)) _ h in
      values-HasFilter (map merge received) sub h1

  value-HasFilter :
      (settings : Settings) (now : ℕ) (v : Value) (sub : Subscription)
      → message_from_value settings now v ≡ ok (req sub)
      → HasFilter sub
  unfolding message_from_value
  value-HasFilter settings now v sub h =
      of_variants (event_cmd_from_value settings now v) (subscription_from_value v) refl
        (close_from_value v) h
    where
      of_variants :
          (o1 : Outcome JsonError EventCmd) (o2 : Outcome JsonError Subscription)
          → subscription_from_value v ≡ o2
          → (o3 : Outcome JsonError Close)
          → or_else o1 event (or_else o2 req (or_else o3 close (err no_variant))) ≡ ok (req sub)
          → HasFilter sub
      of_variants (ok e) o2 p o3 h = absurd (cc h)
      of_variants panic o2 p o3 h = absurd (cc h)
      of_variants (err x) (ok s) p o3 h = request-HasFilter v sub (cc (p, h))
      of_variants (err x) panic p o3 h = absurd (cc h)
      of_variants (err x) (err y) p (ok c) h = absurd (cc h)
      of_variants (err x) (err y) p (err z) h = absurd (cc h)
      of_variants (err x) (err y) p panic h = absurd (cc h)

  string-HasFilter :
      (settings : Settings) (now : ℕ) (s : String) (sub : Subscription)
      → message_from_str settings now s ≡ ok (req sub)
      → HasFilter sub
  unfolding message_from_str
  string-HasFilter settings now s sub h =
      let (v, p, h1) = >>=-eq-ok (lift _ (lib.json.read s)) _ h in
      value-HasFilter settings now v sub (map_err-eq-ok _ _ h1)

  checked-req :
      (max : Option ℕ) (size : ℕ) (o : Outcome Error NostrMessage) (sub : Subscription)
      → checked max size o ≡ ok (req sub)
      → o ≡ ok (req sub)
  checked-req max size (ok (req s)) sub h = h
  checked-req max size (ok (close c)) sub h = absurd (cc h)
  checked-req none size (ok (event c)) sub h = absurd (cc h)
  checked-req (some k) size (ok (event c)) sub h = absurd (ground (arith, h))
  checked-req max size (err x) sub h = absurd (cc h)
  checked-req max size panic sub h = absurd (cc h)

  -- A REQ message that `convert` lets through has a filter.
  pub convert-HasFilter :
      (settings : Settings) (now : ℕ) (s : String) (sub : Subscription)
      → convert settings now s ≡ ok (req sub)
      → HasFilter sub
  unfolding convert
  convert-HasFilter settings now s sub h =
      string-HasFilter settings now s sub (
        checked-req settings.limits.max_event_bytes (len s) (message_from_str settings now s) sub h)

  -- Whatever the socket yields, a REQ among the items of the stream has a filter.
  pub poll_next-HasFilter :
      (settings : Settings) (now : ℕ) (poll : WsPoll) (sub : Subscription)
      → poll_next settings now poll ≡ item (ok (req sub))
      → HasFilter sub
  unfolding poll_next
  poll_next-HasFilter settings now ws_pending sub h = absurd (cc h)
  poll_next-HasFilter settings now ws_end sub h = absurd (cc h)
  poll_next-HasFilter settings now (ws_message (text s)) sub h =
      convert-HasFilter settings now s sub (cc h)
  poll_next-HasFilter settings now (ws_message binary) sub h = absurd (cc h)
  poll_next-HasFilter settings now (ws_message ping) sub h = absurd (cc h)
  poll_next-HasFilter settings now (ws_message pong) sub h = absurd (cc h)
  poll_next-HasFilter settings now (ws_message close_frame) sub h = absurd (cc h)
  poll_next-HasFilter settings now (ws_error already_closed) sub h = absurd (cc h)
  poll_next-HasFilter settings now (ws_error connection_closed) sub h = absurd (cc h)
  poll_next-HasFilter settings now (ws_error (other_ws_error x)) sub h = absurd (cc h)
