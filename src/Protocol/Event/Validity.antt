-- ===== src/Protocol/Event/Validity.antt =====
-- protocol/event.rs: the identifier of an event, its validation, and `Event::from_str`. The clock
-- (`unix_time`) and the settings are arguments; `u64` sums and differences wrap.
use Prim.Native.String.{◌++◌ as append}
use nostrd.Base.{
  ℕ, String, ◌+◌, ◌-◌, ◌%◌, ◌^◌, ◌≤◌, ◌<◌, ◌≡◌, refl, ◌↔◌, true, Option, none, some, ◌∷◌, [], map,
  arith, ltb, eqb, if◌then◌else◌,
}
use nostrd.Base.Outcome.{Outcome, ok, err, ◌>>=◌, ◌>>◌, lift, map_err, >>=-eq-ok}
use nostrd.Config.{Settings}
use nostrd.Error.{Error, event_invalid, json_parse_failed, generic_error, decimal}
use nostrd.Json.{unsigned, string, array_of}
use nostrd.Primitives.{Primitives, EventId}
use nostrd.Protocol.Tags.{tag_to_value}
use nostrd.Protocol.Event.{Event}
use nostrd.Protocol.Event.Serial.{kind_to_u64, event_to_value, event_from_value}
use nostrd.Protocol.Event.RoundTrip.{event_from_value-event_to_value}

-- `u64` arithmetic
abbrev pub u64_add : ℕ → ℕ → ℕ
u64_add a b = (a + b) % 2 ^ 64

abbrev pub u64_sub : ℕ → ℕ → ℕ
u64_sub a b = (a + 2 ^ 64 - b) % 2 ^ 64

-- what a library says against a value
abbrev refuse {ℓ} : {E : Type ℓ} → (String → E) → Option String → Outcome E (Unit {ℓ})
refuse f none = ok tt
refuse f (some message) = err (f message)

module _ ⦃lib : Primitives⦄ where
  -- `Event::compute_event_id`; none of its conversions can fail
  unfoldable pub compute_event_id : Event → Outcome Error EventId
  compute_event_id e =
      let canonical = lib.json.print (
        array_of (
          unsigned 0
          ∷ string (lib.key.to_hex e.pubkey)
          ∷ unsigned e.created_at
          ∷ unsigned (kind_to_u64 e.kind)
          ∷ array_of (map tag_to_value e.tags)
          ∷ string e.content
          ∷ [])) in
      ok (lib.sha256 canonical)

  -- the check of the time, `max_future_sec` being set or not
  unfoldable pub check_time : Option ℕ → ℕ → Event → Outcome Error Unit
  check_time none now e = ok tt
  check_time (some allowable_future) now e =
      if ltb (u64_add now allowable_future) e.created_at
      then err (
          event_invalid
            (append "Event is too far in future : " (decimal (u64_sub e.created_at now))))
      else ok tt

  -- `Event::is_valid` at the time `now`
  unfoldable pub is_valid : Settings → ℕ → Event → Outcome Error Unit
  is_valid settings now e = do
    check_time settings.options.reject_future_seconds now e
    computed ← compute_event_id e
    if eqb lib.hash.discrete e.id computed
        then ok tt
        else err (event_invalid "Event has wrong event id")
    refuse generic_error (lib.message_from_slice e.id)
    refuse event_invalid (lib.verify_schnorr e.sig e.id e.pubkey)

  -- `Event::from_str`
  unfoldable pub event_from_str : Settings → ℕ → String → Outcome Error Event
  event_from_str settings now s = do
    v ← lift json_parse_failed (lib.json.read s)
    event ← map_err json_parse_failed (event_from_value v)
    is_valid settings now event
    ok event

  -- The text that NIP-01 has an event's identifier computed from: a JSON array of 0, the public key
  -- in hexadecimal, the time, the number of the kind, the tags as arrays, and the content.
  abbrev pub nip01_text : Event → String
  nip01_text e = lib.json.print (
      array_of (
        unsigned 0
        ∷ string (lib.key.to_hex e.pubkey)
        ∷ unsigned e.created_at
        ∷ unsigned (kind_to_u64 e.kind)
        ∷ array_of (map tag_to_value e.tags)
        ∷ string e.content
        ∷ []))

  -- What a valid event satisfies: it is not later than the clock plus the limit, a sum that wraps
  -- around at `2 ^ 64`; its identifier is the hash of its text by NIP-01; and the cryptographic library
  -- takes the identifier for a message, and the signature for that of the message by the public key.
  pub record IsGenuine (settings : Settings) (now : ℕ) (e : Event) : Type 0 where
    pub in_time :
        (allowed : ℕ)
        → settings.options.reject_future_seconds ≡ some allowed
        → e.created_at ≤ (now + allowed) % 2 ^ 64
    pub hashed : lib.sha256 (nip01_text e) ≡ e.id
    pub message : lib.message_from_slice e.id ≡ none
    pub signed : lib.verify_schnorr e.sig e.id e.pubkey ≡ none

  check_time_iff :
      (o : Option ℕ) (now : ℕ) (e : Event)
      → (check_time o now e ≡ ok tt)
        ↔ ((allowed : ℕ) → o ≡ some allowed → e.created_at ≤ u64_add now allowed)
  unfolding check_time
  check_time_iff none now e = (λ _ a p. ground arith, λ _. refl)
  check_time_iff (some a) now e = (λ h b p. ground arith, λ h. ground (arith, h a refl))

  valid→genuine :
      (settings : Settings) (now : ℕ) (e : Event)
      → is_valid settings now e ≡ ok tt
      → IsGenuine settings now e
  unfolding is_valid compute_event_id
  valid→genuine settings now e h = record {
    in_time = (check_time_iff settings.options.reject_future_seconds now e).0 (ground arith);
    hashed = ground arith;
    message = ground arith;
    signed = ground arith;
  }

  genuine→valid :
      (settings : Settings) (now : ℕ) (e : Event)
      → IsGenuine settings now e
      → is_valid settings now e ≡ ok tt
  unfolding is_valid compute_event_id
  genuine→valid settings now e g =
      let timely = (check_time_iff settings.options.reject_future_seconds now e).1 g.in_time in
      ground (arith, timely, g.hashed, g.message, g.signed)

  -- An event passes validation exactly when: if the settings limit future events, it is not later
  -- than the clock plus that limit, as a `u64` sum that may wrap around; its identifier is the SHA-256
  -- hash of the JSON text of the array of 0, the public key in hexadecimal, the time, the number of the
  -- kind, the tags as arrays, and the content; secp256k1 accepts the identifier as a message; and it
  -- verifies the signature of that message under the public key.
  pub is_valid-IsGenuine_iff :
      (settings : Settings) (now : ℕ) (e : Event)
      → (is_valid settings now e ≡ ok tt) ↔ IsGenuine settings now e
  is_valid-IsGenuine_iff settings now e =
      (valid→genuine settings now e, genuine→valid settings now e)

  -- What `Event::from_str` returns is a genuine event, whatever the text.
  pub event_from_str-IsGenuine :
      (settings : Settings) (now : ℕ) (s : String) (e : Event)
      → event_from_str settings now s ≡ ok e
      → IsGenuine settings now e
  unfolding event_from_str
  event_from_str-IsGenuine settings now s e h =
      let (v, read, h1) = >>=-eq-ok (lift json_parse_failed (lib.json.read s)) _ h in
      let (e', made, h2) = >>=-eq-ok (map_err json_parse_failed (event_from_value v)) _ h1 in
      let (u, valid, h3) = >>=-eq-ok (is_valid settings now e') _ h2 in
      valid→genuine settings now e (ground (arith, valid, h3))

  -- the sum of the clock and the limit on future events is a `u64`
  abbrev pub FitsClock : Settings → ℕ → Type 0
  FitsClock settings now =
      (allowed : ℕ) → settings.options.reject_future_seconds ≡ some allowed → now + allowed < 2 ^ 64

  -- What is genuine stays so as the clock goes on.
  pub IsGenuine-later :
      (settings : Settings) (before now : ℕ) (e : Event)
      → before ≤ now
      → FitsClock settings now
      → IsGenuine settings before e
      → IsGenuine settings now e
  IsGenuine-later settings before now e order fits g = record {
    in_time = λ allowed set. omega (arith, g.in_time allowed set, fits allowed set, order);
    hashed = g.hashed;
    message = g.message;
    signed = g.signed;
  }

  -- Reading the text of an event back is validating it: the same event comes back if it is valid,
  -- and the validation's own error if it is not.
  pub event_from_str-print :
      (settings : Settings) (now : ℕ) (e : Event)
      → event_from_str settings now (lib.json.print (event_to_value e))
        ≡ (is_valid settings now e >>= λ _. ok e)
  unfolding event_from_str
  event_from_str-print settings now e =
      rw (lib.json.read-print (event_to_value e), event_from_value-event_to_value e)

  -- While the sum of the clock and the limit is a `u64`, an event later than that is rejected with
  -- the distance to the clock, before its identifier or signature is looked at.
  pub is_valid-too_far :
      (settings : Settings) (now allowed : ℕ) (e : Event)
      → settings.options.reject_future_seconds ≡ some allowed
      → now + allowed < e.created_at
      → e.created_at < 2 ^ 64
      → is_valid settings now e
        ≡ err
            (event_invalid (append "Event is too far in future : " (decimal (e.created_at - now))))
  unfolding is_valid check_time
  is_valid-too_far settings now allowed e set late small =
      let exact : u64_sub e.created_at now ≡ e.created_at - now = omega arith in
      let test : ltb (u64_add now allowed) e.created_at ≡ true = ground arith in
      rw (set, test, exact)
