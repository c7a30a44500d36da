-- ===== src/Server/Crashes.antt =====
-- main.rs: when a turn of the event loop panics, which ends its task without the clean-up.
use nostrd.Base.{ℕ, ◌≡◌, ◌≢◌, refl, ◌↔◌, ◌∙◌, sym, none, some, List, [], ◌∷◌, arith}
use nostrd.Base.Outcome.{Outcome, ok, err, panic}
use nostrd.Config.{Settings}
use nostrd.Error.{Error}
use nostrd.Primitives.{Primitives, EventId}
use nostrd.Protocol.Event.{Event}
use nostrd.Protocol.Event.Validity.{is_valid, event_from_str-print}
use nostrd.Protocol.Subscription.{Subscription}
use nostrd.Conn.{ClientConn, get_matching_subscriptions, subscribe}
use nostrd.Conn.Laws.{subscribe-outcome}
use nostrd.Stream.{event, req, close}
use nostrd.Server.{
  Session, Input, Step, continue, crash, shutdown, query_result, broadcast, client, deliver,
  after_subscribe, on_message, on_error, on_client, step,
}
use nostrd.Server.Broadcast.{deliver-valid}

module _ ⦃lib : Primitives⦄ where
  -- an item of the stream whose reading panicked, or a broadcast event that a subscription matches
  -- but that does not pass the validation at this time
  abbrev pub Crashes : Settings → ℕ → Session → Input → Type 0
  Crashes settings now s (client (some panic)) = Unit
  Crashes settings now s (broadcast e) =
      (get_matching_subscriptions s.conn e ≢ []) × (is_valid settings now e ≢ ok tt)
  Crashes settings now s _ = ⊥

  continues : (s : Session) → continue s ≢ crash
  continues s h = cc h

  never : (st : Step) → st ≢ crash → (st ≡ crash) ↔ ⊥
  never st h = (h, λ x. absurd x)

  pub invalid-crash :
      (settings : Settings) (now : ℕ) (e : Event) (id : EventId) (ids : List EventId) (s : Session)
      (o : Outcome Error Unit)
      → is_valid settings now e ≡ o
      → o ≢ ok tt
      → deliver settings now e (id ∷ ids) s ≡ crash
  unfolding deliver
  invalid-crash settings now e id ids s (ok tt) same other = absurd (other refl)
  invalid-crash settings now e id ids s (err x) same other =
      rw (event_from_str-print settings now e, same) refl
  invalid-crash settings now e id ids s panic same other =
      rw (event_from_str-print settings now e, same) refl

  pub delivered-none :
      (settings : Settings) (now : ℕ) (e : Event) (s : Session)
      → deliver settings now e [] s ≡ continue s
  unfolding deliver
  delivered-none settings now e s = refl

  deliver-crash_iff :
      (settings : Settings) (now : ℕ) (e : Event) (ids : List EventId) (s : Session)
      → (deliver settings now e ids s ≡ crash) ↔ ((ids ≢ []) × (is_valid settings now e ≢ ok tt))
  deliver-crash_iff settings now e [] s =
      (λ h. absurd (cc (sym (delivered-none settings now e s) ∙ h)), λ h. absurd (h.0 refl))
  deliver-crash_iff settings now e (id ∷ ids) s = (
    λ h. (
      λ none_left. cc none_left,
      λ valid. absurd (cc (sym (deliver-valid settings now e (id ∷ ids) s valid) ∙ h)),
    ),
    λ h. invalid-crash settings now e id ids s (is_valid settings now e) refl h.1,
  )

  subscribe-no_panic : (c : ClientConn) (sub : Subscription) → (subscribe c sub).1 ≢ panic
  subscribe-no_panic c sub h = let outcome = subscribe-outcome c sub in ground (arith, outcome, h)

  subscribed-no_crash :
      (s : Session) (sub : Subscription) (c : ClientConn) (o : Outcome Error Unit)
      → o ≢ panic
      → after_subscribe s sub c o ≢ crash
  subscribed-no_crash s sub c (ok u) h = λ x. cc x
  subscribed-no_crash s sub c (err x) h = λ y. cc y
  subscribed-no_crash s sub c panic h = λ x. h refl

  error-no_crash : (s : Session) (x : Error) → on_error s x ≢ crash
  unfolding on_error
  error-no_crash s Error.conn_error h = cc h
  error-no_crash s (Error.event_max_length_error n) h = cc h
  error-no_crash s _ h = cc h

  -- A turn of the loop panics exactly if the reading of the client's message has panicked, or the
  -- event of a broadcast matches a subscription and does not pass the validation at this time.
  pub step-crash_iff :
      (settings : Settings) (now : ℕ) (s : Session) (input : Input)
      → (step settings now s input ≡ crash) ↔ Crashes settings now s input
  unfolding step on_client on_message
  step-crash_iff settings now s shutdown = never _ (λ h. cc h)
  step-crash_iff settings now s (query_result sub_id e) = never _ (λ h. cc h)
  step-crash_iff settings now s (broadcast e) =
      deliver-crash_iff settings now e (get_matching_subscriptions s.conn e) s
  step-crash_iff settings now s (client none) = never _ (λ h. cc h)
  step-crash_iff settings now s (client (some (ok (event c)))) = never _ (λ h. cc h)
  step-crash_iff settings now s (client (some (ok (req sub)))) = never _ (
      subscribed-no_crash s sub (subscribe s.conn sub).0 (subscribe s.conn sub).1
        (subscribe-no_panic s.conn sub))
  step-crash_iff settings now s (client (some (ok (close c)))) = never _ (λ h. cc h)
  step-crash_iff settings now s (client (some (err x))) = never _ (error-no_crash s x)
  step-crash_iff settings now s (client (some panic)) = (λ h. tt, λ h. refl)
