-- ===== src/Server/Laws.antt =====
-- main.rs: the invariant of the event loop, and what it forwards.
use nostrd.Base.{
  ℕ, String, String_discrete, ◌≤◌, ◌≡◌, refl, ap, ◌∙◌, Option, none, some, List, [], ◌∷◌, true,
  arith, eqb, length, if◌then◌else◌, Bool_ext, eqb_iff,
}
use nostrd.Base.Outcome.{Outcome, ok, err, panic}
use nostrd.Base.Table
use nostrd.Base.Table.{get, has, insert, remove}
use nostrd.Config.{Settings}
use nostrd.Error.{Error}
use nostrd.Primitives.{Primitives, EventId}
use nostrd.Protocol.Event.{Event}
use nostrd.Protocol.Event.Serial.{event_to_value}
use nostrd.Protocol.Event.Validity.{event_from_str}
use nostrd.Protocol.Subscription.{Subscription}
use nostrd.Protocol.Commands.{Close}
use nostrd.Conn.{ClientConn, new_conn, get_matching_subscriptions, subscribe, unsubscribe}
use nostrd.Conn.Laws.{
  IsValid, new_conn-IsValid, active-subscribe, subscribe-IsValid, unsubscribe-IsValid,
  subscribe_refused,
}
use nostrd.Stream.{NostrMessage, event, req, close, new_event}
use nostrd.Server.{
  Session, Input, Step, continue, break, crash, shutdown, query_result, broadcast, client, start,
  deliver, after_subscribe, on_message, on_error, on_client, step, cleanup, run, unwrap_event,
  next_turn, send,
}

module _ ⦃lib : Primitives⦄ where
  -- The connection is valid and allows 32 subscriptions, and a query can be abandoned under exactly
  -- the identifiers that have an active subscription.
  pub record IsSound (s : Session) : Type 0 where
    pub valid : IsValid s.conn
    pub limit : s.conn.max_subs ≡ 32
    pub tracked :
        (id : EventId)
        → has String_discrete (lib.hash.to_hex id) s.running_queries
          ≡ has lib.hash.discrete id s.conn.subscriptions

  -- The texts of identifiers are equal only if the identifiers are.
  pub to_hex-injective : (a b : EventId) → lib.hash.to_hex a ≡ lib.hash.to_hex b → a ≡ b
  to_hex-injective a b h = ground (arith, lib.hash.from_hex-to_hex a, lib.hash.from_hex-to_hex b, h)

  pub to_hex-eqb :
      (a b : EventId)
      → eqb String_discrete (lib.hash.to_hex a) (lib.hash.to_hex b) ≡ eqb lib.hash.discrete a b
  to_hex-eqb a b = Bool_ext _ _ (
    λ h.
        (eqb_iff lib.hash.discrete a b).1
          (to_hex-injective a b ((eqb_iff String_discrete _ _).0 h)),
    λ h. (eqb_iff String_discrete _ _).1 (ap lib.hash.to_hex ((eqb_iff lib.hash.discrete a b).0 h)),
  )

  pub start-IsSound : (client_id : String) → IsSound (start client_id)
  unfolding start has get new_conn
  start-IsSound client_id =
      let (valid, limit, _) = new_conn-IsValid client_id in
      record { valid = valid; limit = limit; tracked = λ id. refl }

  has-subscribe :
      (c : ClientConn) (s : Subscription) (id : EventId)
      → (subscribe c s).1 ≡ ok tt
      → has lib.hash.discrete id (subscribe c s).0.subscriptions
        ≡ (if eqb lib.hash.discrete s.id id then true else has lib.hash.discrete id c.subscriptions)
  unfolding has
  has-subscribe c s id h = ground (arith, active-subscribe c s id h)

  -- what holds of the state after a step, if there is one
  abbrev pub After : (Session → Type 0) → Step → Type 0
  After P (continue s) = P s
  After P (break s) = P s
  After P crash = Unit

  unwrap-IsSound :
      (o : Outcome Error Event) (next : Event → Step)
      → ((e : Event) → After IsSound (next e))
      → After IsSound (unwrap_event o next)
  unwrap-IsSound (ok e) next h = h e
  unwrap-IsSound (err x) next h = tt
  unwrap-IsSound panic next h = tt

  deliver-IsSound :
      (settings : Settings) (now : ℕ) (e : Event) (ids : List EventId) (s : Session)
      → IsSound s
      → After IsSound (deliver settings now e ids s)
  unfolding deliver
  deliver-IsSound settings now e [] s h = h
  deliver-IsSound settings now e (id ∷ ids) s h =
      unwrap-IsSound (event_from_str settings now (lib.json.print (event_to_value e))) _ (λ e'.
        deliver-IsSound settings now e ids (send s (new_event (lib.hash.to_hex id) e'))
          (record { valid = h.valid; limit = h.limit; tracked = h.tracked }))

  after_subscribe-IsSound :
      (s : Session) (sub : Subscription) (c : ClientConn) (answer : Outcome Error Unit)
      → IsSound s
      → IsValid c × (c.max_subs ≡ 32)
      → (answer ≡ ok tt
          → (id : EventId)
          → has lib.hash.discrete id c.subscriptions ≡ (
              if eqb lib.hash.discrete sub.id id
              then true
              else has lib.hash.discrete id s.conn.subscriptions))
      → ((x : Error) → answer ≡ err x → c ≡ s.conn)
      → After IsSound (after_subscribe s sub c answer)
  after_subscribe-IsSound s sub c (ok u) h v accepted refused = record {
    valid = v.0;
    limit = v.1;
    tracked = λ id. cc (
      Table.has-insert String_discrete (lib.hash.to_hex sub.id) (lib.hash.to_hex id) s.next_channel
          s.running_queries,
      to_hex-eqb sub.id id,
      h.tracked id,
      accepted refl id,
    );
  }
  after_subscribe-IsSound s sub c (err x) h v accepted refused = record {
    valid = v.0;
    limit = v.1;
    tracked = rw (refused x refl) h.tracked;
  }
  after_subscribe-IsSound s sub c panic h v accepted refused = tt

  req-IsSound :
      (s : Session) (sub : Subscription) → IsSound s → After IsSound (on_message s (req sub))
  unfolding on_message
  req-IsSound s sub h =
      let (valid, limit) = subscribe-IsValid s.conn sub h.valid in
      after_subscribe-IsSound s sub (subscribe s.conn sub).0 (subscribe s.conn sub).1 h
        (valid, limit ∙ h.limit) (λ p id. has-subscribe s.conn sub id p)
        (λ x p. (subscribe_refused s.conn sub x p).0)

  close-IsSound : (s : Session) (c : Close) → IsSound s → After IsSound (on_message s (close c))
  unfolding on_message unsubscribe
  close-IsSound s c h = record {
    valid = (unsubscribe-IsValid s.conn c h.valid).0;
    limit = h.limit;
    tracked = λ id. cc (
      Table.has-remove String_discrete (lib.hash.to_hex c.id) (lib.hash.to_hex id)
          s.running_queries,
      Table.has-remove lib.hash.discrete c.id id s.conn.subscriptions,
      to_hex-eqb c.id id,
      h.tracked id,
    );
  }

  error-IsSound : (s : Session) (x : Error) → IsSound s → After IsSound (on_error s x)
  unfolding on_error
  error-IsSound s Error.conn_error h = h
  error-IsSound s (Error.event_max_length_error n) h = record {
    valid = h.valid;
    limit = h.limit;
    tracked = h.tracked;
  }
  error-IsSound s _ h = h

  client-IsSound :
      (s : Session) (next : Option (Outcome Error NostrMessage))
      → IsSound s
      → After IsSound (on_client s next)
  unfolding on_client
  client-IsSound s none h = h
  client-IsSound s (some (ok (event c))) h =
      unfold on_message in record { valid = h.valid; limit = h.limit; tracked = h.tracked }
  client-IsSound s (some (ok (req sub))) h = req-IsSound s sub h
  client-IsSound s (some (ok (close c))) h = close-IsSound s c h
  client-IsSound s (some (err x)) h = error-IsSound s x h
  client-IsSound s (some panic) h = tt

  -- Every turn of the loop keeps the invariant, on each arm and for each message and error: at most
  -- 32 subscriptions, each under its own identifier, and an abandon channel for exactly those.
  pub step-IsSound :
      (settings : Settings) (now : ℕ) (s : Session) (input : Input)
      → IsSound s
      → After IsSound (step settings now s input)
  unfolding step
  step-IsSound settings now s shutdown h = h
  step-IsSound settings now s (query_result sub_id e) h = record {
    valid = h.valid;
    limit = h.limit;
    tracked = h.tracked;
  }
  step-IsSound settings now s (broadcast e) h =
      deliver-IsSound settings now e (get_matching_subscriptions s.conn e) s h
  step-IsSound settings now s (client next) h = client-IsSound s next h

  -- at most 32 subscriptions
  abbrev pub WithinLimit : Session → Type 0
  WithinLimit s = length s.conn.subscriptions ≤ 32

  turn-WithinLimit :
      (st : Step) (next : Session → Step)
      → After IsSound st
      → ((s : Session) → IsSound s → After WithinLimit (next s))
      → After WithinLimit (next_turn st next)
  unfolding cleanup
  turn-WithinLimit (continue s) next h k = k s h
  turn-WithinLimit (break s) next h k = omega (arith, h.valid.bounded, h.limit)
  turn-WithinLimit crash next h k = tt

  run_from-WithinLimit :
      (settings : Settings) (inputs : List (ℕ × Input)) (s : Session)
      → IsSound s
      → After WithinLimit (run settings inputs s)
  unfolding run
  run_from-WithinLimit settings [] s h = omega (arith, h.valid.bounded, h.limit)
  run_from-WithinLimit settings ((now, input) ∷ rest) s h =
      turn-WithinLimit (step settings now s input) _ (step-IsSound settings now s input h)
        (λ s' h'. run_from-WithinLimit settings rest s' h')

  -- From a new connection, whatever the client, the database and the other clients send and in
  -- whatever order, the connection never holds more than 32 subscriptions.
  pub run-WithinLimit :
      (settings : Settings) (inputs : List (ℕ × Input)) (client_id : String)
      → After WithinLimit (run settings inputs (start client_id))
  run-WithinLimit settings inputs client_id =
      run_from-WithinLimit settings inputs (start client_id) (start-IsSound client_id)
