-- ===== src/Server/Broadcast.antt =====
-- main.rs: what a broadcast event and a CLOSE do to the session.
use mathlib.Core.List.{append-nil, append_assoc}
use nostrd.Base.{
  ℕ, String_discrete, ◌≡◌, refl, ◌∙◌, Option, none, some, List, [], ◌∷◌, ◌++◌, map, false, eqb,
  eqb_refl, arith,
}
use nostrd.Base.Outcome.{ok, err}
use nostrd.Base.Table.{get, get-remove}
use nostrd.Config.{Settings}
use nostrd.Error.{Error}
use nostrd.Primitives.{Primitives, EventId}
use nostrd.Protocol.Event.{Event}
use nostrd.Protocol.Event.Validity.{is_valid, event_from_str-print}
use nostrd.Protocol.Commands.{Close}
use nostrd.Conn.{get_matching_subscriptions}
use nostrd.Stream.{NostrResponse, close, new_event}
use nostrd.Server.{
  Session, Step, continue, break, crash, broadcast, client, deliver, send, step, stop_query,
  on_client, on_message,
}
use nostrd.Server.Laws.{to_hex-eqb}

module _ ⦃lib : Primitives⦄ where
  -- one answer for each identifier
  abbrev pub answers : Event → List EventId → List NostrResponse
  answers e ids = map (λ id. new_event (lib.hash.to_hex id) e) ids

  pub deliver-valid :
      (settings : Settings) (now : ℕ) (e : Event) (ids : List EventId) (s : Session)
      → is_valid settings now e ≡ ok tt
      → deliver settings now e ids s ≡ continue (record s { sent = s.sent ++ answers e ids })
  unfolding deliver
  deliver-valid settings now e [] s valid = rw (append-nil s.sent) refl
  deliver-valid settings now e (id ∷ ids) s valid =
      let rest =
        deliver-valid settings now e ids (send s (new_event (lib.hash.to_hex id) e)) valid in
      rw (event_from_str-print settings now e, valid)
        (rest
          ∙ rw (append_assoc s.sent (new_event (lib.hash.to_hex id) e ∷ []) (answers e ids)) refl)

  -- A broadcast event that is valid at that time is sent once for each matching subscription, in
  -- the order of the subscriptions, behind everything sent before; nothing else changes.
  pub broadcast-valid :
      (settings : Settings) (now : ℕ) (s : Session) (e : Event)
      → is_valid settings now e ≡ ok tt
      → step settings now s (broadcast e)
        ≡ continue (record s { sent = s.sent ++ answers e (get_matching_subscriptions s.conn e) })
  unfolding step
  broadcast-valid settings now s e valid =
      deliver-valid settings now e (get_matching_subscriptions s.conn e) s valid

  -- A broadcast event that is not valid at that time makes the task panic as soon as one
  -- subscription matches it.
  pub broadcast-invalid :
      (settings : Settings) (now : ℕ) (s : Session) (e : Event) (x : Error) (id : EventId)
      (ids : List EventId)
      → is_valid settings now e ≡ err x
      → get_matching_subscriptions s.conn e ≡ id ∷ ids
      → step settings now s (broadcast e) ≡ crash
  unfolding step deliver
  broadcast-invalid settings now s e x id ids invalid matching =
      rw (matching, event_from_str-print settings now e, invalid) refl

  -- the channel under which the query of an identifier can be abandoned
  abbrev pub channel : Session → EventId → Option ℕ
  channel s id = get String_discrete (lib.hash.to_hex id) s.running_queries

  -- what a CLOSE does
  pub record IsClosed (id : EventId) (s s' : Session) : Type 0 where
    pub gone : channel s' id ≡ none
    pub told : s'.stopped ≡ stop_query (channel s id) s.stopped
    pub kept :
        (other : EventId)
        → eqb lib.hash.discrete id other ≡ false
        → channel s' other ≡ channel s other
    pub silent : s'.sent ≡ s.sent

  -- the loop goes on, with a session that satisfies the predicate
  abbrev pub Continues : (Session → Type 0) → Step → Type 0
  Continues P (continue s) = P s
  Continues P (break s) = ⊥
  Continues P crash = ⊥

  -- A CLOSE message takes the query's channel away, after the message to stop was sent on it if
  -- there was one; the other channels and the responses stay.
  pub close-IsClosed :
      (settings : Settings) (now : ℕ) (s : Session) (c : Close)
      → Continues (IsClosed c.id s) (step settings now s (client (some (ok (close c)))))
  unfolding step on_client on_message
  close-IsClosed settings now s c = record {
    gone = ground (
      arith,
      get-remove String_discrete (lib.hash.to_hex c.id) (lib.hash.to_hex c.id) s.running_queries,
      eqb_refl String_discrete (lib.hash.to_hex c.id),
    );
    told = refl;
    kept = λ other h. ground (
      arith,
      get-remove String_discrete (lib.hash.to_hex c.id) (lib.hash.to_hex other) s.running_queries,
      to_hex-eqb c.id other,
      h,
    );
    silent = refl;
  }
