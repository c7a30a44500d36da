-- ===== src/Server/Closed.antt =====
-- main.rs: what a client is sent after it has closed a subscription.
use nostrd.Base.{
  ℕ, ◌≡◌, ◌≢◌, refl, ◌∙◌, sym, inl, inr, String, none, some, List, [], ◌∷◌, ◌++◌, false, arith, eqb,
  eqb_iff, eqb_refl, Bool-cases, All, All-append,
}
use mathlib.Core.List.{append_assoc, append-nil}
use nostrd.Base.Outcome.{Outcome, ok, err, panic}
use nostrd.Base.Table.{get}
use nostrd.Config.{Settings}
use nostrd.Error.{Error, display}
use nostrd.Primitives.{Primitives, EventId}
use nostrd.Protocol.Event.{Event}
use nostrd.Protocol.Event.Serial.{event_to_value}
use nostrd.Protocol.Event.Validity.{event_from_str}
use nostrd.Protocol.Responses.{event_resp}
use nostrd.Protocol.Subscription.{Subscription, interested_in_event}
use nostrd.Protocol.Commands.{Close}
use nostrd.Conn.{ClientConn, push_matching, get_matching_subscriptions, subscribe, unsubscribe}
use nostrd.Conn.Laws.{active, active-subscribe, active-unsubscribe, subscribe_refused}
use nostrd.Stream.{NostrResponse, event, req, close, notice, event_response, new_event, new_notice}
use nostrd.Server.{
  Session, Input, Step, continue, break, crash, shutdown, query_result, broadcast, client, deliver,
  send, after_subscribe, on_message, on_error, on_client, step, next_turn, run, cleanup,
}
use nostrd.Server.Laws.{After, to_hex-injective}
use nostrd.Server.Served.{unwrap-After}

module _ ⦃lib : Primitives⦄ (id : EventId) where
  -- a response that does not come under the identifier
  abbrev pub IsElsewhere : NostrResponse → Type 0
  IsElsewhere (notice r) = Unit
  IsElsewhere (event_response r) = r.subscription_id ≢ lib.hash.to_hex id

  -- no REQ of the identifier, and no result of a query that ran for it
  abbrev pub IsOther : Input → Type 0
  IsOther (query_result sub_id e) = sub_id ≢ lib.hash.to_hex id
  IsOther (client (some (ok (req sub)))) = sub.id ≢ id
  IsOther _ = Unit

  -- The subscription is not active, and since the responses `before` none came under it.
  pub record IsSilent (before : List NostrResponse) (s : Session) : Type 0 where
    pub closed : active s.conn id ≡ none
    pub since : List NostrResponse
    pub sent : s.sent ≡ before ++ since
    pub elsewhere : All IsElsewhere since

  event-IsElsewhere :
      (sub_id : String) (e : Event) → sub_id ≢ lib.hash.to_hex id → IsElsewhere (new_event sub_id e)
  unfolding new_event event_resp
  event-IsElsewhere sub_id e h = h

  notice-IsElsewhere : (msg : String) → IsElsewhere (new_notice msg)
  unfolding new_notice
  notice-IsElsewhere msg = tt

  send-IsSilent :
      (before : List NostrResponse) (s : Session) (r : NostrResponse)
      → IsSilent before s
      → IsElsewhere r
      → IsSilent before (send s r)
  send-IsSilent before s r h k = record {
    closed = h.closed;
    since = h.since ++ (r ∷ []);
    sent = rw h.sent (append_assoc before h.since (r ∷ []));
    elsewhere = All-append IsElsewhere h.since (r ∷ []) h.elsewhere (k, tt);
  }

  -- with another connection, in which the subscription is not active either
  moved-IsSilent :
      (before : List NostrResponse) (s s' : Session)
      → IsSilent before s
      → active s'.conn id ≡ none
      → s'.sent ≡ s.sent
      → IsSilent before s'
  moved-IsSilent before s s' h gone same = record {
    closed = gone;
    since = h.since;
    sent = same ∙ h.sent;
    elsewhere = h.elsewhere;
  }

  push_matching-others :
      (e : Event) (v : List EventId) (m : List (EventId × Subscription))
      → get lib.hash.discrete id m ≡ none
      → All (λ j. j ≢ id) v
      → All (λ j. j ≢ id) (push_matching e v m)
  unfolding push_matching get
  push_matching-others e v [] absent h = h
  push_matching-others e v ((j, sub) ∷ m) absent h =
      elim (Bool-cases (eqb lib.hash.discrete j id)) [
        | inl same ↦ absurd (cc (rw same at absent))
        | inr apart ↦
            let rest : get lib.hash.discrete id m ≡ none = rw apart at absent in
            let other : j ≢ id = λ p. cc ((eqb_iff lib.hash.discrete j id).1 p, apart) in
            elim (Bool-cases (interested_in_event sub e)) [
              | inl wants ↦ rw wants (
                  push_matching-others e (v ++ (j ∷ [])) m rest
                    (All-append (λ j. j ≢ id) v (j ∷ []) h (other, tt)))
              | inr not ↦ rw not (push_matching-others e v m rest h)
            ]
      ]

  deliver-IsSilent :
      (settings : Settings) (now : ℕ) (e : Event) (ids : List EventId) (before : List NostrResponse)
      (s : Session)
      → All (λ j. j ≢ id) ids
      → IsSilent before s
      → After (IsSilent before) (deliver settings now e ids s)
  unfolding deliver
  deliver-IsSilent settings now e [] before s a h = h
  deliver-IsSilent settings now e (j ∷ ids) before s (other, a) h =
      unwrap-After (IsSilent before)
        (event_from_str settings now (lib.json.print (event_to_value e))) _
        (λ e' read.
          deliver-IsSilent settings now e ids before (send s (new_event (lib.hash.to_hex j) e')) a (
            send-IsSilent before s _ h
              (event-IsElsewhere (lib.hash.to_hex j) e' (λ p. other (to_hex-injective j id p)))))

  subscribed-IsSilent :
      (before : List NostrResponse) (s : Session) (sub : Subscription) (o : Outcome Error Unit)
      → (subscribe s.conn sub).1 ≡ o
      → sub.id ≢ id
      → IsSilent before s
      → After (IsSilent before) (after_subscribe s sub (subscribe s.conn sub).0 o)
  subscribed-IsSilent before s sub (ok u) same other h =
      let apart : eqb lib.hash.discrete sub.id id ≡ false =
        ground (arith, eqb_iff lib.hash.discrete sub.id id, other) in
      moved-IsSilent before s _ h (active-subscribe s.conn sub id same ∙ rw apart h.closed) refl
  subscribed-IsSilent before s sub (err x) same other h =
      let (kept, _, _) = subscribe_refused s.conn sub x same in
      send-IsSilent before _ (new_notice (display x))
        (moved-IsSilent before s _ h (rw kept h.closed) refl) (notice-IsElsewhere (display x))
  subscribed-IsSilent before s sub panic same other h = tt

  error-IsSilent :
      (before : List NostrResponse) (s : Session) (x : Error)
      → IsSilent before s
      → After (IsSilent before) (on_error s x)
  unfolding on_error
  error-IsSilent before s Error.conn_error h = h
  error-IsSilent before s (Error.event_max_length_error n) h =
      send-IsSilent before s _ h (notice-IsElsewhere "event exceeded max size")
  error-IsSilent before s _ h = h

  unsubscribed :
      (c : ClientConn) (cmd : Close) → active c id ≡ none → active (unsubscribe c cmd) id ≡ none
  unsubscribed c cmd h = active-unsubscribe c cmd id ∙ ground (arith, h)

  step-IsSilent :
      (settings : Settings) (now : ℕ) (before : List NostrResponse) (s : Session) (input : Input)
      → IsOther input
      → IsSilent before s
      → After (IsSilent before) (step settings now s input)
  unfolding step on_client on_message
  step-IsSilent settings now before s shutdown a h = h
  step-IsSilent settings now before s (query_result sub_id e) a h =
      send-IsSilent before _ (new_event sub_id e) (moved-IsSilent before s _ h h.closed refl)
        (event-IsElsewhere sub_id e a)
  step-IsSilent settings now before s (broadcast e) a h =
      deliver-IsSilent settings now e (get_matching_subscriptions s.conn e) before s
        (unfold get_matching_subscriptions in
          push_matching-others e [] s.conn.subscriptions h.closed tt)
        h
  step-IsSilent settings now before s (client none) a h = h
  step-IsSilent settings now before s (client (some (ok (event c)))) a h =
      moved-IsSilent before s _ h h.closed refl
  step-IsSilent settings now before s (client (some (ok (req sub)))) a h =
      subscribed-IsSilent before s sub (subscribe s.conn sub).1 refl a h
  step-IsSilent settings now before s (client (some (ok (close c)))) a h =
      moved-IsSilent before s _ h (unsubscribed s.conn c h.closed) refl
  step-IsSilent settings now before s (client (some (err x))) a h = error-IsSilent before s x h
  step-IsSilent settings now before s (client (some panic)) a h = tt

  turn-IsSilent :
      (before : List NostrResponse) (st : Step) (next : Session → Step)
      → After (IsSilent before) st
      → ((s : Session) → IsSilent before s → After (IsSilent before) (next s))
      → After (IsSilent before) (next_turn st next)
  unfolding cleanup
  turn-IsSilent before (continue s) next h k = k s h
  turn-IsSilent before (break s) next h k = moved-IsSilent before s _ h h.closed refl
  turn-IsSilent before crash next h k = tt

  run-IsSilent :
      (settings : Settings) (before : List NostrResponse) (inputs : List (ℕ × Input)) (s : Session)
      → All (λ (i : ℕ × Input). IsOther i.1) inputs
      → IsSilent before s
      → After (IsSilent before) (run settings inputs s)
  unfolding run
  run-IsSilent settings before [] s a h = h
  run-IsSilent settings before ((now, input) ∷ rest) s (this, a) h =
      turn-IsSilent before (step settings now s input) _
        (step-IsSilent settings now before s input this h)
        (λ s' h'. run-IsSilent settings before rest s' a h')

module _ ⦃lib : Primitives⦄ where
  -- After a CLOSE, whatever follows, as long as the client sends no REQ for the identifier and no
  -- result of its query comes in: unless the task panics, no response comes under the identifier, and
  -- the subscription is not active when the loop ends, or where it stands.
  pub close-IsSilent :
      (settings : Settings) (now : ℕ) (s : Session) (c : Close) (inputs : List (ℕ × Input))
      → All (λ (i : ℕ × Input). IsOther c.id i.1) inputs
      → After (IsSilent c.id s.sent) (run settings ((now, client (some (ok (close c)))) ∷ inputs) s)
  unfolding run step on_client on_message
  close-IsSilent settings now s c inputs others =
      run-IsSilent c.id settings s.sent inputs _ others (record {
        closed = active-unsubscribe s.conn c c.id ∙ rw (eqb_refl lib.hash.discrete c.id) refl;
        since = [];
        sent = sym (append-nil s.sent);
        elsewhere = tt;
      })
