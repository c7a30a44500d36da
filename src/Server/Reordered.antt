-- ===== src/Server/Reordered.antt =====
-- main.rs: the event loop, whatever the order in which its tables yield their entries.
use mathlib.Core.List.{Permᴰ}
use mathlib.Core.List.Permᴰ
use nostrd.Base.{
  ℕ, ◌+◌, ◌≡◌, refl, ap, String, String_discrete, Option, none, some, List, [], ◌∷◌, ◌++◌,
}
use nostrd.Base.Outcome.{ok, err, panic}
use nostrd.Base.Table.{get, remove-IsDistinct}
use nostrd.Base.Table.Order.{get-perm, remove-perm}
use nostrd.Config.{Settings}
use nostrd.Error.{Error}
use nostrd.Primitives.{Primitives}
use nostrd.Protocol.Event.Validity.{is_valid}
use nostrd.Protocol.Commands.{event_of_cmd}
use nostrd.Conn.{new_conn, subscribe}
use nostrd.Conn.Order.{matching-perm, subscribe-SameConn, unsubscribe-SameConn}
use nostrd.Stream.{NostrMessage, event, req, close, new_event, new_notice}
use nostrd.Server.{
  Session, Input, Step, continue, break, crash, shutdown, query_result, broadcast, client, start,
  stop_query, on_message, on_error, on_client, step, run, cleanup,
}
use nostrd.Server.Order.{
  perm_append, SameSession, SameStep, sends-SameSession, deliver-SameStep, subscribed-SameStep,
}

module _ ⦃lib : Primitives⦄ where
  stop_query-perm :
      (o : Option ℕ) {xs ys : List ℕ} → Permᴰ xs ys → Permᴰ (stop_query o xs) (stop_query o ys)
  stop_query-perm none d = d
  stop_query-perm (some channel) d = Permᴰ.append_right (channel ∷ []) d

  message-SameStep :
      (s s' : Session) (m : NostrMessage)
      → SameSession s s'
      → SameStep (on_message s m) (on_message s' m)
  unfolding on_message
  message-SameStep s s' (event ec) h = record {
    conn = h.conn;
    running = h.running;
    distinct = h.distinct;
    published_count = ap (λ (n : ℕ). n + 1) h.published_count;
    received_count = h.received_count;
    channel = h.channel;
    sent = h.sent;
    published = ap (λ es. es ++ (event_of_cmd ec ∷ [])) h.published;
    queries = h.queries;
    stopped = h.stopped;
  }
  message-SameStep s s' (req sub) h =
      subscribed-SameStep s s' sub (subscribe s.conn sub) (subscribe s'.conn sub)
        (subscribe-SameConn s.conn s'.conn sub h.conn) h
  message-SameStep s s' (close c) h = record {
    conn = unsubscribe-SameConn s.conn s'.conn c h.conn;
    running = remove-perm String_discrete (lib.hash.to_hex c.id) h.running;
    distinct =
        remove-IsDistinct String_discrete (lib.hash.to_hex c.id) s.running_queries h.distinct;
    published_count = h.published_count;
    received_count = h.received_count;
    channel = h.channel;
    sent = h.sent;
    published = h.published;
    queries = h.queries;
    stopped =
        rw (get-perm String_discrete (lib.hash.to_hex c.id) h.running h.distinct) (
          stop_query-perm (get String_discrete (lib.hash.to_hex c.id) s'.running_queries)
            h.stopped);
  }

  error-SameStep :
      (s s' : Session) (x : Error) → SameSession s s' → SameStep (on_error s x) (on_error s' x)
  unfolding on_error
  error-SameStep s s' Error.conn_error h = h
  error-SameStep s s' (Error.event_max_length_error n) h =
      sends-SameSession s s' _ _ h (Permᴰ.refl (new_notice "event exceeded max size" ∷ []))
  error-SameStep s s' _ h = h

  -- A turn of the loop on the same input.
  step-SameStep :
      (settings : Settings) (now : ℕ) (s s' : Session) (input : Input)
      → SameSession s s'
      → SameStep (step settings now s input) (step settings now s' input)
  unfolding step on_client
  step-SameStep settings now s s' shutdown h = h
  step-SameStep settings now s s' (query_result sub_id e) h =
      sends-SameSession
        (record s { client_received_event_count = s.client_received_event_count + 1 })
        (record s' { client_received_event_count = s'.client_received_event_count + 1 }) _ _
        (record {
          conn = h.conn;
          running = h.running;
          distinct = h.distinct;
          published_count = h.published_count;
          received_count = ap (λ (n : ℕ). n + 1) h.received_count;
          channel = h.channel;
          sent = h.sent;
          published = h.published;
          queries = h.queries;
          stopped = h.stopped;
        })
        (Permᴰ.refl (new_event sub_id e ∷ []))
  step-SameStep settings now s s' (broadcast e) h =
      deliver-SameStep settings now e _ _ s s' (is_valid settings now e) refl
        (matching-perm s.conn s'.conn e h.conn) h
  step-SameStep settings now s s' (client none) h = h
  step-SameStep settings now s s' (client (some (ok m))) h = message-SameStep s s' m h
  step-SameStep settings now s s' (client (some (err x))) h = error-SameStep s s' x h
  step-SameStep settings now s s' (client (some panic)) h = tt

  cleanup-SameSession : (s s' : Session) → SameSession s s' → SameSession (cleanup s) (cleanup s')
  unfolding cleanup
  cleanup-SameSession s s' h = record {
    conn = h.conn;
    running = Permᴰ.nil;
    distinct = tt;
    published_count = h.published_count;
    received_count = h.received_count;
    channel = h.channel;
    sent = h.sent;
    published = h.published;
    queries = h.queries;
    stopped = perm_append h.stopped (Permᴰ.map (λ (entry : String × ℕ). entry.1) h.running);
  }

  start-IsDistinct : (client_id : String) → SameSession (start client_id) (start client_id)
  unfolding start new_conn
  start-IsDistinct client_id = record {
    conn = record { client = refl; limit = refl; entries = Permᴰ.nil; distinct = tt };
    running = Permᴰ.nil;
    distinct = tt;
    published_count = refl;
    received_count = refl;
    channel = refl;
    sent = Permᴰ.nil;
    published = refl;
    queries = refl;
    stopped = Permᴰ.nil;
  }

  -- the session with the entries of both tables in another order
  pub record Reorders (s s' : Session) : Type 0 where
    pub subscriptions : Permᴰ s.conn.subscriptions s'.conn.subscriptions
    pub running : Permᴰ s.running_queries s'.running_queries
    pub rest : s' ≡ record s {
      conn = record s.conn { subscriptions = s'.conn.subscriptions };
      running_queries = s'.running_queries;
    }

  -- The loop over a sequence of inputs, with the tables in any order before each turn, and before
  -- the clean-up.
  pub data RunsTo (settings : Settings) : Session → List (ℕ × Input) → Step → Type 0 where
    waits : (s s' : Session) → Reorders s s' → RunsTo settings s [] (continue s')
    turns :
        (s s' s'' : Session) (now : ℕ) (input : Input) (rest : List (ℕ × Input)) (end : Step)
        → Reorders s s'
        → step settings now s' input ≡ continue s''
        → RunsTo settings s'' rest end
        → RunsTo settings s ((now, input) ∷ rest) end
    breaks :
        (s s' s'' t : Session) (now : ℕ) (input : Input) (rest : List (ℕ × Input))
        → Reorders s s'
        → step settings now s' input ≡ break s''
        → Reorders s'' t
        → RunsTo settings s ((now, input) ∷ rest) (break (cleanup t))
    crashes :
        (s s' : Session) (now : ℕ) (input : Input) (rest : List (ℕ × Input))
        → Reorders s s'
        → step settings now s' input ≡ crash
        → RunsTo settings s ((now, input) ∷ rest) crash

  reordered : (s s' t : Session) → SameSession s s' → Reorders s' t → SameSession s t
  reordered s s' t h r = rw r.rest (record {
    conn = record {
      client = h.conn.client;
      limit = h.conn.limit;
      entries = Permᴰ.trans h.conn.entries r.subscriptions;
      distinct = h.conn.distinct;
    };
    running = Permᴰ.trans h.running r.running;
    distinct = h.distinct;
    published_count = h.published_count;
    received_count = h.received_count;
    channel = h.channel;
    sent = h.sent;
    published = h.published;
    queries = h.queries;
    stopped = h.stopped;
  })

  -- what a turn of the model is, where the loop's is given
  after_same :
      (st : Step) (s : Session)
      → SameStep st (continue s)
      → (s' : Session) × (st ≡ continue s') × SameSession s' s
  after_same (continue s') s h = (s', refl, h)
  after_same (break s') s h = absurd h
  after_same crash s h = absurd h

  after_break :
      (st : Step) (s : Session)
      → SameStep st (break s)
      → (s' : Session) × (st ≡ break s') × SameSession s' s
  after_break (continue s') s h = absurd h
  after_break (break s') s h = (s', refl, h)
  after_break crash s h = absurd h

  after_crash : (st : Step) → SameStep st crash → st ≡ crash
  after_crash (continue s') h = absurd h
  after_crash (break s') h = absurd h
  after_crash crash h = refl

  RunsTo-SameStep :
      (settings : Settings) (s t : Session) (inputs : List (ℕ × Input)) (end : Step)
      → RunsTo settings s inputs end
      → SameSession t s
      → SameStep (run settings inputs t) end
  unfolding run
  RunsTo-SameStep settings s t inputs end (waits s0 s' r) h = reordered t s s' h r
  RunsTo-SameStep settings s t inputs end (turns s0 s' s'' now input rest end0 r st way) h =
      let turn : SameStep (step settings now t input) (continue s'') =
        rw (← st) (step-SameStep settings now t s' input (reordered t s s' h r)) in
      let (t', went, same) = after_same (step settings now t input) s'' turn in
      rw went (RunsTo-SameStep settings s'' t' rest end way same)
  RunsTo-SameStep settings s t inputs end (breaks s0 s' s'' u now input rest r st r') h =
      let turn : SameStep (step settings now t input) (break s'') =
        rw (← st) (step-SameStep settings now t s' input (reordered t s s' h r)) in
      let (t', went, same) = after_break (step settings now t input) s'' turn in
      rw went (cleanup-SameSession t' u (reordered t' s'' u same r'))
  RunsTo-SameStep settings s t inputs end (crashes s0 s' now input rest r st) h =
      let turn : SameStep (step settings now t input) crash =
        rw (← st) (step-SameStep settings now t s' input (reordered t s s' h r)) in
      rw (after_crash (step settings now t input) turn) tt

  -- However the two `HashMap`s order their entries, before each turn and before the clean-up: a
  -- connection's loop ends as it does with the order of the model. It goes on, breaks or panics
  -- alike, publishes the same events, starts the same queries, and has the same subscriptions; its
  -- responses and its messages to stop are the same, each as often, in an order that may differ.
  pub run-SameStep :
      (settings : Settings) (inputs : List (ℕ × Input)) (client_id : String) (end : Step)
      → RunsTo settings (start client_id) inputs end
      → SameStep (run settings inputs (start client_id)) end
  run-SameStep settings inputs client_id end way =
      RunsTo-SameStep settings (start client_id) (start client_id) inputs end way
        (start-IsDistinct client_id)
