-- ===== src/Server/Queries.antt =====
-- main.rs: what becomes of the queries that the loop starts.
use nostrd.Base.{
  ℕ, suc, ◌==◌, ◌<◌, ltb, ◌≡◌, refl, String_discrete, Option, none, some, List, [], ◌∷◌, ◌++◌, Bool,
  true, false, ◌||◌, ◌&&◌, ◌⊎◌, inl, inr, any, eqb, eqb_refl, eqb_iff, All-both, Bool-cases, arith,
  All, All-append, All-imp,
}
use nostrd.Base.Outcome.{Outcome, ok, err, panic}
use nostrd.Base.Table.{get, insert, remove, get-insert, get-remove}
use nostrd.Config.{Settings}
use nostrd.Error.{Error}
use nostrd.Primitives.{Primitives, EventId}
use nostrd.Protocol.Event.{Event}
use nostrd.Protocol.Event.Serial.{event_to_value}
use nostrd.Protocol.Event.Validity.{event_from_str}
use nostrd.Protocol.Subscription.{Subscription}
use nostrd.Protocol.Commands.{Close}
use nostrd.Conn.{ClientConn, get_matching_subscriptions, subscribe, unsubscribe}
use nostrd.Stream.{event, req, close, new_event, NostrResponse}
use nostrd.Server.{
  Session, Input, Step, shutdown, query_result, broadcast, client, deliver, send, unwrap_event,
  stop_query, after_subscribe, on_message, on_error, on_client, step,
}
use nostrd.Server.Laws.{After, to_hex-eqb}

pub any-append {ℓ} :
    {A : Type ℓ} (p : A → Bool) (xs ys : List A) → any p (xs ++ ys) ≡ (any p xs || any p ys)
unfolding any
any-append p [] ys = refl
any-append p (x ∷ xs) ys = ground (arith, any-append p xs ys)

-- the message to stop was sent on the channel
abbrev pub told : ℕ → List ℕ → Bool
told channel stopped = any (λ c. c == channel) stopped

module _ ⦃lib : Primitives⦄ where
  -- a later query was started for the same identifier
  abbrev pub is_replaced : List (ℕ × Subscription) → ℕ × Subscription → Bool
  is_replaced queries (channel, sub) =
      any (λ q. ltb channel q.0 && eqb lib.hash.discrete q.1.id sub.id) queries

  -- the query was told to stop, is the running one of its identifier, or was replaced
  abbrev pub IsAccounted : Session → ℕ × Subscription → Type 0
  IsAccounted s (channel, sub) =
      (told channel s.stopped ≡ true)
      ⊎ (get String_discrete (lib.hash.to_hex sub.id) s.running_queries ≡ some channel)
      ⊎ (is_replaced s.queries (channel, sub) ≡ true)

  abbrev pub IsFresh : Session → ℕ × Subscription → Type 0
  IsFresh s q = q.0 < s.next_channel

  pub record IsTracked (s : Session) : Type 0 where
    pub accounted : All (IsAccounted s) s.queries
    pub fresh : All (IsFresh s) s.queries

  -- what an accepted REQ leaves
  abbrev started : Session → Subscription → ClientConn → Session
  started s sub conn = record s {
    conn = conn;
    running_queries =
        insert String_discrete (lib.hash.to_hex sub.id) s.next_channel s.running_queries;
    next_channel = suc s.next_channel;
    queries = s.queries ++ ((s.next_channel, sub) ∷ []);
  }

  replaced-append :
      (s : Session) (sub : Subscription) (q : ℕ × Subscription)
      → is_replaced (s.queries ++ ((s.next_channel, sub) ∷ [])) q ≡ (
          is_replaced s.queries q
          || (ltb q.0 s.next_channel && eqb lib.hash.discrete sub.id q.1.id || false))
  unfolding any
  replaced-append s sub q =
      any-append (λ (r : ℕ × Subscription). ltb q.0 r.0 && eqb lib.hash.discrete r.1.id q.1.id)
        s.queries ((s.next_channel, sub) ∷ [])

  started-old :
      (s : Session) (sub : Subscription) (conn : ClientConn) (q : ℕ × Subscription)
      → IsFresh s q × IsAccounted s q
      → IsAccounted (started s sub conn) q
  started-old s sub conn (channel, old) (fresh, inl stopped) = inl stopped
  started-old s sub conn (channel, old) (fresh, inr (inr replaced)) =
      inr (inr (ground (arith, replaced-append s sub (channel, old), replaced)))
  started-old s sub conn (channel, old) (fresh, inr (inl running)) =
      elim (Bool-cases (eqb lib.hash.discrete sub.id old.id)) [
        | inl again ↦
            let later : ltb channel s.next_channel ≡ true = ground (arith, fresh) in
            inr (inr (ground (arith, replaced-append s sub (channel, old), again, later)))
        | inr other ↦ inr (
            inl (
              ground (
                arith,
                get-insert String_discrete (lib.hash.to_hex sub.id) (lib.hash.to_hex old.id)
                    s.next_channel s.running_queries,
                to_hex-eqb sub.id old.id,
                other,
                running,
              )))
      ]

  started-IsTracked :
      (s : Session) (sub : Subscription) (conn : ClientConn)
      → IsTracked s
      → IsTracked (started s sub conn)
  started-IsTracked s sub conn t = record {
    accounted =
        All-append (IsAccounted (started s sub conn)) s.queries ((s.next_channel, sub) ∷ [])
          (All-imp _ _ (started-old s sub conn) s.queries
            (All-both (IsFresh s) (IsAccounted s) s.queries t.fresh t.accounted))
          (inr (inl new), tt);
    fresh =
        All-append (IsFresh (started s sub conn)) s.queries ((s.next_channel, sub) ∷ [])
          (All-imp (IsFresh s) _ (λ q h. omega (arith, h)) s.queries t.fresh) (omega arith, tt);
  }
    where
      new :
          get String_discrete (lib.hash.to_hex sub.id) (started s sub conn).running_queries
          ≡ some s.next_channel
      new = ground (
        arith,
        get-insert String_discrete (lib.hash.to_hex sub.id) (lib.hash.to_hex sub.id) s.next_channel
            s.running_queries,
        eqb_refl String_discrete (lib.hash.to_hex sub.id),
      )

  subscribed-IsTracked :
      (s : Session) (sub : Subscription) (conn : ClientConn) (o : Outcome Error Unit)
      → IsTracked s
      → After IsTracked (after_subscribe s sub conn o)
  subscribed-IsTracked s sub conn (ok u) t = started-IsTracked s sub conn t
  subscribed-IsTracked s sub conn (err x) t = record {
    accounted = t.accounted;
    fresh = All-imp (IsFresh s) _ (λ q h. omega (arith, h)) s.queries t.fresh;
  }
  subscribed-IsTracked s sub conn panic t = tt

  told-stop_query :
      (channel : ℕ) (o : Option ℕ) (stopped : List ℕ)
      → told channel stopped ≡ true
      → told channel (stop_query o stopped) ≡ true
  told-stop_query channel none stopped h = h
  told-stop_query channel (some c) stopped h =
      ground (arith, any-append (λ c. c == channel) stopped (c ∷ []), h)

  told-stopped :
      (channel : ℕ) (o : Option ℕ) (stopped : List ℕ)
      → o ≡ some channel
      → told channel (stop_query o stopped) ≡ true
  unfolding any
  told-stopped channel none stopped h = absurd (cc h)
  told-stopped channel (some c) stopped h =
      let same : c ≡ channel = cc h in
      ground (arith, any-append (λ c. c == channel) stopped (c ∷ []), same)

  -- what a CLOSE leaves
  abbrev closed : Session → Close → Session
  closed s c = record s {
    conn = unsubscribe s.conn c;
    running_queries = remove String_discrete (lib.hash.to_hex c.id) s.running_queries;
    stopped = stop_query (get String_discrete (lib.hash.to_hex c.id) s.running_queries) s.stopped;
  }

  closed-old :
      (s s' : Session) (id : EventId) (q : ℕ × Subscription)
      → s'.queries ≡ s.queries
      → s'.running_queries ≡ remove String_discrete (lib.hash.to_hex id) s.running_queries
      → s'.stopped
        ≡ stop_query (get String_discrete (lib.hash.to_hex id) s.running_queries) s.stopped
      → IsAccounted s q
      → IsAccounted s' q
  closed-old s s' id (channel, sub) same left now (inl stopped) =
      inl (rw now (told-stop_query channel _ s.stopped stopped))
  closed-old s s' id (channel, sub) same left now (inr (inr replaced)) =
      inr (inr (rw same replaced))
  closed-old s s' id (channel, sub) same left now (inr (inl running)) =
      elim (Bool-cases (eqb String_discrete (lib.hash.to_hex id) (lib.hash.to_hex sub.id))) [
        | inl this ↦
            let key = (eqb_iff String_discrete _ _).0 this in
            inl (rw now (told-stopped channel _ s.stopped (rw key running)))
        | inr other ↦ inr (
            inl (
              rw left (
                ground (
                  arith,
                  get-remove String_discrete (lib.hash.to_hex id) (lib.hash.to_hex sub.id)
                      s.running_queries,
                  other,
                  running,
                ))))
      ]

  send-IsTracked : (s : Session) (r : NostrResponse) → IsTracked s → IsTracked (send s r)
  send-IsTracked s r t = record { accounted = t.accounted; fresh = t.fresh }

  unwrap-IsTracked :
      (o : Outcome Error Event) (next : Event → Step)
      → ((e : Event) → After IsTracked (next e))
      → After IsTracked (unwrap_event o next)
  unwrap-IsTracked (ok e) next h = h e
  unwrap-IsTracked (err x) next h = tt
  unwrap-IsTracked panic next h = tt

  deliver-IsTracked :
      (settings : Settings) (now : ℕ) (e : Event) (ids : List EventId) (s : Session)
      → IsTracked s
      → After IsTracked (deliver settings now e ids s)
  unfolding deliver
  deliver-IsTracked settings now e [] s t = t
  deliver-IsTracked settings now e (id ∷ ids) s t =
      unwrap-IsTracked (event_from_str settings now (lib.json.print (event_to_value e))) _ (λ e'.
        deliver-IsTracked settings now e ids (send s (new_event (lib.hash.to_hex id) e'))
          (send-IsTracked s _ t))

  error-IsTracked : (s : Session) (x : Error) → IsTracked s → After IsTracked (on_error s x)
  unfolding on_error
  error-IsTracked s Error.conn_error t = t
  error-IsTracked s (Error.event_max_length_error n) t = send-IsTracked s _ t
  error-IsTracked s _ t = t

  pub step-IsTracked :
      (settings : Settings) (now : ℕ) (s : Session) (input : Input)
      → IsTracked s
      → After IsTracked (step settings now s input)
  unfolding step on_client on_message
  step-IsTracked settings now s shutdown t = t
  step-IsTracked settings now s (query_result sub_id e) t = record {
    accounted = t.accounted;
    fresh = t.fresh;
  }
  step-IsTracked settings now s (broadcast e) t =
      deliver-IsTracked settings now e (get_matching_subscriptions s.conn e) s t
  step-IsTracked settings now s (client none) t = t
  step-IsTracked settings now s (client (some (ok (event c)))) t = record {
    accounted = t.accounted;
    fresh = t.fresh;
  }
  step-IsTracked settings now s (client (some (ok (req sub)))) t =
      subscribed-IsTracked s sub (subscribe s.conn sub).0 (subscribe s.conn sub).1 t
  step-IsTracked settings now s (client (some (ok (close c)))) t = record {
    accounted =
        All-imp (IsAccounted s) _ (λ q a. closed-old s (closed s c) c.id q refl refl refl a)
          s.queries t.accounted;
    fresh = t.fresh;
  }
  step-IsTracked settings now s (client (some (err x))) t = error-IsTracked s x t
  step-IsTracked settings now s (client (some panic)) t = tt
