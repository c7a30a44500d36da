-- ===== src/Server/Served.antt =====
-- main.rs: every turn of the loop keeps to the subscriptions that were requested.
use nostrd.Base.{
  ℕ, ◌≡◌, refl, String, none, some, List, [], ◌∷◌, ◌++◌, Bool, true, All, All-append, All-imp,
}
use nostrd.Base.Outcome.{Outcome, ok, err, panic, >>=-eq-ok}
use nostrd.Config.{Settings}
use nostrd.Error.{Error, display}
use nostrd.Primitives.{Primitives, EventId}
use nostrd.Protocol.Event.{Event}
use nostrd.Protocol.Event.Serial.{event_to_value}
use nostrd.Protocol.Event.Validity.{is_valid, event_from_str, event_from_str-print}
use nostrd.Protocol.Subscription.{Subscription, interested_in_event}
use nostrd.Conn.{new_conn, get_matching_subscriptions, subscribe, unsubscribe}
use nostrd.Stream.{event, req, close, new_event, new_notice}
use nostrd.Server.{
  Session, Input, Step, continue, break, crash, shutdown, query_result, broadcast, client, start,
  deliver, send, unwrap_event, after_subscribe, on_message, on_error, on_client, step,
}
use nostrd.Server.Laws.{After}
use nostrd.Server.Requests.{
  All-remove, Grows, Grows-append, IsKnown, IsKnown-later, new-IsKnown, IsRequested, IsAsked,
  IsAsked-later, IsServed, IsServedAfter, event-IsAsked, notice-IsAsked, send-IsServed,
  push_matching-IsRequested, All-subscribe,
}

module _ ⦃lib : Primitives⦄ where
  -- What is read back from the text of an event is that event.
  pub read_back :
      (settings : Settings) (now : ℕ) (e e' : Event)
      → event_from_str settings now (lib.json.print (event_to_value e)) ≡ ok e'
      → e ≡ e'
  read_back settings now e e' h =
      let (u, valid, same) =
        >>=-eq-ok (is_valid settings now e) (λ _. ok e)
          (rw (event_from_str-print settings now e) at h) in
      cc same

  pub unwrap-After :
      (P : Session → Type 0) (o : Outcome Error Event) (next : Event → Step)
      → ((e : Event) → o ≡ ok e → After P (next e))
      → After P (unwrap_event o next)
  unwrap-After P (ok e) next h = h e refl
  unwrap-After P (err x) next h = tt
  unwrap-After P panic next h = tt

module _ ⦃lib : Primitives⦄ (is_good : Subscription → Bool)
    (Serves : Subscription → Event → Type 0) where
  -- the queries stay as they are, and the session serves them
  abbrev IsServedFor : List (ℕ × Subscription) → Session → Type 0
  IsServedFor queries s = (s.queries ≡ queries) × IsServed is_good Serves s

  deliver-IsServed :
      (settings : Settings) (now : ℕ) (e : Event) (ids : List EventId) (s : Session)
      → All (λ id. IsRequested Serves s.queries (lib.hash.to_hex id) e) ids
      → IsServed is_good Serves s
      → After (IsServedFor s.queries) (deliver settings now e ids s)
  unfolding deliver
  deliver-IsServed settings now e [] s a h = (refl, h)
  deliver-IsServed settings now e (id ∷ ids) s (here, a) h =
      unwrap-After (IsServedFor s.queries)
        (event_from_str settings now (lib.json.print (event_to_value e))) _
        (λ e' read.
          let own : IsRequested Serves s.queries (lib.hash.to_hex id) e' =
            rw (← read_back settings now e e' read) here in
          deliver-IsServed settings now e ids (send s (new_event (lib.hash.to_hex id) e')) a (
            send-IsServed is_good Serves s _ h
              (event-IsAsked Serves s.queries (lib.hash.to_hex id) e' own)))

  subscribed-IsServed :
      (s : Session) (sub : Subscription) (o : Outcome Error Unit)
      → (subscribe s.conn sub).1 ≡ o
      → is_good sub ≡ true
      → IsServed is_good Serves s
      → After (IsServedAfter is_good Serves s) (after_subscribe s sub (subscribe s.conn sub).0 o)
  subscribed-IsServed s sub (ok u) same fine h =
      let more = s.queries ++ ((s.next_channel, sub) ∷ []) in
      let grows : Grows s.queries more = Grows-append s.queries (s.next_channel, sub) in
      (
        grows,
        record {
          active =
              All-subscribe (IsKnown more) s.conn sub
                (λ accepted. new-IsKnown s.queries s.next_channel sub)
                (All-imp _ _ (λ entry. IsKnown-later s.queries more entry grows)
                  s.conn.subscriptions h.active);
          sent =
              All-imp (IsAsked Serves s.queries) _ (IsAsked-later Serves s.queries more grows)
                s.sent h.sent;
          good =
              All-append (λ (q : ℕ × Subscription). is_good q.1 ≡ true) s.queries
                ((s.next_channel, sub) ∷ []) h.good (fine, tt);
        },
      )
  subscribed-IsServed s sub (err x) same fine h = (
    λ q asked. asked,
    record {
      active =
          All-subscribe (IsKnown s.queries) s.conn sub (λ accepted. absurd (cc (same, accepted)))
            h.active;
      sent =
          All-append (IsAsked Serves s.queries) s.sent (new_notice (display x) ∷ []) h.sent
            (notice-IsAsked Serves s.queries (display x), tt);
      good = h.good;
    },
  )
  subscribed-IsServed s sub panic same fine h = tt

  error-IsServed :
      (s : Session) (x : Error)
      → IsServed is_good Serves s
      → After (IsServedAfter is_good Serves s) (on_error s x)
  unfolding on_error
  error-IsServed s Error.conn_error h = (λ q asked. asked, h)
  error-IsServed s (Error.event_max_length_error n) h =
      (λ q asked. asked, send-IsServed is_good Serves s _ h (notice-IsAsked Serves s.queries _))
  error-IsServed s _ h = (λ q asked. asked, h)

  -- a query result was requested, and a request is good
  abbrev pub IsAskedInput : List (ℕ × Subscription) → Input → Type 0
  IsAskedInput queries (query_result sub_id e) = IsRequested Serves queries sub_id e
  IsAskedInput queries (client (some (ok (req sub)))) = is_good sub ≡ true
  IsAskedInput queries _ = Unit

  served-After :
      (s : Session) (st : Step)
      → After (IsServedFor s.queries) st
      → After (IsServedAfter is_good Serves s) st
  served-After s (continue s') (same, h) = (λ q asked. rw same asked, h)
  served-After s (break s') (same, h) = (λ q asked. rw same asked, h)
  served-After s crash h = tt

  pub step-IsServed :
      ((sub : Subscription) (e : Event) → interested_in_event sub e ≡ true → Serves sub e)
      → (settings : Settings) (now : ℕ) (s : Session) (input : Input) → IsAskedInput s.queries input
      → IsServed is_good Serves s
      → After (IsServedAfter is_good Serves s) (step settings now s input)
  unfolding step on_client on_message unsubscribe
  step-IsServed serves settings now s shutdown a h = (λ q asked. asked, h)
  step-IsServed serves settings now s (query_result sub_id e) a h = (
    λ q asked. asked,
    record {
      active = h.active;
      sent =
          All-append (IsAsked Serves s.queries) s.sent (new_event sub_id e ∷ []) h.sent
            (event-IsAsked Serves s.queries sub_id e a, tt);
      good = h.good;
    },
  )
  step-IsServed serves settings now s (broadcast e) a h = served-After s _ (
      deliver-IsServed settings now e (get_matching_subscriptions s.conn e) s
        (unfold get_matching_subscriptions in
          push_matching-IsRequested Serves serves s.queries e [] s.conn.subscriptions tt h.active)
        h)
  step-IsServed serves settings now s (client none) a h = (λ q asked. asked, h)
  step-IsServed serves settings now s (client (some (ok (event c)))) a h =
      (λ q asked. asked, record { active = h.active; sent = h.sent; good = h.good })
  step-IsServed serves settings now s (client (some (ok (req sub)))) a h =
      subscribed-IsServed s sub (subscribe s.conn sub).1 refl a h
  step-IsServed serves settings now s (client (some (ok (close c)))) a h = (
    λ q asked. asked,
    record {
      active = All-remove lib.hash.discrete _ c.id s.conn.subscriptions h.active;
      sent = h.sent;
      good = h.good;
    },
  )
  step-IsServed serves settings now s (client (some (err x))) a h = error-IsServed s x h
  step-IsServed serves settings now s (client (some panic)) a h = tt

  pub start-IsServed : (client_id : String) → IsServed is_good Serves (start client_id)
  unfolding start new_conn
  start-IsServed client_id = record { active = tt; sent = tt; good = tt }
