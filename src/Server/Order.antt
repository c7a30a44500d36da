-- ===== src/Server/Order.antt =====
-- main.rs: the order of the entries of its tables does not matter to the event loop.
use mathlib.Core.List.{Permᴰ}
use mathlib.Core.List.Permᴰ
use nostrd.Base.{ℕ, suc, ◌≡◌, ◌≢◌, refl, ap, String_discrete, List, [], ◌∷◌, ◌++◌}
use nostrd.Base.Outcome.{Outcome, ok, err, panic}
use nostrd.Base.Table.{IsDistinct, insert-IsDistinct}
use nostrd.Base.Table.Order.{length-perm, insert-perm}
use nostrd.Config.{Settings}
use nostrd.Error.{Error, display}
use nostrd.Primitives.{Primitives, EventId}
use nostrd.Protocol.Event.{Event}
use nostrd.Protocol.Event.Validity.{is_valid}
use nostrd.Protocol.Subscription.{Subscription}
use nostrd.Conn.{ClientConn}
use nostrd.Conn.Order.{SameConn, SameAnswer}
use nostrd.Stream.{NostrResponse, new_event, new_notice}
use nostrd.Server.{Session, Step, continue, break, crash, deliver, after_subscribe}
use nostrd.Server.Broadcast.{answers, deliver-valid}
use nostrd.Server.Crashes.{invalid-crash, delivered-none}

pub perm_append {ℓ} :
    {A : Type ℓ} {xs xs' ys ys' : List A}
    → Permᴰ xs xs'
    → Permᴰ ys ys'
    → Permᴰ (xs ++ ys) (xs' ++ ys')
perm_append {xs' = xs'} {ys = ys} d d' =
    Permᴰ.trans (Permᴰ.append_right ys d) (Permᴰ.append_left xs' d')

module _ ⦃lib : Primitives⦄ where
  -- The sessions have the same entries in their tables, whose keys are distinct, and did the same;
  -- the responses and the messages to stop may have left in another order.
  pub record SameSession (s s' : Session) : Type 0 where
    pub conn : SameConn s.conn s'.conn
    pub running : Permᴰ s.running_queries s'.running_queries
    pub distinct : IsDistinct String_discrete s.running_queries
    pub published_count : s.client_published_event_count ≡ s'.client_published_event_count
    pub received_count : s.client_received_event_count ≡ s'.client_received_event_count
    pub channel : s.next_channel ≡ s'.next_channel
    pub sent : Permᴰ s.sent s'.sent
    pub published : s.published ≡ s'.published
    pub queries : s.queries ≡ s'.queries
    pub stopped : Permᴰ s.stopped s'.stopped

  abbrev pub SameStep : Step → Step → Type 0
  SameStep (continue s) (continue s') = SameSession s s'
  SameStep (break s) (break s') = SameSession s s'
  SameStep crash crash = Unit
  SameStep _ _ = ⊥

  pub sends-SameSession :
      (s s' : Session) (rs rs' : List NostrResponse)
      → SameSession s s'
      → Permᴰ rs rs'
      → SameSession (record s { sent = s.sent ++ rs }) (record s' { sent = s'.sent ++ rs' })
  sends-SameSession s s' rs rs' h d = record {
    conn = h.conn;
    running = h.running;
    distinct = h.distinct;
    published_count = h.published_count;
    received_count = h.received_count;
    channel = h.channel;
    sent = perm_append h.sent d;
    published = h.published;
    queries = h.queries;
    stopped = h.stopped;
  }

  invalid-SameStep :
      (settings : Settings) (now : ℕ) (e : Event) (ids ids' : List EventId) (s s' : Session)
      → is_valid settings now e ≢ ok tt
      → Permᴰ ids ids'
      → SameSession s s'
      → SameStep (deliver settings now e ids s) (deliver settings now e ids' s')
  invalid-SameStep settings now e [] [] s s' bad d h =
      rw (delivered-none settings now e s, delivered-none settings now e s') h
  invalid-SameStep settings now e (id ∷ ids) (id' ∷ ids') s s' bad d h =
      rw
        (
          invalid-crash settings now e id ids s _ refl bad,
          invalid-crash settings now e id' ids' s' _ refl bad,
        )
        tt
  invalid-SameStep settings now e [] (id' ∷ ids') s s' bad d h = absurd (cc (length-perm d))
  invalid-SameStep settings now e (id ∷ ids) [] s s' bad d h = absurd (cc (length-perm d))

  valid-SameStep :
      (settings : Settings) (now : ℕ) (e : Event) (ids ids' : List EventId) (s s' : Session)
      → is_valid settings now e ≡ ok tt
      → Permᴰ ids ids'
      → SameSession s s'
      → SameStep (deliver settings now e ids s) (deliver settings now e ids' s')
  valid-SameStep settings now e ids ids' s s' valid d h =
      rw (deliver-valid settings now e ids s valid, deliver-valid settings now e ids' s' valid)
        (sends-SameSession s s' (answers e ids) (answers e ids') h
          (Permᴰ.map (λ id. new_event (lib.hash.to_hex id) e) d))

  pub deliver-SameStep :
      (settings : Settings) (now : ℕ) (e : Event) (ids ids' : List EventId) (s s' : Session)
      (o : Outcome Error Unit)
      → is_valid settings now e ≡ o
      → Permᴰ ids ids'
      → SameSession s s'
      → SameStep (deliver settings now e ids s) (deliver settings now e ids' s')
  deliver-SameStep settings now e ids ids' s s' (ok u) valid d h =
      valid-SameStep settings now e ids ids' s s' valid d h
  deliver-SameStep settings now e ids ids' s s' (err x) bad d h =
      invalid-SameStep settings now e ids ids' s s' (λ good. cc (good, bad)) d h
  deliver-SameStep settings now e ids ids' s s' panic bad d h =
      invalid-SameStep settings now e ids ids' s s' (λ good. cc (good, bad)) d h

  pub subscribed-SameStep :
      (s s' : Session) (sub : Subscription) (a a' : ClientConn × Outcome Error Unit)
      → SameAnswer a a'
      → SameSession s s'
      → SameStep (after_subscribe s sub a.0 a.1) (after_subscribe s' sub a'.0 a'.1)
  subscribed-SameStep s s' sub (c, ok u) (c', ok u') (same, conn) h = record {
    conn = conn;
    running =
        rw h.channel
          (insert-perm String_discrete (lib.hash.to_hex sub.id) s'.next_channel h.running);
    distinct =
        insert-IsDistinct String_discrete (lib.hash.to_hex sub.id) s.next_channel s.running_queries
          h.distinct;
    published_count = h.published_count;
    received_count = h.received_count;
    channel = ap suc h.channel;
    sent = h.sent;
    published = h.published;
    queries = rw (h.queries, h.channel) refl;
    stopped = h.stopped;
  }
  subscribed-SameStep s s' sub (c, err x) (c', err x') (same, conn) h =
      let again : x ≡ x' = cc same in
      rw again (
        sends-SameSession (record s { conn = c; next_channel = suc s.next_channel })
          (record s' { conn = c'; next_channel = suc s'.next_channel })
          (new_notice (display x') ∷ []) (new_notice (display x') ∷ [])
          (record {
            conn = conn;
            running = h.running;
            distinct = h.distinct;
            published_count = h.published_count;
            received_count = h.received_count;
            channel = ap suc h.channel;
            sent = h.sent;
            published = h.published;
            queries = h.queries;
            stopped = h.stopped;
          })
          (Permᴰ.refl (new_notice (display x') ∷ [])))
  subscribed-SameStep s s' sub (c, panic) (c', panic) (same, conn) h = tt
  subscribed-SameStep s s' sub (c, ok u) (c', err x) (same, conn) h = absurd (cc same)
  subscribed-SameStep s s' sub (c, ok u) (c', panic) (same, conn) h = absurd (cc same)
  subscribed-SameStep s s' sub (c, err x) (c', ok u) (same, conn) h = absurd (cc same)
  subscribed-SameStep s s' sub (c, err x) (c', panic) (same, conn) h = absurd (cc same)
  subscribed-SameStep s s' sub (c, panic) (c', ok u) (same, conn) h = absurd (cc same)
  subscribed-SameStep s s' sub (c, panic) (c', err x) (same, conn) h = absurd (cc same)
