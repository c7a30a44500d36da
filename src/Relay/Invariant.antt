-- ===== src/Relay/Invariant.antt =====
-- main.rs, db.rs and protostream.rs together: the invariant of the relay, and what keeps its parts.
use nostrd.Base.{
  ℕ, zero, suc, ◌≤◌, ◌≡◌, refl, inl, inr, Option, none, some, List, [], ◌∷◌, false, arith, length,
  length-append, Bool-cases, All, All-append, ap,
}
use nostrd.Base.Outcome.{Outcome, ok, err, panic}
use nostrd.Config.{Settings}
use nostrd.Db.Sqlite.{Engine}
use nostrd.Db.{Tables}
use nostrd.Db.Writer.{Writer, goes_on, after_write}
use nostrd.Db.Writer.Laws.{IsConsistent, AfterTurn}
use nostrd.Db.Reader.{QueryResult}
use nostrd.Error.{Error}
use nostrd.Primitives.{Primitives}
use nostrd.Protocol.Event.{Event}
use nostrd.Stream.{event, req, close}
use nostrd.Server.{
  Session, Input, continue, break, crash, shutdown, query_result, broadcast, client, start, step,
}
use nostrd.Server
use nostrd.Server.Laws.{After, IsSound}
use nostrd.Server.Publish.{posted}
use nostrd.Relay.{
  Client, Relay, query_capacity, put_client, update_each, enqueue, absorb, announced, deliver_to,
  after_turn, HasRoom,
}
use nostrd.Relay.Sent.{IsAdmitted, IsSafeSession}
use nostrd.Relay.Rows.{IsStoredRow}

module _ ⦃lib : Primitives⦄ ⦃sql : Engine⦄ (settings : Settings) where
  -- A connection: its loop's invariant, and every event that it has sent, will forward or will hear
  -- of has passed the validation.
  pub record IsSafeClient (c : Client) : Type 0 where
    pub sound : IsSound c.session
    pub sent : IsSafeSession settings c.session
    pub inbox : All (IsAdmitted settings) c.inbox
    pub results : All (λ (q : QueryResult). IsAdmitted settings q.event) c.results
    pub space : length c.results ≤ query_capacity

  abbrev pub IsSafeAt : Option Client → Type 0
  IsSafeAt none = Unit
  IsSafeAt (some c) = IsSafeClient c

  pub record IsSafe (r : Relay) : Type 0 where
    pub queue : All (IsAdmitted settings) r.queue
    pub room : length r.queue ≤ settings.limits.event_persist_buffer
    pub consistent : IsConsistent r.writer
    pub rows : All (IsStoredRow (IsAdmitted settings)) r.writer.tables.events
    pub told : All (IsAdmitted settings) r.writer.broadcasts
    pub each : (i : ℕ) → IsSafeAt (r.clients i)

  pub client_of :
      (r : Relay) (i : ℕ) (c : Client) → IsSafe r → r.clients i ≡ some c → IsSafeClient c
  client_of r i c s at_i = rw at_i at (s.each i)

  pub put_client-IsSafe :
      (r : Relay) (i : ℕ) (o : Option Client) → IsSafe r → IsSafeAt o → IsSafe (put_client i o r)
  put_client-IsSafe r i o s h = record {
    queue = s.queue;
    room = s.room;
    consistent = s.consistent;
    rows = s.rows;
    told = s.told;
    each = update_each IsSafeAt i o r.clients h s.each;
  }

  enqueue-IsAdmitted :
      (r : Relay) (es : List Event)
      → All (IsAdmitted settings) r.queue
      → All (IsAdmitted settings) es
      → All (IsAdmitted settings) (enqueue r es)
  enqueue-IsAdmitted r es h k = elim (Bool-cases r.writer_up) [
    | inl up ↦ rw up (All-append (IsAdmitted settings) r.queue es h k)
    | inr down ↦ rw down h
  ]

  posted-short : (input : Input) → length (posted input) ≤ 1
  posted-short shutdown = omega arith
  posted-short (query_result sub_id e) = omega arith
  posted-short (broadcast e) = omega arith
  posted-short (client none) = omega arith
  posted-short (client (some (ok (event c)))) = omega arith
  posted-short (client (some (ok (req sub)))) = omega arith
  posted-short (client (some (ok (close c)))) = omega arith
  posted-short (client (some (err x))) = omega arith
  posted-short (client (some panic)) = omega arith

  enqueue-room :
      (r : Relay) (input : Input) (n : ℕ)
      → n ≡ settings.limits.event_persist_buffer
      → HasRoom settings r input
      → length r.queue ≤ n
      → length (enqueue r (posted input)) ≤ n
  enqueue-room r input n same room h = elim (Bool-cases r.writer_up) [
    | inr down ↦ rw down h
    | inl up ↦ rw up (elim room [
      | inl nothing ↦ rw nothing (omega (arith, length-append r.queue [], h))
      | inr (inl free) ↦
          omega (arith, length-append r.queue (posted input), posted-short input, free, same)
      | inr (inr down) ↦ absurd (cc (up, down))
    ])
  ]

  pub absorb-IsSafe :
      (r : Relay) (i : ℕ) (c : Client) (input : Input) (st : Server.Step)
      → IsSafe r
      → IsSafeClient c
      → After IsSound st
      → After (IsSafeSession settings) st
      → All (IsAdmitted settings) (posted input)
      → HasRoom settings r input
      → IsSafe (absorb r i c input st)
  absorb-IsSafe r i c input (continue s') s h sound sent es room = record {
    queue = enqueue-IsAdmitted r (posted input) s.queue es;
    room = enqueue-room r input _ refl room s.room;
    consistent = s.consistent;
    rows = s.rows;
    told = s.told;
    each =
        update_each IsSafeAt i (some (record c { session = s' })) r.clients
          (record {
            sound = sound;
            sent = sent;
            inbox = h.inbox;
            results = h.results;
            space = h.space;
          })
          s.each;
  }
  absorb-IsSafe r i c input (break s') s h sound sent es room = record {
    queue = enqueue-IsAdmitted r (posted input) s.queue es;
    room = enqueue-room r input _ refl room s.room;
    consistent = s.consistent;
    rows = s.rows;
    told = s.told;
    each = update_each IsSafeAt i none r.clients tt s.each;
  }
  absorb-IsSafe r i c input crash s h sound sent es room = put_client-IsSafe r i none s tt

  pub deliver_to-IsSafeAt :
      (es : List Event) (o : Option Client)
      → All (IsAdmitted settings) es
      → IsSafeAt o
      → IsSafeAt (deliver_to es o)
  deliver_to-IsSafeAt es none a h = tt
  deliver_to-IsSafeAt es (some c) a h = record {
    sound = h.sound;
    sent = h.sent;
    inbox = All-append (IsAdmitted settings) c.inbox es h.inbox a;
    results = h.results;
    space = h.space;
  }

  delivered-IsSafe :
      (r : Relay) (w : Writer) (rest es : List Event)
      → IsSafe r
      → IsConsistent w
      → All (IsStoredRow (IsAdmitted settings)) w.tables.events
      → All (IsAdmitted settings) w.broadcasts
      → All (IsAdmitted settings) es
      → All (IsAdmitted settings) rest
      → length rest ≤ settings.limits.event_persist_buffer
      → IsSafe (after_turn r rest es (goes_on w))
  delivered-IsSafe r w rest es s c rows told now behind short = record {
    queue = behind;
    room = short;
    consistent = c;
    rows = rows;
    told = told;
    each = λ i. deliver_to-IsSafeAt es (r.clients i) now (s.each i);
  }

  closed-IsSafe :
      (r : Relay) (w : Writer)
      → IsSafe r
      → IsConsistent w
      → All (IsStoredRow (IsAdmitted settings)) w.tables.events
      → All (IsAdmitted settings) w.broadcasts
      → IsSafe (record r { writer = w; queue = []; writer_up = false })
  closed-IsSafe r w s c rows told = record {
    queue = tt;
    room = omega arith;
    consistent = c;
    rows = rows;
    told = told;
    each = s.each;
  }

  pub written-IsSafe :
      (r : Relay) (rest : List Event) (e : Event) (res : Tables × Outcome Error ℕ)
      → IsSafe r
      → r.queue ≡ e ∷ rest
      → All (IsStoredRow (IsAdmitted settings)) res.0.events
      → AfterTurn IsConsistent (after_write r.writer e res)
      → IsSafe (after_turn r rest (announced e res.1) (after_write r.writer e res))
  written-IsSafe r rest e (db, o) s next rows c =
      let (a, behind) : All (IsAdmitted settings) (e ∷ rest) = rw next at s.queue in
      let short : length rest ≤ settings.limits.event_persist_buffer =
        omega (arith, ap length next, s.room) in
      by_result o c a behind short
    where
      by_result :
          (o : Outcome Error ℕ)
          → AfterTurn IsConsistent (after_write r.writer e (db, o))
          → IsAdmitted settings e
          → All (IsAdmitted settings) rest
          → length rest ≤ settings.limits.event_persist_buffer
          → IsSafe (after_turn r rest (announced e o) (after_write r.writer e (db, o)))
      by_result (ok zero) c a behind short =
          delivered-IsSafe r (record r.writer { tables = db }) rest [] s c rows s.told tt behind
            short
      by_result (ok (suc k)) c a behind short =
          delivered-IsSafe r _ rest (e ∷ []) s c rows
            (All-append (IsAdmitted settings) r.writer.broadcasts (e ∷ []) s.told (a, tt)) (a, tt)
            behind short
      by_result (err x) c a behind short =
          delivered-IsSafe r (record r.writer { tables = db }) rest [] s c rows s.told tt behind
            short
      by_result panic c a behind short =
          closed-IsSafe r (record r.writer { tables = db }) s c rows s.told
