-- ===== src/Relay/Delivery.antt =====
-- main.rs, db.rs and protostream.rs together: how an event gets from one client to another.
use nostrd.Base.{
  ℕ, zero, suc, ◌==◌, ◌<◌, ◌≤◌, ◌≡◌, ◌≢◌, refl, ◌∙◌, inl, inr, String, Option, some, List, [], ◌∷◌,
  ◌++◌, arith, true, Bool-cases,
}
use nostrd.Base.Outcome.{Outcome, ok, err, panic}
use nostrd.Config.{Settings}
use nostrd.Db.Sqlite.{Engine}
use nostrd.Db.{Tables}
use nostrd.Db.Write.{Faults, write_event}
use nostrd.Db.Writer.{next_event, writer_turn, after_write}
use nostrd.Error.{Error}
use nostrd.Primitives.{Primitives}
use nostrd.Protocol.Event.{Event}
use nostrd.Protocol.Event.Validity.{is_valid, FitsClock, IsGenuine-later, is_valid-IsGenuine_iff}
use nostrd.Protocol.Commands.{EventCmd, event_of_cmd}
use nostrd.Conn.{get_matching_subscriptions}
use nostrd.Stream.{event, poll_next, convert, text, ws_message}
use nostrd.Stream.Laws.{convert-event}
use nostrd.Server.{broadcast, client, step, on_client, on_message}
use nostrd.Server.Broadcast.{answers, broadcast-valid}
use nostrd.Relay.{
  Client, Relay, update, absorb, announced, deliver_to, after_turn, Move, receives, hears, writes,
}

module _ ⦃lib : Primitives⦄ ⦃sql : Engine⦄ where
  -- what the loop of a client becomes once it has heard of an event
  abbrev pub heard : Event → Client → Client
  heard e c = record c {
    session = record c.session {
      sent = c.session.sent ++ answers e (get_matching_subscriptions c.session.conn e);
    };
    inbox = [];
  }

module _ ⦃lib : Primitives⦄ ⦃sql : Engine⦄ (settings : Settings) where
  -- a sequence of moves
  pub data Moves (r : Relay) : Relay → Type 0 where
    still : Moves r r
    and_then : {r' r'' : Relay} → Moves r r' → Move settings r' r'' → Moves r r''

  stored-heard :
      (r : Relay) (rest : List Event) (e : Event) (res : Tables × Outcome Error ℕ) (k j : ℕ)
      → res.1 ≡ ok (suc k)
      → (after_turn r rest (announced e res.1) (after_write r.writer e res)).clients j
        ≡ deliver_to (e ∷ []) (r.clients j)
  stored-heard r rest e (db, ok (suc n)) k j h = refl
  stored-heard r rest e (db, ok zero) k j h = absurd (cc h)
  stored-heard r rest e (db, err x) k j h = absurd (cc h)
  stored-heard r rest e (db, panic) k j h = absurd (cc h)

  pub update_at : (f : ℕ → Option Client) (i : ℕ) (o : Option Client) → update i o f i ≡ o
  update_at f i o = elim (Bool-cases (i == i)) [
    | inl same ↦ rw same refl
    | inr other ↦ absurd (ground (arith, other))
  ]

  update_off : (f : ℕ → Option Client) (i j : ℕ) (o : Option Client) → i ≢ j → update i o f j ≡ f j
  update_off f i j o apart = elim (Bool-cases (j == i)) [
    | inl same ↦ absurd (apart (ground (arith, same)))
    | inr other ↦ rw other refl
  ]

  -- the writer's turn with the next event, and the turn of a client that has nothing else to hear
  queued-heard :
      (r0 r : Relay) (j now time k : ℕ) (faults : Faults) (e : Event) (rest : List Event)
      (c : Client)
      → Moves r0 r
      → r.writer_up ≡ true
      → r.queue ≡ e ∷ rest
      → (write_event faults time e r.writer.tables).1 ≡ ok (suc k)
      → r.clients j ≡ some c
      → c.inbox ≡ []
      → is_valid settings now e ≡ ok tt
      → (r' : Relay) × Moves r0 r' × (r'.clients j ≡ some (heard e c))
  queued-heard r0 r j now time k faults e rest c way up next written at_j quiet valid =
      let r1 =
        after_turn r rest (announced e (write_event faults time e r.writer.tables).1)
          (writer_turn r.writer (next_event time faults e)) in
      let first : Moves r0 r1 = and_then way (writes time faults e rest up next) in
      let c1 = record c { inbox = e ∷ [] } in
      let at_j1 : r1.clients j ≡ some c1 =
        unfold writer_turn in
        rw
          (
            stored-heard r rest e (write_event faults time e r.writer.tables) k j written,
            at_j,
            quiet,
          )
          refl in
      let r2 =
        absorb r1 j (record c1 { inbox = [] }) (broadcast e)
          (step settings now c1.session (broadcast e)) in
      let all : Moves r0 r2 = and_then first (hears j now c1 e [] at_j1 refl) in
      let spoken = broadcast-valid settings now c.session e valid in
      (r2, all, rw spoken (update_at r1.clients j (some (heard e c))))

  -- From a state in which the writer runs, nothing is queued though the queue can hold an event, and
  -- client `j` has no broadcast to read: if the text of another client is an EVENT message, its write
  -- reports a new row, and the clock has not gone back when `j` hears of it, nor has its sum with the
  -- limit on future events left `u64`, then there are steps after which `j` has been sent the event
  -- under each of its subscriptions that match, and nothing else.
  pub posted-heard :
      (r : Relay) (i j now time heard_at k : ℕ) (faults : Faults) (s : String) (cmd : EventCmd)
      (ci cj : Client)
      → r.writer_up ≡ true
      → r.queue ≡ []
      → 0 < settings.limits.event_persist_buffer
      → r.clients i ≡ some ci
      → r.clients j ≡ some cj
      → i ≢ j
      → cj.inbox ≡ []
      → convert settings now s ≡ ok (event cmd)
      → (write_event faults time cmd.event r.writer.tables).1 ≡ ok (suc k)
      → now ≤ heard_at
      → FitsClock settings heard_at
      → (r' : Relay) × Moves r r' × (r'.clients j ≡ some (heard cmd.event cj))
  unfolding step on_client on_message event_of_cmd poll_next
  posted-heard r i j now time heard_at k faults s cmd ci cj up empty room at_i at_j apart quiet
        taken written order fits =
      let input = client (some (ok (event cmd))) in
      let r1 = absorb r i ci input (step settings now ci.session input) in
      let first : Moves r r1 = and_then still (
        receives i now ci (ws_message (text s)) (some (ok (event cmd))) at_i (rw taken refl)
          (inr (inl (rw empty room)))) in
      let genuine =
        IsGenuine-later settings now heard_at cmd.event order fits
          (convert-event settings now s cmd taken).0 in
      let valid = (is_valid-IsGenuine_iff settings heard_at cmd.event).1 genuine in
      let next : r1.queue ≡ cmd.event ∷ [] = rw (up, empty) refl in
      let there = update_off r.clients i j _ apart ∙ at_j in
      queued-heard r r1 j heard_at time k faults cmd.event [] cj first up next written there quiet
        valid
