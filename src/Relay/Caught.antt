-- ===== src/Relay/Caught.antt =====
-- main.rs and db.rs together: a client that reads its broadcasts until none is left.
use mathlib.Core.List.{append_assoc, append-nil}
use nostrd.Base.{
  ℕ, ◌≡◌, refl, ◌∙◌, some, List, [], ◌∷◌, ◌++◌, map, All, All-append, true, Bool-cases, inl, inr,
}
use nostrd.Base.Outcome.{ok}
use nostrd.Config.{Settings}
use nostrd.Db.Sqlite.{Engine}
use nostrd.Db.Writer.{Writer, writer_loop}
use nostrd.Primitives.{Primitives}
use nostrd.Protocol.Event.{Event}
use nostrd.Protocol.Event.Validity.{is_valid}
use nostrd.Conn.{ClientConn, get_matching_subscriptions}
use nostrd.Stream.{NostrResponse}
use nostrd.Server.{broadcast, step}
use nostrd.Server.Broadcast.{answers, broadcast-valid}
use nostrd.Relay.{Client, Relay, absorb, enqueue, hears}
use nostrd.Relay.Delivery.{Moves, and_then, update_at}
use nostrd.Relay.Drain.{Write, arrival, IsPicked, All-picked, IsDrained, queue-IsDrained}

module _ ⦃lib : Primitives⦄ ⦃sql : Engine⦄ where
  -- the responses to several events
  abbrev pub told : ClientConn → List Event → List NostrResponse
  told conn [] = []
  told conn (e ∷ es) = answers e (get_matching_subscriptions conn e) ++ told conn es

  -- the client that has been sent responses, and has these broadcasts left
  abbrev pub with_sent : Client → List NostrResponse → List Event → Client
  with_sent c rs left = record c {
    session = record c.session { sent = c.session.sent ++ rs };
    inbox = left;
  }

  abbrev pub IsValidAt : Settings → ℕ → Event → Type 0
  IsValidAt settings now e = is_valid settings now e ≡ ok tt

module _ ⦃lib : Primitives⦄ ⦃sql : Engine⦄ (settings : Settings) where
  -- what a client makes of its broadcasts, one after the other
  record Hearing (r0 r : Relay) (j : ℕ) (c : Client) : Type 0 where
    end : Relay
    way : Moves settings r0 end
    caught_up : end.clients j ≡ some (with_sent c (told c.session.conn c.inbox) [])
    queue : end.queue ≡ r.queue
    writer : end.writer ≡ r.writer

  enqueue-nothing : (r : Relay) → enqueue r [] ≡ r.queue
  enqueue-nothing r = elim (Bool-cases r.writer_up) [
    | inl up ↦ rw (up, append-nil r.queue) refl
    | inr gone ↦ rw gone refl
  ]

  inbox-heard :
      (r0 r : Relay) (j now : ℕ) (c : Client) (es : List Event)
      → Moves settings r0 r
      → r.clients j ≡ some c
      → c.inbox ≡ es
      → All (IsValidAt settings now) es
      → Hearing r0 r j c
  inbox-heard r0 r j now c [] way at_j left valid = record {
    end = r;
    way = way;
    caught_up = rw (at_j, left, append-nil c.session.sent) refl;
    queue = refl;
    writer = refl;
  }
  inbox-heard r0 r j now c (e ∷ es) way at_j left (good, valid) =
      let r1 =
        absorb r j (record c { inbox = es }) (broadcast e)
          (step settings now c.session (broadcast e)) in
      let spoken = broadcast-valid settings now c.session e good in
      let c1 = with_sent c (answers e (get_matching_subscriptions c.session.conn e)) es in
      let at_j1 : r1.clients j ≡ some c1 = rw spoken (update_at settings r.clients j (some c1)) in
      let rest =
        inbox-heard r0 r1 j now c1 es (and_then way (hears j now c e es at_j left)) at_j1 refl
          valid in
      record {
        end = rest.end;
        way = rest.way;
        caught_up =
            rest.caught_up
            ∙ (rw
                (
                  left,
                  append_assoc c.session.sent
                      (answers e (get_matching_subscriptions c.session.conn e))
                      (told c.session.conn es),
                )
                refl);
        queue = rest.queue ∙ (rw spoken (enqueue-nothing r));
        writer = rest.writer ∙ (rw spoken refl);
      }

  -- everything that is queued, and everything that waits for the client
  pub record IsCaughtUp (r : Relay) (w : Writer) (j : ℕ) (c : Client) : Type 0 where
    pub final : Relay
    pub moves : Moves settings r final
    pub writer : final.writer ≡ w
    pub empty : final.queue ≡ []
    pub news : List Event
    pub picked : IsPicked news r.queue
    pub broadcasts : w.broadcasts ≡ r.writer.broadcasts ++ news
    pub caught_up : final.clients j ≡ some (with_sent c (told c.session.conn (c.inbox ++ news)) [])

  drained-heard :
      (r : Relay) (w : Writer) (j now : ℕ) (c : Client)
      → r.clients j ≡ some c
      → All (IsValidAt settings now) c.inbox
      → All (IsValidAt settings now) r.queue
      → IsDrained settings r w
      → IsCaughtUp r w j c
  drained-heard r w j now c at_j valid queued d =
      let c1 = record c { inbox = c.inbox ++ d.news } in
      let at_j1 : d.final.clients j ≡ some c1 = d.heard j ∙ rw at_j refl in
      let all_valid =
        All-append (IsValidAt settings now) c.inbox d.news valid
          (All-picked (IsValidAt settings now) d.news r.queue d.picked queued) in
      let h = inbox-heard r d.final j now c1 (c.inbox ++ d.news) d.moves at_j1 refl all_valid in
      record {
        final = h.end;
        moves = h.way;
        writer = h.writer ∙ d.writer;
        empty = h.queue ∙ d.empty;
        news = d.news;
        picked = d.picked;
        broadcasts = d.broadcasts;
        caught_up = h.caught_up;
      }

  -- From any state in which the writer runs, whatever the times of its writes and the errors that the
  -- database reports: if the queued events, and the broadcasts that wait for client `j`, are valid at
  -- some time, then there are moves after which the queue is empty, the writer stands where
  -- `db_writer`'s loop over the queued events leads, also if a write panics, and no broadcast waits for
  -- `j`: under each of its subscriptions that match, `j` has been sent the broadcasts that waited for
  -- it, and then what the writer has sent to all clients meanwhile, which are some of the queued
  -- events in their order; and it has been sent nothing else.
  pub queue-IsCaughtUp :
      (r : Relay) (pending : List Write) (j now : ℕ) (c : Client)
      → r.writer_up ≡ true
      → r.queue ≡ map (λ w. w.event) pending
      → r.clients j ≡ some c
      → All (IsValidAt settings now) c.inbox
      → All (IsValidAt settings now) r.queue
      → IsCaughtUp r (writer_loop (map arrival pending) r.writer) j c
  queue-IsCaughtUp r pending j now c up queue at_j valid queued =
      drained-heard r _ j now c at_j valid queued (queue-IsDrained settings r pending up queue)
