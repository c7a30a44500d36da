-- ===== src/Relay/Drain.antt =====
-- main.rs and db.rs together: the queue to the writer, and what becomes of the events in it.
use mathlib.Core.List.{append_assoc, append-nil}
use nostrd.Base.{
  ℕ, zero, suc, ◌≡◌, refl, sym, ap, ◌∙◌, Option, none, some, List, [], ◌∷◌, ◌++◌, map, All, true,
}
use nostrd.Base.Outcome.{Outcome, ok, err, panic}
use nostrd.Config.{Settings}
use nostrd.Db.Sqlite.{Engine}
use nostrd.Db.{Tables}
use nostrd.Db.Write.{Faults, write_event}
use nostrd.Db.Writer.{Writer, Arrival, next_event, writer_turn, after_write, writer_loop}
use nostrd.Db.Writer
use nostrd.Error.{Error}
use nostrd.Primitives.{Primitives}
use nostrd.Protocol.Event.{Event}
use nostrd.Relay.{Client, Relay, announced, deliver_to, after_turn, Move, writes}
use nostrd.Relay.Delivery.{Moves, still, and_then}

module _ ⦃lib : Primitives⦄ ⦃sql : Engine⦄ where
  -- an event of the queue, with the time of its write and the errors that the database reports
  pub record Write : Type 0 where
    pub now : ℕ
    pub faults : Faults
    pub event : Event

  abbrev pub arrival : Write → Arrival
  arrival w = next_event w.now w.faults w.event

  -- some of the events of a list, each at most as often, in their order
  pub data IsPicked : List Event → List Event → Type 0 where
    all_seen : IsPicked [] []
    skip : {es fs : List Event} (f : Event) → IsPicked es fs → IsPicked es (f ∷ fs)
    keep : {es fs : List Event} (f : Event) → IsPicked es fs → IsPicked (f ∷ es) (f ∷ fs)

  none_picked : (fs : List Event) → IsPicked [] fs
  none_picked [] = all_seen
  none_picked (f ∷ fs) = skip f (none_picked fs)

  picked_nothing : (es : List Event) → IsPicked es [] → (fs : List Event) → IsPicked es fs
  picked_nothing es all_seen fs = none_picked fs

  pub All-picked : (P : Event → Type 0) (es fs : List Event) → IsPicked es fs → All P fs → All P es
  All-picked P es fs all_seen h = tt
  All-picked P es fs (skip {es = es'} {fs = fs'} f p) (here, h) = All-picked P es' fs' p h
  All-picked P es fs (keep {es = es'} {fs = fs'} f p) (here, h) = (here, All-picked P es' fs' p h)

  -- what a sequence of the writer's turns makes of the relay
  pub record IsDrained (settings : Settings) (r : Relay) (w : Writer) : Type 0 where
    pub final : Relay
    pub moves : Moves settings r final
    pub writer : final.writer ≡ w
    pub empty : final.queue ≡ []
    pub news : List Event
    pub picked : IsPicked news r.queue
    pub broadcasts : w.broadcasts ≡ r.writer.broadcasts ++ news
    pub heard : (i : ℕ) → final.clients i ≡ deliver_to news (r.clients i)

  prepended :
      {settings : Settings} {r r1 r2 : Relay}
      → Move settings r r1
      → Moves settings r1 r2
      → Moves settings r r2
  prepended m still = and_then still m
  prepended m (and_then ms m') = and_then (prepended m ms) m'

  deliver_to-nothing : (o : Option Client) → deliver_to [] o ≡ o
  deliver_to-nothing none = refl
  deliver_to-nothing (some c) = rw (append-nil c.inbox) refl

  deliver_to-append :
      (es fs : List Event) (o : Option Client)
      → deliver_to fs (deliver_to es o) ≡ deliver_to (es ++ fs) o
  deliver_to-append es fs none = refl
  deliver_to-append es fs (some c) = rw (append_assoc c.inbox es fs) refl

  -- one turn, and the rest
  turn-IsDrained :
      {settings : Settings} (r r1 : Relay) (w : Writer) (es : List Event)
      → Move settings r r1
      → r1.writer.broadcasts ≡ r.writer.broadcasts ++ es
      → ((i : ℕ) → r1.clients i ≡ deliver_to es (r.clients i))
      → ((fs : List Event) → IsPicked fs r1.queue → IsPicked (es ++ fs) r.queue)
      → IsDrained settings r1 w
      → IsDrained settings r w
  turn-IsDrained r r1 w es m sent told picks d = record {
    final = d.final;
    moves = prepended m d.moves;
    writer = d.writer;
    empty = d.empty;
    news = es ++ d.news;
    picked = picks d.news d.picked;
    broadcasts = d.broadcasts ∙ (rw (sent, append_assoc r.writer.broadcasts es d.news) refl);
    heard = λ i.
        d.heard i ∙ (ap (deliver_to d.news) (told i) ∙ deliver_to-append es d.news (r.clients i));
  }

  done-IsDrained : {settings : Settings} (r : Relay) → r.queue ≡ [] → IsDrained settings r r.writer
  done-IsDrained r none_left = record {
    final = r;
    moves = still;
    writer = refl;
    empty = none_left;
    news = [];
    picked = none_picked r.queue;
    broadcasts = sym (append-nil r.writer.broadcasts);
    heard = λ i. sym (deliver_to-nothing (r.clients i));
  }

  -- a turn, by the result of its write
  write-IsDrained :
      (settings : Settings) (r : Relay) (e : Event) (left : List Event) (arrivals : List Arrival)
      (res : Tables × Outcome Error ℕ)
      → r.writer_up ≡ true
      → r.queue ≡ e ∷ left
      → Move settings r (after_turn r left (announced e res.1) (after_write r.writer e res))
      → ((r1 : Relay)
          → r1.writer_up ≡ true
          → r1.queue ≡ left
          → IsDrained settings r1 (writer_loop arrivals r1.writer))
      → IsDrained settings r
          (Writer.after_turn (after_write r.writer e res) (λ w. writer_loop arrivals w))
  write-IsDrained settings r e left arrivals (db, ok zero) up queued m then =
      turn-IsDrained r _ _ [] m (sym (append-nil r.writer.broadcasts)) (λ i. refl)
        (λ fs p. rw queued (skip e p)) (then _ up refl)
  write-IsDrained settings r e left arrivals (db, ok (suc n)) up queued m then =
      turn-IsDrained r _ _ (e ∷ []) m refl (λ i. refl) (λ fs p. rw queued (keep e p))
        (then _ up refl)
  write-IsDrained settings r e left arrivals (db, err x) up queued m then =
      turn-IsDrained r _ _ [] m (sym (append-nil r.writer.broadcasts)) (λ i. refl)
        (λ fs p. rw queued (skip e p)) (then _ up refl)
  write-IsDrained settings r e left arrivals (db, panic) up queued m then =
      turn-IsDrained r _ _ [] m (sym (append-nil r.writer.broadcasts))
        (λ i. sym (deliver_to-nothing (r.clients i))) (λ fs p. picked_nothing fs p r.queue)
        (done-IsDrained _ refl)

  -- From any state in which the writer runs, and whatever the times of its writes and the errors that
  -- the database reports: there are moves that empty the queue, after which the writer stands where
  -- `db_writer`'s loop over the queued events leads, also if a write panics; and each client has been
  -- handed exactly what the writer sent to all clients meanwhile, in that order, behind what it had:
  -- some of the queued events, in the order of the queue.
  pub queue-IsDrained :
      (settings : Settings) (r : Relay) (pending : List Write)
      → r.writer_up ≡ true
      → r.queue ≡ map (λ w. w.event) pending
      → IsDrained settings r (writer_loop (map arrival pending) r.writer)
  unfolding writer_loop writer_turn
  queue-IsDrained settings r [] up queued = done-IsDrained r queued
  queue-IsDrained settings r (w ∷ pending) up queued =
      write-IsDrained settings r w.event (map (λ v. v.event) pending) (map arrival pending)
        (write_event w.faults w.now w.event r.writer.tables) up queued
        (writes w.now w.faults w.event _ up queued)
        (λ r1 up1 queued1. queue-IsDrained settings r1 pending up1 queued1)
