-- ===== src/Tests/System.antt =====
-- The whole relay at concrete steps: a client connects, posts a note, and the writer stores it.
use nostrd.Base.{◌≡◌, refl, inr, inl, some, List, [], ◌∷◌, map, arith, Option}
use nostrd.Base.Outcome.{ok, Outcome}
use nostrd.Config.{default_settings}
use nostrd.Error.{Error}
use nostrd.Db.Writer.{next_event, writer_turn, writer_loop}
use nostrd.Db.Write.{write_event}
use nostrd.Server.{client, step, start, on_client, on_message}
use nostrd.Stream.{NostrMessage, event, text, ws_message, poll_next}
use nostrd.Relay.{
  Relay, at_start, put_client, new_client, absorb, after_turn, announced, Reach, here, later,
  connects, receives, writes, ready,
}
use nostrd.Relay.Invariant.{IsSafe}
use nostrd.Relay.Safety.{Reach-IsSafe}
use nostrd.Protocol.Commands.{event_of_cmd}
use nostrd.Stream.{message_to_value}
use nostrd.Relay.{Client}
use nostrd.Relay.Drain.{Write, arrival}
use nostrd.Relay.Caught.{IsCaughtUp, queue-IsCaughtUp}
use nostrd.Tests.Samples.{note_valid}
use nostrd.Relay.Delivery.{Moves, heard, posted-heard}
use nostrd.Tests.Relay.{open_session}
use nostrd.Protocol.Event.Validity.{FitsClock}
use nostrd.Base.{◌*◌}
use nostrd.Tests.Reading.{written as stored_note_lem}
use nostrd.Base.{ap}
use nostrd.Relay.Matched.{IsMatched, Reach-IsMatched}
use nostrd.Tests.Text.{print}
use nostrd.Tests.Samples.{note}
use nostrd.Tests.Toy.{toy, toy_engine}
use nostrd.Tests.Store.{calm, empty}
use nostrd.Tests.Protocol.{posting, posting_taken}

abbrev pub message : Option (Outcome Error NostrMessage)
message = some (ok (event posting))

abbrev pub connected : Relay
connected = put_client 0 (some (new_client "c")) (at_start default_settings empty)

abbrev pub queued : Relay
queued =
    absorb connected 0 (new_client "c") (client message)
      (step default_settings 900 (start "c") (client message))

abbrev pub written : Relay
written =
    after_turn queued [] (announced note (write_event calm 5 note empty).1)
      (writer_turn queued.writer (next_event 5 calm note))

arrived :
    ready (
      poll_next default_settings 900 (ws_message (text (print (message_to_value (event posting))))))
    ≡ some message
unfolding poll_next
arrived = rw posting_taken refl

pub path : Reach default_settings empty written
unfolding default_settings step on_client on_message event_of_cmd
path =
    later
      (later (later here (connects 0 "c" refl)) (
        receives 0 900 (new_client "c")
          (ws_message (text (print (message_to_value (event posting))))) message refl arrived
          (inr (inl (omega arith)))))
      (writes 5 calm note [] refl refl)

Reach-IsSafe_example : IsSafe default_settings written
Reach-IsSafe_example = Reach-IsSafe default_settings empty written tt tt path

-- two clients, of which the second asks for replies
abbrev listener : Client
listener = record (new_client "d") { session = open_session }

abbrev pair : Relay
pair = put_client 1 (some listener) connected

new_row : (write_event calm 5 note empty).1 ≡ ok 1
new_row = ap (λ r. r.1) stored_note_lem

fits : FitsClock default_settings 901
unfolding default_settings
fits allowed set = let same : 30 * 60 ≡ allowed = cc set in omega (arith, same)

posted-heard_example :
    (r' : Relay) × Moves default_settings pair r' × (r'.clients 1 ≡ some (heard note listener))
posted-heard_example =
    posted-heard default_settings pair 0 1 900 5 901 0 calm
      (print (message_to_value (event posting))) posting (new_client "c") listener refl refl
      (unfold default_settings in omega arith) refl refl (λ h. absurd (cc h)) refl posting_taken
      new_row (omega arith) fits

Reach-IsMatched_example : IsMatched default_settings written
Reach-IsMatched_example = Reach-IsMatched default_settings empty written tt tt (refl, refl) path

-- the queue holds a note twice: the first write goes well, the second meets a stored note
abbrev twice : List Write
twice =
    record { now = 5; faults = calm; event = note }
    ∷ record { now = 6; faults = calm; event = note }
    ∷ []

abbrev full : Relay
full = record pair { queue = note ∷ note ∷ [] }

queue-IsCaughtUp_example :
    IsCaughtUp default_settings full (writer_loop (map arrival twice) full.writer) 1 listener
queue-IsCaughtUp_example =
    queue-IsCaughtUp default_settings full twice 1 900 listener refl refl refl tt
      (note_valid, (note_valid, tt))
