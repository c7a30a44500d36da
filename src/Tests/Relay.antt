-- ===== src/Tests/Relay.antt =====
-- The event loop at concrete inputs.
use nostrd.Base.{ℕ, ◌≡◌, refl, some, List, [], ◌∷◌, ◌++◌}
use nostrd.Base.Outcome.{ok, err}
use nostrd.Config.{default_settings}
use nostrd.Conn.{get_matching_subscriptions}
use nostrd.Protocol.Event.{Event}
use nostrd.Protocol.Event.Validity.{is_valid}
use nostrd.Stream.{event, req, close}
use nostrd.Server.{Session, Input, broadcast, client, shutdown, start, step, run, crash}
use nostrd.Server.Laws.{IsSound, After, start-IsSound, step-IsSound}
use nostrd.Server.Publish.{IsPrefixOf, run-IsPrefixOf}
use nostrd.Base.{String_discrete}
use nostrd.Json.{from_list}
use nostrd.Error.{event_invalid}
use nostrd.Protocol.Tags.{tag_to_value}
use nostrd.Protocol.Event.Serial.{kind_to_u64}
use nostrd.Protocol.Event.Validity.{compute_event_id, check_time}
use nostrd.Protocol.Commands.{event_of_cmd}
use nostrd.Tests.Text.{put}
use nostrd.Base.{any, contains}
use nostrd.Conn.{push_matching}
use nostrd.Protocol.Subscription.{
  interested_in_event, filter_interested, ids_match, since_match, until_match, kind_match,
  author_match, pubkey_tag_match, event_tag_match,
}
use nostrd.Server.Crashes.{Crashes, step-crash_iff}
use nostrd.Base.{◌↔◌}
use nostrd.Server.Shutdown.{IsEnded, run-IsEnded}
use nostrd.Tests.Toy.{toy}
use nostrd.Tests.Samples.{note, sub, other_sub}

-- a session with one subscription, which runs its query on channel 0
abbrev pub open_session : Session
open_session = record (start "c") {
  conn = record { client_id = "c"; subscriptions = ("7", sub) ∷ []; max_subs = 32 };
  running_queries = ("f7", 0) ∷ [];
  next_channel = 1;
}

abbrev script : List (ℕ × Input)
script =
    (900, client (some (ok (req sub))))
    ∷ (901, client (some (ok (event (record { event = note })))))
    ∷ (902, broadcast note)
    ∷ (903, client (some (ok (close (record { id = "7" })))))
    ∷ (904, shutdown)
    ∷ []

step-IsSound_example :
    After IsSound (step default_settings 900 (start "c") (client (some (ok (req sub)))))
step-IsSound_example =
    step-IsSound default_settings 900 (start "c") (client (some (ok (req sub)))) (start-IsSound "c")

run-IsPrefixOf_example : After (IsPrefixOf (note ∷ [])) (run default_settings script (start "c"))
unfolding event_of_cmd
run-IsPrefixOf_example = run-IsPrefixOf default_settings script "c"

-- the note with a signature that does not verify
abbrev forged : Event
forged = record note { sig = "forged" }

forged-invalid : is_valid default_settings 900 forged ≡ err (event_invalid "malformed signature")
unfolding is_valid default_settings compute_event_id check_time kind_to_u64 tag_to_value
    String_discrete put from_list
forged-invalid = refl

abbrev wide_session : Session
wide_session = record open_session {
  conn = record { client_id = "c"; subscriptions = ("8", other_sub) ∷ []; max_subs = 32 };
}

step-crash_iff_example :
    (step default_settings 900 wide_session (broadcast forged) ≡ crash)
    ↔ Crashes default_settings 900 wide_session (broadcast forged)
step-crash_iff_example = step-crash_iff default_settings 900 wide_session (broadcast forged)

-- the broadcast of the forged event does make the task panic
forged-crash : step default_settings 900 wide_session (broadcast forged) ≡ crash
unfolding get_matching_subscriptions push_matching interested_in_event any filter_interested
    ids_match since_match until_match kind_match contains author_match pubkey_tag_match
    event_tag_match
forged-crash =
    (step-crash_iff default_settings 900 wide_session (broadcast forged)).1
      (λ h. cc h, λ h. cc (forged-invalid, h))

run-IsEnded_example : IsEnded (
    run default_settings
      (((900, client (some (ok (req sub)))) ∷ (901, client (some (ok (req sub)))) ∷ [])
        ++ ((904, shutdown) ∷ []))
      (start "c"))
run-IsEnded_example =
    run-IsEnded default_settings
      ((900, client (some (ok (req sub)))) ∷ (901, client (some (ok (req sub)))) ∷ []) [] 904 "c"
