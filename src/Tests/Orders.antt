-- ===== src/Tests/Orders.antt =====
-- The event loop with its tables in another order, and behind a CLOSE.
use mathlib.Core.List.{Permᴰ}
use mathlib.Core.List.Permᴰ
use nostrd.Base.{ℕ, ◌≡◌, refl, some, List, [], ◌∷◌, String_discrete, eq_iff}
use nostrd.Base.Outcome.{ok}
use nostrd.Base.Table.{get, has, insert, remove}
use nostrd.Config.{default_settings}
use nostrd.Conn.{new_conn, subscribe}
use nostrd.Stream.{req, close}
use nostrd.Server.{
  Session, Step, Input, continue, break, crash, broadcast, client, shutdown, start, step, on_client,
  on_message, cleanup, run,
}
use nostrd.Server.Laws.{After}
use nostrd.Server.Closed.{IsSilent, close-IsSilent}
use nostrd.Server.Broadcast.{Continues}
use nostrd.Server.Replaced.{IsRestarted, IsUntold, req-IsRestarted}
use nostrd.Server.Order.{SameStep}
use nostrd.Server.Reordered.{RunsTo, turns, breaks, Reorders, run-SameStep}
use nostrd.Tests.Toy.{toy}
use nostrd.Tests.Relay.{open_session}
use nostrd.Tests.Samples.{note, sub, other_sub}

abbrev settled : Step → Session
settled (continue s) = s
settled (break s) = s
settled crash = start "c"

abbrev asks : Input
asks = client (some (ok (req sub)))

abbrev asks_again : Input
asks_again = client (some (ok (req other_sub)))

abbrev inputs : List (ℕ × Input)
inputs = (900, asks) ∷ (901, asks_again) ∷ (902, shutdown) ∷ []

abbrev first : Session
first = settled (step default_settings 900 (start "c") asks)

abbrev second : Session
second = settled (step default_settings 901 first asks_again)

abbrev swapped : Session
swapped = record second {
  conn = record second.conn { subscriptions = ("7", sub) ∷ ("8", other_sub) ∷ [] };
  running_queries = ("f7", 0) ∷ ("f8", 1) ∷ [];
}

swapped-Reorders : Reorders second swapped
unfolding step on_client on_message subscribe has get insert remove start new_conn String_discrete
swapped-Reorders = record {
  subscriptions = Permᴰ.swap refl refl;
  running = Permᴰ.swap refl refl;
  rest = refl;
}

swapped_back : Reorders swapped second
unfolding step on_client on_message subscribe has get insert remove start new_conn String_discrete
swapped_back = record {
  subscriptions = Permᴰ.swap refl refl;
  running = Permᴰ.swap refl refl;
  rest = refl;
}

start-Reorders : Reorders (start "c") (start "c")
unfolding start new_conn
start-Reorders = record { subscriptions = Permᴰ.nil; running = Permᴰ.nil; rest = refl }

first-Reorders : Reorders first first
first-Reorders = record {
  subscriptions = Permᴰ.refl first.conn.subscriptions;
  running = Permᴰ.refl first.running_queries;
  rest = refl;
}

asked : step default_settings 900 (start "c") asks ≡ continue first
unfolding step on_client on_message subscribe has get start new_conn
asked = refl

asked_again : step default_settings 901 first asks_again ≡ continue second
unfolding step on_client on_message subscribe has get insert remove start new_conn String_discrete
asked_again = refl

told_to_stop : step default_settings 902 swapped shutdown ≡ break swapped
unfolding step
told_to_stop = refl

-- the tables are swapped before the shutdown, and again before the clean-up
way : RunsTo default_settings (start "c") inputs (break (cleanup second))
way = turns _ _ _ _ _ _ _ start-Reorders asked (
    turns _ _ _ _ _ _ _ first-Reorders asked_again
      (breaks _ _ _ _ _ _ _ swapped-Reorders told_to_stop swapped_back))

run-SameStep_example : SameStep (run default_settings inputs (start "c")) (break (cleanup second))
run-SameStep_example = run-SameStep default_settings inputs "c" (break (cleanup second)) way

-- behind the CLOSE: an event that the closed subscription would match, and another REQ
abbrev behind : List (ℕ × Input)
behind = (904, broadcast note) ∷ (905, asks_again) ∷ []

close-IsSilent_example : After (IsSilent "7" open_session.sent) (
    run default_settings
      ((903, client (some (ok (close (record { id = "7" }))))) ∷ behind)
      open_session)
close-IsSilent_example =
    close-IsSilent default_settings 903 open_session (record { id = "7" }) behind
      (tt, (λ h. cc ((eq_iff "8" "7").1 h), tt))

-- the same REQ twice, and then what stands behind
asks-continue : run default_settings ((900, asks) ∷ []) (start "c") ≡ continue first
unfolding run step on_client on_message subscribe has get start new_conn
asks-continue = refl

accepted : (subscribe first.conn sub).1 ≡ ok tt
unfolding step on_client on_message subscribe has get insert remove start new_conn String_discrete
accepted = refl

first-get : get String_discrete (toy.hash.to_hex sub.id) first.running_queries ≡ some 0
unfolding step on_client on_message subscribe has get insert remove start new_conn String_discrete
first-get = refl

req-IsRestarted_example :
    Continues (IsRestarted sub first) (step default_settings 903 first asks)
    × After (IsUntold 0) (run default_settings ((903, asks) ∷ behind) first)
req-IsRestarted_example =
    req-IsRestarted default_settings ((900, asks) ∷ []) behind 903 0 "c" first sub asks-continue
      first-get accepted
