-- ===== src/Tests/Service.antt =====
-- Start-up, the rate limit and HTTP requests at concrete inputs.
use nostrd.Base.{
  String, ◌≡◌, refl, ◌↔◌, ◌<◌, ◌%◌, ◌^◌, Option, none, some, [], ◌∷◌, Bool, true, false, ◌⊎◌, inl,
  inr, arith, str_eq, ltb,
}
use nostrd.Base.Outcome.{Outcome, ok, err, panic}
use nostrd.Config.{Settings, Merging, default_settings, new_settings}
use nostrd.Error.{decimal}
use nostrd.Db.Writer.Rate.{rate_quota, rate_quota-panic_iff}
use nostrd.Http.{
  HttpRequest, HttpResponse, nostr_json, contains_text, ws_config, handle_web_request,
}
use nostrd.Http.Laws.{Opens, Describes, handle_web_request-started_iff, handle_web_request-info_iff}
use nostrd.Startup.Main.{Host, main, main-panic_iff}
use nostrd.Startup.{db_from_args, start_up, settings_at_start, socket_addr}
use nostrd.Tests.Text.{print}
use nostrd.Tests.Toy.{toy}

rate_quota-panic_iff_example :
    (rate_quota (some (2 ^ 30)) ≡ panic) ↔ ((0 < 2 ^ 30) × (2 ^ 30 % 2 ^ 30 ≡ 0))
rate_quota-panic_iff_example = rate_quota-panic_iff (2 ^ 30) (omega arith)

abbrev upgrade : HttpRequest
upgrade = record { path = "/"; has_upgrade = true; accept = none }

abbrev switching : HttpResponse
switching = record { status = 101; content_type = none; body = "" }

handle_web_request-started_iff_example :
    let handled = handle_web_request print none default_settings upgrade (inr switching) true in
    (handled.started ≡ some (ws_config default_settings)) ↔ (
      (upgrade.path ≡ "/")
      × (upgrade.has_upgrade ≡ true)
      × Opens print none default_settings
          (inr switching)
          true
          handled.response
          (ws_config default_settings))
handle_web_request-started_iff_example =
    handle_web_request-started_iff print none default_settings upgrade (inr switching) true
      (ws_config default_settings)

abbrev ask : HttpRequest
ask = record { path = "/"; has_upgrade = false; accept = some (some "application/nostr+json") }

handle_web_request-info_iff_example :
    let response = (handle_web_request print none default_settings ask (inl "") false).response in
    ((response.content_type ≡ some nostr_json) ↔ (
      (ask.path ≡ "/")
      × ((media_types : String) × (ask.accept ≡ some (some media_types))
          × (contains_text media_types nostr_json ≡ true))))
    × ((response.content_type ≡ some nostr_json) → Describes print none default_settings response)
handle_web_request-info_iff_example =
    handle_web_request-info_iff print none default_settings ask (inl "") false refl

abbrev no_file : Settings → Outcome String Settings
no_file _ = err "configuration file \"config\" not found"

abbrev is_var : String → Bool
is_var path = str_eq path "/var"

started :
    start_up no_file is_var (λ s. s) (λ s. some s) ("nostrd" ∷ "--db" ∷ "/var" ∷ [])
    ≡ ok "0.0.0.0:8080"
unfolding start_up settings_at_start socket_addr db_from_args default_settings new_settings decimal
started = refl

-- a source of a configuration: settings, or a file by its name
data Source : Type 0 where
  of_defaults : Settings → Source
  of_file : String → Source

-- a merge in which the file sets the buffer of events to 0
abbrev narrowed : Option Settings → Source → String ⊎ Option Settings
narrowed c (of_defaults d) = inr (some d)
narrowed none (of_file name) = inl "missing field"
narrowed (some d) (of_file name) =
    inr (some (record d { limits = record d.limits { event_persist_buffer = 0 } }))

abbrev merged_settings : Option Settings → String ⊎ Settings
merged_settings none = inl "missing field"
merged_settings (some s) = inr s

abbrev narrow_file : Merging
narrow_file = record {
  Config = Option Settings;
  Source = Source;
  fresh = none;
  of_settings = λ d. inr (of_defaults d);
  file = of_file;
  with_merged = narrowed;
  into_settings = merged_settings;
}

-- that host refuses nothing else than a channel of capacity 0
abbrev narrowed_defaults : String ⊎ Source
narrowed_defaults = narrow_file.of_settings default_settings

abbrev narrow : Host String
narrow = record {
  merging = narrow_file;
  is_dir = is_var;
  trim = λ s. s;
  parse = λ s. some s;
  builds = true;
  makes_broadcast = λ n. ltb 0 n;
  makes_mpsc = λ n. ltb 0 n;
  binds = λ a. true;
  server_error = none;
}

abbrev narrow_settings : Settings
narrow_settings = record default_settings {
  database = record { data_directory = "/var" };
  limits = record default_settings.limits { event_persist_buffer = 0 };
}

zero_buffer : (main narrow ("nostrd" ∷ "--db" ∷ "/var" ∷ [])).1 ≡ panic
unfolding db_from_args default_settings decimal
zero_buffer = (main-panic_iff narrow ("nostrd" ∷ "--db" ∷ "/var" ∷ [])).1 (
    inr (
      narrow_settings,
      (of_defaults default_settings, refl, refl),
      (refl, inr ("0.0.0.0:8080", refl, inr (inr (inl refl)))),
    ))
