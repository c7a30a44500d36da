-- ===== src/Http.antt =====
-- main.rs: the handler of HTTP requests (`handle_web_request`). The handshake and the upgrade are
-- `tungstenite`'s and `hyper`'s, and their answers are arguments, as is the text that `serde_json`
-- prints for a value in its pretty form.
pub mod Laws
use Prim.Native.String.{◌++◌ as append}
use text.Mathlib.Text.{find?}
use nostrd.Base.{
  ℕ, String, Option, none, some, Bool, true, false, ◌⊎◌, inl, inr, str_eq, if◌then◌else◌,
}
use nostrd.Config.{Settings}
use nostrd.Info.{relay_info, relay_info_to_value}
use nostrd.Json.{Value}
use nostrd.Primitives.{Primitives}

-- what the handler reads of a request: the path, whether there is an UPGRADE header, and the ACCEPT
-- header, which may hold no readable text
pub record HttpRequest : Type 0 where
  pub path : String
  pub has_upgrade : Bool
  pub accept : Option (Option String)

pub record HttpResponse : Type 0 where
  pub status : ℕ
  pub content_type : Option String
  pub body : String

-- `WebSocketConfig`, as far as the handler sets it
pub record WebSocketConfig : Type 0 where
  pub max_message_size : Option ℕ
  pub max_frame_size : Option ℕ

-- the response, and the connection that is started, with its configuration
pub record Handled : Type 0 where
  pub response : HttpResponse
  pub started : Option WebSocketConfig

abbrev pub nostr_json : String
nostr_json = "application/nostr+json"

abbrev pub is_some {ℓ} : {A : Type ℓ} → Option A → Bool
is_some none = false
is_some (some a) = true

-- `str::contains`
abbrev pub contains_text : String → String → Bool
contains_text s t = is_some (find? s t)

abbrev pub respond : HttpResponse → Handled
respond r = record { response = r; started = none }

-- `Response::new`
abbrev pub new_response : String → HttpResponse
new_response body = record { status = 200; content_type = none; body = body }

module _ ⦃lib : Primitives⦄ where
  abbrev pub ws_config : Settings → WebSocketConfig
  ws_config settings = record {
    max_message_size = settings.limits.max_ws_message_bytes;
    max_frame_size = settings.limits.max_ws_frame_bytes;
  }

  -- the task that waits for the upgrade, which may fail
  abbrev pub after_upgrade : Settings → Bool → Option WebSocketConfig
  after_upgrade settings upgraded = if upgraded then some (ws_config settings) else none

  -- a request for / with an UPGRADE header
  abbrev pub open_socket : Settings → String ⊎ HttpResponse → Bool → Handled
  open_socket settings (inr response) upgraded = record {
    response = response;
    started = after_upgrade settings upgraded;
  }
  open_socket settings (inl error) upgraded =
      respond (record (new_response (append "Failed to create websocket: " error)) { status = 400 })

  abbrev pub info_response : (Value → String) → Option String → Settings → HttpResponse
  info_response pretty version settings = record {
    status = 200;
    content_type = some nostr_json;
    body = pretty (relay_info_to_value (relay_info version settings.info));
  }

  abbrev pub greeting : HttpResponse
  greeting = new_response "Please use a Nostr client to connect."

  -- a request for / without it
  abbrev pub read_accept :
      (Value → String) → Option String → Settings → Option (Option String) → HttpResponse
  read_accept pretty version settings none = greeting
  read_accept pretty version settings (some none) = greeting
  read_accept pretty version settings (some (some media_types)) =
      if contains_text media_types nostr_json
      then info_response pretty version settings
      else greeting

  abbrev pub not_found : HttpResponse
  not_found = record (new_response "Nothing here.") { status = 404 }

  unfoldable pub handle_web_request :
      (Value → String)
      → Option String
      → Settings
      → HttpRequest
      → String ⊎ HttpResponse
      → Bool
      → Handled
  handle_web_request pretty version settings request handshake upgraded =
      if str_eq request.path "/"
      then (if request.has_upgrade
          then open_socket settings handshake upgraded
          else respond (read_accept pretty version settings request.accept))
      else respond not_found
