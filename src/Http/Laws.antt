-- ===== src/Http/Laws.antt =====
-- main.rs: what `handle_web_request` answers, and when it starts a connection.
use nostrd.Base.{
  String, ◌≡◌, refl, ◌↔◌, Option, none, some, Bool, true, false, ◌⊎◌, inl, inr, str_eq, eq_iff,
  Bool-cases,
}
use nostrd.Config.{Settings}
use nostrd.Info.Laws.{IsDescription, relay_info-IsDescription}
use nostrd.Json.{Value, Fields, object}
use nostrd.Http.{
  HttpRequest, HttpResponse, WebSocketConfig, nostr_json, contains_text, ws_config, open_socket,
  info_response, read_accept, handle_web_request,
}
use nostrd.Primitives.{Primitives}

module _ ⦃lib : Primitives⦄ (pretty : Value → String) (version : Option String)
    (settings : Settings) where
  same_config :
      (config : WebSocketConfig)
      → config.max_message_size ≡ settings.limits.max_ws_message_bytes
      → config.max_frame_size ≡ settings.limits.max_ws_frame_bytes
      → ws_config settings ≡ config
  same_config config message frame = rw (← message, ← frame) refl

  -- the handshake and the upgrade succeed, the response is that of the handshake, and the limits of
  -- the connection are those of the settings
  abbrev pub Opens : String ⊎ HttpResponse → Bool → HttpResponse → WebSocketConfig → Type 0
  Opens handshake upgraded response config =
      (handshake ≡ inr response)
      × (upgraded ≡ true)
      × (config.max_message_size ≡ settings.limits.max_ws_message_bytes)
      × (config.max_frame_size ≡ settings.limits.max_ws_frame_bytes)

  open_socket-started :
      (handshake : String ⊎ HttpResponse) (upgraded : Bool) (config : WebSocketConfig)
      → ((open_socket settings handshake upgraded).started ≡ some config)
        ↔ Opens handshake upgraded (open_socket settings handshake upgraded).response config
  open_socket-started (inl error) upgraded config = (λ h. absurd (cc h), λ h. absurd (cc h.0))
  open_socket-started (inr r) true config = (
    λ h. let same : ws_config settings ≡ config = cc h in rw (← same) (refl, refl, refl, refl),
    λ h. rw (same_config config h.2 h.3) refl,
  )
  open_socket-started (inr r) false config = (λ h. absurd (cc h), λ h. absurd (cc h.1))

  -- A connection is started exactly for a request for / with an UPGRADE header, if the handshake
  -- succeeds, so that its response is the answer, and the upgrade does; the limit on the messages and
  -- the limit on the frames of the connection are those of the settings, or unset if these set none.
  pub handle_web_request-started_iff :
      (request : HttpRequest) (handshake : String ⊎ HttpResponse) (upgraded : Bool)
      (config : WebSocketConfig)
      → let handled = handle_web_request pretty version settings request handshake upgraded in
        (handled.started ≡ some config) ↔ (
          (request.path ≡ "/")
          × (request.has_upgrade ≡ true)
          × Opens handshake upgraded handled.response config)
  unfolding handle_web_request
  handle_web_request-started_iff request handshake upgraded config =
      elim (Bool-cases (str_eq request.path "/")) [
        | inl home ↦
            let at_home : request.path ≡ "/" = (eq_iff request.path "/").0 home in
            let (only, enough) = open_socket-started handshake upgraded config in
            elim (Bool-cases request.has_upgrade) [
              | inl up ↦ rw (home, up) (λ h. (at_home, refl, only h), λ (_, _, opens). enough opens)
              | inr plain ↦ rw (home, plain) (λ h. absurd (cc h), λ h. absurd (cc h.1))
            ]
        | inr other ↦
            rw other (λ h. absurd (cc h), λ h. absurd (cc ((eq_iff request.path "/").1 h.0, other)))
      ]

  -- the body is the pretty text of the description
  abbrev pub Describes : HttpResponse → Type 0
  Describes response =
      (fs : Fields) × (response.body ≡ pretty (object fs)) × IsDescription version settings.info fs

  info_response-Describes : Describes (info_response pretty version settings)
  info_response-Describes =
      let (fs, same, fine) = relay_info-IsDescription version settings.info in
      (fs, rw same refl, fine)

  read_accept-info :
      (accept : Option (Option String))
      → let response = read_accept pretty version settings accept in
        ((response.content_type ≡ some nostr_json)
          → (media_types : String) × (accept ≡ some (some media_types))
            × (contains_text media_types nostr_json ≡ true))
        × (((media_types : String) × (accept ≡ some (some media_types))
              × (contains_text media_types nostr_json ≡ true))
            → response.content_type ≡ some nostr_json)
        × ((response.content_type ≡ some nostr_json) → Describes response)
  read_accept-info none = (λ h. absurd (cc h), λ h. absurd (cc h.1), λ h. absurd (cc h))
  read_accept-info (some none) = (λ h. absurd (cc h), λ h. absurd (cc h.1), λ h. absurd (cc h))
  read_accept-info (some (some mt)) = elim (Bool-cases (contains_text mt nostr_json)) [
    | inl asks ↦ rw asks (λ h. (mt, refl, asks), λ h. refl, λ h. info_response-Describes)
    | inr not ↦ rw not (
      λ h. absurd (cc h),
      λ (m, same, asks). let here : mt ≡ m = cc same in absurd (cc (here, asks, not)),
      λ h. absurd (cc h),
    )
  ]

  -- Without an UPGRADE header, the answer is the description of the relay, as a Nostr document,
  -- exactly if the path is / and the ACCEPT header asks for it. Then the body is the pretty text of a
  -- JSON object that names, under "id", "name", "description", "pubkey" and "contact", what the settings
  -- name and nothing if they name none; under "supported_nips" 1, 2 and 11; under "software" the address
  -- of the program; under "version" that of the build, if it has one; and it has no other key.
  pub handle_web_request-info_iff :
      (request : HttpRequest) (handshake : String ⊎ HttpResponse) (upgraded : Bool)
      → request.has_upgrade ≡ false
      → let response =
          (handle_web_request pretty version settings request handshake upgraded).response in
        ((response.content_type ≡ some nostr_json) ↔ (
          (request.path ≡ "/")
          × ((media_types : String) × (request.accept ≡ some (some media_types))
              × (contains_text media_types nostr_json ≡ true))))
        × ((response.content_type ≡ some nostr_json) → Describes response)
  unfolding handle_web_request
  handle_web_request-info_iff request handshake upgraded plain =
      elim (Bool-cases (str_eq request.path "/")) [
        | inl home ↦
            let at_home : request.path ≡ "/" = (eq_iff request.path "/").0 home in
            let (only, enough, which) = read_accept-info request.accept in
            rw (home, plain) ((λ h. (at_home, only h), λ h. enough h.1), which)
        | inr other ↦ rw other (
          (λ h. absurd (cc h), λ h. absurd (cc ((eq_iff request.path "/").1 h.0, other))),
          λ h. absurd (cc h),
        )
      ]
