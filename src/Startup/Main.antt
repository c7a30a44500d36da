-- ===== src/Startup/Main.antt =====
-- main.rs: `main`, from the settings to the end of the server. What tokio, hyper and the operating
-- system decide is an argument: the merge of the configuration file, whether the runtime is built, the channels are made for their
-- capacities and the address is bound, and how the server ends.
use nostrd.Base.{
  ℕ, ◌≡◌, refl, String, Option, none, some, List, [], ◌∷◌, Bool, true, false, ◌&&◌, ◌↔◌, ◌⊎◌, inl,
  inr, Bool-cases, arith,
}
use nostrd.Base.Outcome.{Outcome, ok, err, panic, map_err, ◌>>=◌}
use nostrd.Config.{Settings, Merging, new_from_default, default_settings}
use nostrd.Config.Laws.{from_file, or_default, Made, new_settings-Made}
use nostrd.Error.{Error, config_error}
use nostrd.Primitives.{Primitives}
use nostrd.Startup.{
  with_directory, db_from_args, settings_at_start, socket_addr, expect, listening_address,
}

-- one of five conditions fails
refused_iff :
    (a b c d e : Bool)
    → (((a && (b && c && d)) && e) ≡ false)
      ↔ ((a ≡ false) ⊎ (b ≡ false) ⊎ (c ≡ false) ⊎ (d ≡ false) ⊎ (e ≡ false))
refused_iff a b c d e = ground arith

-- what `main` sets going
pub data Task (Address : Type 0) : Type 0 where
  -- `db_writer`
  writer : Task Address
  -- the server, at its address
  server : Address → Task Address

module _ ⦃lib : Primitives⦄ where
  pub record Host (Address : Type 0) : Type 1 where
    pub merging : Merging
    pub is_dir : String → Bool
    pub trim : String → String
    pub parse : String → Option Address
    -- whether the runtime is built
    pub builds : Bool
    -- whether `broadcast::channel` and `mpsc::channel` return, for a capacity
    pub makes_broadcast : ℕ → Bool
    pub makes_mpsc : ℕ → Bool
    -- whether `Server::bind` returns, for an address
    pub binds : Address → Bool
    -- the error that the server ends with
    pub server_error : Option String

  -- the result of `server.await` is printed, if it is an error
  abbrev end_of_server : Option String → Outcome Error Unit
  end_of_server none = ok tt
  end_of_server (some e) = ok tt

  module _ {Address : Type 0} where
    -- the three channels
    abbrev pub makes_channels : Host Address → Settings → Bool
    makes_channels host settings =
        host.makes_broadcast settings.limits.broadcast_buffer
        && host.makes_mpsc settings.limits.event_persist_buffer
        && host.makes_broadcast 1

    -- the runtime, which is ready or not: the writer, then the server, if its address is bound
    abbrev launched :
        Bool → Bool → Option String → Address → List (Task Address) × Outcome Error Unit
    launched true true e address = (writer ∷ server address ∷ [], end_of_server e)
    launched true false e address = (writer ∷ [], panic)
    launched false bound e address = ([], panic)

    unfoldable pub serve :
        Host Address → Settings → Address → List (Task Address) × Outcome Error Unit
    serve host settings address =
        launched (host.builds && makes_channels host settings) (host.binds address)
          host.server_error address

    -- a step before the runtime, which may end `main`
    abbrev before :
        {A : Type 0}
        → Outcome Error A
        → (A → List (Task Address) × Outcome Error Unit)
        → List (Task Address) × Outcome Error Unit
    before (ok a) next = next a
    before (err x) next = ([], err x)
    before panic next = ([], panic)

    -- `main`
    unfoldable pub main : Host Address → List String → List (Task Address) × Outcome Error Unit
    main host args =
        before (map_err config_error (settings_at_start (new_from_default host.merging) args))
          λ settings.
            before (socket_addr host.is_dir host.trim host.parse settings)
              λ address. serve host settings address

    -- The server is not reached with the settings and the address: the runtime is not built, the
    -- channel of events to the clients, that to the writer or that of the shutdown is not made, or the
    -- address is not bound.
    abbrev pub IsRefused : Host Address → Settings → Address → Type 0
    IsRefused host settings address =
        (host.builds ≡ false)
        ⊎ (host.makes_broadcast settings.limits.broadcast_buffer ≡ false)
        ⊎ (host.makes_mpsc settings.limits.event_persist_buffer ≡ false)
        ⊎ (host.makes_broadcast 1 ≡ false)
        ⊎ (host.binds address ≡ false)

    launched-panic_iff :
        (ready bound : Bool) (e : Option String) (address : Address)
        → ((launched ready bound e address).1 ≡ panic) ↔ ((ready && bound) ≡ false)
    launched-panic_iff true true none address = (λ h. absurd (cc h), λ h. absurd (cc h))
    launched-panic_iff true true (some e) address = (λ h. absurd (cc h), λ h. absurd (cc h))
    launched-panic_iff true false e address = (λ h. refl, λ h. refl)
    launched-panic_iff false bound e address = (λ h. refl, λ h. refl)

    serve-panic_iff :
        (host : Host Address) (settings : Settings) (address : Address)
        → ((serve host settings address).1 ≡ panic) ↔ IsRefused host settings address
    unfolding serve
    serve-panic_iff host settings address =
        let launched_iff =
          launched-panic_iff (host.builds && makes_channels host settings) (host.binds address)
            host.server_error address in
        let refused =
          refused_iff host.builds (host.makes_broadcast settings.limits.broadcast_buffer)
            (host.makes_mpsc settings.limits.event_persist_buffer) (host.makes_broadcast 1)
            (host.binds address) in
        (λ h. refused.0 (launched_iff.0 h), λ h. launched_iff.1 (refused.1 h))

    -- why `main` panics behind the settings: the directory exists, and the text of the address is
    -- none, or the server is not reached
    abbrev pub IsStopped : Host Address → Settings → Type 0
    IsStopped host settings =
        (host.is_dir settings.database.data_directory ≡ true)
        × ((host.parse (listening_address host.trim settings) ≡ none)
            ⊎ ((address : Address) × (host.parse (listening_address host.trim settings)
                  ≡ some address)
                × IsRefused host settings address))

    address-panic_iff :
        (host : Host Address) (settings : Settings) (o : Option Address)
        → ((before (expect o) (λ address. serve host settings address)).1 ≡ panic) ↔ (
            (o ≡ none)
            ⊎ ((address : Address) × (o ≡ some address) × IsRefused host settings address))
    address-panic_iff host settings none = (λ h. inl refl, λ h. refl)
    address-panic_iff host settings (some a) = (
      λ h. inr (a, refl, (serve-panic_iff host settings a).0 h),
      λ h. elim h [
        | inl p ↦ absurd (cc p)
        | inr (b, same, p) ↦
            let again : a ≡ b = cc same in rw again ((serve-panic_iff host settings b).1 p)
      ],
    )

    reached_iff :
        (host : Host Address) (settings : Settings)
        → ((before
              (socket_addr host.is_dir host.trim host.parse settings)
              (λ address. serve host settings address)).1
            ≡ panic)
          ↔ IsStopped host settings
    unfolding socket_addr
    reached_iff host settings = elim (Bool-cases (host.is_dir settings.database.data_directory)) [
      | inl there ↦
          let it =
            address-panic_iff host settings (host.parse (listening_address host.trim settings)) in
          rw there (λ h. (refl, it.0 h), λ h. it.1 h.1)
      | inr missing ↦ rw missing (λ h. absurd (cc h), λ h. absurd (cc h.0))
    ]

    -- The settings that `main` starts with: from the defaults as a source, with the file if it can be
    -- merged and read, and the data directory of the command line, if it names one.
    abbrev pub StartsWith : Host Address → List String → Settings → Type 0
    StartsWith host args settings =
        (defaults : host.merging.Source) × (host.merging.of_settings default_settings
          ≡ inr defaults)
        × (settings
            ≡ with_directory (db_from_args args)
                (or_default host.merging (from_file host.merging defaults)))

    by_defaults :
        (host : Host Address) (args : List String) (o : String ⊎ host.merging.Source)
        → ((before
              (map_err config_error
                (Made host.merging o >>= λ c. ok (with_directory (db_from_args args) c)))
              (λ settings.
                before
                  (socket_addr host.is_dir host.trim host.parse settings)
                  (λ address. serve host settings address))).1
            ≡ panic)
          ↔ (((e : String) × (o ≡ inl e))
              ⊎ ((settings : Settings) × ((defaults : host.merging.Source) × (o ≡ inr defaults)
                    × (settings
                        ≡ with_directory
                            (db_from_args args)
                            (or_default host.merging (from_file host.merging defaults))))
                  × IsStopped host settings))
    by_defaults host args (inl e) = (λ h. inl (e, refl), λ h. refl)
    by_defaults host args (inr d) =
        let c =
          with_directory (db_from_args args) (or_default host.merging (from_file host.merging d)) in
        (
          λ h. inr (c, (d, refl, refl), (reached_iff host c).0 h),
          λ h. elim h [
            | inl p ↦ absurd (cc p.1)
            | inr (settings, (d', same, made), p) ↦
                let again : settings ≡ c = cc (same, made) in (reached_iff host c).1 (rw again at p)
          ],
        )

    pub main-panic_iff :
        (host : Host Address) (args : List String)
        → ((main host args).1 ≡ panic) ↔ (
            ((e : String) × (host.merging.of_settings default_settings ≡ inl e))
            ⊎ ((settings : Settings) × StartsWith host args settings × IsStopped host settings))
    unfolding main settings_at_start
    main-panic_iff host args =
        rw (new_settings-Made host.merging)
          (by_defaults host args (host.merging.of_settings default_settings))
