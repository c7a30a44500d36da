-- ===== src/Config.antt =====
-- config.rs: the settings and their defaults, and how a configuration file replaces them.
pub mod Laws
use nostrd.Base.{ℕ, String, Option, none, some, List, ◌*◌, ◌^◌, ◌⊎◌, inl, inr}
use nostrd.Base.Outcome.{Outcome, ok, err, panic, ◌>>=◌, lift}
use nostrd.Primitives.{Primitives, PublicKey}

pub record Database : Type 0 where
  pub data_directory : String

pub record Network : Type 0 where
  pub port : ℕ
  pub address : String

pub record Options : Type 0 where
  pub reject_future_seconds : Option ℕ

pub record Retention : Type 0 where
  pub max_events : Option ℕ
  pub max_bytes : Option ℕ
  pub persist_days : Option ℕ
  pub whitelist_addresses : Option (List String)

pub record Limits : Type 0 where
  pub messages_per_sec : Option ℕ
  pub max_event_bytes : Option ℕ
  pub max_ws_message_bytes : Option ℕ
  pub max_ws_frame_bytes : Option ℕ
  pub broadcast_buffer : ℕ
  pub event_persist_buffer : ℕ

-- `a << k`
abbrev shift_left : ℕ → ℕ → ℕ
shift_left a k = a * 2 ^ k

module _ ⦃lib : Primitives⦄ where
  pub record Info : Type 0 where
    pub relay_url : Option String
    pub name : Option String
    pub description : Option String
    pub pubkey : Option PublicKey
    pub contact : Option String

  pub record Settings : Type 0 where
    pub info : Info
    pub database : Database
    pub network : Network
    pub limits : Limits
    pub retention : Retention
    pub options : Options

  -- `Settings::default`
  unfoldable pub default_settings : Settings
  default_settings = record {
    info = record {
      relay_url = none;
      name = some "nostrd-v0.0.1";
      description = none;
      pubkey = none;
      contact = none;
    };
    database = record { data_directory = "." };
    network = record { port = 8080; address = "0.0.0.0" };
    limits = record {
      messages_per_sec = none;
      max_event_bytes = some (shift_left 2 17);
      max_ws_message_bytes = some (shift_left 2 17);
      max_ws_frame_bytes = some (shift_left 2 17);
      broadcast_buffer = 4096;
      event_persist_buffer = 16;
    };
    retention = record {
      max_events = none;
      max_bytes = none;
      persist_days = none;
      whitelist_addresses = none;
    };
    options = record { reject_future_seconds = some (30 * 60) };
  }

  -- The crate `config`, as far as it is used, with the texts of its errors: a fresh configuration,
  -- the settings and a file as sources, the merge of a source, and the settings read out of it.
  pub record Merging : Type 1 where
    pub Config : Type 0
    pub Source : Type 0
    pub fresh : Config
    pub of_settings : Settings → String ⊎ Source
    pub file : String → Source
    pub with_merged : Config → Source → String ⊎ Config
    pub into_settings : Config → String ⊎ Settings

  -- `try_from(default).unwrap()`
  abbrev pub unwrap_source : {Source : Type 0} → String ⊎ Source → Outcome String Source
  unwrap_source (inl e) = panic
  unwrap_source (inr source) = ok source

  -- `Settings::new_from_default`
  unfoldable pub new_from_default : Merging → Settings → Outcome String Settings
  new_from_default m default = do
    defaults ← unwrap_source (m.of_settings default)
    base ← lift (λ e. e) (m.with_merged m.fresh defaults)
    config ← lift (λ e. e) (m.with_merged base (m.file "config"))
    lift (λ e. e) (m.into_settings config)

  -- `Settings::new`, over `new_from_default`
  unfoldable pub new_settings : (Settings → Outcome String Settings) → Outcome String Settings
  new_settings from_default = elim (from_default default_settings) [
    | ok f ↦ ok f
    | err e ↦ ok default_settings
    | panic ↦ panic
  ]
