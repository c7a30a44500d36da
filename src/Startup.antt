-- ===== src/Startup.antt =====
-- main.rs: the command line, and the settings and the address that `main` starts with. What the
-- standard library and the operating system decide is an argument: `str::trim`, whether a path is a
-- directory, and the parser of socket addresses.
pub mod Main
use Prim.Native.String.{◌++◌ as append}
use nostrd.Base.{
  ◌==◌, ◌≡◌, refl, String, Option, none, some, List, [], ◌∷◌, Bool, true, false, ◌↔◌, inl, inr,
  str_eq, eq_iff, if◌then◌else◌, Bool-cases, arith, ◌&&◌, length, get_elem?,
}
use nostrd.Base.Outcome.{Outcome, ok, err, panic, ◌>>=◌, map_err}
use nostrd.Config.{Settings, new_settings}
use nostrd.Error.{Error, database_dir_error, config_error, decimal}
use nostrd.Primitives.{Primitives}

-- `args.get(1) == Some(&"--db".to_owned())`
abbrev is_db_flag : Option String → Bool
is_db_flag none = false
is_db_flag (some s) = str_eq s "--db"

unfoldable pub db_from_args : List String → Option String
db_from_args args =
    if (length args == 3) && is_db_flag (get_elem? args 1) then get_elem? args 2 else none

module _ ⦃lib : Primitives⦄ where
  -- the data directory of the command line replaces that of the settings
  abbrev pub with_directory : Option String → Settings → Settings
  with_directory none settings = settings
  with_directory (some db) settings = record settings { database = record { data_directory = db } }

  -- `Settings::new` returns a value, or panics
  unfoldable pub settings_at_start :
      (Settings → Outcome String Settings) → List String → Outcome String Settings
  settings_at_start new_from_default args =
      new_settings new_from_default >>= λ c. ok (with_directory (db_from_args args) c)

  abbrev pub listening_address : (String → String) → Settings → String
  listening_address trim settings =
      append (trim settings.network.address) (append ":" (decimal settings.network.port))

  module _ {Address : Type 0} where
    abbrev pub expect : Option Address → Outcome Error Address
    expect none = panic
    expect (some a) = ok a

    -- the checks before the runtime starts, with the address to listen on
    unfoldable pub socket_addr :
        (String → Bool)
        → (String → String)
        → (String → Option Address)
        → Settings
        → Outcome Error Address
    socket_addr is_dir trim parse settings =
        if is_dir settings.database.data_directory
        then expect (parse (listening_address trim settings))
        else err database_dir_error

    -- `main`, up to the runtime
    unfoldable pub start_up :
        (Settings → Outcome String Settings)
        → (String → Bool)
        → (String → String)
        → (String → Option Address)
        → List String
        → Outcome Error Address
    start_up new_from_default is_dir trim parse args =
        map_err config_error (settings_at_start new_from_default args) >>= λ c.
        socket_addr is_dir trim parse c

-- The directory is taken from the command line exactly if it has the program's name, `--db` and the
-- directory, and nothing else.
pub db_from_args_iff :
    (args : List String) (dir : String)
    → (db_from_args args ≡ some dir) ↔ ((program : String) × (args ≡ program ∷ "--db" ∷ dir ∷ []))
unfolding db_from_args
db_from_args_iff [] dir = (λ h. absurd (cc h), λ h. absurd (cc h.1))
db_from_args_iff (a ∷ []) dir = (λ h. absurd (cc h), λ h. absurd (cc h.1))
db_from_args_iff (a ∷ b ∷ []) dir = (λ h. absurd (cc h), λ h. absurd (cc h.1))
db_from_args_iff (a ∷ b ∷ c ∷ []) dir = elim (Bool-cases (str_eq b "--db")) [
  | inl flag ↦
      let same : b ≡ "--db" = (eq_iff b "--db").0 flag in
      rw flag (λ h. (a, cc (h, same)), λ h. cc h.1)
  | inr other ↦
      rw other (λ h. absurd (cc h), λ h. absurd (cc ((eq_iff b "--db").1 (cc h.1), other)))
]
db_from_args_iff (a ∷ b ∷ c ∷ d ∷ rest) dir =
    let longer : (length (a ∷ b ∷ c ∷ d ∷ rest) == 3) ≡ false = ground arith in
    rw longer (λ h. absurd (cc h), λ h. absurd (cc h.1))

module _ ⦃lib : Primitives⦄ {Address : Type 0} where
  socket_addr-ok :
      (is_dir : String → Bool) (trim : String → String) (parse : String → Option Address)
      (settings : Settings) (address : Address)
      → socket_addr is_dir trim parse settings ≡ ok address
      → (is_dir settings.database.data_directory ≡ true)
        × (parse (listening_address trim settings) ≡ some address)
  unfolding socket_addr
  socket_addr-ok is_dir trim parse settings address h =
      elim (Bool-cases (is_dir settings.database.data_directory)) [
        | inl there ↦ (there, parsed (parse (listening_address trim settings)) (rw there at h))
        | inr missing ↦ absurd (cc (rw missing at h))
      ]
    where
      parsed : (o : Option Address) → expect o ≡ ok address → o ≡ some address
      parsed none h = absurd (cc h)
      parsed (some a) h = cc h

  -- With `--db` and a directory on the command line, the server never starts on another one: it
  -- listens only if that path is a directory, whatever the file of settings says.
  pub start_up-db :
      (new_from_default : Settings → Outcome String Settings) (is_dir : String → Bool)
      (trim : String → String) (parse : String → Option Address) (program dir : String)
      (address : Address)
      → start_up new_from_default is_dir trim parse (program ∷ "--db" ∷ dir ∷ []) ≡ ok address
      → (settings : Settings) × (new_settings new_from_default ≡ ok settings)
        × (is_dir dir ≡ true)
        × (parse (listening_address trim settings) ≡ some address)
  unfolding start_up settings_at_start socket_addr db_from_args
  start_up-db new_from_default is_dir trim parse program dir address h =
      of_settings (new_settings new_from_default) refl h
    where
      of_settings :
          (o : Outcome String Settings)
          → new_settings new_from_default ≡ o
          → (map_err config_error (o >>= λ c. ok (with_directory (some dir) c)) >>= λ c.
              socket_addr is_dir trim parse c)
            ≡ ok address
          → (settings : Settings) × (new_settings new_from_default ≡ ok settings)
            × (is_dir dir ≡ true)
            × (parse (listening_address trim settings) ≡ some address)
      of_settings (ok c) same h =
          let (there, parsed) =
            socket_addr-ok is_dir trim parse (with_directory (some dir) c) address h in
          (c, same, there, parsed)
      of_settings (err x) same h = absurd (cc h)
      of_settings panic same h = absurd (cc h)
