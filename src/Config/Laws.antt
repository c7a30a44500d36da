-- ===== src/Config/Laws.antt =====
-- config.rs: what `Settings::new` returns, by what the file holds.
use nostrd.Base.{◌≡◌, String, arith, ◌⊎◌, inl, inr}
use nostrd.Base.Outcome.{Outcome, ok, err, panic, ◌>>=◌, lift}
use nostrd.Config.{
  Settings, Merging, unwrap_source, default_settings, new_from_default, new_settings,
}
use nostrd.Primitives.{Primitives}

module _ ⦃lib : Primitives⦄ (m : Merging) where
  -- the settings that the file leads to, if it can be merged and read
  abbrev pub from_file : m.Source → String ⊎ Settings
  from_file defaults = elim (m.with_merged m.fresh defaults) [
    | inl e ↦ inl e
    | inr base ↦ elim (m.with_merged base (m.file "config")) [
      | inl e ↦ inl e
      | inr config ↦ m.into_settings config
    ]
  ]

  -- the file's settings, or all of the defaults
  abbrev pub or_default : String ⊎ Settings → Settings
  or_default (inl e) = default_settings
  or_default (inr s) = s

  -- what `Settings::new` makes of the defaults as a source
  abbrev pub Made : String ⊎ m.Source → Outcome String Settings
  Made (inl e) = panic
  Made (inr defaults) = ok (or_default (from_file defaults))

  -- `Settings::new` panics exactly if the defaults are no source of a configuration. Otherwise it
  -- returns the settings read from the merge of the file over the defaults; and if the file cannot be
  -- read, merged, or turned into settings, all of the defaults, and never an error.
  pub new_settings-Made : new_settings (new_from_default m) ≡ Made (m.of_settings default_settings)
  unfolding new_settings new_from_default
  new_settings-Made = of_source (m.of_settings default_settings)
    where
      of_source :
          (o : String ⊎ m.Source)
          → (elim ((unwrap_source o >>= λ defaults.
                lift {E = String} (λ e. e) (m.with_merged m.fresh defaults) >>= λ base.
                lift {E = String} (λ e. e) (m.with_merged base (m.file "config")) >>= λ config.
                lift {E = String} (λ e. e) (m.into_settings config)))
              as (λ x. Outcome String Settings) [
                | ok f ↦ ok f
                | err e ↦ ok default_settings
                | panic ↦ panic
              ])
            ≡ Made o
      of_source o = ground arith
