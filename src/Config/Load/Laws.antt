-- ===== src/Config/Load/Laws.antt =====
-- What loading a configuration guarantees, and what the environment overrides.
use api_gateway_go.Base.{◌≡◌, refl, Bool, Option, none, some, String, Bytes, string_eq}
use api_gateway_go.Config.{Config}
use api_gateway_go.Config.Defaults.{defaults}
use api_gateway_go.Config.Validate.{ConfigError, validate}
use api_gateway_go.Config.Validate.Laws.{IsValid, validate_iff}
use api_gateway_go.Config.Load.{
  LoadError, Attempt, got, gave_up, ◌>>=◌, Environment, Files, apply_env_overrides, from_file,
  checked, load_config, store, failure, load, reload,
}

pub >>=-eq-got :
    {A B : Type 0} (m : Attempt A) (f : A → Attempt B) {b : B}
    → (m >>= f) ≡ got b
    → (a : A) × (m ≡ got a) × (f a ≡ got b)
>>=-eq-got (got a) f h = (a, refl, h)
>>=-eq-got (gave_up e) f h = cc h

checked-got :
    (o : Option ConfigError) (c c' : Config) → checked o c ≡ got c' → (o ≡ none) × (c ≡ c')
checked-got none c c' h = (refl, cc h)
checked-got (some e) c c' h = cc h

load_config-IsValid :
    (files : Files) (env : Environment) (path : Bytes) (cfg : Config)
    → load_config files env path ≡ got cfg
    → IsValid files.missing cfg
unfolding load_config
load_config-IsValid files env path cfg h =
    let (c1, e1, h1) = >>=-eq-got (from_file files path defaults) _ h in
    let (c2, e2, h2) = >>=-eq-got (apply_env_overrides env c1) _ h1 in
    let (valid, same) = checked-got (validate files.missing c2) c2 cfg h2 in
    rw⁻¹ same ((validate_iff files.missing c2).0 valid)

-- The program holds no global configuration, or a valid one.
abbrev pub IsGood : (String → Bool) → Option Config → Type 0
IsGood missing none = Unit
IsGood missing (some cfg) = IsValid missing cfg

-- A reload that fails reports its error and leaves the global configuration alone; one that
-- returns no error makes a valid configuration, the one that `Load` reads, the global one. So there
-- is never an invalid global configuration.
pub reload_lem :
    (files : Files) (env : Environment) (path : Bytes) (global : Option Config)
    → let (error, global') = reload files env path global in
      (((e : LoadError)
          → error ≡ some e
          → (global' ≡ global) × (load_config files env path ≡ gave_up e))
        × (error ≡ none
            → (cfg : Config) × (load_config files env path ≡ got cfg)
              × (global' ≡ some cfg)
              × IsValid files.missing cfg)
        × (IsGood files.missing global → IsGood files.missing global'))
unfolding reload load
reload_lem files env path global =
    go (load_config files env path) (λ cfg h. load_config-IsValid files env path cfg h)
  where
    go :
        (r : Attempt Config)
        → ((cfg : Config) → r ≡ got cfg → IsValid files.missing cfg)
        → (((e : LoadError)
              → failure r ≡ some e
              → (store r (store r global) ≡ global) × (r ≡ gave_up e))
            × (failure r ≡ none
                → (cfg : Config) × (r ≡ got cfg)
                  × (store r (store r global) ≡ some cfg)
                  × IsValid files.missing cfg)
            × (IsGood files.missing global → IsGood files.missing (store r (store r global))))
    go (got c) valid = ((λ e h. cc h), (λ h. (c, refl, refl, valid c refl)), λ good. valid c refl)
    go (gave_up x) valid = ((λ e h. (refl, cc h)), (λ h. cc h), λ good. good)
