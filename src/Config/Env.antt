-- ===== src/Config/Env.antt =====
-- crates/imgx/src/config.rs: the variables of the environment, under the name `IMGX_` or else the
-- older `ZIMGX_`.
use imgx.Base.{
  ℕ, ◌^◌, Text, bytes, match_str, Bool, true, false, Option, none, some, [], ◌∷◌, ◌++◌, Result, ok,
  err, ok_or, ◌>>=◌,
}
use imgx.Transform.Numbers.{from_str_radix}
use imgx.Config.{Config, ConfigError, OriginType, TransformFailureMode}

-- `std::env::var`
pub data EnvVar : Type 0 where
  present : Text → EnvVar
  not_present not_unicode : EnvVar

abbrev pub Environment : Type 0
Environment = Text → EnvVar

abbrev legacy_value : EnvVar → Option Text
legacy_value (EnvVar.present v) = some v
legacy_value _ = none

abbrev value_or_legacy : EnvVar → EnvVar → Option Text
value_or_legacy (EnvVar.present v) legacy = some v
value_or_legacy EnvVar.not_present legacy = legacy_value legacy
value_or_legacy EnvVar.not_unicode legacy = none

unfoldable pub env_var : Environment → Text → Option Text
env_var env suffix =
    value_or_legacy (env (bytes "IMGX_" ++ suffix)) (env (bytes "ZIMGX_" ++ suffix))

-- `s.parse::<T>()` for the unsigned type of `bits` bits
unfoldable pub parse_num : ℕ → Text → Result ConfigError ℕ
unfolding from_str_radix
parse_num bits s = ok_or (from_str_radix 10 (2 ^ bits) s) ConfigError.invalid_value

unfoldable pub parse_bool : Text → Result ConfigError Bool
unfolding match_str
parse_bool s =
    match_str s (("true", ok true) ∷ ("1", ok true) ∷ ("false", ok false) ∷ ("0", ok false) ∷ [])
      (err ConfigError.invalid_value)

unfoldable pub parse_failure_mode : Text → Result ConfigError TransformFailureMode
unfolding match_str
parse_failure_mode s =
    match_str s
      (("passthrough", ok TransformFailureMode.passthrough)
        ∷ ("error", ok TransformFailureMode.error)
        ∷ [])
      (err ConfigError.invalid_value)

unfoldable pub parse_origin_type : Text → Result ConfigError OriginType
unfolding match_str
parse_origin_type s =
    match_str s (("r2", ok OriginType.r2) ∷ ("http", ok OriginType.http) ∷ [])
      (err ConfigError.invalid_value)

-- `if let Some(v) = env_var(suffix) { field = parse(&v)?; }`
unfoldable pub read_var :
    {A : Type 0}
    → Environment
    → Text
    → (Text → Result ConfigError A)
    → (A → Config → Config)
    → Config
    → Result ConfigError Config
unfolding env_var
read_var env suffix parse set cfg = elim (env_var env suffix) [
  | none ↦ ok cfg
  | some v ↦ parse v >>= λ a. ok (set a cfg)
]
