-- ===== src/Tests/ConfigTests.antt =====
-- The configuration.
use imgx.Base.{bytes, ◌≡◌, ◌↔◌, refl, ok, text_beq, if◌then◌else◌, ◌==◌, text_eq, starts_with}
use imgx.Transform.Numbers.{from_str_radix, parse_digits, digit}
use imgx.Config.{Config, defaults}
use imgx.Config.Env.{Environment, EnvVar, env_var, read_var, parse_num}
use imgx.Config.Load.{
  load_from_env, load_server, load_origin, load_transform, load_cache, load_origin_type, load_r2,
}
use imgx.Config.Checked.{validate, has_http_scheme, IsValid, validate_config_iff}

-- One variable, under its older name.
abbrev legacy_port : Environment
legacy_port name =
    if name == bytes "ZIMGX_SERVER_PORT" then EnvVar.present (bytes "9000") else EnvVar.not_present

abbrev moved : Config
moved = record defaults { server = record defaults.server { port = 9000 } }

loading : Unit {0}
unfolding load_from_env load_server load_origin load_transform load_cache load_origin_type load_r2
    read_var env_var parse_num from_str_radix parse_digits digit text_beq
loading = tt

load_moved : load_from_env legacy_port ≡ ok moved
unfolding loading
load_moved = refl

validate_config_iff_example : (validate moved ≡ ok tt) ↔ IsValid moved
validate_config_iff_example = validate_config_iff moved

defaults_pass : validate defaults ≡ ok tt
unfolding validate has_http_scheme starts_with
defaults_pass = refl
