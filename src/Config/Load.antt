-- ===== src/Config/Load.antt =====
-- crates/imgx/src/config.rs: the configuration that the environment gives.
use imgx.Base.{bytes, Result, ok, ◌>>=◌}
use imgx.Config.{Config, ConfigError, defaults}
use imgx.Config.Env.{
  Environment, parse_num, parse_bool, parse_failure_mode, parse_origin_type, read_var,
}

unfoldable pub load_server : Environment → Config → Result ConfigError Config
unfolding read_var
load_server env cfg = do
  c1 ←
      read_var env (bytes "SERVER_PORT") (parse_num 16)
        (λ v c. record c { server = record c.server { port = v } }) cfg
  c2 ←
      read_var env (bytes "SERVER_HOST") ok
        (λ v c. record c { server = record c.server { host = v } }) c1
  c3 ←
      read_var env (bytes "SERVER_REQUEST_TIMEOUT_MS") (parse_num 32)
        (λ v c. record c { server = record c.server { request_timeout_ms = v } }) c2
  c4 ←
      read_var env (bytes "SERVER_MAX_REQUEST_SIZE") (parse_num 64)
        (λ v c. record c { server = record c.server { max_request_size = v } }) c3
  read_var env (bytes "SERVER_MAX_CONNECTIONS") (parse_num 16)
      (λ v c. record c { server = record c.server { max_connections = v } }) c4

unfoldable pub load_origin : Environment → Config → Result ConfigError Config
unfolding read_var
load_origin env cfg = do
  c1 ←
      read_var env (bytes "ORIGIN_BASE_URL") ok
        (λ v c. record c { origin = record c.origin { base_url = v } }) cfg
  c2 ←
      read_var env (bytes "ORIGIN_TIMEOUT_MS") (parse_num 32)
        (λ v c. record c { origin = record c.origin { timeout_ms = v } }) c1
  c3 ←
      read_var env (bytes "ORIGIN_MAX_RETRIES") (parse_num 8)
        (λ v c. record c { origin = record c.origin { max_retries = v } }) c2
  c4 ←
      read_var env (bytes "ORIGIN_PATH_PREFIX") ok
        (λ v c. record c { origin = record c.origin { path_prefix = v } }) c3
  c5 ←
      read_var env (bytes "ALLOW_REMOTE_SOURCES") parse_bool
        (λ v c. record c { origin = record c.origin { allow_remote_sources = v } }) c4
  read_var env (bytes "ALLOW_DRAW_OVERLAYS") parse_bool
      (λ v c. record c { origin = record c.origin { allow_draw_overlays = v } }) c5

unfoldable pub load_transform : Environment → Config → Result ConfigError Config
unfolding read_var
load_transform env cfg = do
  c1 ←
      read_var env (bytes "TRANSFORM_MAX_WIDTH") (parse_num 32)
        (λ v c. record c { transform = record c.transform { max_width = v } }) cfg
  c2 ←
      read_var env (bytes "TRANSFORM_MAX_HEIGHT") (parse_num 32)
        (λ v c. record c { transform = record c.transform { max_height = v } }) c1
  c3 ←
      read_var env (bytes "TRANSFORM_DEFAULT_QUALITY") (parse_num 8)
        (λ v c. record c { transform = record c.transform { default_quality = v } }) c2
  c4 ←
      read_var env (bytes "TRANSFORM_MAX_PIXELS") (parse_num 64)
        (λ v c. record c { transform = record c.transform { max_pixels = v } }) c3
  c5 ←
      read_var env (bytes "TRANSFORM_STRIP_METADATA") parse_bool
        (λ v c. record c { transform = record c.transform { strip_metadata = v } }) c4
  c6 ←
      read_var env (bytes "TRANSFORM_MAX_FRAMES") (parse_num 32)
        (λ v c. record c { transform = record c.transform { max_frames = v } }) c5
  c7 ←
      read_var env (bytes "TRANSFORM_MAX_ANIMATED_PIXELS") (parse_num 64)
        (λ v c. record c { transform = record c.transform { max_animated_pixels = v } }) c6
  c8 ←
      read_var env (bytes "TRANSFORM_AVIF_EFFORT") (parse_num 8)
        (λ v c. record c { transform = record c.transform { avif_effort = v } }) c7
  read_var env (bytes "TRANSFORM_FAILURE") parse_failure_mode
      (λ v c. record c { transform = record c.transform { on_failure = v } }) c8

unfoldable pub load_cache : Environment → Config → Result ConfigError Config
unfolding read_var
load_cache env cfg = do
  c1 ←
      read_var env (bytes "CACHE_ENABLED") parse_bool
        (λ v c. record c { cache = record c.cache { enabled = v } }) cfg
  c2 ←
      read_var env (bytes "CACHE_MAX_SIZE_BYTES") (parse_num 64)
        (λ v c. record c { cache = record c.cache { max_size_bytes = v } }) c1
  read_var env (bytes "CACHE_DEFAULT_TTL_SECONDS") (parse_num 32)
      (λ v c. record c { cache = record c.cache { default_ttl_seconds = v } }) c2

unfoldable pub load_origin_type : Environment → Config → Result ConfigError Config
unfolding read_var
load_origin_type env cfg =
    read_var env (bytes "ORIGIN_TYPE") parse_origin_type
      (λ v c. record c { origin = record c.origin { origin_type = v } }) cfg

unfoldable pub load_r2 : Environment → Config → Result ConfigError Config
unfolding read_var
load_r2 env cfg = do
  c1 ←
      read_var env (bytes "R2_ENDPOINT") ok (λ v c. record c { r2 = record c.r2 { endpoint = v } })
        cfg
  c2 ←
      read_var env (bytes "R2_ACCESS_KEY_ID") ok
        (λ v c. record c { r2 = record c.r2 { access_key_id = v } }) c1
  c3 ←
      read_var env (bytes "R2_SECRET_ACCESS_KEY") ok
        (λ v c. record c { r2 = record c.r2 { secret_access_key = v } }) c2
  c4 ←
      read_var env (bytes "R2_BUCKET_ORIGINALS") ok
        (λ v c. record c { r2 = record c.r2 { bucket_originals = v } }) c3
  read_var env (bytes "R2_BUCKET_VARIANTS") ok
      (λ v c. record c { r2 = record c.r2 { bucket_variants = v } }) c4

unfoldable pub load_from_env : Environment → Result ConfigError Config
unfolding load_server load_origin load_transform load_cache load_origin_type load_r2
load_from_env env = do
  c₁ ← load_server env defaults
  c₂ ← load_origin env c₁
  c₃ ← load_transform env c₂
  c₄ ← load_cache env c₃
  c₅ ← load_origin_type env c₄
  load_r2 env c₅
