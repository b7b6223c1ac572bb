-- ===== src/Config.antt =====
-- crates/imgx/src/config.rs: the configuration, from the environment and checked before the server
-- starts (INV-8).
pub mod Env
pub mod Load
pub mod Checked
use imgx.Base.{ℕ, Text, bytes, Bool, true, false, []}

pub data ConfigError : Type 0 where
  invalid_port invalid_timeout invalid_dimension invalid_quality invalid_avif_effort invalid_url
        invalid_value missing_r2_config invalid_server_limit invalid_cache_limit
        invalid_animation_limit :
      ConfigError

pub data OriginType : Type 0 where
  http r2 : OriginType

pub data TransformFailureMode : Type 0 where
  passthrough error : TransformFailureMode

-- crates/imgx-vips/src/image.rs
abbrev pub default_avif_effort : ℕ
default_avif_effort = 4

abbrev pub max_avif_effort : ℕ
max_avif_effort = 9

pub record ServerConfig : Type 0 where
  pub port : ℕ
  pub host : Text
  pub request_timeout_ms : ℕ
  pub max_request_size : ℕ
  pub max_connections : ℕ

abbrev pub default_server : ServerConfig
default_server = record {
  port = 8080;
  host = bytes "0.0.0.0";
  request_timeout_ms = 30000;
  max_request_size = 52428800;
  max_connections = 256;
}

pub record OriginConfig : Type 0 where
  pub base_url : Text
  pub timeout_ms : ℕ
  pub max_retries : ℕ
  pub origin_type : OriginType
  pub path_prefix : Text
  pub allow_remote_sources : Bool
  pub allow_draw_overlays : Bool

abbrev pub default_origin : OriginConfig
default_origin = record {
  base_url = bytes "http://localhost:9000";
  timeout_ms = 10000;
  max_retries = 2;
  origin_type = OriginType.http;
  path_prefix = [];
  allow_remote_sources = false;
  allow_draw_overlays = false;
}

pub record R2Config : Type 0 where
  pub endpoint : Text
  pub access_key_id : Text
  pub secret_access_key : Text
  pub bucket_originals : Text
  pub bucket_variants : Text

abbrev pub default_r2 : R2Config
default_r2 = record {
  endpoint = [];
  access_key_id = [];
  secret_access_key = [];
  bucket_originals = bytes "originals";
  bucket_variants = bytes "variants";
}

pub record TransformConfig : Type 0 where
  pub max_width : ℕ
  pub max_height : ℕ
  pub default_quality : ℕ
  pub max_pixels : ℕ
  pub strip_metadata : Bool
  pub max_frames : ℕ
  pub max_animated_pixels : ℕ
  pub avif_effort : ℕ
  pub on_failure : TransformFailureMode

abbrev pub default_transform : TransformConfig
default_transform = record {
  max_width = 8192;
  max_height = 8192;
  default_quality = 80;
  max_pixels = 71000000;
  strip_metadata = true;
  max_frames = 100;
  max_animated_pixels = 50000000;
  avif_effort = default_avif_effort;
  on_failure = TransformFailureMode.passthrough;
}

pub record CacheConfig : Type 0 where
  pub enabled : Bool
  pub max_size_bytes : ℕ
  pub default_ttl_seconds : ℕ

abbrev pub default_cache : CacheConfig
default_cache = record { enabled = true; max_size_bytes = 536870912; default_ttl_seconds = 3600 }

pub record Config : Type 0 where
  pub server : ServerConfig
  pub origin : OriginConfig
  pub transform : TransformConfig
  pub cache : CacheConfig
  pub r2 : R2Config

abbrev pub defaults : Config
defaults = record {
  server = default_server;
  origin = default_origin;
  transform = default_transform;
  cache = default_cache;
  r2 = default_r2;
}
