-- ===== src/Tests/DecodedTests.antt =====
-- An image that the pipeline of the service makes for a request of the handler.
use imgx.Base.{bytes, pos}
use imgx.Cache.{CacheEntry}
use imgx.Transform.Options.{content_type}

abbrev entry : CacheEntry
entry = record { data_bytes = bytes "jpeg"; content_type = bytes "image/jpeg"; created_at = pos 7 }
