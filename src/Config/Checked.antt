-- ===== src/Config/Checked.antt =====
-- crates/imgx/src/config.rs: the checks, and exactly which configurations pass them.
use imgx.Base.{
  ℕ, ◌≤◌, ◌<◌, Text, bytes, Bool, true, false, not, ◌&&◌, ◌||◌, Result, ok, fail_if, ◌>>◌, ltb,
  ◌==◌, nat_eq, starts_with, [], ◌∷◌, ◌≡◌, ◌↔◌, ◌⊎◌, inl, inr, refl, arith, guard, via, same,
}
use imgx.Config.{Config, ConfigError, OriginType, max_avif_effort}

unfoldable pub has_http_scheme : Text → Bool
unfolding starts_with
has_http_scheme url = starts_with (bytes "http://") url || starts_with (bytes "https://") url

abbrev pub is_http_origin : OriginType → Bool
is_http_origin OriginType.http = true
is_http_origin OriginType.r2 = false

abbrev pub is_empty : Text → Bool
is_empty [] = true
is_empty (b ∷ s) = false

abbrev pub lacks_r2 : Config → Bool
lacks_r2 c =
    is_empty c.r2.endpoint
    || is_empty c.r2.access_key_id
    || is_empty c.r2.secret_access_key
    || is_empty c.r2.bucket_originals
    || is_empty c.r2.bucket_variants

unfoldable pub validate : Config → Result ConfigError Unit
unfolding has_http_scheme
validate c = do
  fail_if (c.server.port == 0) ConfigError.invalid_port
  fail_if (c.server.request_timeout_ms == 0) ConfigError.invalid_timeout
  fail_if (c.origin.timeout_ms == 0) ConfigError.invalid_timeout
  fail_if (ltb c.transform.max_width 1) ConfigError.invalid_dimension
  fail_if (ltb c.transform.max_height 1) ConfigError.invalid_dimension
  fail_if (ltb c.transform.default_quality 1 || ltb 100 c.transform.default_quality)
      ConfigError.invalid_quality
  fail_if (ltb max_avif_effort c.transform.avif_effort) ConfigError.invalid_avif_effort
  fail_if (c.server.max_connections == 0 || c.server.max_request_size == 0)
      ConfigError.invalid_server_limit
  fail_if (c.cache.enabled && (c.cache.max_size_bytes == 0 || c.cache.default_ttl_seconds == 0))
      ConfigError.invalid_cache_limit
  fail_if (c.transform.max_frames == 0 || c.transform.max_animated_pixels == 0)
      ConfigError.invalid_animation_limit
  fail_if (is_http_origin c.origin.origin_type && not (has_http_scheme c.origin.base_url))
      ConfigError.invalid_url
  fail_if (not (is_http_origin c.origin.origin_type) && lacks_r2 c) ConfigError.missing_r2_config
  ok tt

-- What the settings of one origin type need.
pub data HasOrigin (c : Config) : Type 0 where
  http_origin :
      c.origin.origin_type ≡ OriginType.http
      → has_http_scheme c.origin.base_url ≡ true
      → HasOrigin c
  r2_origin : c.origin.origin_type ≡ OriginType.r2 → lacks_r2 c ≡ false → HasOrigin c

pub record IsValid (c : Config) : Type 0 where
  pub port : 0 < c.server.port
  pub request_timeout : 0 < c.server.request_timeout_ms
  pub origin_timeout : 0 < c.origin.timeout_ms
  pub width : 0 < c.transform.max_width
  pub height : 0 < c.transform.max_height
  pub quality : (1 ≤ c.transform.default_quality) × (c.transform.default_quality ≤ 100)
  pub effort : c.transform.avif_effort ≤ 9
  pub server_limits : (0 < c.server.max_connections) × (0 < c.server.max_request_size)
  pub cache_limits :
      (c.cache.enabled ≡ false) ⊎ ((0 < c.cache.max_size_bytes) × (0 < c.cache.default_ttl_seconds))
  pub animation : (0 < c.transform.max_frames) × (0 < c.transform.max_animated_pixels)
  pub origin : HasOrigin c

origin_checks :
    (c : Config)
    → ((is_http_origin c.origin.origin_type && not (has_http_scheme c.origin.base_url)) ≡ false)
    → ((not (is_http_origin c.origin.origin_type) && lacks_r2 c) ≡ false)
    → HasOrigin c
origin_checks c h k = elim (type_cases c.origin.origin_type) [
  | inl e ↦ HasOrigin.http_origin e (ground (arith, rw e at h))
  | inr e ↦ HasOrigin.r2_origin e (ground (arith, rw e at k))
]
  where
    type_cases : (t : OriginType) → (t ≡ OriginType.http) ⊎ (t ≡ OriginType.r2)
    type_cases OriginType.http = inl refl
    type_cases OriginType.r2 = inr refl

checks_of_origin :
    (c : Config)
    → HasOrigin c
    → ((is_http_origin c.origin.origin_type && not (has_http_scheme c.origin.base_url)) ≡ false)
      × ((not (is_http_origin c.origin.origin_type) && lacks_r2 c) ≡ false)
checks_of_origin c (HasOrigin.http_origin e s) = rw (e, s) (refl, refl)
checks_of_origin c (HasOrigin.r2_origin e s) = rw (e, s) (refl, refl)

zero_iff : (n : ℕ) → ((n == 0) ≡ false) ↔ (0 < n)
zero_iff n = ground arith

zeros_iff : (m n : ℕ) → ((m == 0 || n == 0) ≡ false) ↔ ((0 < m) × (0 < n))
zeros_iff m n = ground arith

below_one_iff : (n : ℕ) → (ltb n 1 ≡ false) ↔ (0 < n)
below_one_iff n = ground arith

quality_iff : (n : ℕ) → ((ltb n 1 || ltb 100 n) ≡ false) ↔ ((1 ≤ n) × (n ≤ 100))
quality_iff n = ground arith

effort_iff : (n : ℕ) → (ltb max_avif_effort n ≡ false) ↔ (n ≤ 9)
effort_iff n = ground arith

cache_iff :
    (b : Bool) (m n : ℕ) → ((b && (m == 0 || n == 0)) ≡ false) ↔ ((b ≡ false) ⊎ ((0 < m) × (0 < n)))
cache_iff false m n = (λ h. inl refl, λ h. refl)
cache_iff true m n = (
  λ h. inr ((zeros_iff m n).0 h),
  λ h. elim h [ inl e ↦ absurd cc | inr k ↦ (zeros_iff m n).1 k ],
)

-- A configuration passes the checks exactly if every limit that must not be 0 is positive, the
-- quality is from 1 to 100, the effort is at most 9, and the settings of the origin type are there:
-- a URL with an http scheme, or the five settings of R2. The limits of the cache count only if it
-- is enabled.
pub validate_config_iff : (c : Config) → (validate c ≡ ok tt) ↔ IsValid c
unfolding validate
validate_config_iff c =
    via
      (guard _ _ _ (zero_iff c.server.port) (
        guard _ _ _ (zero_iff c.server.request_timeout_ms) (
          guard _ _ _ (zero_iff c.origin.timeout_ms) (
            guard _ _ _ (below_one_iff c.transform.max_width) (
              guard _ _ _ (below_one_iff c.transform.max_height) (
                guard _ _ _ (quality_iff c.transform.default_quality) (
                  guard _ _ _ (effort_iff c.transform.avif_effort) (
                    guard _ _ _ (zeros_iff c.server.max_connections c.server.max_request_size) (
                      guard _ _ _
                        (cache_iff c.cache.enabled c.cache.max_size_bytes
                          c.cache.default_ttl_seconds)
                        (guard _ _ _
                          (zeros_iff c.transform.max_frames c.transform.max_animated_pixels)
                          (guard _ _ _
                            (same (
                              is_http_origin c.origin.origin_type
                              && not (has_http_scheme c.origin.base_url)))
                            (guard _ _ _
                              (same (not (is_http_origin c.origin.origin_type) && lacks_r2 c))
                              (λ h. tt, λ h. refl)))))))))))))
      (λ (p, (rt, (ot, (w, (h, (q, (e, (sl, (cl, (an, (u, (r, x)))))))))))). record {
        port = p;
        request_timeout = rt;
        origin_timeout = ot;
        width = w;
        height = h;
        quality = q;
        effort = e;
        server_limits = sl;
        cache_limits = cl;
        animation = an;
        origin = origin_checks c u r;
      })
      (λ v.
        let (u, r) = checks_of_origin c v.origin in
        (
          v.port,
          (
            v.request_timeout,
            (
              v.origin_timeout,
              (
                v.width,
                (
                  v.height,
                  (
                    v.quality,
                    (v.effort, (v.server_limits, (v.cache_limits, (v.animation, (u, (r, tt)))))),
                  ),
                ),
              ),
            ),
          ),
        ))
