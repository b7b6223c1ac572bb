-- ===== src/Cache/Noop.antt =====
-- crates/imgx/src/cache/noop.rs: the cache that stores nothing.
use imgx.Base.{ℕ, Text, Bool, false, Option, none, refl, inl}
use imgx.Cache.{CacheEntry, Cache, IsCache}

unfoldable pub noop_get : Text → Unit {0} → Option CacheEntry × Unit {0}
noop_get key s = (none, s)

unfoldable pub noop_put : Text → CacheEntry → Unit {0} → Unit {0}
noop_put key entry s = s

unfoldable pub noop_delete : Text → Unit {0} → Bool × Unit {0}
noop_delete key s = (false, s)

unfoldable pub noop_clear : Unit {0} → Unit {0}
noop_clear s = s

unfoldable pub noop_size : Unit {0} → ℕ
noop_size s = 0

abbrev pub noop_cache : Cache (Unit {0})
noop_cache = record {
  get = noop_get;
  put = noop_put;
  delete = noop_delete;
  clear = noop_clear;
  size = noop_size;
}

-- The cache that stores nothing keeps the promises of `IsCache`, with a `peek` that sees nothing.
pub noop_cache-IsCache : IsCache noop_cache (λ _. Unit {0}) (λ _ _. none)
unfolding noop_get noop_put noop_delete noop_clear
noop_cache-IsCache = record {
  get-Valid = λ _ _ v. v;
  put-Valid = λ _ _ _ _ v. v;
  delete-Valid = λ _ _ v. v;
  clear-Valid = λ _ v. v;
  get_value = λ _ _ _. refl;
  peek-get = λ _ _ _ _. refl;
  peek-put_self = λ _ _ _ _ _. inl refl;
  peek-put_other = λ _ _ _ _ _ _ _. inl refl;
  delete_value = λ _ _ _. refl;
  peek-delete_self = λ _ _ _. refl;
  peek-clear = λ _ _ _. inl refl;
  peek-delete_other = λ _ _ _ _ _. refl;
}
