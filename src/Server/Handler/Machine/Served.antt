-- ===== src/Server/Handler/Machine/Served.antt =====
-- The handler over the cache that the configuration selects, with the object store of R2 as the second
-- tier: what a cached image comes from (INV-13).
use imgx.Base.{
  ℕ, length, arith, ◌<◌, ◌+◌, ◌^◌, Bool-cases, Text, bytes, some, ℤ, ◌==◌, text_eq, if◌then◌else◌,
  ◌≡◌, ◌⊎◌, inl, inr, refl, ap, ◌∙◌, sym,
}
use imgx.Cache.{CacheEntry, Cache, IsSmall, IsFaithful}
use imgx.Cache.Lru.{LruCache}
use imgx.Cache.Memory.{StoredEntry}
use imgx.Cache.R2.Detected.{detect_content_type-le}
use imgx.Cache.R2.{S3Client, r2_cache, sanitize_key, to_entry, detect_content_type}
use imgx.Cache.R2.Faithful
use imgx.Cache.R2.Faithful.{IsHonest, IsClosed, r2_cache-IsFaithful}
use imgx.Config.{Config}
use imgx.Origin.Remote.{Urls}
use imgx.Server.{AppOrigin}
use imgx.Server.Caches.{AppCache, Work, app_cache}
use imgx.Server.Caches.Faithful.{Good, Work-Good, app_cache-IsFaithful}
use imgx.Server.Handler.Machine.{Machine, Reach}
use imgx.Server.Handler.Machine.Invariant.{IsSound, Reach-get}
use imgx.Server.Handler.Machine.Phases.{IsTransformed}
use imgx.Transform.Floats.{Floats}
use imgx.Transform.Pipeline.{Pipeline}

-- Equal keys, or keys that are sanitised to one name of an object.
abbrev pub SameObject : Text → Text → Type 0
SameObject j k =
    (j ≡ k) ⊎ ((key : Text) × (sanitize_key j ≡ some key) × (sanitize_key k ≡ some key))

SameObject-trans :
    (i j k key : Text)
    → SameObject i j
    → sanitize_key j ≡ some key
    → sanitize_key k ≡ some key
    → SameObject i k
SameObject-trans i j k key (inl same) h h' = inr (key, ap sanitize_key same ∙ h, h')
SameObject-trans i j k key (inr (other, g, g')) h h' = inr (other, g, h' ∙ sym h ∙ g')

-- The type of an entry that is read back: the one that was stored, or the one that is detected in its
-- place if that says nothing.
abbrev pub IsTypeOf : CacheEntry → Text → Text → Type 0
IsTypeOf e data' type =
    (type ≡ e.content_type)
    ⊎ ((e.content_type ≡ bytes "application/octet-stream") × (type ≡ detect_content_type data'))

read_type :
    (e : CacheEntry) (data' type : Text)
    → IsTypeOf e data' type
    → IsTypeOf e data'
        (if type == bytes "application/octet-stream" then detect_content_type data' else type)
read_type e data' type h = elim (Bool-cases (type == bytes "application/octet-stream")) [
  | inr known ↦ rw known h
  | inl unknown ↦ rw unknown (elim h [
    | inr (stored, detected) ↦ inr (stored, refl)
    | inl same ↦
        inr (sym same ∙ (text_eq.agrees type (bytes "application/octet-stream")).0 unknown, refl)
  ])
]

module _ (fl : Floats) (config : Config) (urls : Urls) (origin : AppOrigin)
    (pipeline : Pipeline fl) where
  -- The entry holds an image that was transformed for a request whose key names the same object as this
  -- key.
  pub record IsServed (k : Text) (e : CacheEntry) : Type 0 where
    pub own : Text
    pub stored : CacheEntry
    pub image : IsTransformed fl config urls origin pipeline own stored
    pub same_object : SameObject own k
    pub same_data : e.data_bytes ≡ stored.data_bytes
    pub same_type : IsTypeOf stored e.data_bytes e.content_type

  pub IsServed-IsClosed : IsClosed IsServed
  unfolding to_entry
  IsServed-IsClosed k k' key e now h h' s = record {
    own = s.own;
    stored = s.stored;
    image = s.image;
    same_object = SameObject-trans s.own k k' key s.same_object h h';
    same_data = s.same_data;
    same_type = read_type s.stored e.data_bytes e.content_type s.same_type;
  }

  module _
      (small : (k : Text) (e : CacheEntry)
        → IsTransformed fl config urls origin pipeline k e
        → length e.data_bytes + length e.content_type + 24 < 2 ^ 63)
      (lru : LruCache StoredEntry) {S E : Type 0} (client : S3Client S E) (honest : IsHonest client)
      (now : ℤ) where
    -- The cache of the server, in any of its three kinds.
    abbrev Caches : Type 0
    Caches = AppCache lru (r2_cache client now)

    abbrev pub caches : Cache Caches
    caches = app_cache lru (r2_cache client now)

    pub r2 :
        IsFaithful
          (r2_cache client now)
          IsServed
          (Faithful.Good client honest now IsServed-IsClosed)
    r2 = r2_cache-IsFaithful client honest now IsServed-IsClosed

    pub fits : (k : Text) (e : CacheEntry) → IsServed k e → IsSmall e
    fits k e s =
        let room = small s.own s.stored s.image in
        elim s.same_type [
          | inl same ↦ omega (arith, room, ap length s.same_data, ap length same)
          | inr (unknown, detected) ↦ omega (
            arith,
            room,
            ap length s.same_data,
            ap length detected,
            detect_content_type-le e.data_bytes,
          )
        ]

    pub faithful : IsFaithful caches IsServed (Good lru r2 fits)
    faithful = app_cache-IsFaithful lru r2 fits

    pub served :
        (k : Text) (e : CacheEntry)
        → IsTransformed fl config urls origin pipeline k e
        → IsServed k e
    served k e t = record {
      own = k;
      stored = e;
      image = t;
      same_object = inl refl;
      same_data = refl;
      same_type = inl refl;
    }

    -- With any of the three caches of the server, over an object store that sends only what was uploaded
    -- and never the body of an error, and transformed images that Rust can hold, with room for 24
    -- bytes: in a state that is reached from a sound one by any interleaving of requests, failures,
    -- panics, clients that leave, and writes to the second tier that run or are lost, an entry that
    -- the cache returns for a key holds what the pipeline gave, without an error or a panic, for the
    -- fetched source of a request that passed the guards. The key of that request is the key itself, or
    -- one that is sanitised to the same name of an object; the content type is that of the image, or
    -- detected from its bytes where that says nothing.
    pub Reach-IsServed :
        (xxh3_64 : Text → ℕ) (total : ℕ) {m n : Machine fl Caches} (k : Text) (e : CacheEntry)
        → IsSound fl xxh3_64 caches config pipeline urls origin served faithful total m
        → Reach fl xxh3_64 caches config pipeline urls origin (Work lru (r2_cache client now)) m n
        → (caches.get k n.state.cache).0 ≡ some e
        → IsServed k e
    Reach-IsServed xxh3_64 total k e sound reached h =
        Reach-get fl xxh3_64 caches config pipeline urls origin served faithful
          (Work lru (r2_cache client now)) (Work-Good lru r2 fits) total k e sound reached h
