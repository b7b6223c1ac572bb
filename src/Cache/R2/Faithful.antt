-- ===== src/Cache/R2/Faithful.antt =====
-- What the cache in an object store returns, if the store sends only what was uploaded.
use imgx.Base.{
  Text, some, ℤ, ok, ◌≡◌, ◌⊎◌, inl, inr, refl, sym, subst, Option-cases, Result-cases, ◌∙◌,
}
use imgx.Cache.{CacheEntry, IsFaithful}
use imgx.Cache.R2.{
  Response, S3Client, sanitize_key, to_entry, get_from, get, put, delete, clear, r2_cache,
}

-- A store that sends only what was uploaded under the key, and never the body of an error. `Holds`
-- says which bodies, of which type, a key may be answered with.
pub record IsHonest {S E : Type 0} (client : S3Client S E) : Type 1 where
  pub Holds : S → Text → Text → Text → Type 0
  pub get_held :
      (key : Text) (r : Response) (s : S)
      → client.get_object key s ≡ ok (some r)
      → Holds s key r.data_bytes r.content_type
  pub put_held :
      (key body type k b t : Text) (s : S)
      → Holds (client.put_object key body type s).1 k b t
      → Holds s k b t ⊎ ((k ≡ key) × (b ≡ body) × (t ≡ type))
  pub delete_held :
      (key k b t : Text) (s : S) → Holds (client.delete_object key s).1 k b t → Holds s k b t

-- The predicate does not tell apart keys that name the same object, nor an entry and what the cache
-- makes of it when it is read back.
abbrev pub IsClosed : (Text → CacheEntry → Type 0) → Type 0
IsClosed P =
    (k k' key : Text) (e : CacheEntry) (now : ℤ)
    → sanitize_key k ≡ some key
    → sanitize_key k' ≡ some key
    → P k e
    → P k' (to_entry now (record { data_bytes = e.data_bytes; content_type = e.content_type }))

module _ {S E : Type 0} (client : S3Client S E) (honest : IsHonest client) (now : ℤ)
    {P : Text → CacheEntry → Type 0} (closed : IsClosed P) where
  -- Whatever the store may be answered with satisfies the predicate, under every key for it.
  abbrev pub Good : S → Type 0
  Good s =
      (k key body type : Text) (read : ℤ)
      → sanitize_key k ≡ some key
      → honest.Holds s key body type
      → P k (to_entry read (record { data_bytes = body; content_type = type }))

  put-Good : (k : Text) (e : CacheEntry) (s : S) → P k e → Good s → Good (put client k e s)
  unfolding put
  put-Good k e s p good k' key body type read named held = elim (Option-cases (sanitize_key k)) [
    | inl unnamed ↦
        good k' key body type read named
          (subst (λ x. honest.Holds x key body type) (rw (unnamed, put) refl) held)
    | inr (own, owned) ↦ stored own owned (
        honest.put_held own e.data_bytes e.content_type key body type s
          (subst (λ x. honest.Holds x key body type) (rw (owned, put) refl) held))
  ]
    where
      stored :
          (own : Text)
          → sanitize_key k ≡ some own
          → honest.Holds s key body type
            ⊎ ((key ≡ own) × (body ≡ e.data_bytes) × (type ≡ e.content_type))
          → P k' (to_entry read (record { data_bytes = body; content_type = type }))
      stored own owned (inl before) = good k' key body type read named before
      stored own owned (inr (same, same_body, same_type)) =
          rw (same_body, same_type) (closed k k' own e read owned (rw (← same) named) p)

  delete-Good : (k : Text) (s : S) → Good s → Good (delete client k s).1
  unfolding delete
  delete-Good k s good k' key body type read named held = elim (Option-cases (sanitize_key k)) [
    | inl unnamed ↦
        good k' key body type read named
          (subst (λ x. honest.Holds x key body type) (rw (unnamed, delete) refl) held)
    | inr (own, owned) ↦ good k' key body type read named (
        honest.delete_held own key body type s
          (subst (λ x. honest.Holds x key body type) (rw (owned, delete) refl) held))
  ]

  get_from_sound :
      (k key : Text) (e : CacheEntry) (s : S)
      → sanitize_key k ≡ some key
      → Good s
      → get_from client now key s ≡ some e
      → P k e
  unfolding get_from
  get_from_sound k key e s named good h = elim (Result-cases (client.get_object key s)) [
    | inr (failure, failed) ↦ absurd (cc (rw (failed, get_from) at h))
    | inl (found, got) ↦ elim (Option-cases found) [
      | inl absent ↦ absurd (cc (rw (got, absent, get_from) at h))
      | inr (r, given) ↦
          let held = honest.get_held key r s (got ∙ rw given refl) in
          let same : to_entry now r ≡ e = cc (rw (got, given, get_from) at h) in
          subst (P k) same (good k key r.data_bytes r.content_type now named held)
    ]
  ]

  get_sound : (k : Text) (e : CacheEntry) (s : S) → Good s → (get client now k s).0 ≡ some e → P k e
  unfolding get
  get_sound k e s good h = elim (Option-cases (sanitize_key k)) [
    | inl unnamed ↦ absurd (cc (rw (unnamed, get) at h))
    | inr (key, named) ↦ get_from_sound k key e s named good (rw (named, get) at h)
  ]

  get-same : (k : Text) (s : S) → (get client now k s).1 ≡ s
  unfolding get
  get-same k s = elim (Option-cases (sanitize_key k)) [
    | inl unnamed ↦ rw (unnamed, get) refl
    | inr (key, named) ↦ rw (named, get) refl
  ]

  pub r2_cache-IsFaithful : IsFaithful (r2_cache client now) P Good
  unfolding clear
  r2_cache-IsFaithful = record {
    get-Good = λ k s good. subst Good (sym (get-same k s)) good;
    put-Good = put-Good;
    delete-Good = delete-Good;
    clear-Good = λ s good. good;
    get_sound = get_sound;
  }
