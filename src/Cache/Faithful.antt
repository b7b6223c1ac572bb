-- ===== src/Cache/Faithful.antt =====
-- A cache that keeps the contract of the trait returns only what satisfies what was put.
use imgx.Base.{Text, Option, none, some, ◌≡◌, sym, ◌∙◌, subst, inl, inr, text_cases, ◌⊎◌}
use imgx.Cache.{CacheEntry, Cache, IsSmall, IsCache, IsFaithful}

module _ {S : Type 0} {cache : Cache S} {V : S → Type 0} {peek : Text → S → Option CacheEntry}
    (c : IsCache cache V peek) (P : Text → CacheEntry → Type 0)
    (small : (k : Text) (e : CacheEntry) → P k e → IsSmall e) where
  -- All that the cache would return satisfies the predicate.
  abbrev pub Only : S → Type 0
  Only s = (k : Text) (e : CacheEntry) → peek k s ≡ some e → P k e

  Only-get : (k : Text) (s : S) → V s → Only s → Only (cache.get k s).1
  Only-get k s v h j e p = h j e (sym (c.peek-get j k s v) ∙ p)

  Only-put_self :
      (k : Text) (e : CacheEntry) (s : S)
      → P k e
      → V s
      → (d : CacheEntry) → peek k (cache.put k e s) ≡ some d
      → P k d
  Only-put_self k e s q v d p = elim (c.peek-put_self k e s (small k e q) v) [
    | inl gone ↦ absurd (cc (gone, p))
    | inr stored ↦ let same : e ≡ d = cc (stored, p) in subst (P k) same q
  ]

  Only-of :
      (j : Text) {s t : S}
      → Only s
      → (peek j t ≡ none) ⊎ (peek j t ≡ peek j s)
      → (d : CacheEntry) → peek j t ≡ some d
      → P j d
  Only-of j h (inl gone) d p = absurd (cc (gone, p))
  Only-of j h (inr same) d p = h j d (sym same ∙ p)

  Only-put : (k : Text) (e : CacheEntry) (s : S) → P k e → V s → Only s → Only (cache.put k e s)
  Only-put k e s q v h j d p = elim (text_cases j k) [
    | inl same ↦
        subst (λ i. P i d) (sym same)
          (Only-put_self k e s q v d (subst (λ i. peek i (cache.put k e s) ≡ some d) same p))
    | inr other ↦ Only-of j h (c.peek-put_other j k e s (small k e q) v other) d p
  ]

  Only-delete : (k : Text) (s : S) → V s → Only s → Only (cache.delete k s).1
  Only-delete k s v h j d p = elim (text_cases j k) [
    | inl same ↦
        let gone = c.peek-delete_self k s v in
        absurd (cc (subst (λ i. peek i (cache.delete k s).1 ≡ some d) same p, gone))
    | inr other ↦ Only-of j h (inr (c.peek-delete_other j k s v other)) d p
  ]

  Only-clear : (s : S) → V s → Only s → Only (cache.clear s)
  Only-clear s v h j d p = Only-of j h (c.peek-clear j s v) d p

  -- What a `get` returns is what `peek` sees.
  get-Only : (k : Text) (s : S) {e : CacheEntry} → V s → Only s → (cache.get k s).0 ≡ some e → P k e
  get-Only k s v h p = h k _ (sym (c.get_value k s v) ∙ p)

  pub IsCache-IsFaithful : IsFaithful cache P (λ s. V s × Only s)
  IsCache-IsFaithful = record {
    get-Good = λ k s (v, h). (c.get-Valid k s v, Only-get k s v h);
    put-Good = λ k e s q (v, h). (c.put-Valid k e s (small k e q) v, Only-put k e s q v h);
    delete-Good = λ k s (v, h). (c.delete-Valid k s v, Only-delete k s v h);
    clear-Good = λ s (v, h). (c.clear-Valid s v, Only-clear s v h);
    get_sound = λ k e s (v, h) p. get-Only k s v h p;
  }
