-- ===== src/Cache/Tiered/Soundness.antt =====
-- What the two tiers return, whatever the order in which the spawned writes run; and what a write that
-- is still on its way can do to a delete.
use imgx.Base.{
  Text, Option, none, some, [], All-insert, All-omit, ◌≡◌, refl, ◌∙◌, arith, All, subst, ap₂, inl,
  inr, Option-cases, ◌||◌,
}
use imgx.Cache.{CacheEntry, Cache, IsCache, IsFaithful, is_some}
use imgx.Cache.Tiered.{
  TieredCache, put_l2_async, run_task, tiered_cache, get_l2, get, put, delete, clear, Step, getting,
  putting, deleting, clearing, running, losing, Reach, start, next,
}

module _ {S₁ S₂ : Type 0} {l1 : Cache S₁} {l2 : Cache S₂} {P : Text → CacheEntry → Type 0}
    {G₁ : S₁ → Type 0} {G₂ : S₂ → Type 0} (f₁ : IsFaithful l1 P G₁) (f₂ : IsFaithful l2 P G₂) where
  -- Both tiers are good, and the spawned writes satisfy the predicate.
  pub record IsSound (t : TieredCache l1 l2) : Type 0 where
    pub good₁ : G₁ t.first
    pub good₂ : G₂ t.second
    pub queued : All (λ w. P w.0 w.1) t.tasks

  get_l2-IsSound :
      (k : Text) (t : TieredCache l1 l2)
      → IsSound t
      → IsSound (get_l2 l1 l2 k t).1 × ((e : CacheEntry) → (get_l2 l1 l2 k t).0 ≡ some e → P k e)
  unfolding get_l2
  get_l2-IsSound k t s =
      let g₂ = f₂.get-Good k t.second s.good₂ in
      elim (Option-cases (l2.get k t.second).0) [
        | inl miss ↦
            rw (miss, get_l2) (record { good₁ = s.good₁; good₂ = g₂; queued = s.queued }, λ e p. cc)
        | inr (e, hit) ↦
            let q = f₂.get_sound k e t.second s.good₂ hit in
            rw (hit, get_l2)
              (
                record { good₁ = f₁.put-Good k e t.first q s.good₁; good₂ = g₂; queued = s.queued },
                λ d p. let same : e ≡ d = cc in subst (P k) same q,
              )
      ]

  get-IsSound :
      (k : Text) (t : TieredCache l1 l2)
      → IsSound t
      → IsSound (get l1 l2 k t).1 × ((e : CacheEntry) → (get l1 l2 k t).0 ≡ some e → P k e)
  unfolding get
  get-IsSound k t s =
      let s' : IsSound (record t { first = (l1.get k t.first).1 }) = record {
        good₁ = f₁.get-Good k t.first s.good₁;
        good₂ = s.good₂;
        queued = s.queued;
      } in
      elim (Option-cases (l1.get k t.first).0) [
        | inl miss ↦ rw (miss, get) (get_l2-IsSound k _ s')
        | inr (e, hit) ↦
            let q = f₁.get_sound k e t.first s.good₁ hit in
            rw (hit, get) (s', λ d p. let same : e ≡ d = cc in subst (P k) same q)
      ]

  pub Step-IsSound : {t u : TieredCache l1 l2} → Step l1 l2 P t u → IsSound t → IsSound u
  unfolding put put_l2_async delete clear run_task
  Step-IsSound (getting k t) s = (get-IsSound k t s).0
  Step-IsSound (putting k e t q) s = record {
    good₁ = f₁.put-Good k e t.first q s.good₁;
    good₂ = s.good₂;
    queued = All-insert (λ w. P w.0 w.1) t.tasks [] s.queued tt q;
  }
  Step-IsSound (deleting k t) s = record {
    good₁ = f₁.delete-Good k t.first s.good₁;
    good₂ = f₂.delete-Good k t.second s.good₂;
    queued = s.queued;
  }
  Step-IsSound (clearing t) s = record {
    good₁ = f₁.clear-Good t.first s.good₁;
    good₂ = f₂.clear-Good t.second s.good₂;
    queued = s.queued;
  }
  Step-IsSound (running k e before after t eq) s =
      let (q, rest) =
        All-omit (λ w. P w.0 w.1) before after (subst (All (λ w. P w.0 w.1)) eq s.queued) in
      record { good₁ = s.good₁; good₂ = f₂.put-Good k e t.second q s.good₂; queued = rest }
  Step-IsSound (losing k e before after t eq) s = record {
    good₁ = s.good₁;
    good₂ = s.good₂;
    queued = (All-omit (λ w. P w.0 w.1) before after (subst (All (λ w. P w.0 w.1)) eq s.queued)).1;
  }

  Reach-IsSound : {t u : TieredCache l1 l2} → Reach l1 l2 P t u → IsSound t → IsSound u
  Reach-IsSound start s = s
  Reach-IsSound (next r st) s = Step-IsSound st (Reach-IsSound r s)

  -- Over two tiers that each return only what satisfies `P` if only that is put: if everything that
  -- clients put satisfies `P`, and so does all that the tiers and the queue of writes hold at the
  -- start, then after any sequence of gets, puts, deletes, clears, and of queued writes that run or
  -- are lost in any order, what `get` returns for a key satisfies `P` at that key.
  pub Reach-get :
      {t u : TieredCache l1 l2} (k : Text) {e : CacheEntry}
      → IsSound t
      → Reach l1 l2 P t u
      → (get l1 l2 k u).0 ≡ some e
      → P k e
  Reach-get {u} k {e} s r h = (get-IsSound k u (Reach-IsSound r s)).1 e h

  pub tiered_cache-IsFaithful : IsFaithful (tiered_cache l1 l2) P IsSound
  tiered_cache-IsFaithful = record {
    get-Good = λ k t s. (get-IsSound k t s).0;
    put-Good = λ k e t q s. Step-IsSound (putting k e t q) s;
    delete-Good = λ k t s. Step-IsSound (deleting k t) s;
    clear-Good = λ t s. Step-IsSound (clearing t) s;
    get_sound = λ k e t s h. (get-IsSound k t s).1 e h;
  }

module _ {S₁ S₂ : Type 0} {l1 : Cache S₁} {l2 : Cache S₂} {V₁ : S₁ → Type 0} {V₂ : S₂ → Type 0}
    {peek₁ : Text → S₁ → Option CacheEntry} {peek₂ : Text → S₂ → Option CacheEntry}
    (c₁ : IsCache l1 V₁ peek₁) (c₂ : IsCache l2 V₂ peek₂) where
  get_hit :
      (k : Text) (t : TieredCache l1 l2) {e : CacheEntry}
      → (l1.get k t.first).0 ≡ some e
      → (get l1 l2 k t).0 ≡ some e
  unfolding get
  get_hit k t h = rw (h, get) refl

  get_miss :
      (k : Text) (t : TieredCache l1 l2)
      → V₁ t.first
      → V₂ t.second
      → peek₁ k t.first ≡ none
      → (get l1 l2 k t).0 ≡ peek₂ k t.second
  unfolding get get_l2
  get_miss k t v₁ v₂ h = ground (arith, c₁.get_value k t.first v₁, c₂.get_value k t.second v₂)

  -- A delete reports whether either tier held the key; until a write that was spawned before it
  -- runs, the key is gone, whatever the tiers held.
  pub get-delete :
      (k : Text) (t : TieredCache l1 l2)
      → V₁ t.first
      → V₂ t.second
      → ((delete l1 l2 k t).0 ≡ (is_some (peek₁ k t.first) || is_some (peek₂ k t.second)))
        × ((get l1 l2 k (delete l1 l2 k t).1).0 ≡ none)
  unfolding delete
  get-delete k t v₁ v₂ = (
    ap₂ (λ a b. a || b) (c₁.delete_value k t.first v₁) (c₂.delete_value k t.second v₂),
    get_miss k (delete l1 l2 k t).1 (c₁.delete-Valid k t.first v₁) (c₂.delete-Valid k t.second v₂)
          (c₁.peek-delete_self k t.first v₁)
        ∙ c₂.peek-delete_self k t.second v₂,
  )
