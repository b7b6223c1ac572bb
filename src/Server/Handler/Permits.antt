-- ===== src/Server/Handler/Permits.antt =====
-- What taking a permit does to the state.
use imgx.Base.{ℕ, zero, suc, ok, err, ◌≡◌, ◌⊎◌, refl, ap, ◌∙◌, ok_injective, inl, inr}
use imgx.Server.{Response}
use imgx.Server.Handler.{Running, AppState, acquire}
use imgx.Transform.Floats.{Floats}

abbrev pub SameButPermits : {S : Type 0} → AppState S → AppState S → Type 0
SameButPermits s t =
    (s.cache ≡ t.cache)
    × (s.requests_total ≡ t.requests_total)
    × (s.cache_hits_total ≡ t.cache_hits_total)
    × (s.cache_misses_total ≡ t.cache_misses_total)

ℕ-cases : (n : ℕ) → (n ≡ 0) ⊎ ((m : ℕ) × (n ≡ suc m))
ℕ-cases zero = inl refl
ℕ-cases (suc n) = inr (n, refl)

module _ (fl : Floats) {S : Type 0} where
  pub acquire-eq-ok :
      (r t : Running fl) (s u : AppState S)
      → acquire fl r s ≡ (ok t, u)
      → (r ≡ t) × (s.permits ≡ suc u.permits) × SameButPermits s u
  unfolding acquire
  acquire-eq-ok r t s u h = elim (ℕ-cases s.permits) [
    | inl none_left ↦ absurd (cc (ap (λ x. x.0) (rw (none_left, acquire) at h)))
    | inr (n, left) ↦
        let h' = rw (left, acquire) at h in
        (
          ok_injective (ap (λ x. x.0) h'),
          left ∙ ap (λ x. suc (AppState.permits x.1)) h',
          (
            ap (λ x. AppState.cache x.1) h',
            ap (λ x. AppState.requests_total x.1) h',
            ap (λ x. AppState.cache_hits_total x.1) h',
            ap (λ x. AppState.cache_misses_total x.1) h',
          ),
        )
  ]

  pub acquire-eq-err :
      (r : Running fl) (e : Response) (s u : AppState S) → acquire fl r s ≡ (err e, u) → s ≡ u
  unfolding acquire
  acquire-eq-err r e s u h = elim (ℕ-cases s.permits) [
    | inl none_left ↦ ap (λ x. x.1) (rw (none_left, acquire) at h)
    | inr (n, left) ↦ absurd (cc (ap (λ x. x.0) (rw (left, acquire) at h)))
  ]
