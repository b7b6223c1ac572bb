-- ===== src/Cache/Keys.antt =====
-- crates/imgx/src/cache/mod.rs: when two requests share a cache key.
use imgx.Base.{Text, ◌++◌, ◌∷◌, ◌≡◌, false, has_byte, cut_last_injective, sym, ◌∙◌, append_assoc}
use imgx.Cache.{compute_cache_key}

regroup : (p t f : Text) → compute_cache_key p t f ≡ (p ++ (b'|' ∷ t)) ++ (b'|' ∷ f)
unfolding compute_cache_key
regroup p t f = sym (append_assoc p (b'|' ∷ t) (b'|' ∷ f))

-- Two requests whose transform strings and formats hold no `|` share a cache key only if path,
-- transform string and format are all the same; the paths may hold `|`.
pub compute_cache_key_injective :
    (p p' t t' f f' : Text)
    → has_byte b'|' t ≡ false
    → has_byte b'|' t' ≡ false
    → has_byte b'|' f ≡ false
    → has_byte b'|' f' ≡ false
    → compute_cache_key p t f ≡ compute_cache_key p' t' f'
    → (p ≡ p') × (t ≡ t') × (f ≡ f')
compute_cache_key_injective p p' t t' f f' ht ht' hf hf' e =
    let whole = sym (regroup p t f) ∙ e ∙ regroup p' t' f' in
    let (front, same_f) =
      cut_last_injective b'|' (p ++ b'|' ∷ t) (p' ++ b'|' ∷ t') f f' hf hf' whole in
    let (same_p, same_t) = cut_last_injective b'|' p p' t t' ht ht' front in
    (same_p, same_t, same_f)
