-- ===== src/Transform/Pipeline/Overlays/Pairs.antt =====
-- Which bytes are drawn for which overlay.
use imgx.Base.{
  Text, List, [], ◌∷◌, Result, ok, ◌>>=◌, if◌then◌else◌, ◌≡◌, refl, Bool-cases, inl, inr,
}
use imgx.Transform.Floats.{Floats}
use imgx.Transform.Params.{DrawOverlay}
use imgx.Transform.Pipeline.{VipsError}
use imgx.Transform.Pipeline.Overlays.{composite_all, composite_draw_overlay}
use imgx.Transform.Pipeline.Probe.{is_some}
use imgx.Transform.Vips.{Doubles, Vips}

-- the overlays that say where their bytes are
unfoldable pub with_url : {fl : Floats} → List (DrawOverlay fl) → List (DrawOverlay fl)
with_url [] = []
with_url (entry ∷ draw) = if is_some entry.url then entry ∷ with_url draw else with_url draw

-- two lists side by side, xs far xs both go
unfoldable pub pairs : {A B : Type 0} → List A → List B → List (A × B)
pairs [] ys = []
pairs (a ∷ xs) [] = []
pairs (a ∷ xs) (b ∷ ys) = (a, b) ∷ pairs xs ys

module _ {fl : Floats} {d : Doubles fl} (v : Vips d) where
  -- every overlay over its own bytes, from first to last
  unfoldable pub draw_all : List (DrawOverlay fl × Text) → v.Image → Result VipsError v.Image
  draw_all [] base = ok base
  draw_all ((entry, first) ∷ rest) base = do
    next ← composite_draw_overlay v base first entry
    draw_all rest next

  -- Whatever the numbers of overlays and of fetched texts, the loop draws the overlays that have a URL, each over the text
  -- at the same place, from first to last, and stops when one of the two is used up.
  pub composite_all-pairs :
      (draw : List (DrawOverlay fl)) (overlay_bytes : List Text) (base : v.Image)
      → composite_all v draw overlay_bytes base
        ≡ draw_all (pairs (with_url draw) overlay_bytes) base
  unfolding composite_all draw_all pairs with_url
  composite_all-pairs [] overlay_bytes base = refl
  composite_all-pairs (entry ∷ draw) [] base = elim (Bool-cases (is_some entry.url)) [
    | inl h ↦ rw h refl
    | inr h ↦ rw h (composite_all-pairs draw [] base)
  ]
  composite_all-pairs (entry ∷ draw) (first ∷ rest) base = elim (Bool-cases (is_some entry.url)) [
    | inl h ↦ rw h (λ i.
        composite_draw_overlay v base first entry >>= λ next. composite_all-pairs draw rest next i)
    | inr h ↦ rw h (composite_all-pairs draw (first ∷ rest) base)
  ]
