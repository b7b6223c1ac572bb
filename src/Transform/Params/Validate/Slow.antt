-- ===== src/Transform/Params/Validate/Slow.antt =====
-- The quality for slow connections keeps parameters valid.
use imgx.Base.{ℕ, Bool, true, false, Option, none, some, ◌≡◌, ok}
use imgx.Transform.Floats.{Floats}
use imgx.Transform.Params.{TransformParams}
use imgx.Transform.Params.Parse.Ensures.{IsOpt}
use imgx.Transform.Params.Validate.{validate, apply_scq_override, override}
use imgx.Transform.Params.Validate.Bounds.{IsValid, Within, validate_iff}

module _ (fl : Floats) where
  override-IsValid :
      (o : Option ℕ) (p : TransformParams fl)
      → IsOpt (Within 1 100) o
      → IsValid fl p
      → IsValid fl (override fl o p)
  override-IsValid none p h w = w
  override-IsValid (some v) p h w = assumption

  -- Parameters that pass the checks pass them again after the quality for slow connections is put
  -- in the place of the quality.
  pub validate-apply_scq_override :
      (is_slow : Bool) (p : TransformParams fl)
      → validate fl p ≡ ok tt
      → validate fl (apply_scq_override fl is_slow p) ≡ ok tt
  unfolding apply_scq_override
  validate-apply_scq_override false p h = h
  validate-apply_scq_override true p h =
      let w = (validate_iff fl p).0 h in
      (validate_iff fl (override fl p.scq p)).1 (override-IsValid p.scq p w.scq w)
