-- ===== src/Transform/Pipeline/Run/Results.antt =====
-- What the results of a transform have in common.
use imgx.Base.{ℕ, ◌≤◌, ◌<◌, ◌^◌, Bool, true, false, Option, none, some, ◌≡◌}
use imgx.Transform.Floats.{Floats}
use imgx.Transform.Options.{OutputFormat}
use imgx.Transform.Params.{TransformParams}
use imgx.Transform.Pipeline.{TransformResult, TransformLimits}
use imgx.Transform.Pipeline.Probe.{Probe, is_some, is_static}
use imgx.Transform.Vips.{Doubles, Vips}

-- Animated output counts its frames, and static output has no such number.
abbrev pub AgreesOn : Bool → Bool → ℕ → Bool → Option ℕ → Type 0
AgreesOn static picked max_frames false none = Unit
AgreesOn static picked max_frames false (some n) = ⊥
AgreesOn static picked max_frames true none = ⊥
AgreesOn static picked max_frames true (some n) =
    (static ≡ false) × (picked ≡ false) × (max_frames < 2 ^ 31 → n ≤ max_frames)

-- `format=json` and `format=thumbhash` are answered as such, the latter never animated.
abbrev pub Answers : Option OutputFormat → OutputFormat → Bool → Type 0
Answers (some OutputFormat.json) format animated = format ≡ OutputFormat.json
Answers (some OutputFormat.thumbhash) format animated =
    (format ≡ OutputFormat.thumbhash) × (animated ≡ false)
Answers _ format animated = Unit

abbrev ending : {A : Type 0} → Option OutputFormat → A → A → A → A
ending o json_answer hash_answer image_answer = elim o [
  | some OutputFormat.json ↦ json_answer
  | some OutputFormat.thumbhash ↦ hash_answer
  | _ ↦ image_answer
]

module _ {fl : Floats} {d : Doubles fl} (v : Vips d) (tp : TransformParams fl) where
  abbrev pub IsConsistent : TransformLimits → TransformResult → Type 0
  IsConsistent limits r =
      AgreesOn (is_static tp.anim) (is_some tp.frame) limits.max_frames r.is_animated r.frame_count
      × Answers tp.format r.format r.is_animated
