-- ===== src/Transform/Params/Hints.antt =====
-- crates/imgx/src/transform/params.rs: which clients are on a slow connection, by the client hints of
-- a request. A header value is visible ASCII, so `trim` removes the ASCII white space.
use imgx.Base.{Text, bytes, Bool, ◌||◌, Option, none, some, text_eq, ◌==◌}
use imgx.Router.{eq_ignore_ascii_case}
use imgx.Transform.Floats.{Floats}
use imgx.Transform.Negotiate.{trim}
use imgx.Transform.Params.Validate.{is_some_and}

abbrev pub slow_kind : Text → Bool
slow_kind v = v == bytes "slow-2g" || v == bytes "2g" || v == bytes "3g"

module _ (fl : Floats) where
  -- `hint.and_then(|v| v.trim().parse::<f32>().ok())`
  abbrev pub number_hint : Option Text → Option fl.F32
  number_hint none = none
  number_hint (some v) = fl.parse (trim v)

  unfoldable pub is_slow_connection : Option Text → Option Text → Option Text → Option Text → Bool
  unfolding trim eq_ignore_ascii_case
  is_slow_connection rtt save_data ect downlink =
      is_some_and (λ v. fl.lt (fl.literal 150 0) v) (number_hint rtt)
      || is_some_and (λ v. eq_ignore_ascii_case (trim v) (bytes "on")) save_data
      || is_some_and (λ v. slow_kind (trim v)) ect
      || is_some_and (λ v. fl.lt v (fl.literal 5 0)) (number_hint downlink)
