-- ===== src/Transform/Vips/Consts.antt =====
-- crates/imgx-vips/src/ffi.rs: the constants of libvips that the pipeline passes on.
use imgx.Base.{ℤ, pos}

abbrev pub angle_d0 : ℤ
angle_d0 = pos 0

abbrev pub angle_d90 : ℤ
angle_d90 = pos 1

abbrev pub angle_d180 : ℤ
angle_d180 = pos 2

abbrev pub angle_d270 : ℤ
angle_d270 = pos 3

abbrev pub direction_horizontal : ℤ
direction_horizontal = pos 0

abbrev pub direction_vertical : ℤ
direction_vertical = pos 1

abbrev pub size_up : ℤ
size_up = pos 1

abbrev pub size_down : ℤ
size_down = pos 2

abbrev pub size_force : ℤ
size_force = pos 3

abbrev pub interesting_centre : ℤ
interesting_centre = pos 1

abbrev pub interesting_entropy : ℤ
interesting_entropy = pos 2

abbrev pub interesting_attention : ℤ
interesting_attention = pos 3

abbrev pub interpretation_srgb : ℤ
interpretation_srgb = pos 22

abbrev pub interpretation_lch : ℤ
interpretation_lch = pos 19
