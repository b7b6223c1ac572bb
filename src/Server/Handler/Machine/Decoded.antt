-- ===== src/Server/Handler/Machine/Decoded.antt =====
-- The handler over the pipeline of libvips: what is known of every cached image.
use imgx.Base.{◌≤◌, Text, ok, ◌≡◌}
use imgx.Cache.{CacheEntry}
use imgx.Config.{Config}
use imgx.Origin.Remote.{Urls}
use imgx.Server.{AppOrigin}
use imgx.Server.Handler.Machine.Phases.{IsTransformed}
use imgx.Transform.Floats.{Floats}
use imgx.Transform.Pipeline.{TransformResult}
use imgx.Transform.Pipeline.Overlays.{vips_pipeline}
use imgx.Transform.Pipeline.Probe.{is_thumbhash, load_first_frame, first_frame_pixels}
use imgx.Transform.Pipeline.Run.{transform}
use imgx.Transform.Pipeline.Run.Results.{Answers}
use imgx.Transform.Vips.{Doubles, Vips}

module _ {fl : Floats} {d : Doubles fl} (v : Vips d) where
  -- The overlays change the bytes, and neither the format nor the animation.
  abbrev Agrees : TransformResult → TransformResult → Type 0
  Agrees a b = (a.format ≡ b.format) × (a.is_animated ≡ b.is_animated)

  -- What is known of an image that was cached under a key, and of the request that it was made for.
  pub record IsDecoded (config : Config) (urls : Urls) (origin : AppOrigin) (k : Text)
      (e : CacheEntry) : Type 0 where
    pub image : IsTransformed fl config urls origin (vips_pipeline v) k e
    pub first : v.Image
    pub decodes :
        load_first_frame v image.running.source (is_thumbhash image.running.waiting.params.format)
        ≡ ok first
    pub small : first_frame_pixels v first ≤ config.transform.max_pixels
    pub answers :
        Answers image.running.waiting.params.format image.result.format image.result.is_animated
