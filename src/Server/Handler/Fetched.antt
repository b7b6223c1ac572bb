-- ===== src/Server/Handler/Fetched.antt =====
-- A request that is fetched stays the same request.
use imgx.Base.{ok, >>=-eq-ok, ok_injective, ◌≡◌, sym, ap}
use imgx.Config.{Config}
use imgx.Origin.Remote.{Urls}
use imgx.Server.{AppOrigin}
use imgx.Server.Fetches.{World, fetch_source, fetch_overlays}
use imgx.Server.Handler.{Waiting, Running, fetch_all}
use imgx.Transform.Floats.{Floats}

pub waiting-fetch_all :
    (fl : Floats) {urls : Urls} (world : World urls) (config : Config) (origin : AppOrigin)
    (w : Waiting fl) (r : Running fl)
    → fetch_all fl world config origin w ≡ ok r
    → r.waiting ≡ w
unfolding fetch_all
waiting-fetch_all fl world config origin w r h =
    let (f, p, h₁) = >>=-eq-ok (fetch_source world config origin w.request) _ h in
    let (o, q, h₂) = >>=-eq-ok (fetch_overlays world config fl w.params.draw) _ h₁ in
    sym (ap (λ t. t.waiting) (ok_injective h₂))
