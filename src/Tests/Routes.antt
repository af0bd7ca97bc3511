-- ===== src/Tests/Routes.antt =====
-- Routing on a concrete table of endpoints.
use pikopod.Base.{Option, some, List, [], ◌∷◌}
use pikopod.Base.Bytes.{Bytes, codes, to_upper}
use pikopod.Sandbox.Routes.{Endpoint, path_segments, match_route}
use pikopod.Sandbox.Routes.Best.{IsRouted, match_route_lem}

abbrev endpoints : List Endpoint
endpoints =
    record { method = codes "get"; path_template = codes "/pets/{id}" }
    ∷ record { method = codes "get"; path_template = codes "/pets/mine" }
    ∷ record { method = codes "post"; path_template = codes "/pets" }
    ∷ []

abbrev verbatim : Bytes → Option Bytes
verbatim s = some s

match_route_lem_example :
    IsRouted verbatim endpoints
      (to_upper (codes "GET"))
      (path_segments (codes "/pets/mine"))
      (match_route verbatim endpoints (codes "GET") (codes "/pets/mine"))
match_route_lem_example = match_route_lem verbatim endpoints (codes "GET") (codes "/pets/mine")
