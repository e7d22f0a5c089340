-- ===== src/Rest/Api.antt =====
-- The routes of NewRestApi, Close and help, pkg/restapi/restapi.go. The server is the library's.
use goreverselb.Base.{Bool, Bytes, List, [], codes, ◌++◌, ◌∷◌}

-- What a route leads to: `help`, `getServices` with the parameter `name`, or the assets.
pub data Page : Type 0 where
  help_page asset_page : Page
  services_page : Bytes → Page

-- `none` where the path of the route ends, else its last part. The name of the route for all
-- services has no parameter, which reads as the empty text.
unfoldable pub routes : List (Bytes × (Bytes → Page))
routes =
    (codes "/help", λ name. help_page)
    ∷ (codes "/services", λ name. services_page [])
    ∷ (codes "/services/:name", λ name. services_page name)
    ∷ (codes "/:rrr", λ name. asset_page)
    ∷ (codes "/", λ name. asset_page)
    ∷ []

abbrev pub items : List Bytes → Bytes → Bytes
items [] banner = banner
items (path ∷ paths) banner = items paths (banner ++ (codes "<li>" ++ (path ++ codes "</li> ")))

-- The page of `help`, for the name of the host, the version, the system and the architecture. In
-- which order the library lists the routes is an argument.
unfoldable pub help : Bytes → Bytes → Bytes → Bytes → List Bytes → Bytes
help hostname version os arch paths = items paths (
    codes "reverselb alive on ["
    ++ (hostname
        ++ (codes "] ("
            ++ (version
                ++ (codes " on "
                    ++ (os ++ (codes "/" ++ (arch ++ codes "). Available routes: "))))))))

-- Whether the server of the library is there.
pub record RestApi : Type 0 where
  pub echo : Bool

-- Whether the server is closed, and what the caller's value is then: Close has a copy of it.
unfoldable pub close : RestApi → Bool × RestApi
close r = (r.echo, r)
