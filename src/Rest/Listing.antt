-- ===== src/Rest/Listing.antt =====
-- What the REST interface lists, pkg/muxtunnel.go and pkg/restapi/restapi.go.
use goreverselb.Base.{Bytes, Map, Option, bytes_key, get, nat_key, none, some, ℕ, ◌≡◌}
use goreverselb.Server.State.{Frontend}
use goreverselb.Rest.{one_service, Reply, TunnelFrontendServices, listed}

-- Every pointer of the services leads to a frontend of its name.
abbrev Owned : Map ℕ Frontend → Map Bytes ℕ → Type 0
Owned heap m =
    (v : Bytes) (p : ℕ)
    → get v m ≡ some p
    → (f : Frontend) × (get p heap ≡ some f) × (f.service_name ≡ v)

-- What is listed of a service that is found.
abbrev pub listing_of : Option (ℕ × Frontend) → Option TunnelFrontendServices
listing_of none = none
listing_of (some (pointer, val)) = some (listed val)

-- The first entry with the name, or what is there without one.
abbrev pub reply_for : Option TunnelFrontendServices → Reply → Reply
reply_for none ret = ret
reply_for (some v) ret = one_service v
