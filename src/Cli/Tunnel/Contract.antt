-- ===== src/Cli/Tunnel/Contract.antt =====
-- What the tunnel command, cmd/goreverselb/client.go, makes of its parameters, at the server and at
-- the target.
use goreverselb.Server.Access.Names.{parse_service_context-tunnel_service_name}
use goreverselb.Server.Access.{parse_service_context}
use goreverselb.Client.{MuxTunnelClient, target_address}
use goreverselb.Base.{
  Bytes, Without, [], ap, arith, false, none, refl, some, sym, ℕ, ◌++◌, ◌<◌, ◌^◌, ◌∙◌, ◌∷◌, ◌≡◌,
}
use goreverselb.Client.Address.{has_byte, split_last, host_of, split_host_port, decimal}
use goreverselb.Cli.{Config}
use goreverselb.Cli.Number.Printed.{AllDigits, decimal-AllDigits, atoi-decimal}
use goreverselb.Cli.Tunnel.{split_endpoint, tunnel_data, tunnels, after_atoi, client}

-- A host without a colon and without brackets.
pub record IsPlain (host : Bytes) : Type 0 where
  pub colon : has_byte b':' host ≡ false
  pub opening : has_byte b'[' host ≡ false
  pub closing : has_byte b']' host ≡ false

AllDigits-IsPlain : (s : Bytes) → AllDigits s → IsPlain s
unfolding has_byte
AllDigits-IsPlain [] a = record { colon = refl; opening = refl; closing = refl }
AllDigits-IsPlain (c ∷ s) (l, h, a) =
    let p = AllDigits-IsPlain s a in
    record {
      colon = ground (arith, p.colon);
      opening = ground (arith, p.opening);
      closing = ground (arith, p.closing);
    }

split_last-none : (s : Bytes) → has_byte b':' s ≡ false → split_last b':' s ≡ none
unfolding split_last has_byte
split_last-none [] h = refl
split_last-none (c ∷ s) h = ground (arith, split_last-none s)

split_last-append :
    (h p : Bytes) → has_byte b':' p ≡ false → split_last b':' (h ++ (b':' ∷ p)) ≡ some (h, p)
unfolding split_last
split_last-append [] p e = rw (split_last-none p e) refl
split_last-append (c ∷ h) p e = rw (split_last-append h p e) refl

host_of-plain : (h p : Bytes) → IsPlain h → IsPlain p → host_of h p ≡ some h
unfolding host_of has_byte
host_of-plain [] p i j = ground (arith, j.opening, j.closing)
host_of-plain (c ∷ h) p i j = ground (arith, i.colon, i.opening, i.closing, j.opening, j.closing)

split_endpoint-printed :
    (h : Bytes) (port : ℕ)
    → IsPlain h
    → split_endpoint (h ++ (b':' ∷ decimal port)) ≡ some (h, decimal port)
unfolding split_endpoint split_host_port
split_endpoint-printed h port i =
    let j = AllDigits-IsPlain (decimal port) (decimal-AllDigits port) in
    let e = split_last-append h (decimal port) j.colon in
    let g = host_of-plain h (decimal port) i j in ground (arith, e, g)

client-tunnels :
    (cfg : Config) (h : Bytes) (port : ℕ)
    → IsPlain h
    → port < 2 ^ 63
    → cfg.service_endpoint ≡ h ++ (b':' ∷ decimal port)
    → client cfg ≡ tunnels cfg.api_endpoint (tunnel_data cfg h port)
unfolding client after_atoi
client-tunnels cfg h port i l e =
    let q = ap split_endpoint e ∙ split_endpoint-printed h port i in
    rw (q, client) (rw (atoi-decimal port l) refl)

target_address-tunnel_data :
    (cfg : Config) (h : Bytes) (port : ℕ) (tc : MuxTunnelClient)
    → cfg.service_endpoint ≡ h ++ (b':' ∷ decimal port)
    → tc.tunnel_data ≡ tunnel_data cfg h port
    → target_address 0 tc ≡ some cfg.service_endpoint
unfolding target_address tunnel_data
target_address-tunnel_data cfg h port tc e t = rw (t, e) refl

-- The endpoint is a host without a colon and without brackets, and a port as it is printed; no
-- name and no user has a colon. Then the command opens a tunnel at the API endpoint whose data the
-- server reads back as the given service, the given instance and the user of the token, and a
-- client with these data dials the given endpoint.
pub client-tunnel :
    (cfg : Config) (h : Bytes) (port : ℕ) (user_id secret : Bytes) (tc : MuxTunnelClient)
    → IsPlain h
    → port < 2 ^ 63
    → cfg.service_endpoint ≡ h ++ (b':' ∷ decimal port)
    → Without b':' cfg.service_name
    → Without b':' cfg.instance_name
    → Without b':' user_id
    → cfg.token ≡ user_id ++ (b':' ∷ secret)
    → tc.tunnel_data ≡ tunnel_data cfg h port
    → (client cfg ≡ tunnels cfg.api_endpoint tc.tunnel_data)
      × ((parse_service_context tc.tunnel_data).service_name ≡ cfg.service_name)
      × ((parse_service_context tc.tunnel_data).instance_name ≡ cfg.instance_name)
      × ((parse_service_context tc.tunnel_data).user_id ≡ user_id)
      × (target_address 0 tc ≡ some cfg.service_endpoint)
unfolding tunnel_data
client-tunnel cfg h port user_id secret tc i l e ws wi wu t c =
    let (a, b, d) =
      parse_service_context-tunnel_service_name tc.tunnel_data cfg.service_name cfg.instance_name
        user_id secret ws wi wu (ap (λ x. x.service_name) c) (ap (λ x. x.token) c ∙ t) in
    (
      client-tunnels cfg h port i l e ∙ ap (tunnels cfg.api_endpoint) (sym c),
      a,
      b,
      d,
      target_address-tunnel_data cfg h port tc e c,
    )
