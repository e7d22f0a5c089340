-- ===== src/Cli/Serve/Authorized.antt =====
-- Whom a started server lets in: cmd/goreverselb/server.go with authorize of pkg/muxtunnel.go.
use goreverselb.Base.{
  Bool, Bool-cases, Bytes, Map, Option, Option-cases, Result, Without, ap, arith, bytes_key, err,
  false, get, get-put_self, inl, inr, nat_key, none, ok, put, refl, some, subst, sym, ◌++◌, ◌∙◌,
  ◌∷◌, ◌≡◌,
}
use goreverselb.Types.{ConfigData, UserData, TunnelData, default_user_id}
use goreverselb.Config.{
  Codecs, World, start_up, after_token, set_token, save, save_explicit, after_marshal, load_config,
  at_start, initial_config,
}
use goreverselb.Ssh.{KeyError}
use goreverselb.Server.State.{MuxTunnelService, new_mux_tunnel_service}
use goreverselb.Server.Access.{parse_service_context, authorize, authorize_user, same}
use goreverselb.Server.Access.Names.{parse_service_context-default_user, context_user}
use goreverselb.Cli.{Config}
use goreverselb.Cli.Serve.{start_service, serves, after_start, server}

after_marshal-config :
    (writes a : Bool) (o : Option Bytes) (w : World)
    → (after_marshal writes a o w).1.config ≡ w.config
unfolding after_marshal
after_marshal-config writes a none w = refl
after_marshal-config writes a (some b) w = refl

save-config : (k : Codecs) (writes : Bool) (w : World) → (save k writes w).1.config ≡ w.config
unfolding save save_explicit
save-config k writes w = after_marshal-config writes w.file.app_config _ w

-- The default user has the token.
abbrev HasToken : Bytes → ConfigData → Type 0
HasToken token config =
    (u : UserData) × (get default_user_id config.users ≡ some u) × (u.token ≡ token)

set_token-HasToken :
    (token : Bytes) (config config' : ConfigData)
    → set_token token config ≡ some config'
    → HasToken token config'
unfolding set_token
set_token-HasToken token config config' h = elim (Option-cases (get default_user_id config.users)) [
  | inl e ↦ absurd (ground (arith, e, h))
  | inr (u, e) ↦
      let u' = record u { token = token } in
      let q : config' ≡ record { users = put default_user_id u' config.users } =
        ground (arith, e, h) in
      (u', rw q (get-put_self default_user_id u' config.users), refl)
]

after_token-HasToken :
    (k : Codecs) (writes : Bool) (token : Bytes) (config : ConfigData) (o : Option ConfigData)
    (w0 w : World)
    → set_token token config ≡ o
    → after_token k writes o w0 ≡ some w
    → HasToken token w.config
unfolding after_token
after_token-HasToken k writes token config none w0 w e h = absurd (cc)
after_token-HasToken k writes token config (some config') w0 w e h =
    let q : config' ≡ w.config =
      ground (arith, h, save-config k writes (record w0 { config = config' })) in
    subst (λ (c : ConfigData). HasToken token c) q (set_token-HasToken token config config' e)

start_up-HasToken :
    (k : Codecs) (writes : Bool) (token : Bytes) (disk : Map Bytes Bytes) (w : World)
    → start_up k writes token disk ≡ some w
    → HasToken token w.config
unfolding start_up
start_up-HasToken k writes token disk w h =
    let w0 = (load_config k writes false initial_config (at_start disk)).1 in
    after_token-HasToken k writes token w0.config (set_token token w0.config) w0 w refl h

module _ {Signer : Type 0} (k : Codecs) (writes certifies : Bool) (signer : Result KeyError Signer)
    (listens : Bool) (cfg : Config) (disk : Map Bytes Bytes) (s : MuxTunnelService)
    (nats http : Bool) where
  start_service-config :
      (x : Result KeyError Signer) (config : ConfigData)
      → after_start (start_service x listens config cfg) cfg ≡ serves s nats http
      → s.config_data ≡ config
  unfolding start_service after_start new_mux_tunnel_service
  start_service-config (err e) config h = absurd (cc)
  start_service-config (ok y) config h = elim (Bool-cases listens) [
    | inl e ↦ ground (arith, e, h)
    | inr e ↦ absurd (ground (arith, e, h))
  ]

  server-HasToken :
      (o : Option World)
      → start_up k writes cfg.token disk ≡ o
      → server k writes certifies signer listens cfg disk ≡ serves s nats http
      → HasToken cfg.token s.config_data
  unfolding server
  server-HasToken none e h = absurd (ground (arith, e, h))
  server-HasToken (some w) e h = elim (Bool-cases certifies) [
    | inl c ↦
        let q = start_service-config signer w.config (ground (arith, e, c, h)) in
        subst (λ (x : ConfigData). HasToken cfg.token x) (sym q)
          (start_up-HasToken k writes cfg.token disk w e)
    | inr c ↦ absurd (ground (arith, e, c, h))
  ]

  authorize-default :
      (td : TunnelData) (service_name : Bytes)
      → HasToken cfg.token s.config_data
      → ((u : UserData)
          → get default_user_id s.config_data.users ≡ some u
          → get service_name u.services ≡ none)
      → authorize default_user_id service_name td s ≡ same td.token cfg.token
  unfolding authorize authorize_user
  authorize-default td service_name (u, g, t) n = ground (arith, g, n u g, t)

  authorize-unknown :
      (td : TunnelData) (user_id service_name : Bytes)
      → get user_id s.config_data.users ≡ none
      → authorize user_id service_name td s ≡ false
  unfolding authorize authorize_user
  authorize-unknown td user_id service_name h = ground (arith, h)

  -- When the server command serves, whatever was in its store: at a service that has no token of
  -- its own, a client whose token has no colon is let in exactly if it has the token that the
  -- command was given, and one whose token names a user that the store does not have is refused,
  -- even if it has the token of the command.
  pub server-authorize :
      (td td' : TunnelData) (user_id secret : Bytes)
      → server k writes certifies signer listens cfg disk ≡ serves s nats http
      → ((u : UserData)
          → get default_user_id s.config_data.users ≡ some u
          → get (parse_service_context td).service_name u.services ≡ none)
      → Without b':' td.token
      → Without b':' user_id
      → td'.token ≡ user_id ++ (b':' ∷ secret)
      → get user_id s.config_data.users ≡ none
      → (authorize (parse_service_context td).user_id (parse_service_context td).service_name td s
          ≡ same td.token cfg.token)
        × (authorize
              (parse_service_context td').user_id
              (parse_service_context td').service_name
              td'
              s
            ≡ false)
  server-authorize td td' user_id secret h n w w' t g = (
    ap (λ u. authorize u (parse_service_context td).service_name td s)
          (parse_service_context-default_user td w)
        ∙ authorize-default td (parse_service_context td).service_name
            (server-HasToken (start_up k writes cfg.token disk) refl h) n,
    ap (λ u. authorize u (parse_service_context td').service_name td' s)
          (context_user td' user_id secret w' t)
        ∙ authorize-unknown td' user_id (parse_service_context td').service_name g,
  )
