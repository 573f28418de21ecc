-- ===== src/Gateway/Forward/Laws.antt =====
-- Which addresses the messages go to, and which requests lead to them.
use snw_agent_link.Prelude.{
  ℕ, ◌≡◌, ap, ◌∙◌, ◌||◌, Bool, true, false, Option, some, List, [], ◌∷◌, String, same, is_empty,
  arith, Bool-cases, Option-cases, inl, inr, ◌⊎◌,
}
use snw_agent_link.Errors.{ok, Result-cases}
use snw_agent_link.Secure.{Aead}
use snw_agent_link.Platform.{Platform}
use snw_agent_link.Model.{AgentRegistration}
use snw_agent_link.Store.Registrations.{get_agent_registration}
use snw_agent_link.Http.{Request, Web}
use snw_agent_link.Tailscale.{Addresses}
use snw_agent_link.Gateway.Access.{Router, Readings, authorized}
use snw_agent_link.Gateway.Access.Laws.{IsAuthorized, authorized-IsAuthorized}
use snw_agent_link.Gateway.Messages.{
  Reply, World, Json, Clock, Agent, forward, deliver, handed_of, serve_a2a_with_dedup,
}
use snw_agent_link.Gateway.Messages.Once.{Effect-hands, deliver-Effect}
use snw_agent_link.Gateway.Forward.{
  LocalUrl, Resolver, Forwarding, first_loopback, port_of, loopback_client, new_forwarding_handler,
  a2a, a2a_target,
}

module _ (p : Platform) (n : Resolver) where
  first_loopback-IsLoopback :
      (addresses : List String) (a : String)
      → first_loopback p n addresses ≡ some a
      → n.is_loopback a ≡ true
  unfolding first_loopback
  first_loopback-IsLoopback [] a h = absurd (ground (arith, h))
  first_loopback-IsLoopback (b ∷ rest) a h = elim (Bool-cases (n.is_loopback b)) [
    | inl e ↦ ground (arith, h, e)
    | inr e ↦ first_loopback-IsLoopback rest a (ground (arith, h, e))
  ]

  loopback_client-IsLoopback :
      (u : LocalUrl) (token_hash source : String) (f : Forwarding)
      → loopback_client p n u token_hash source ≡ ok f
      → (a : String) × (n.is_loopback a ≡ true)
        × (f.pinned_address ≡ n.join_host_port a (port_of p n u))
        × (f.token ≡ p.base64_raw_url token_hash)
        × (f.source_agent_id ≡ source)
  unfolding loopback_client
  loopback_client-IsLoopback u token_hash source f h =
      elim (Option-cases (first_loopback p n (n.lookup_ip u.hostname))) [
        | inl e ↦ absurd (ground (arith, h, e))
        | inr (a, e) ↦ (
          a,
          first_loopback-IsLoopback (n.lookup_ip u.hostname) a e,
          ground (arith, h, e),
          ground (arith, h, e),
          ground (arith, h, e),
        )
      ]

  -- A handler that is made for a registration connects to a loopback address that the host of its
  -- endpoint resolves to, at the port of the endpoint or of its scheme, whatever URL a request has;
  -- the scheme is HTTP or HTTPS, the endpoint has no credentials, and what is sent carries the hash
  -- of the registration's token and the source agent.
  pub new_forwarding_handler-IsLoopback :
      (r : AgentRegistration) (source : String) (f : Forwarding)
      → new_forwarding_handler p n r source ≡ ok f
      → (u : LocalUrl) × (a : String) × (n.parse_url r.local_endpoint ≡ some u)
        × ((same u.scheme "http" || same u.scheme "https") ≡ true)
        × (u.has_user ≡ false)
        × (n.is_loopback a ≡ true)
        × (f.pinned_address ≡ n.join_host_port a (port_of p n u))
        × (f.token ≡ p.base64_raw_url r.registration_token_hash)
        × (f.source_agent_id ≡ source)
  unfolding new_forwarding_handler
  new_forwarding_handler-IsLoopback r source f h =
      elim (Option-cases (n.parse_url r.local_endpoint)) [
        | inl e ↦ absurd (ground (arith, h, e))
        | inr (u, e) ↦
            let client : loopback_client p n u r.registration_token_hash source ≡ ok f =
              ground (arith, h, e) in
            let (a, loopback, pinned, token, from) =
              loopback_client-IsLoopback u r.registration_token_hash source f client in
            (u, a, e, ground (arith, h, e), ground (arith, h, e), loopback, pinned, token, from)
      ]

module _ (p : Platform) (w : Web) (n : Addresses) (net : Resolver) (j : Json) (decimal : ℕ → String)
    (sealing : Option Aead) (agent : Agent) where
  abbrev run : Router → ℕ → Clock → Readings → List String → Request → World → Option Reply × World
  run router fuel c t segments r s =
      a2a p w n net j decimal sealing agent router fuel c t segments r s

  serve_a2a_with_dedup-hands :
      (fuel : ℕ) (c : Clock) (r : Request) (local : String) (json_rpc : Bool) (s : World)
      → ((serve_a2a_with_dedup w j decimal sealing agent fuel c r local json_rpc s).1.handed
          ≡ s.handed)
        ⊎ ((serve_a2a_with_dedup w j decimal sealing agent fuel c r local json_rpc s).1.handed
            ≡ handed_of w j decimal sealing agent r local json_rpc ∷ s.handed)
  unfolding serve_a2a_with_dedup forward
  serve_a2a_with_dedup-hands fuel c r local json_rpc s =
      let h = handed_of w j decimal sealing agent r local json_rpc in
      let out = serve_a2a_with_dedup w j decimal sealing agent fuel c r local json_rpc s in
      elim (Bool-cases (is_empty h.message_id)) [
        | inl e ↦ inr (ground (arith, e))
        | inr e ↦
            let delivers : out.1 ≡ (deliver w j decimal sealing agent fuel c h json_rpc s).1 =
              ground (arith, e) in
            rw delivers (
              Effect-hands w j decimal sealing agent h s
                (deliver w j decimal sealing agent fuel c h json_rpc s).1
                (deliver-Effect w j decimal sealing agent h fuel c json_rpc s))
      ]

  -- A request leaves the messages of the local agents as they are, or one is handed over: it is for
  -- the agent that the path names, its sender is that of the request's header and its body is what
  -- was read of the request's, and the request is authorized for that agent, where the agent has a
  -- name.
  pub a2a-IsAuthorized :
      (router : Router) (fuel : ℕ) (c : Clock) (t : Readings) (segments : List String) (r : Request)
      (s : World)
      → ((a2a p w n net j decimal sealing agent router fuel c t segments r s).1.handed ≡ s.handed)
        ⊎ ((local : String) × (json_rpc : Bool) × (a2a_target segments ≡ some (local, json_rpc))
            × ((a2a p w n net j decimal sealing agent router fuel c t segments r s).1.handed
                ≡ handed_of w j decimal sealing agent r local json_rpc ∷ s.handed)
            × ((is_empty local ≡ true) ⊎ IsAuthorized p w n router r local t s.database))
  unfolding a2a
  a2a-IsAuthorized router fuel c t segments r s = elim (Option-cases (a2a_target segments)) [
    | inl e ↦ inl (ground (arith, e))
    | inr (target, e) ↦
        let local = target.0 in
        elim (Result-cases (get_agent_registration local s.database)) [
          | inl (x, g) ↦ inl (ground (arith, e, g))
          | inr (reg, g) ↦ elim (Result-cases (authorized p w n router r local t s.database).0) [
            | inl (x, a) ↦ inl (ground (arith, e, g, a))
            | inr (allowed, a) ↦ elim (Bool-cases allowed) [
              | inr refused ↦ inl (ground (arith, e, g, a, refused))
              | inl admitted ↦
                  let checked = authorized-IsAuthorized p w n router r local t s.database in
                  elim (Result-cases
                    (new_forwarding_handler p net reg (r.headers "X-SNW-Agent-ID"))) [
                      | inl (x, f) ↦ inl (ground (arith, e, g, a, admitted, f))
                      | inr (f, ready) ↦
                          let after : World = record s {
                            database = (authorized p w n router r local t s.database).1;
                          } in
                          let handles : (run router fuel c t segments r s).1
                              ≡ (serve_a2a_with_dedup w j decimal sealing agent fuel c r local
                                  target.1 after).1 =
                            ground (arith, e, g, a, admitted, ready) in
                          elim (serve_a2a_with_dedup-hands fuel c r local target.1 after) [
                            | inl same_messages ↦ inl (ap (λ x. x.handed) handles ∙ same_messages)
                            | inr hands ↦ inr (
                              local,
                              target.1,
                              e,
                              ap (λ x. x.handed) handles ∙ hands,
                              elim (Bool-cases (is_empty local)) [
                                | inl unnamed ↦ inl unnamed
                                | inr named ↦ inr (checked named (a ∙ ap ok admitted))
                              ],
                            )
                          ]
                    ]
            ]
          ]
        ]
  ]
