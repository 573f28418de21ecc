-- ===== src/Gateway/Forward.antt =====
-- internal/gateway/forward.go: where the messages of a registration are sent, and what a request to
-- the local agent carries. And `a2a` of internal/gateway/router.go, which chooses the handler.
pub mod Laws
use snw_agent_link.Prelude.{
  ℕ, ◌&&◌, ◌||◌, not, Bool, true, false, Option, none, some, List, [], ◌∷◌, String, same, is_empty,
  if◌then◌else◌,
}
use snw_agent_link.Errors.{Result, ok, err, refused}
use snw_agent_link.Secure.{Aead}
use snw_agent_link.Platform.{Platform}
use snw_agent_link.Model.{AgentRegistration}
use snw_agent_link.Store.Registrations.{get_agent_registration}
use snw_agent_link.Http.{Headers, Request, Web, set_header}
use snw_agent_link.Tailscale.{Addresses}
use snw_agent_link.Gateway.Access.{Router, Readings, authorized}
use snw_agent_link.Gateway.Messages.{
  Reply, World, Json, Clock, Agent, failure, serve_a2a_with_dedup,
}

-- url.Parse of a local endpoint.
pub record LocalUrl : Type 0 where
  pub scheme : String
  pub has_user : Bool
  pub hostname : String
  pub port : String

-- url.Parse; net.LookupIP; net.IP.IsLoopback; net.JoinHostPort.
pub record Resolver : Type 0 where
  pub parse_url : String → Option LocalUrl
  pub lookup_ip : String → List String
  pub is_loopback : String → Bool
  pub join_host_port : String → String → String

-- The address that every connection goes to, and the headers that are set.
pub record Forwarding : Type 0 where
  pub pinned_address : String
  pub token : String
  pub source_agent_id : String

module _ (p : Platform) (n : Resolver) where
  first_loopback : List String → Option String
  first_loopback [] = none
  first_loopback (a ∷ rest) =
      let later = first_loopback rest in if n.is_loopback a then some a else later

  pub port_of : LocalUrl → String
  port_of u = if is_empty u.port then (if same u.scheme "https" then "443" else "80") else u.port

  -- `loopbackClient`
  unfoldable pub loopback_client : LocalUrl → String → String → Result Forwarding
  unfolding first_loopback port_of
  loopback_client u token_hash source = elim (first_loopback (n.lookup_ip u.hostname)) [
    | none ↦ err refused
    | some pinned ↦ ok (record {
      pinned_address = n.join_host_port pinned (port_of u);
      token = p.base64_raw_url token_hash;
      source_agent_id = source;
    })
  ]

  unfoldable pub new_forwarding_handler : AgentRegistration → String → Result Forwarding
  unfolding loopback_client
  new_forwarding_handler r source = elim (n.parse_url r.local_endpoint) [
    | none ↦ err refused
    | some u ↦
        if not (same u.scheme "http" || same u.scheme "https")
        then err refused
        else if u.has_user || is_empty u.hostname
        then err refused
        else loopback_client u r.registration_token_hash source
  ]

-- `RoundTrip` of ingressRoundTripper: the headers of the request that goes out.
unfoldable pub ingress_headers : Forwarding → Headers → Headers
unfolding set_header
ingress_headers f headers =
    let marked = set_header "X-SNW-Linkd-Ingress" f.token headers in
    if is_empty f.source_agent_id
    then marked
    else set_header "X-SNW-Agent-ID" f.source_agent_id marked

-- The two protocols that a path names after "/agents/{agentID}/a2a/".
abbrev pub json_rpc_of : String → Option Bool
json_rpc_of s = if same s "rest" then some false else if same s "jsonrpc" then some true else none

-- The agent and the protocol of the segments of a path.
unfoldable pub a2a_target : List String → Option (String × Bool)
a2a_target (agents ∷ local ∷ a2a ∷ protocol ∷ rest) = elim (json_rpc_of protocol) [
  | none ↦ none
  | some json_rpc ↦ if same agents "agents" && same a2a "a2a" then some (local, json_rpc) else none
]
a2a_target _ = none

module _ (p : Platform) (w : Web) (n : Addresses) (net : Resolver) (j : Json) (decimal : ℕ → String)
    (sealing : Option Aead) (agent : Agent) where
  not_found_reply : Reply
  not_found_reply = failure 404 "404 page not found"

  -- The request goes on to the local agent once it is authorized.
  serve_registered :
      Router
      → ℕ
      → Clock
      → Readings
      → Request
      → AgentRegistration
      → String
      → Bool
      → World
      → Option Reply × World
  serve_registered router fuel c t r registration local json_rpc s =
      let (allowed, d) = authorized p w n router r local t s.database in
      let s' = record s { database = d } in
      elim allowed [
        | err e ↦ (some (failure 403 "agent pairing is required"), s')
        | ok admitted ↦
            if not admitted
            then (some (failure 403 "agent pairing is required"), s')
            else elim (new_forwarding_handler p net registration (r.headers "X-SNW-Agent-ID")) [
              | err e ↦ (some (failure 502 "local agent endpoint is unavailable"), s')
              | ok f ↦ serve_a2a_with_dedup w j decimal sealing agent fuel c r local json_rpc s'
            ]
      ]

  -- `a2a`, given the segments of the path: strings.Split(strings.Trim(path, "/"), "/").
  unfoldable pub a2a :
      Router → ℕ → Clock → Readings → List String → Request → World → Option Reply × World
  unfolding serve_registered not_found_reply
  a2a router fuel c t segments r s = elim (a2a_target segments) [
    | none ↦ (some not_found_reply, s)
    | some (local, json_rpc) ↦ elim (get_agent_registration local s.database) [
      | err e ↦ (some not_found_reply, s)
      | ok registration ↦ serve_registered router fuel c t r registration local json_rpc s
    ]
  ]
