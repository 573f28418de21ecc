-- ===== src/Tailscale.antt =====
-- internal/tailscale: which node an address belongs to, and which addresses a tailnet has.
use snw_agent_link.Prelude.{
  ◌&&◌, ◌||◌, Bool, false, Option, none, some, List, [], ◌∷◌, String, same, is_empty, if◌then◌else◌,
}
use snw_agent_link.Errors.{Result, ok, err, refused}

pub record NodeIdentity : Type 0 where
  pub node_id : String
  pub stable_node_id : String
  pub node_name : String
  pub user_id : String
  pub login_name : String
  pub addresses : List String

-- `PeerExpectation`
pub record PeerExpectation : Type 0 where
  pub node_id : String
  pub stable_node_id : String
  pub node_name : String
  pub user_id : String
  pub login_name : String

-- strings.TrimSpace, strings.Trim(s, "[]"), the host of net.SplitHostPort, and net/netip, where an
-- address is its text in the canonical form.
pub record Addresses : Type 0 where
  pub trim_space : String → String
  pub trim_brackets : String → String
  pub split_host : String → Option String
  pub parse_addr : String → Option String
  pub unmap : String → String
  pub parse_prefix : String → Option String
  pub prefix_contains : String → String → Bool

-- The local daemon's answer about an address.
abbrev pub WhoIs : Type 0
WhoIs = String → Result NodeIdentity

module _ (n : Addresses) where
  abbrev or_whole : String → Option String → String
  or_whole s none = s
  or_whole s (some host) = host

  abbrev is_address : String → Option String → Bool
  is_address address none = false
  is_address address (some candidate) = same candidate address

  -- One address of a node: a prefix that contains the address, or the address itself.
  unfoldable pub covers : String → String → Bool
  covers address raw = elim (n.parse_prefix (n.trim_space raw)) [
    | some prefix ↦ n.prefix_contains prefix address
    | none ↦ is_address address (n.parse_addr (n.trim_brackets (n.trim_space raw)))
  ]

  any_covers : String → List String → Bool
  any_covers address [] = false
  any_covers address (raw ∷ rest) = covers address raw || any_covers address rest

  unfoldable pub has_address : NodeIdentity → String → Bool
  unfolding any_covers
  has_address node remote =
      let trimmed = n.trim_space remote in
      elim (n.parse_addr (n.trim_brackets (or_whole trimmed (n.split_host trimmed)))) [
        | none ↦ false
        | some address ↦ any_covers address node.addresses
      ]

  allowed_by : List String → String → Bool
  allowed_by [] address = false
  allowed_by (prefix ∷ rest) address = n.prefix_contains prefix address || allowed_by rest address

  -- `DefaultAddressPolicy`
  abbrev pub default_prefixes : List String
  default_prefixes = "100.64.0.0/10" ∷ "fd7a:115c:a1e0::/48" ∷ []

  unfoldable pub validate_bind_address : List String → String → Result String
  unfolding allowed_by
  validate_bind_address prefixes value = elim (n.parse_addr value) [
    | none ↦ err refused
    | some address ↦
        if allowed_by prefixes (n.unmap address) then ok (n.unmap address) else err refused
  ]

abbrev pub meets : String → String → Bool
meets expected actual = is_empty expected || same actual expected

unfoldable pub verify_peer : WhoIs → String → PeerExpectation → Result (Unit {0})
verify_peer who remote expected = elim (who remote) [
  | err e ↦ err e
  | ok node ↦
      if meets expected.node_id node.node_id
        && (meets expected.stable_node_id node.stable_node_id
            && (meets expected.node_name node.node_name
                && (meets expected.user_id node.user_id
                    && meets expected.login_name node.login_name)))
      then ok tt
      else err refused
]
