-- ===== src/Capability/Laws.antt =====
-- What a session allows.
use snw_agent_link.Prelude.{
  ℕ, ◌+◌, ◌<◌, ◌≡◌, List, [], ◌∷◌, String, same, same→eq, same_refl, arith, ◌⊎◌, inl, inr,
  Bool-cases,
}
use snw_agent_link.Prelude.Int.{ℤ}
use snw_agent_link.Errors.{ok}
use snw_agent_link.Time.{Time}
use snw_agent_link.Capability.{session_lifetime, issue_session, allow, validate}

-- The method is one of the list.
abbrev pub IsListed : String → List String → Type 0
IsListed method [] = ⊥
IsListed method (x ∷ xs) = (x ≡ method) ⊎ IsListed method xs

allow-IsListed : (xs : List String) (method : String) → allow xs method ≡ ok tt → IsListed method xs
unfolding allow
allow-IsListed [] method h = absurd (ground arith)
allow-IsListed (x ∷ xs) method h = elim (Bool-cases (same x method)) [
  | inl e ↦ inl (same→eq x method e)
  | inr e ↦ inr (allow-IsListed xs method (ground arith))
]

IsListed-allow : (xs : List String) (method : String) → IsListed method xs → allow xs method ≡ ok tt
unfolding allow
IsListed-allow [] method h = absurd h
IsListed-allow (x ∷ xs) method (inl e) = ground (arith, same_refl x, e)
IsListed-allow (x ∷ xs) method (inr h) = ground (arith, IsListed-allow xs method h)

module _ (token agent : String) (generation : ℕ) (methods : List String) (now : Time) (lifetime : ℤ)
    (agent' : String) (generation' : ℕ) (method : String) (now' : Time) where
  -- An issued session is valid only for the agent and the generation that it was issued for, for one
  -- of its methods, and before its lifetime has passed.
  pub validate-IsListed :
      validate
          (issue_session token agent generation methods now lifetime)
          agent'
          generation'
          method
          now'
        ≡ ok tt
      → (agent ≡ agent')
        × (generation ≡ generation')
        × (now' < now + session_lifetime lifetime)
        × IsListed method methods
  unfolding validate issue_session
  validate-IsListed h = (
    ground (arith, same→eq agent agent'),
    ground arith,
    ground arith,
    allow-IsListed methods method (ground arith),
  )

  -- An issued session is valid for its agent, its generation and each of its methods until its
  -- lifetime has passed.
  pub validate_complete :
      agent ≡ agent'
      → generation ≡ generation'
      → now' < now + session_lifetime lifetime
      → IsListed method methods
      → validate
          (issue_session token agent generation methods now lifetime)
          agent'
          generation'
          method
          now'
        ≡ ok tt
  unfolding validate issue_session
  validate_complete a g t l =
      ground (arith, a, g, t, same_refl agent, IsListed-allow methods method l)
