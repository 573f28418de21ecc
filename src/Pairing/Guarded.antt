-- ===== src/Pairing/Guarded.antt =====
-- Every operation keeps a relation on the table of contacts that its upsert keeps.
use snw_agent_link.Prelude.{◌≡◌, ◌≢◌, Option, List, String}
use snw_agent_link.Time.{Time}
use snw_agent_link.Model.{
  Contact, ContactState, PairingRequest, PairingSession, active, revoked, blocked,
}
use snw_agent_link.Platform.{Platform}
use snw_agent_link.Identity.{Identity}
use snw_agent_link.Store.Contacts.{upsert_contact}
use snw_agent_link.Pairing.Payloads.{
  Invite, Acceptance, Confirmation, ActivationReceipt, RevocationNotice, CreateInviteInput,
  ApproveAcceptanceInput,
}
use snw_agent_link.Pairing.Invite.{Readings, create_invite, import_invite}
use snw_agent_link.Pairing.Accept.{accept_imported_invite, approve_acceptance}
use snw_agent_link.Pairing.Confirm.{
  apply_confirmation, apply_activation_receipt, checked_confirmation, checked_receipt,
}
use snw_agent_link.Pairing.Revoke.{
  revoke, revoke_with_notice, block, apply_revocation, checked_revocation,
}
use snw_agent_link.Pairing.Guards.{Quiet, Guards, Guards-later, Guards-first}
use snw_agent_link.Pairing.Writes.{
  service_rules, Guards-store_created, Guards-store_imported, Guards-store_accepted,
  Guards-store_approved, Guards-shut_out, Guards-activate,
}

Quiet-checked_confirmation :
    (p : Platform) (i : Identity) (c : Confirmation) → Quiet (checked_confirmation p i c)
unfolding checked_confirmation
Quiet-checked_confirmation p i c = search service_rules depth 20

Quiet-checked_receipt :
    (p : Platform) (i : Identity) (c : ActivationReceipt) → Quiet (checked_receipt p i c)
unfolding checked_receipt
Quiet-checked_receipt p i c = search service_rules depth 20

Quiet-checked_revocation :
    (p : Platform) (i : Identity) (c : RevocationNotice) → Quiet (checked_revocation p i c)
unfolding checked_revocation
Quiet-checked_revocation p i c = search service_rules depth 20

ruleset checks =
    (service_rules, Quiet-checked_confirmation, Quiet-checked_receipt, Quiet-checked_revocation)

-- The states that the operations write, but for `active`.
inactive : (c : Contact) (s : ContactState) → s ≢ active → c.state ≡ s → c.state ≢ active
inactive c s h e a = h (cc)

module _ (p : Platform) (R : List Contact → List Contact → Type 0)
    (same : (xs : List Contact) → R xs xs)
    (writes : (w : Time) (c : Contact) → c.state ≢ active → Guards R (upsert_contact w c)) where
  abbrev Inactive : Contact → Type 0
  Inactive c = c.state ≢ active

  pub Guards-create_invite :
      (r : Readings) (i : Option Identity) (input : CreateInviteInput)
      → Guards R (create_invite p r i input)
  unfolding create_invite
  Guards-create_invite r i input =
      let stored = λ (invite : Invite).
        Guards-store_created p R same Inactive writes r invite (λ c. inactive c _ (λ e. cc)) in
      search (checks, Guards-later, same, stored) depth 20

  pub Guards-import_invite :
      (r : Readings) (i : Option Identity) (invite : Invite) → Guards R (import_invite p r i invite)
  unfolding import_invite
  Guards-import_invite r i invite =
      let stored = λ (request : PairingRequest) (key : String).
        Guards-store_imported p R same Inactive writes r invite request key
          (λ c. inactive c _ (λ e. cc)) in
      search (checks, Guards-later, same, stored) depth 30

  pub Guards-accept :
      (r : Readings) (i : Option Identity) (id host address node : String)
      → Guards R (accept_imported_invite p r i id host address node)
  unfolding accept_imported_invite
  Guards-accept r i id host address node =
      let stored = λ (s : PairingSession) (contact : Contact) (a : Acceptance).
        Guards-store_accepted p R same Inactive writes r s contact host a
          (λ c. inactive c _ (λ e. cc)) in
      search (checks, Guards-later, same, stored) depth 30

  pub Guards-approve :
      (r : Readings) (i : Option Identity) (a : Acceptance) (x : ApproveAcceptanceInput)
      → Guards R (approve_acceptance p r i a x)
  unfolding approve_acceptance
  Guards-approve r i a x =
      let stored = λ (j : Identity) (s : PairingSession) (key : String) (c : Confirmation).
        Guards-store_approved p R same Inactive writes r j s a.payload key c
          (λ c. inactive c _ (λ e. cc)) in
      search (checks, Guards-later, same, stored) depth 30

  pub Guards-revoke : (r : Readings) (local remote : String) → Guards R (revoke r local remote)
  unfolding revoke
  Guards-revoke r local remote =
      let stored = λ (c : Contact).
        Guards-shut_out p R same Inactive writes r c revoked (λ c. inactive c _ (λ e. cc)) in
      search (checks, Guards-later, same, stored) depth 20

  pub Guards-block : (r : Readings) (local remote : String) → Guards R (block r local remote)
  unfolding block
  Guards-block r local remote =
      let stored = λ (c : Contact).
        Guards-shut_out p R same Inactive writes r c blocked (λ c. inactive c _ (λ e. cc)) in
      search (checks, Guards-later, same, stored) depth 20

  pub Guards-revoke_with_notice :
      (r : Readings) (i : Option Identity) (remote reason : String)
      → Guards R (revoke_with_notice p r i remote reason)
  unfolding revoke_with_notice
  Guards-revoke_with_notice r i remote reason =
      search (checks, Guards-later, Guards-first, same, Guards-revoke) depth 20

  pub Guards-apply_revocation :
      (r : Readings) (i : Option Identity) (n : RevocationNotice)
      → Guards R (apply_revocation p r i n)
  unfolding apply_revocation
  Guards-apply_revocation r i n =
      let stored = λ (c : Contact).
        Guards-shut_out p R same Inactive writes r c revoked (λ c. inactive c _ (λ e. cc)) in
      search (checks, Guards-later, same, stored) depth 20

-- The two operations that write `active`.
module _ (p : Platform) (R : List Contact → List Contact → Type 0)
    (same : (xs : List Contact) → R xs xs)
    (writes : (w : Time) (c : Contact) → Guards R (upsert_contact w c)) where
  pub Guards-apply_confirmation :
      (r : Readings) (i : Option Identity) (c : Confirmation)
      → Guards R (apply_confirmation p r i c)
  unfolding apply_confirmation
  Guards-apply_confirmation r i c =
      let stored = λ (j : Identity) (s : PairingSession).
        Guards-activate p R same (λ _. Unit {0}) (λ w c _. writes w c) r j s (λ c e. tt) in
      search (checks, Guards-later, Guards-first, same, stored) depth 20

  pub Guards-apply_receipt :
      (r : Readings) (i : Option Identity) (c : ActivationReceipt)
      → Guards R (apply_activation_receipt p r i c)
  unfolding apply_activation_receipt
  Guards-apply_receipt r i c =
      let stored = λ (j : Identity) (s : PairingSession).
        Guards-activate p R same (λ _. Unit {0}) (λ w c _. writes w c) r j s (λ c e. tt) in
      search (checks, Guards-later, Guards-first, same, stored) depth 20
