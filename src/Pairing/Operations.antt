-- ===== src/Pairing/Operations.antt =====
-- The operations of the pairing service as values, so that a run of the service is a list of them.
use snw_agent_link.Prelude.{Option, List, [], ◌∷◌, String}
use snw_agent_link.Platform.{Platform}
use snw_agent_link.Identity.{Identity}
use snw_agent_link.Store.Tables.{Database}
use snw_agent_link.Pairing.Payloads.{
  Invite, Acceptance, Confirmation, ActivationReceipt, RevocationNotice, CreateInviteInput,
  ApproveAcceptanceInput,
}
use snw_agent_link.Pairing.Invite.{Readings, create_invite, import_invite}
use snw_agent_link.Pairing.Accept.{accept_imported_invite, approve_acceptance}
use snw_agent_link.Pairing.Confirm.{apply_confirmation, apply_activation_receipt}
use snw_agent_link.Pairing.Revoke.{revoke, revoke_with_notice, block, apply_revocation}

pub data Operation : Type 0 where
  create : Readings → Option Identity → CreateInviteInput → Operation
  import_ : Readings → Option Identity → Invite → Operation
  accept : Readings → Option Identity → String → String → String → String → Operation
  approve : Readings → Option Identity → Acceptance → ApproveAcceptanceInput → Operation
  confirm : Readings → Option Identity → Confirmation → Operation
  receive : Readings → Option Identity → ActivationReceipt → Operation
  revoke_local : Readings → String → String → Operation
  revoke_notify : Readings → Option Identity → String → String → Operation
  block_local : Readings → String → String → Operation
  revoke_remote : Readings → Option Identity → RevocationNotice → Operation

module _ (p : Platform) where
  -- The database after an operation, whether or not it returned an error.
  unfoldable pub perform : Operation → Database → Database
  perform (create r i input) d = (create_invite p r i input d).1
  perform (import_ r i invite) d = (import_invite p r i invite d).1
  perform (accept r i id host address node) d =
      (accept_imported_invite p r i id host address node d).1
  perform (approve r i acceptance approval) d = (approve_acceptance p r i acceptance approval d).1
  perform (confirm r i confirmation) d = (apply_confirmation p r i confirmation d).1
  perform (receive r i receipt) d = (apply_activation_receipt p r i receipt d).1
  perform (revoke_local r local remote) d = (revoke r local remote d).1
  perform (revoke_notify r i remote reason) d = (revoke_with_notice p r i remote reason d).1
  perform (block_local r local remote) d = (block r local remote d).1
  perform (revoke_remote r i notice) d = (apply_revocation p r i notice d).1

  unfoldable pub perform_all : List Operation → Database → Database
  perform_all [] d = d
  perform_all (o ∷ os) d = perform_all os (perform o d)
