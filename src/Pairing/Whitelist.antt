-- ===== src/Pairing/Whitelist.antt =====
-- What the pairing service guarantees of the table of contacts: pinned identities, and a single way
-- to become active.
use snw_agent_link.Prelude.{◌≡◌, ◌≢◌, String, some, true}
use snw_agent_link.Model.{Contact, active}
use snw_agent_link.Time.{Time}
use snw_agent_link.Platform.{Platform}
use snw_agent_link.Store.Tables.{Database}
use snw_agent_link.Store.Contacts.{upsert_contact, find_contact, is_pinned}
use snw_agent_link.Store.Contacts.Pinning.{
  SameIdentity, Pins, Pins-refl, ActivatesNone, ActivatesNone-refl, upsert_contact-Pins,
  upsert_contact-ActivatesNone,
}
use snw_agent_link.Pairing.Guards.{Guards}
use snw_agent_link.Pairing.Guarded.{
  Guards-create_invite, Guards-import_invite, Guards-accept, Guards-approve, Guards-revoke,
  Guards-block, Guards-revoke_with_notice, Guards-apply_revocation, Guards-apply_confirmation,
  Guards-apply_receipt,
}
use snw_agent_link.Pairing.Operations.{
  Operation, create, import_, accept, approve, confirm, receive, revoke_local, revoke_notify,
  block_local, revoke_remote, perform,
}

upsert-Pins : (w : Time) (c : Contact) → Guards Pins (upsert_contact w c)
upsert-Pins w c = record { at = upsert_contact-Pins w c }

upsert-ActivatesNone :
    (w : Time) (c : Contact) → c.state ≢ active → Guards ActivatesNone (upsert_contact w c)
upsert-ActivatesNone w c h = record { at = λ d. upsert_contact-ActivatesNone w c d h }

-- ApplyConfirmation and ApplyActivationReceipt.
abbrev pub MayActivate : Operation → Type 0
MayActivate (confirm r i c) = Unit
MayActivate (receive r i c) = Unit
MayActivate _ = ⊥

module _ (p : Platform) where
  perform-Pins : (o : Operation) (d : Database) → Pins d.contacts (perform p o d).contacts
  unfolding perform
  perform-Pins (create r i x) d =
      (Guards-create_invite p Pins Pins-refl (λ w c _. upsert-Pins w c) r i x).at d
  perform-Pins (import_ r i x) d =
      (Guards-import_invite p Pins Pins-refl (λ w c _. upsert-Pins w c) r i x).at d
  perform-Pins (accept r i a b c e) d =
      (Guards-accept p Pins Pins-refl (λ w c _. upsert-Pins w c) r i a b c e).at d
  perform-Pins (approve r i x y) d =
      (Guards-approve p Pins Pins-refl (λ w c _. upsert-Pins w c) r i x y).at d
  perform-Pins (revoke_local r a b) d =
      (Guards-revoke p Pins Pins-refl (λ w c _. upsert-Pins w c) r a b).at d
  perform-Pins (revoke_notify r i a b) d =
      (Guards-revoke_with_notice p Pins Pins-refl (λ w c _. upsert-Pins w c) r i a b).at d
  perform-Pins (block_local r a b) d =
      (Guards-block p Pins Pins-refl (λ w c _. upsert-Pins w c) r a b).at d
  perform-Pins (revoke_remote r i x) d =
      (Guards-apply_revocation p Pins Pins-refl (λ w c _. upsert-Pins w c) r i x).at d
  perform-Pins (confirm r i x) d =
      (Guards-apply_confirmation p Pins Pins-refl upsert-Pins r i x).at d
  perform-Pins (receive r i x) d = (Guards-apply_receipt p Pins Pins-refl upsert-Pins r i x).at d

  perform-ActivatesNone :
      (o : Operation) (d : Database)
      → ¬ (MayActivate o)
      → ActivatesNone d.contacts (perform p o d).contacts
  unfolding perform
  perform-ActivatesNone (create r i x) d h =
      (Guards-create_invite p ActivatesNone ActivatesNone-refl upsert-ActivatesNone r i x).at d
  perform-ActivatesNone (import_ r i x) d h =
      (Guards-import_invite p ActivatesNone ActivatesNone-refl upsert-ActivatesNone r i x).at d
  perform-ActivatesNone (accept r i a b c e) d h =
      (Guards-accept p ActivatesNone ActivatesNone-refl upsert-ActivatesNone r i a b c e).at d
  perform-ActivatesNone (approve r i x y) d h =
      (Guards-approve p ActivatesNone ActivatesNone-refl upsert-ActivatesNone r i x y).at d
  perform-ActivatesNone (revoke_local r a b) d h =
      (Guards-revoke p ActivatesNone ActivatesNone-refl upsert-ActivatesNone r a b).at d
  perform-ActivatesNone (revoke_notify r i a b) d h =
      (Guards-revoke_with_notice p ActivatesNone ActivatesNone-refl upsert-ActivatesNone r i a b).at
        d
  perform-ActivatesNone (block_local r a b) d h =
      (Guards-block p ActivatesNone ActivatesNone-refl upsert-ActivatesNone r a b).at d
  perform-ActivatesNone (revoke_remote r i x) d h =
      (Guards-apply_revocation p ActivatesNone ActivatesNone-refl upsert-ActivatesNone r i x).at d
  perform-ActivatesNone (confirm r i x) d h = absurd (h tt)
  perform-ActivatesNone (receive r i x) d h = absurd (h tt)

  -- Whatever operation of the pairing service runs, and whether or not it returns an error, a contact
  -- that was active or awaited its confirmation is still in the table, under both of its
  -- fingerprints.
  pub perform-keeps_identity :
      (o : Operation) (d : Database) (l r : String) (c : Contact)
      → find_contact l r d ≡ some c
      → is_pinned c.state ≡ true
      → (c' : Contact) × (find_contact l r (perform p o d) ≡ some c') × SameIdentity c c'
  perform-keeps_identity o d l r c = perform-Pins o d l r c

  -- A contact that is active after an operation other than ApplyConfirmation and
  -- ApplyActivationReceipt was active before it, whether or not the operation returns an error.
  pub perform-activates_none :
      (o : Operation) (d : Database) (l r : String) (c' : Contact)
      → ¬ (MayActivate o)
      → find_contact l r (perform p o d) ≡ some c'
      → c'.state ≡ active
      → (c : Contact) × (find_contact l r d ≡ some c) × (c.state ≡ active)
  perform-activates_none o d l r c' h = perform-ActivatesNone o d h l r c'
