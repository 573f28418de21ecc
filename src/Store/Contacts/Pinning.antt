-- ===== src/Store/Contacts/Pinning.antt =====
-- An upsert keeps the fingerprints of a contact that is active or awaits its confirmation.
use snw_agent_link.Prelude.{
  ◌≡◌, refl, sym, ◌∙◌, true, Option, some, List, String, arith, same→eq, Bool-cases, Option-cases,
  inl, inr, ◌≢◌, ◌⊎◌,
}
use mathlib.Core.Path.{subst₂}
use snw_agent_link.Errors.{ok, err, identity_conflict}
use snw_agent_link.Time.{Time}
use snw_agent_link.Table.{select_one}
use snw_agent_link.Model.{Contact, active}
use snw_agent_link.Store.Tables.{Database}
use snw_agent_link.Store.Contacts.{
  contact_key, is_pinned, may_replace, contact_row, upsert_contact, find_contact,
}
use snw_agent_link.Store.Contacts.Laws.{
  contact_key-eq, find-upsert_contact_ne, find-upsert_contact_self,
}

-- The contact of a table under a key.
abbrev pub contact_at : String → String → List Contact → Option Contact
contact_at l r xs = select_one (contact_key l r) xs

-- The two fingerprints are those of the other contact.
pub record SameIdentity (a b : Contact) : Type 0 where
  pub host : b.remote_host_fingerprint ≡ a.remote_host_fingerprint
  pub agent : b.remote_agent_fingerprint ≡ a.remote_agent_fingerprint

-- Every contact that was active or awaited its confirmation is still there, with its identity.
abbrev pub Pins : List Contact → List Contact → Type 0
Pins xs ys =
    (l r : String) (c : Contact)
    → contact_at l r xs ≡ some c
    → is_pinned c.state ≡ true
    → (c' : Contact) × (contact_at l r ys ≡ some c') × SameIdentity c c'

-- Every contact that is active was so before.
abbrev pub ActivatesNone : List Contact → List Contact → Type 0
ActivatesNone xs ys =
    (l r : String) (c' : Contact)
    → contact_at l r ys ≡ some c'
    → c'.state ≡ active
    → (c : Contact) × (contact_at l r xs ≡ some c) × (c.state ≡ active)

pub Pins-refl : (xs : List Contact) → Pins xs xs
Pins-refl xs l r c e h = (c, e, record { host = refl; agent = refl })

pub ActivatesNone-refl : (xs : List Contact) → ActivatesNone xs xs
ActivatesNone-refl xs l r c e h = (c, e, h)

may_replace_pinned :
    (old new : Contact)
    → may_replace old new ≡ true
    → is_pinned old.state ≡ true
    → SameIdentity old new
unfolding may_replace
may_replace_pinned old new h pinned = ground (
  arith,
  same→eq old.remote_host_fingerprint new.remote_host_fingerprint,
  same→eq old.remote_agent_fingerprint new.remote_agent_fingerprint,
)

module _ (w : Time) (c : Contact) (d : Database) where
  abbrev old_contact : Option Contact
  old_contact = find_contact c.local_agent_id c.remote_agent_id d

  pub upsert_contact_outcome :
      ((upsert_contact w c d).0 ≡ ok tt)
      ⊎ (((upsert_contact w c d).0 ≡ err identity_conflict) × ((upsert_contact w c d).1 ≡ d))
  unfolding upsert_contact
  upsert_contact_outcome = elim (Option-cases old_contact) [
    | inl e ↦ ground arith
    | inr (x, e) ↦ ground arith
  ]

  replaced :
      (old : Contact)
      → find_contact c.local_agent_id c.remote_agent_id d ≡ some old
      → (upsert_contact w c d).0 ≡ ok tt
      → may_replace old (contact_row w c) ≡ true
  unfolding upsert_contact
  replaced old e h = ground arith

  pinned_self :
      (old : Contact)
      → find_contact c.local_agent_id c.remote_agent_id d ≡ some old
      → is_pinned old.state ≡ true
      → (c' : Contact) × (find_contact c.local_agent_id c.remote_agent_id (upsert_contact w c d).1
          ≡ some c')
        × SameIdentity old c'
  pinned_self old e pinned = elim upsert_contact_outcome [
    | inr (_, same_db) ↦ rw same_db (old, e, record { host = refl; agent = refl })
    | inl done ↦
        let (row, found, written) = find-upsert_contact_self w c d done in
        let kept = may_replace_pinned old (contact_row w c) (replaced old e done) pinned in
        (row, found, record { host = written.host ∙ kept.host; agent = written.agent ∙ kept.agent })
  ]

  inactive_self :
      c.state ≢ active
      → (c' : Contact)
      → find_contact c.local_agent_id c.remote_agent_id (upsert_contact w c d).1 ≡ some c'
      → c'.state ≡ active
      → (b : Contact) × (find_contact c.local_agent_id c.remote_agent_id d ≡ some b)
        × (b.state ≡ active)
  inactive_self not_active c' e h = elim upsert_contact_outcome [
    | inr (_, same_db) ↦ (c', rw same_db at e, h)
    | inl done ↦
        let (row, found, written) = find-upsert_contact_self w c d done in
        absurd (not_active (cc (found, e, written.state, h)))
  ]

  pub upsert_contact-Pins : Pins d.contacts (upsert_contact w c d).1.contacts
  upsert_contact-Pins l r old e pinned = elim (Bool-cases (contact_key l r c)) [
    | inl k ↦
        let (same_l, same_r) = contact_key-eq l r c k in
        subst₂
          (λ l r.
            contact_at l r d.contacts ≡ some old
            → (c' : Contact) × (contact_at l r (upsert_contact w c d).1.contacts ≡ some c')
              × SameIdentity old c')
          same_l same_r (λ e. pinned_self old e pinned) e
    | inr k ↦ (old, find-upsert_contact_ne w c d l r k ∙ e, record { host = refl; agent = refl })
  ]

  pub upsert_contact-ActivatesNone :
      c.state ≢ active → ActivatesNone d.contacts (upsert_contact w c d).1.contacts
  upsert_contact-ActivatesNone not_active l r c' e h = elim (Bool-cases (contact_key l r c)) [
    | inl k ↦
        let (same_l, same_r) = contact_key-eq l r c k in
        subst₂
          (λ l r.
            contact_at l r (upsert_contact w c d).1.contacts ≡ some c'
            → (b : Contact) × (contact_at l r d.contacts ≡ some b) × (b.state ≡ active))
          same_l same_r (λ e. inactive_self not_active c' e h) e
    | inr k ↦ (c', sym (find-upsert_contact_ne w c d l r k) ∙ e, h)
  ]
