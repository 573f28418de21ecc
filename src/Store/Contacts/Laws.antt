-- ===== src/Store/Contacts/Laws.antt =====
-- What an upsert does to the contact under each key.
use mathlib.Core.Option
use snw_agent_link.Prelude.{
  ◌≡◌, refl, Bool, true, false, Option, none, some, List, String, same→eq, same_refl, arith, ◌∙◌,
  Option-cases, inl, inr,
}
use snw_agent_link.Errors.{Error, ok, err}
use snw_agent_link.Time.{Time}
use snw_agent_link.Table.{select_one, update, insert}
use snw_agent_link.Table.Laws.{select_one-holds, select_one-insert, select_one-update, changed}
use snw_agent_link.Model.{Contact}
use snw_agent_link.Store.Tables.{Database}
use snw_agent_link.Store.Contacts.{
  contact_key, overwrite, contact_row, upsert_contact, find_contact,
}

pub contact_key-eq :
    (l r : String) (c : Contact)
    → contact_key l r c ≡ true
    → (c.local_agent_id ≡ l) × (c.remote_agent_id ≡ r)
unfolding contact_key
contact_key-eq l r c h = ground (arith, same→eq c.local_agent_id l, same→eq c.remote_agent_id r)

pub contact_key_self : (c : Contact) → contact_key c.local_agent_id c.remote_agent_id c ≡ true
unfolding contact_key
contact_key_self c = ground (arith, same_refl c.local_agent_id, same_refl c.remote_agent_id)

-- The contact under a key is one with that key.
pub find_contact-key :
    (l r : String) (c : Contact) (d : Database)
    → find_contact l r d ≡ some c
    → (c.local_agent_id ≡ l) × (c.remote_agent_id ≡ r)
find_contact-key l r c d h =
    contact_key-eq l r c (select_one-holds (contact_key l r) c d.contacts h)

-- The fields that an upsert leaves in the table.
pub record IsWritten (c : Contact) (row : Contact) : Type 0 where
  pub local_agent_id : row.local_agent_id ≡ c.local_agent_id
  pub remote_agent_id : row.remote_agent_id ≡ c.remote_agent_id
  pub state : row.state ≡ c.state
  pub host : row.remote_host_fingerprint ≡ c.remote_host_fingerprint
  pub agent : row.remote_agent_fingerprint ≡ c.remote_agent_fingerprint
  pub node : row.remote_node_id ≡ c.remote_node_id
  pub endpoint : row.remote_endpoint ≡ c.remote_endpoint
  pub binding : row.remote_binding ≡ c.remote_binding

-- Whether two keys are the same.
abbrev pub key_eq : String → String → Contact → Bool
key_eq l r c = contact_key l r c

key_overwrite :
    (l r : String) (new x : Contact) → contact_key l r (overwrite new x) ≡ contact_key l r x
unfolding contact_key
key_overwrite l r new x = refl

key_row :
    (l r : String) (w : Time) (c : Contact) → contact_key l r (contact_row w c) ≡ contact_key l r c
unfolding contact_key
key_row l r w c = refl

-- A row is under one key only.
key_apart :
    (l r : String) (c x : Contact)
    → contact_key l r c ≡ false
    → contact_key l r x ≡ true
    → contact_key c.local_agent_id c.remote_agent_id x ≡ false
unfolding contact_key
key_apart l r c x h k = ground (
  arith,
  same→eq x.local_agent_id l,
  same→eq x.remote_agent_id r,
  same→eq x.local_agent_id c.local_agent_id,
  same→eq x.remote_agent_id c.remote_agent_id,
  same_refl l,
  same_refl r,
)

find-insert_ne :
    (l r : String) (new : Contact) (xs : List Contact)
    → contact_key l r new ≡ false
    → select_one (contact_key l r) (insert new xs) ≡ select_one (contact_key l r) xs
find-insert_ne l r new xs h = ground (arith, select_one-insert (contact_key l r) new xs)

map_changed_ne :
    (l r : String) (new : Contact) (o : Option Contact)
    → contact_key l r new ≡ false
    → ((x : Contact) → o ≡ some x → contact_key l r x ≡ true)
    → Option.map
        (changed
          (contact_key l r)
          (contact_key new.local_agent_id new.remote_agent_id)
          (overwrite new))
        o
      ≡ o
map_changed_ne l r new none h holds = refl
map_changed_ne l r new (some x) h holds = rw (key_apart l r new x h (holds x refl))

find-update_ne :
    (l r : String) (new : Contact) (xs : List Contact)
    → contact_key l r new ≡ false
    → select_one
        (contact_key l r)
        (update (contact_key new.local_agent_id new.remote_agent_id) (overwrite new) xs)
      ≡ select_one (contact_key l r) xs
find-update_ne l r new xs h =
    select_one-update (contact_key l r) (contact_key new.local_agent_id new.remote_agent_id)
      (overwrite new) xs (λ x. key_overwrite l r new x)
    ∙ map_changed_ne l r new (select_one (contact_key l r) xs) h
        (λ x e. select_one-holds (contact_key l r) x xs e)

find-insert_self :
    (new : Contact) (xs : List Contact)
    → select_one (contact_key new.local_agent_id new.remote_agent_id) xs ≡ none
    → select_one (contact_key new.local_agent_id new.remote_agent_id) (insert new xs) ≡ some new
find-insert_self new xs h = ground (
  arith,
  contact_key_self new,
  select_one-insert (contact_key new.local_agent_id new.remote_agent_id) new xs,
)

find-update_self :
    (new x : Contact) (xs : List Contact)
    → select_one (contact_key new.local_agent_id new.remote_agent_id) xs ≡ some x
    → select_one
        (contact_key new.local_agent_id new.remote_agent_id)
        (update (contact_key new.local_agent_id new.remote_agent_id) (overwrite new) xs)
      ≡ some (overwrite new x)
find-update_self new x xs h =
    let key = contact_key new.local_agent_id new.remote_agent_id in
    select_one-update key key (overwrite new) xs
      (λ x. key_overwrite new.local_agent_id new.remote_agent_id new x)
    ∙ rw (h, select_one-holds key x xs h)

module _ (w : Time) (c : Contact) (d : Database) where
  -- An upsert that fails changes nothing.
  pub upsert_contact_failed :
      {e : Error} → (upsert_contact w c d).0 ≡ err e → (upsert_contact w c d).1 ≡ d
  unfolding upsert_contact
  upsert_contact_failed h = ground arith

  -- The contact under another key is as it was.
  pub find-upsert_contact_ne :
      (l r : String)
      → contact_key l r c ≡ false
      → find_contact l r (upsert_contact w c d).1 ≡ find_contact l r d
  unfolding upsert_contact
  find-upsert_contact_ne l r h =
      let new = contact_row w c in
      ground (
        arith,
        key_row l r w c,
        find-insert_ne l r new d.contacts,
        find-update_ne l r new d.contacts,
      )

  -- After an upsert that succeeds the row has the fields of the contact.
  pub find-upsert_contact_self :
      (upsert_contact w c d).0 ≡ ok tt
      → (row : Contact) × (find_contact c.local_agent_id c.remote_agent_id (upsert_contact w c d).1
          ≡ some row)
        × IsWritten c row
  unfolding upsert_contact
  find-upsert_contact_self h = elim (Option-cases old) [
    | inl e ↦ (new, ground (arith, find-insert_self new d.contacts e), written)
    | inr (x, e) ↦ (
      overwrite new x,
      ground (arith, find-update_self new x d.contacts e),
      overwritten x (find_contact-key c.local_agent_id c.remote_agent_id x d e),
    )
  ]
    where
      new : Contact
      new = contact_row w c

      old : Option Contact
      old = find_contact c.local_agent_id c.remote_agent_id d

      written : IsWritten c new
      written = ground arith

      overwritten :
          (x : Contact)
          → (x.local_agent_id ≡ c.local_agent_id) × (x.remote_agent_id ≡ c.remote_agent_id)
          → IsWritten c (overwrite new x)
      overwritten x h = ground arith
