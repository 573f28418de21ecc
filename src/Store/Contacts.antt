-- ===== src/Store/Contacts.antt =====
-- UpsertContact, ListContacts and GetContact of internal/store/store.go.
pub mod Laws
pub mod Pinning
use snw_agent_link.Prelude.{
  Bool, true, false, ◌&&◌, ◌||◌, not, Option, none, some, List, String, same, if◌then◌else◌,
}
use snw_agent_link.Errors.{Result, ok, err, identity_conflict}
use snw_agent_link.Time.{Time, stored}
use snw_agent_link.Table.{select_one, select, update, insert}
use snw_agent_link.Table.Sort.{order_by}
use snw_agent_link.Model.{Contact, ContactState, active, awaiting_confirmation}
use snw_agent_link.Store.Tables.{Database, Db, or_now, or_not_found, text_le}

unfoldable pub contact_key : String → String → Contact → Bool
contact_key local remote c = same c.local_agent_id local && same c.remote_agent_id remote

-- `state IN ('active', 'awaiting_confirmation')`
abbrev pub is_pinned : ContactState → Bool
is_pinned active = true
is_pinned awaiting_confirmation = true
is_pinned _ = false

-- The WHERE clause of the upsert, of the old row and the new.
unfoldable pub may_replace : Contact → Contact → Bool
may_replace old new =
    not (is_pinned old.state)
    || (same old.remote_host_fingerprint new.remote_host_fingerprint
        && same old.remote_agent_fingerprint new.remote_agent_fingerprint)

-- `DO UPDATE SET …`: the key and the time of creation stay.
abbrev pub overwrite : Contact → Contact → Contact
overwrite new old = record old {
  remote_node_id = new.remote_node_id;
  remote_endpoint = new.remote_endpoint;
  remote_binding = new.remote_binding;
  remote_host_fingerprint = new.remote_host_fingerprint;
  remote_agent_fingerprint = new.remote_agent_fingerprint;
  state = new.state;
  updated_at = new.updated_at;
}

-- The row that the INSERT proposes.
abbrev pub contact_row : Time → Contact → Contact
contact_row wall c = record c {
  created_at = stored (or_now c.created_at wall);
  updated_at = stored wall;
}

upsert_row : Contact → Option Contact → Db (Unit {0})
upsert_row new none d = (ok tt, record d { contacts = insert new d.contacts })
upsert_row new (some old) d =
    if may_replace old new
    then (
      ok tt,
      record d {
        contacts =
            update (contact_key new.local_agent_id new.remote_agent_id) (overwrite new) d.contacts;
      },
    )
    else (err identity_conflict, d)

unfoldable pub upsert_contact : Time → Contact → Db (Unit {0})
unfolding upsert_row
upsert_contact wall c d =
    upsert_row (contact_row wall c)
      (select_one (contact_key c.local_agent_id c.remote_agent_id) d.contacts) d

unfoldable pub list_contacts : String → Database → List Contact
list_contacts local d =
    order_by (λ a b. text_le a.remote_agent_id b.remote_agent_id)
      (select (λ c. same c.local_agent_id local) d.contacts)

-- The row under a key.
abbrev pub find_contact : String → String → Database → Option Contact
find_contact local remote d = select_one (contact_key local remote) d.contacts

unfoldable pub get_contact : String → String → Database → Result Contact
get_contact local remote d = or_not_found (find_contact local remote d)
