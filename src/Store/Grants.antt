-- ===== src/Store/Grants.antt =====
-- The attachment grants of internal/store/store.go.
pub mod Laws
use snw_agent_link.Prelude.{
  ℕ, Bool, true, false, ◌&&◌, ◌||◌, not, Option, none, some, String, same, is_empty, if◌then◌else◌,
}
use snw_agent_link.Prelude.Int.{is_negative}
use snw_agent_link.Errors.{
  Error, Result, ok, err, constraint, not_found, grant_denied, grant_expired, grant_revoked,
}
use snw_agent_link.Time.{Time, is_zero, before, stored}
use snw_agent_link.Table.{select_one, update, affected, taken, insert}
use snw_agent_link.Model.{AttachmentGrant}
use snw_agent_link.Store.Tables.{Database, Db, or_now, or_not_found, require_one_row}

unfoldable pub grant_key : String → AttachmentGrant → Bool
grant_key id g = same g.grant_id id

abbrev pub is_incomplete : AttachmentGrant → Bool
is_incomplete g =
    is_empty g.grant_id
    || (is_empty g.blob_id
        || (is_empty g.owner_agent_id
            || (is_empty g.target_agent_id
                || (is_empty g.context_id
                    || (is_empty g.digest || (is_negative g.size || is_zero g.expires_at))))))

-- The table has no column for the URI.
abbrev pub grant_row : Time → AttachmentGrant → AttachmentGrant
grant_row wall g = record g {
  blob_uri = "";
  expires_at = stored g.expires_at;
  revoked_at = none;
  created_at = stored (or_now g.created_at wall);
  updated_at = stored wall;
}

unfoldable pub create_attachment_grant : Time → AttachmentGrant → Db (Unit {0})
create_attachment_grant wall g d =
    if is_incomplete g
    then (err grant_denied, d)
    else if taken (grant_key g.grant_id) d.grants
    then (err constraint, d)
    else (ok tt, record d { grants = insert (grant_row wall g) d.grants })

unfoldable pub get_attachment_grant : String → Database → Result AttachmentGrant
get_attachment_grant id d = or_not_found (select_one (grant_key id) d.grants)

-- `RevokedAt == nil`
abbrev pub is_open : AttachmentGrant → Bool
is_open g = elim g.revoked_at [ none ↦ true | some t ↦ false ]

-- The fields that the caller claims are those of the grant.
unfoldable pub grant_matches : String → String → String → String → String → AttachmentGrant → Bool
grant_matches blob owner target context digest g =
    same g.blob_id blob
    && (same g.owner_agent_id owner
        && (same g.target_agent_id target && (same g.context_id context && same g.digest digest)))

check_grant : Bool → Time → AttachmentGrant → Result AttachmentGrant
check_grant matches now g =
    if not matches
    then err grant_denied
    else if not (is_open g)
    then err grant_revoked
    else if not (before now g.expires_at)
    then err grant_expired
    else ok g

-- A grant that is not there is denied; any other error is passed on.
abbrev denied_if_missing : Error → Error
denied_if_missing not_found = grant_denied
denied_if_missing e = e

unfoldable pub authorize_attachment_grant :
    String → String → String → String → String → String → Time → Database → Result AttachmentGrant
unfolding check_grant get_attachment_grant
authorize_attachment_grant id blob owner target context digest now d =
    elim (get_attachment_grant id d) [
      | ok g ↦ check_grant (grant_matches blob owner target context digest g) now g
      | err e ↦ err (denied_if_missing e)
    ]

-- `COALESCE(revoked_at, ?)`
abbrev pub coalesce : Option Time → Time → Option Time
coalesce none t = some t
coalesce (some old) t = some old

unfoldable pub revoke_attachment_grant : Time → String → Time → Db (Unit {0})
revoke_attachment_grant wall id revoked_at d =
    let t = stored (or_now revoked_at wall) in
    (
      require_one_row (affected (grant_key id) d.grants),
      record d {
        grants =
            update (grant_key id)
              (λ g. record g { revoked_at = coalesce g.revoked_at t; updated_at = t }) d.grants;
      },
    )

unfoldable pub contact_grants : String → String → AttachmentGrant → Bool
contact_grants owner target g = same g.owner_agent_id owner && same g.target_agent_id target

unfoldable pub revoke_attachment_grants_for_contact : Time → String → String → Time → Db ℕ
revoke_attachment_grants_for_contact wall owner target revoked_at d =
    let t = stored (or_now revoked_at wall) in
    let p = λ (g : AttachmentGrant). contact_grants owner target g && is_open g in
    (
      ok (affected p d.grants),
      record d {
        grants = update p (λ g. record g { revoked_at = some t; updated_at = t }) d.grants;
      },
    )
