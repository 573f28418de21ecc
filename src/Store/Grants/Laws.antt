-- ===== src/Store/Grants/Laws.antt =====
-- What an attachment grant allows, and that a revoked grant is never allowed again.
use snw_agent_link.Prelude.{
  ◌≡◌, ◌≢◌, refl, ◌∙◌, true, false, some, none, List, [], ◌∷◌, String, arith, inl, inr, same→eq,
  same_refl, ◌&&◌, All, Option-cases, ap,
}
use snw_agent_link.Errors.{ok}
use snw_agent_link.Time.{Time, before, stored}
use snw_agent_link.Table.{select_one}
use snw_agent_link.Table.Laws.{
  select_one-insert, select_one-update, changed, update-clears, affected-none, select_one-holds,
}
use snw_agent_link.Model.{AttachmentGrant}
use snw_agent_link.Store.Tables.{Database, or_now}
use snw_agent_link.Store.Grants.{
  grant_key, grant_row, create_attachment_grant, get_attachment_grant, is_open, grant_matches,
  authorize_attachment_grant, coalesce, revoke_attachment_grant, contact_grants,
  revoke_attachment_grants_for_contact,
}

-- The claims of a caller that a grant bears out.
pub record IsGranted (id blob owner target context digest : String) (now : Time)
    (g : AttachmentGrant) (d : Database) : Type 0 where
  pub found : select_one (grant_key id) d.grants ≡ some g
  pub same_blob : g.blob_id ≡ blob
  pub same_owner : g.owner_agent_id ≡ owner
  pub same_target : g.target_agent_id ≡ target
  pub same_context : g.context_id ≡ context
  pub same_digest : g.digest ≡ digest
  pub not_revoked : g.revoked_at ≡ none
  pub not_expired : before now g.expires_at ≡ true

module _ (id blob owner target context digest : String) (now : Time) (d : Database) where
  -- AuthorizeAttachmentGrant returns a grant only if it is the one with the identifier, every field
  -- is the one that the caller claims, it is not revoked, and the time is before its expiry.
  pub authorize_attachment_grant-IsGranted :
      (g : AttachmentGrant)
      → authorize_attachment_grant id blob owner target context digest now d ≡ ok g
      → IsGranted id blob owner target context digest now g d
  unfolding authorize_attachment_grant get_attachment_grant grant_matches
  authorize_attachment_grant-IsGranted g h = ground (
    arith,
    same→eq g.blob_id blob,
    same→eq g.owner_agent_id owner,
    same→eq g.target_agent_id target,
    same→eq g.context_id context,
    same→eq g.digest digest,
  )

  -- AuthorizeAttachmentGrant returns the grant with the identifier whenever every field is the one
  -- that the caller claims, it is not revoked, and the time is before its expiry.
  pub authorize_attachment_grant_complete :
      (g : AttachmentGrant)
      → IsGranted id blob owner target context digest now g d
      → authorize_attachment_grant id blob owner target context digest now d ≡ ok g
  unfolding authorize_attachment_grant get_attachment_grant grant_matches
  authorize_attachment_grant_complete g h = ground (
    arith,
    h.found,
    h.same_blob,
    h.same_owner,
    h.same_target,
    h.same_context,
    h.same_digest,
    h.not_revoked,
    h.not_expired,
    same_refl blob,
    same_refl owner,
    same_refl target,
    same_refl context,
    same_refl digest,
  )

-- The operations of the store that write grants.
pub data GrantOperation : Type 0 where
  create_grant : Time → AttachmentGrant → GrantOperation
  revoke_grant : Time → String → Time → GrantOperation
  revoke_contact : Time → String → String → Time → GrantOperation

unfoldable pub run_grant : GrantOperation → Database → Database
run_grant (create_grant wall g) d = (create_attachment_grant wall g d).1
run_grant (revoke_grant wall id t) d = (revoke_attachment_grant wall id t d).1
run_grant (revoke_contact wall owner target t) d =
    (revoke_attachment_grants_for_contact wall owner target t d).1

unfoldable pub run_grants : List GrantOperation → Database → Database
run_grants [] d = d
run_grants (o ∷ os) d = run_grants os (run_grant o d)

-- The grant is there, and revoked.
pub record IsRevoked (id : String) (d : Database) : Type 0 where
  pub grant : AttachmentGrant
  pub found : select_one (grant_key id) d.grants ≡ some grant
  pub closed : is_open grant ≡ false

module _ (id : String) (d : Database) where
  create-IsRevoked :
      (wall : Time) (g : AttachmentGrant)
      → IsRevoked id d
      → IsRevoked id (create_attachment_grant wall g d).1
  unfolding create_attachment_grant
  create-IsRevoked wall g r = record {
    grant = r.grant;
    found = ground (arith, r.found, select_one-insert (grant_key id) (grant_row wall g) d.grants);
    closed = r.closed;
  }

  revoke-IsRevoked :
      (wall t : Time) (other : String)
      → IsRevoked id d
      → IsRevoked id (revoke_attachment_grant wall other t d).1
  unfolding revoke_attachment_grant grant_key
  revoke-IsRevoked wall t other r =
      let u = stored (or_now t wall) in
      let f = λ (g : AttachmentGrant). record g {
        revoked_at = coalesce g.revoked_at u;
        updated_at = u;
      } in
      record {
        grant = changed (grant_key id) (grant_key other) f r.grant;
        found =
            select_one-update (grant_key id) (grant_key other) f d.grants (λ _. refl)
            ∙ rw r.found refl;
        closed = ground (arith, r.closed);
      }

  revoke_contact-IsRevoked :
      (wall t : Time) (owner target : String)
      → IsRevoked id d
      → IsRevoked id (revoke_attachment_grants_for_contact wall owner target t d).1
  unfolding revoke_attachment_grants_for_contact grant_key
  revoke_contact-IsRevoked wall t owner target r =
      let u = stored (or_now t wall) in
      let f = λ (g : AttachmentGrant). record g { revoked_at = some u; updated_at = u } in
      let p = λ (g : AttachmentGrant). contact_grants owner target g && is_open g in
      record {
        grant = changed (grant_key id) p f r.grant;
        found = select_one-update (grant_key id) p f d.grants (λ _. refl) ∙ rw r.found refl;
        closed = ground (arith, r.closed);
      }

  revoke_attachment_grant-IsRevoked :
      (wall t : Time)
      → (revoke_attachment_grant wall id t d).0 ≡ ok tt
      → IsRevoked id (revoke_attachment_grant wall id t d).1
  unfolding revoke_attachment_grant grant_key
  revoke_attachment_grant-IsRevoked wall t h =
      let u = stored (or_now t wall) in
      let f = λ (g : AttachmentGrant). record g {
        revoked_at = coalesce g.revoked_at u;
        updated_at = u;
      } in
      elim (Option-cases (select_one (grant_key id) d.grants)) [
        | inl e ↦ absurd (ground (arith, affected-none (grant_key id) d.grants e))
        | inr (g, e) ↦ record {
          grant = f g;
          found =
              select_one-update (grant_key id) (grant_key id) f d.grants (λ _. refl)
              ∙ rw e (ap some (found_changed u g e));
          closed = ground arith;
        }
      ]
    where
      found_changed :
          (u : Time) (g : AttachmentGrant)
          → select_one (grant_key id) d.grants ≡ some g
          → changed
              (grant_key id)
              (grant_key id)
              (λ g. record g { revoked_at = coalesce g.revoked_at u; updated_at = u })
              g
            ≡ record g { revoked_at = coalesce g.revoked_at u; updated_at = u }
      found_changed u g e = rw (select_one-holds (grant_key id) g d.grants e) refl

  revoked-refused :
      (blob owner target context digest : String) (now : Time) (g : AttachmentGrant)
      → IsRevoked id d
      → authorize_attachment_grant id blob owner target context digest now d ≢ ok g
  revoked-refused blob owner target context digest now g r h =
      let a = authorize_attachment_grant-IsGranted id blob owner target context digest now d g h in
      ground (arith, a.found, r.found, a.not_revoked, r.closed)

run_grants-IsRevoked :
    (os : List GrantOperation) (id : String) (d : Database)
    → IsRevoked id d
    → IsRevoked id (run_grants os d)
unfolding run_grants run_grant
run_grants-IsRevoked [] id d r = r
run_grants-IsRevoked (create_grant wall g ∷ os) id d r =
    run_grants-IsRevoked os id _ (create-IsRevoked id d wall g r)
run_grants-IsRevoked (revoke_grant wall other t ∷ os) id d r =
    run_grants-IsRevoked os id _ (revoke-IsRevoked id d wall t other r)
run_grants-IsRevoked (revoke_contact wall owner target t ∷ os) id d r =
    run_grants-IsRevoked os id _ (revoke_contact-IsRevoked id d wall t owner target r)

-- Once RevokeAttachmentGrant has returned without an error, no sequence of creations and
-- revocations makes AuthorizeAttachmentGrant return that grant again, whatever the caller claims.
pub revoke_attachment_grant_final :
    (wall t : Time) (id : String) (os : List GrantOperation) (d : Database)
    (blob owner target context digest : String) (now : Time) (g : AttachmentGrant)
    → (revoke_attachment_grant wall id t d).0 ≡ ok tt
    → authorize_attachment_grant id blob owner target context digest now
        (run_grants os (revoke_attachment_grant wall id t d).1)
      ≢ ok g
revoke_attachment_grant_final wall t id os d blob owner target context digest now g h =
    revoked-refused id _ blob owner target context digest now g
      (run_grants-IsRevoked os id _ (revoke_attachment_grant-IsRevoked id d wall t h))

-- No grant of the pair is open after RevokeAttachmentGrantsForContact.
pub revoke_attachment_grants_for_contact-closes :
    (wall t : Time) (owner target : String) (d : Database)
    → All
        (λ g. (contact_grants owner target g && is_open g) ≡ false)
        (revoke_attachment_grants_for_contact wall owner target t d).1.grants
unfolding revoke_attachment_grants_for_contact contact_grants
revoke_attachment_grants_for_contact-closes wall t owner target d =
    update-clears (λ (g : AttachmentGrant). contact_grants owner target g && is_open g)
      (λ (g : AttachmentGrant). record g {
        revoked_at = some (stored (or_now t wall));
        updated_at = stored (or_now t wall);
      })
      d.grants λ g. ground arith
