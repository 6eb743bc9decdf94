-- ===== src/Sessions/Converge.antt =====
-- services.py: `_converge_authentication_control` and its callers' replay handling.
use new_mud_codex.Shared.{ℕ, ◌+◌, Bool, some, List, [], ◌∷◌, ◌++◌, if◌then◌else◌}
use new_mud_codex.Shared.Table.{update}
use new_mud_codex.Sessions.Tables.{
  Metadata, Db, Family, FamilyState, AuthSession, SessionState, Credential, CredentialState, Reason,
  AuditEvent, AuditType, refresh_token_replayed, is_active_session, is_active_family, session_is,
  family_is, active_in,
}

-- the bulk update of the family's active credentials
unfoldable pub revoke_credentials : ℕ → List Credential → List Credential
revoke_credentials family_id =
    update (active_in family_id)
      (λ c. record c { state = CredentialState.revoked; version = c.version + 1 })

unfoldable pub revoke_family : Family → Reason → ℕ → List Family → List Family
revoke_family family reason now rows =
    if is_active_family family.state
    then update (family_is family.family_id)
        (λ f. record f {
          state = FamilyState.revoked;
          revoked_at = some now;
          revoke_reason = some reason;
          version = family.version + 1;
        })
        rows
    else rows

unfoldable pub end_session :
    AuthSession → SessionState → Reason → ℕ → List AuthSession → List AuthSession
end_session session target reason now rows =
    if is_active_session session.state
    then update (session_is session.auth_session_id)
        (λ s. record s {
          state = target;
          revoked_at = some now;
          revoke_reason = some reason;
          version = session.version + 1;
        })
        rows
    else rows

-- The second part of the result is `session_changed`.
unfoldable pub converge_authentication_control :
    Family → AuthSession → SessionState → Reason → ℕ → Db → Db × Bool
converge_authentication_control family session target reason now db = (
  record db {
    credentials = revoke_credentials family.family_id db.credentials;
    families = revoke_family family reason now db.families;
    sessions = end_session session target reason now db.sessions;
    notices =
        if is_active_session session.state
        then db.notices ++ (session.auth_session_id, reason) ∷ []
        else db.notices;
  },
  is_active_session session.state,
)

abbrev pub audit : AuditEvent → Db → Db
audit event db = record db { audits = db.audits ++ event ∷ [] }

unfoldable pub revoke_family_for_replay : Family → AuthSession → ℕ → Db → Db
revoke_family_for_replay family session now db =
    audit
      (record {
        event_type = AuditType.refresh_replayed;
        user_id = session.user_id;
        auth_session_id = session.auth_session_id;
        reason_code = some refresh_token_replayed;
        metadata = Metadata.family_id family.family_id;
      })
      (converge_authentication_control family session SessionState.revoked refresh_token_replayed
        now db).0
