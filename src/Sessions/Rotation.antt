-- ===== src/Sessions/Rotation.antt =====
-- services.py, `refresh`: the guards of the error branches, and the branch that rotates the token.
use new_mud_codex.Shared.{
  ℕ, ◌+◌, Bool, not, ◌&&◌, ◌||◌, none, some, List, [], ◌∷◌, ◌++◌, ltb, leb, ◌==◌, ℕ_equality,
}
use new_mud_codex.Shared.Text.{Text, Text_equality}
use new_mud_codex.Shared.Table.{update}
use new_mud_codex.Errors.{Result, pure, ◌>>=◌}
use new_mud_codex.Tokens.{Crypto, materialize_refresh_token, refresh_token_hash}
use new_mud_codex.Sessions.Tables.{
  Db, Family, Credential, CredentialState, Terminal, succeeded, Settings, AuditType, Metadata,
  is_active_session, is_active_family, is_active_credential, is_used_credential,
  is_active_lifecycle, family_is, credential_is,
}
use new_mud_codex.Sessions.Converge.{audit}
use new_mud_codex.Sessions.Result.{access_claims, refresh_terminal_expires_at}
use new_mud_codex.Sessions.Request.{Locked, Supply, Ending, rotated}

-- the guards of the three error branches
abbrev pub is_replayed : Locked → Bool
is_replayed l =
    is_used_credential l.credential.state && ltb l.credential.generation l.family.current_generation

abbrev pub is_revocable : Locked → ℕ → Bool
is_revocable l now =
    not (l.session.game_account_id == l.account.game_account_id)
    || not (l.family.auth_session_id == l.session.auth_session_id)
    || not (is_active_family l.family.state)
    || not (is_active_session l.session.state)
    || leb l.session.absolute_expires_at now
    || leb l.family.absolute_expires_at now
    || not (is_active_lifecycle l.account.lifecycle)
    || ltb l.account.lifecycle_version 1

abbrev pub is_stale : Locked → Bool
is_stale l =
    not (is_active_credential l.credential.state)
    || not (l.credential.generation == l.family.current_generation)

-- `credential.save(("state", "used_at", "version"))` and, after the successor is there,
-- `credential.save(("replaced_by",))`
unfoldable pub use_credential : Credential → ℕ → List Credential → List Credential
use_credential credential now = update (credential_is credential.credential_id) (λ r. record r {
  state = CredentialState.used;
  used_at = some now;
  version = credential.version + 1;
})

unfoldable pub link_successor : Credential → ℕ → List Credential → List Credential
link_successor credential successor_id =
    update (credential_is credential.credential_id)
      (λ r. record r { replaced_by = some successor_id })

unfoldable pub advance_family : Family → List Family → List Family
advance_family family = update (family_is family.family_id) (λ f. record f {
  current_generation = family.current_generation + 1;
  version = family.version + 1;
})

module _ (c : Crypto) (settings : Settings) where
  abbrev pub successor_of : Locked → Text → Supply → Credential
  successor_of l token s = record {
    credential_id = s.successor_id;
    family_id = l.family.family_id;
    generation = l.family.current_generation + 1;
    token_hash = refresh_token_hash c token;
    jti_hash = refresh_token_hash c (c.hex s.successor_id);
    state = CredentialState.active;
    issued_at = s.now;
    used_at = none;
    expires_at = l.family.absolute_expires_at;
    replaced_by = none;
    version = 1;
  }

  abbrev pub rotated_credentials : Locked → Text → Supply → List Credential → List Credential
  rotated_credentials l token s rows =
      link_successor l.credential s.successor_id
        (use_credential l.credential s.now rows ++ successor_of l token s ∷ [])

  abbrev pub success_terminal : Locked → Text → Text → Supply → Terminal
  success_terminal l key hash s = record {
    family_id = l.family.family_id;
    idempotency_key = key;
    request_hash = hash;
    predecessor = l.credential.credential_id;
    successor = some s.successor_id;
    access_claims = access_claims c settings l.session s.now s.jti;
    kind = succeeded;
    error_code = none;
    created_at = s.now;
    expires_at = refresh_terminal_expires_at c settings l.family s.now;
  }

  abbrev pub rotated_db : Locked → Text → Text → Text → Supply → Db → Db
  rotated_db l token key hash s db =
      audit
        (record {
          event_type = AuditType.refresh_succeeded;
          user_id = l.session.user_id;
          auth_session_id = l.session.auth_session_id;
          reason_code = none;
          metadata = Metadata.generation (l.family.current_generation + 1);
        })
        (record db {
          credentials = rotated_credentials l token s db.credentials;
          families = advance_family l.family db.families;
          terminals = db.terminals ++ success_terminal l key hash s ∷ [];
        })

  unfoldable pub rotate : Locked → Text → Text → Supply → Db → Result (Ending × Db)
  rotate l key hash s db = do
    token ← materialize_refresh_token c s.successor_id (l.family.current_generation + 1)
    pure (
      rotated l.session (successor_of l token s) (access_claims c settings l.session s.now s.jti),
      rotated_db l token key hash s db,
    )
