-- ===== src/Sessions/Refresh.antt =====
-- services.py: `refresh`, the rotation of a refresh token under an idempotency key.
use new_mud_codex.Shared.{ℕ, Option, none, some, [], ◌∷◌, ◌++◌, if◌then◌else◌}
use new_mud_codex.Shared.Text.{Text, codes}
use new_mud_codex.Shared.Table.{first}
use new_mud_codex.Errors.{
  Result, pure, raise, ◌>>=◌, or_raise, refresh_failed, RefreshCode, refresh_unavailable,
  session_revoked,
}
use new_mud_codex.Tokens.{Crypto, refresh_token_hash, parse_refresh_token}
use new_mud_codex.Sessions.Tables.{
  Db, SessionState, Family, Credential, Terminal, failed, Reason, Settings,
}
use new_mud_codex.Sessions.Converge.{converge_authentication_control, revoke_family_for_replay}
use new_mud_codex.Sessions.Result.{
  Authentication, refresh_terminal_expires_at, authentication_result,
}
use new_mud_codex.Sessions.Request.{
  Value, Locked, Supply, Ending, returned, rotated, terminal_error, check_key, check_token,
  lock_rows, terminal_is, locator_is,
}
use new_mud_codex.Sessions.Rotation.{is_replayed, is_revocable, is_stale, rotate}
use new_mud_codex.Sessions.Retry.{replay_terminal}

module _ (c : Crypto) (settings : Settings) where
  unfoldable pub refresh_request_hash : ℕ → Text
  refresh_request_hash credential_id =
      c.sha256_hexdigest
        (codes "POST:/api/v1/auth/refresh:v1:" ++ c.hex credential_id ++ codes ":{}")

  unfoldable pub create_failed_terminal :
      Family → Text → Text → Credential → RefreshCode → ℕ → Db → Db
  create_failed_terminal family key hash credential code created_at db = record db {
    terminals =
        db.terminals
        ++ (record {
          family_id = family.family_id;
          idempotency_key = key;
          request_hash = hash;
          predecessor = credential.credential_id;
          successor = none;
          access_claims = [];
          kind = failed;
          error_code = some code;
          created_at = created_at;
          expires_at = refresh_terminal_expires_at c settings family created_at;
        })
          ∷ [];
  }

  abbrev pub refuse : Locked → Text → Text → Supply → Db → Result (Ending × Db)
  refuse l key hash s db = pure (
    terminal_error session_revoked,
    create_failed_terminal l.family key hash l.credential session_revoked s.now db,
  )

  unfoldable pub answer_request : Locked → Text → Text → Supply → Db → Result (Ending × Db)
  answer_request l key hash s db =
      if is_replayed l
      then refuse l key hash s (revoke_family_for_replay l.family l.session s.now db)
      else if is_revocable l s.now
      then refuse l key hash s
          (converge_authentication_control l.family l.session SessionState.revoked
            Reason.session_revoked s.now db).0
      else if is_stale l
      then refuse l key hash s db
      else rotate c settings l key hash s db

  abbrev pub answer : Option Terminal → Locked → Text → Text → Supply → Db → Result (Ending × Db)
  answer none l key hash s db = answer_request l key hash s db
  answer (some t) l key hash s db = do ending ← replay_terminal c l t hash s db; pure (ending, db)

  -- the transaction of `refresh`, from the locator on; an exception rolls its writes back
  unfoldable pub refresh_transaction : Credential → Text → Supply → Db → Db → Result (Ending × Db)
  refresh_transaction locator key s seen db = do
    l ← lock_rows locator seen db
    answer (first (terminal_is l.family.family_id key) db.terminals) l key
        (refresh_request_hash locator.credential_id) s db

  unfoldable pub find_locator : Text → Db → Result Credential
  find_locator token db = do
    parsed ← parse_refresh_token c token
    (credential_id, generation) ← or_raise parsed (refresh_failed refresh_unavailable)
    or_raise
        (first (locator_is credential_id generation (refresh_token_hash c token)) db.credentials)
        (refresh_failed refresh_unavailable)

  -- after the commit
  unfoldable pub finish : Ending → Supply → Result Authentication
  finish (returned a) s = pure a
  finish (rotated session successor claims) s =
      authentication_result c session successor claims s.result_now s.result_then
  finish (terminal_error code) s = raise (refresh_failed code)

  abbrev pub commit : Result (Ending × Db) → Supply → Db → Result Authentication × Db
  commit (pure (ending, db')) s db = (finish ending s, db')
  commit (raise e) s db = (raise e, db)

  -- what may raise before the commit
  unfoldable pub refresh_body : Value → Value → Supply → Db → Db → Result (Ending × Db)
  refresh_body refresh_token idempotency_key s seen db = do
    key ← check_key idempotency_key
    token ← check_token refresh_token
    locator ← find_locator token seen
    refresh_transaction locator key s seen db

  unfoldable pub refresh : Value → Value → Supply → Db → Db → Result Authentication × Db
  unfolding refresh_body
  refresh refresh_token idempotency_key s seen db =
      commit (refresh_body refresh_token idempotency_key s seen db) s db
