-- ===== src/Sessions/Retry.antt =====
-- services.py, `refresh`: the answer to a request that has a terminal record.
use new_mud_codex.Shared.{
  ℕ, Bool, not, ◌&&◌, Option, none, some, ltb, ◌==◌, if◌then◌else◌, ℕ_equality,
}
use new_mud_codex.Shared.Text.{Text, Text_equality}
use new_mud_codex.Shared.Table.{first}
use new_mud_codex.Errors.{
  Result, pure, raise, ◌>>=◌, ◌>>◌, raise_if, refresh_failed, RefreshCode, refresh_unavailable,
  idempotency_conflict, session_revoked, request_superseded,
}
use new_mud_codex.Tokens.{Crypto}
use new_mud_codex.Sessions.Tables.{
  Db, Credential, Terminal, TerminalKind, succeeded, failed, is_active_session,
  is_active_credential, is_active_lifecycle, credential_is,
}
use new_mud_codex.Sessions.Result.{authentication_result}
use new_mud_codex.Sessions.Request.{Locked, Supply, Ending, returned}

module _ (c : Crypto) where
  -- `terminal is not None`: the request was answered before.
  abbrev code_or : Option RefreshCode → RefreshCode
  code_or none = refresh_unavailable
  code_or (some code) = code

  abbrev find_successor : Db → Option ℕ → Option Credential
  find_successor db none = none
  find_successor db (some k) = first (credential_is k) db.credentials

  -- the guard under which a success is repeated
  abbrev session_usable : Locked → Credential → ℕ → Bool
  session_usable l successor now =
      is_active_lifecycle l.account.lifecycle
      && is_active_session l.session.state
      && ltb now l.session.absolute_expires_at
      && ltb now l.family.absolute_expires_at
      && ltb now successor.expires_at

  abbrev replay_success : Locked → Terminal → Option Credential → Supply → Result Ending
  replay_success l t none s = raise (refresh_failed request_superseded)
  replay_success l t (some successor) s =
      if is_active_credential successor.state && successor.generation == l.family.current_generation
      then (if session_usable l successor s.now
          then (do
            a ←
                authentication_result c l.session successor t.access_claims s.result_now
                  s.result_then
            pure (returned a))
          else raise (refresh_failed session_revoked))
      else raise (refresh_failed request_superseded)

  abbrev replay_kind : TerminalKind → Locked → Terminal → Supply → Db → Result Ending
  replay_kind failed l t s db = raise (refresh_failed (code_or t.error_code))
  replay_kind succeeded l t s db = replay_success l t (find_successor db t.successor) s

  unfoldable pub replay_terminal : Locked → Terminal → Text → Supply → Db → Result Ending
  replay_terminal l t hash s db = do
    raise_if (not (t.request_hash == hash)) (refresh_failed idempotency_conflict)
    replay_kind t.kind l t s db
