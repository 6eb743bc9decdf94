-- ===== src/Game/Binding.antt =====
-- src/new_mud/apps/identity/consumers.py: the session that a connection is bound to.
use new_mud_codex.Shared.{timestamp, ℕ, Bool, false, Option, none, some, ◌==◌, if◌then◌else◌}
use new_mud_codex.Shared.Text.{Text, Text_equality, codes}
use new_mud_codex.Shared.Table.{first}
use new_mud_codex.Errors.{Result, pure, raise, ◌>>=◌, authentication_failed}
use new_mud_codex.Tokens.{
  Crypto, Dict, DecodeResult, valid, expired, invalid, decode_access_token_result,
}
use new_mud_codex.Sessions.Tables.{Db, GameAccount, AuthSession, account_is}
use new_mud_codex.Sessions.Request.{text}
use new_mud_codex.Sessions.Access.{
  Joined, auth_session_is_active, joined_session, resolve_active_auth_session, uuid_claim,
}
use new_mud_codex.Game.Connection.{GameSettings}

-- The tables and clocks that a handler reads: by `_resolve_session`, where the token does not
-- resolve, and by `_binding_is_active`.
pub record Reads : Type 0 where
  pub token_db : Db
  pub decode_now : ℕ
  pub token_now : ℕ
  pub later_db : Db
  pub later_now : ℕ
  pub binding_db : Db
  pub binding_now : ℕ

abbrev is_bound : GameSettings → Option Joined → ℕ → Bool
is_bound settings none now = false
is_bound settings (some j) now = auth_session_is_active j (some settings.content_instance_id) now

-- `_binding_is_active`
unfoldable pub binding_is_active : GameSettings → Option AuthSession → Reads → Bool
binding_is_active settings none reads = false
binding_is_active settings (some s) reads =
    is_bound settings (joined_session s.auth_session_id reads.binding_db) reads.binding_now

-- A session, or the code of the error.
pub data Found : Type 0 where
  session : AuthSession → Found
  refused : Text → Found

abbrev in_content : GameSettings → Option GameAccount → AuthSession → Found
in_content settings none s = refused (codes "TOKEN_INVALID")
in_content settings (some a) s =
    if a.instance_id == settings.content_instance_id
    then session s
    else refused (codes "TOKEN_INVALID")

abbrev why_refused : Option Joined → ℕ → Found
why_refused none now = refused (codes "TOKEN_INVALID")
why_refused (some j) now =
    if auth_session_is_active j none now
    then refused (codes "TOKEN_INVALID")
    else refused (codes "SESSION_REVOKED")

abbrev named_session : Option ℕ → Db → Option Joined
named_session none db = none
named_session (some k) db = joined_session k db

module _ (c : Crypto) (settings : GameSettings) where
  -- `except AuthenticationFailed`
  abbrev after_resolve : Result AuthSession → Dict → Reads → Result Found
  after_resolve (pure s) claims reads =
      pure (in_content settings (first (account_is s.game_account_id) reads.token_db.accounts) s)
  after_resolve (raise authentication_failed) claims reads = pure (
      why_refused (named_session (uuid_claim c (codes "auth_session_id") claims) reads.later_db)
        reads.later_now)
  after_resolve (raise e) claims reads = raise e

  abbrev with_decoded : DecodeResult → Text → Reads → Result Found
  with_decoded (expired claims) token reads = pure (refused (codes "TOKEN_EXPIRED"))
  with_decoded invalid token reads = pure (refused (codes "TOKEN_INVALID"))
  with_decoded (valid claims) token reads =
      after_resolve
        (resolve_active_auth_session c (text token) reads.decode_now reads.token_now reads.token_db)
        claims reads

  -- `_resolve_session`
  unfoldable pub resolve_session : Text → Reads → Result Found
  resolve_session token reads = do
    decoded ← decode_access_token_result c token (timestamp reads.decode_now)
    with_decoded decoded token reads
