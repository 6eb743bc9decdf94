-- ===== src/Sessions/Access.antt =====
-- services.py: which sessions are active, and the session that an access token names.
use new_mud_codex.Shared.{
  timestamp, ℕ, Bool, not, true, ◌&&◌, ◌||◌, Option, none, some, ltb, ◌==◌, ℕ_equality,
}
use new_mud_codex.Shared.Text.{Text, Text_equality, codes}
use new_mud_codex.Shared.Table.{first}
use new_mud_codex.Errors.{
  Result, pure, raise, ◌>>=◌, ◌>>◌, raise_if, or_raise, except_as, authentication_failed,
}
use new_mud_codex.Tokens.{Crypto, Dict, Scalar, get, decode_access_token, str_of}
use new_mud_codex.Sessions.Tables.{
  Db, User, GameAccount, AuthSession, is_active_session, is_active_lifecycle, session_is, user_is,
  account_is,
}
use new_mud_codex.Sessions.Request.{Value, text, not_text}

-- A session with its `user` and its `game_account`.
pub record Joined : Type 0 where
  pub session : AuthSession
  pub user : User
  pub account : GameAccount

-- `instance_id` may be `None`
abbrev in_instance : Option Text → GameAccount → Bool
in_instance none a = true
in_instance (some i) a = a.instance_id == i

unfoldable pub auth_session_is_active : Joined → Option Text → ℕ → Bool
auth_session_is_active j instance_id now =
    is_active_session j.session.state
    && ltb now j.session.absolute_expires_at
    && j.user.is_active
    && is_active_lifecycle j.account.lifecycle
    && j.account.user_id == j.session.user_id
    && in_instance instance_id j.account

abbrev join_account : AuthSession → User → Option GameAccount → Option Joined
join_account s u none = none
join_account s u (some a) = some (record { session = s; user = u; account = a })

abbrev join_user : Db → AuthSession → Option User → Option Joined
join_user db s none = none
join_user db s (some u) = join_account s u (first (account_is s.game_account_id) db.accounts)

abbrev join_session : Db → Option AuthSession → Option Joined
join_session db none = none
join_session db (some s) = join_user db s (first (user_is s.user_id) db.users)

-- `AuthSession.objects.select_related("user", "game_account").get(pk=…)`
unfoldable pub joined_session : ℕ → Db → Option Joined
joined_session k db = join_session db (first (session_is k) db.sessions)

module _ (c : Crypto) where
  abbrev pub uuid_of : Option Scalar → Option ℕ
  uuid_of none = none
  uuid_of (some v) = c.uuid_of_hex (str_of c v)

  abbrev pub text_of : Option Scalar → Option Text
  text_of none = none
  text_of (some v) = some (str_of c v)

  -- `uuid.UUID(str(claims[key]))`; none: `KeyError` or `ValueError`
  abbrev pub uuid_claim : Text → Dict → Option ℕ
  uuid_claim key claims = elim (get key claims) [
    | none ↦ none
    | some v ↦ c.uuid_of_hex (str_of c v)
  ]

  abbrev pub str_claim : Text → Dict → Option Text
  str_claim key claims = text_of (get key claims)

  -- `timezone.now()` is read by the decoder and by `auth_session_is_active`.
  unfoldable pub resolve_active_auth_session : Value → ℕ → ℕ → Db → Result AuthSession
  resolve_active_auth_session not_text decode_now now db = raise authentication_failed
  resolve_active_auth_session (text access_token) decode_now now db = do
    decoded ←
        except_as authentication_failed (decode_access_token c access_token (timestamp decode_now))
    claims ← or_raise decoded authentication_failed
    auth_session_id ← or_raise (uuid_claim (codes "auth_session_id") claims) authentication_failed
    claimed_user_id ← or_raise (str_claim (codes "sub") claims) authentication_failed
    claimed_account_id ←
        or_raise (uuid_claim (codes "game_account_id") claims) authentication_failed
    j ← or_raise (joined_session auth_session_id db) authentication_failed
    raise_if
        (not (auth_session_is_active j none now)
          || not (claimed_user_id == c.str_of_int j.session.user_id)
          || not (claimed_account_id == j.session.game_account_id))
        authentication_failed
    pure j.session
