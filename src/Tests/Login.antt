-- ===== src/Tests/Login.antt =====
-- The player logs in, refreshes the new token, and logs out.
use new_mud_codex.Shared.{inl, none, ℕ, ◌≡◌, ◌≢◌, refl, true, some, [], ◌∷◌, ◌++◌, arith}
use new_mud_codex.Shared.Text.{Text, codes, text_eq, split, rstrip}
use new_mud_codex.Shared.Table.{count}
use new_mud_codex.Errors.{pure}
use new_mud_codex.Tokens.{
  materialize_refresh_token, parse_refresh_token, signing_key, sign, base64url, get,
  encode_access_token, refresh_token_hash, Crypto, Dict, str, int, object, decode_access_token,
  decode_access_token_result, judge, padded,
}
use new_mud_codex.Tokens.Refresh.{parse-materialize}
use new_mud_codex.Tokens.Access.{signed_text}
use new_mud_codex.Sessions.Tables.{Db}
use new_mud_codex.Sessions.Result.{Authentication, access_claims}
use new_mud_codex.Sessions.Request.{text, not_text, is_idempotency_key}
use new_mud_codex.Sessions.Refresh.{refresh}
use new_mud_codex.Sessions.Login.{
  Host, LoginSupply, login, login_body, login_transaction, login_result, logged_in_db, new_session,
}
use new_mud_codex.Sessions.Logout.{
  logout, logout_sessions, logout_session, order_by_id, session_from_refresh_locator,
  session_from_access_locator, session_ids,
}
use new_mud_codex.Sessions.Access.{
  resolve_active_auth_session, auth_session_is_active, joined_session,
}
use new_mud_codex.Sessions.Converge.{
  converge_authentication_control, revoke_family, revoke_credentials, end_session,
}
use new_mud_codex.Sessions.Resolve.{resolve-logout}
use new_mud_codex.Sessions.Entry.{IsFresh}
use new_mud_codex.Sessions.FirstRefresh.{login-refresh}
use new_mud_codex.Sessions.Ended.{active_session_is, logout-ended}
use new_mud_codex.Tests.Toy.{toy, toy-Laws}
use new_mud_codex.Tests.Sessions.{
  secret, token, settings, player, account, session, start, supply, token_lem,
}

abbrev pub host : Host
host = record { check_password = text_eq; lower = λ t. t }

abbrev pub entry : LoginSupply
entry = record {
  session_id = 6;
  family_id = 6;
  credential_id = 5;
  jti = 6;
  device_id = codes "d";
  now = 1000000;
  response_at = 1000000;
}

abbrev pub entry_token : Text
entry_token = codes "r1.00000.1." ++ secret

abbrev entered : Db
entered = logged_in_db toy settings host player account entry_token entry start

abbrev welcome : Authentication
welcome = record {
  access_token =
      signed_text toy toy-Laws (codes "s")
        (access_claims toy settings (new_session toy settings host player account entry) 1000000 6);
  refresh_token = entry_token;
  expires_in = 9;
  refresh_max_age = 100;
  auth_session_id = 6;
  game_account_id = 1;
}

login_lem :
    login toy settings host (text (codes "yang_guo")) (text (codes "pw")) entry start start
    ≡ (pure welcome, entered)
unfolding login login_body login_transaction login_result materialize_refresh_token
    encode_access_token signing_key sign base64url access_claims get rstrip refresh_token_hash toy
    text_eq
login_lem = refl

start-IsFresh : IsFresh entry start
start-IsFresh = record { session_fresh = refl; family_fresh = refl; credential_fresh = refl }

k1_valid : is_idempotency_key (codes "k1") ≡ true
unfolding is_idempotency_key
k1_valid = refl

login-refresh_example :
    (b : Authentication) × ((refresh toy settings
        (text entry_token)
        (text (codes "k1"))
        supply
        entered
        entered).0
      ≡ pure b)
    × (b.auth_session_id ≡ 6)
login-refresh_example =
    login-refresh toy settings host toy-Laws (text (codes "yang_guo")) (text (codes "pw"))
      (codes "k1") entry supply start start entered welcome start-IsFresh (omega arith)
      (omega arith, tt) refl k1_valid login_lem (omega arith)

locators_lem : session_from_refresh_locator toy (text token) start ≡ pure (some 2)
unfolding session_from_refresh_locator refresh_token_hash toy text_eq
locators_lem = rw (parse-materialize toy toy-Laws 4 1 token (omega arith) token_lem) refl

logout-ended_example :
    count (active_session_is 2) (logout toy (text token) not_text 5 5 start start).1.sessions ≡ 0
unfolding session_from_access_locator session_ids
logout-ended_example =
    logout-ended toy (text token) not_text 5 5 start start (some 2) none session locators_lem refl
      (inl refl) (omega arith) refl refl

-- a store of claims that are read from every text
abbrev other_claims : Dict
other_claims =
    (codes "alg", str (codes "HS256"))
    ∷ (codes "typ", str (codes "JWT"))
    ∷ (codes "aud", str (codes "new-mud-h5"))
    ∷ (codes "exp", int 9)
    ∷ (codes "sub", str (codes "1111111"))
    ∷ (codes "auth_session_id", str (codes "000000"))
    ∷ (codes "game_account_id", str (codes "0"))
    ∷ []

abbrev reader : Crypto
reader = record toy { urlsafe_b64decode = λ t. some t; loads = λ t. some (object other_claims) }

abbrev access_token : Text
access_token = codes "h.c." ++ secret

abbrev left : Db
left = (logout reader (text token) not_text 5 5 entered entered).1

resolve_lem :
    resolve_active_auth_session reader (text access_token) 5 5 left
    ≡ pure (new_session reader settings host player account entry)
unfolding resolve_active_auth_session decode_access_token decode_access_token_result judge
    auth_session_is_active joined_session get split padded signing_key sign base64url rstrip toy
    text_eq logout session_from_refresh_locator session_from_access_locator session_ids
    refresh_token_hash logout_sessions logout_session order_by_id parse_refresh_token
    materialize_refresh_token converge_authentication_control revoke_family revoke_credentials
    end_session
resolve_lem = refl

reader_locators : session_from_refresh_locator reader (text token) entered ≡ pure (some 2)
unfolding session_from_refresh_locator refresh_token_hash parse_refresh_token
    materialize_refresh_token signing_key sign base64url rstrip split toy text_eq
reader_locators = refl

resolve-logout_example : ◌≢◌ {A = ℕ} 6 2
unfolding session_from_access_locator session_ids
resolve-logout_example =
    resolve-logout reader (text token) not_text (text access_token) 5 5 5 5 entered entered (some 2)
      none session (new_session reader settings host player account entry) reader_locators refl
      (inl refl) (omega arith) refl refl resolve_lem
