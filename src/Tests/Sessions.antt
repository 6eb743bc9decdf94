-- ===== src/Tests/Sessions.antt =====
-- A player with one session, whose token is refreshed.
use new_mud_codex.Shared.{◌≤◌, ◌≡◌, ◌≢◌, refl, true, none, some, [], ◌∷◌, ◌++◌, arith, replicate}
use new_mud_codex.Shared.Text.{Text, codes, text_eq, split, rstrip}
use new_mud_codex.Errors.{pure}
use new_mud_codex.Tokens.{
  materialize_refresh_token, parse_refresh_token, signing_key, sign, base64url, header, object,
  judge, get, encode_access_token, decode_access_token_result, valid, refresh_token_hash,
}
use new_mud_codex.Tokens.Refresh.{parse-materialize, parse_sound}
use new_mud_codex.Tokens.Access.{decode-encode, signed_text}
use new_mud_codex.Sessions.Tables.{
  Db, User, GameAccount, AuthSession, Family, Credential, CredentialState, SessionState,
  FamilyState, Lifecycle, Settings,
}
use new_mud_codex.Sessions.Result.{
  Authentication, access_claims, authentication_result, authentication_parts,
}
use new_mud_codex.Sessions.Request.{
  text, Locked, Supply, is_idempotency_key, check_key, check_token, lock_rows,
}
use new_mud_codex.Sessions.Refresh.{
  refresh, refresh_transaction, find_locator, answer_request, finish, refresh_request_hash,
}
use new_mud_codex.Sessions.Rotation.{rotate, rotated_db}
use new_mud_codex.Sessions.OneActive.{OneActive, refresh-OneActive}
use new_mud_codex.Sessions.Branches.{Consistent}
use new_mud_codex.Sessions.Reuse.{Reaches}
use new_mud_codex.Sessions.Repeat.{SameTokens, refresh_repeat}
use new_mud_codex.Sessions.Theft.{Refused, refresh_reused-Refused}
use new_mud_codex.Tests.Toy.{toy, toy-Laws, claims, load}

abbrev pub secret : Text
secret = replicate 115 b'A' ++ b'B' ∷ []

abbrev pub token : Text
token = codes "r1.0000.1." ++ secret

pub token_lem : materialize_refresh_token toy 4 1 ≡ pure token
unfolding materialize_refresh_token signing_key sign base64url rstrip toy text_eq
token_lem = refl

parse-materialize_example : parse_refresh_token toy token ≡ pure (some (4, 1))
parse-materialize_example = parse-materialize toy toy-Laws 4 1 token (omega arith) token_lem

parse_sound_example : (1 ≤ 1) × (materialize_refresh_token toy 4 1 ≡ pure token)
parse_sound_example = parse_sound toy token 4 1 parse-materialize_example

access_token_lem :
    encode_access_token toy claims ≡ pure (signed_text toy toy-Laws (codes "s") claims)
unfolding encode_access_token signing_key toy text_eq
access_token_lem = refl

decode-encode_example :
    decode_access_token_result toy (signed_text toy toy-Laws (codes "s") claims) 3
    ≡ pure (judge (object header) (object claims) 3)
unfolding toy load
decode-encode_example =
    decode-encode toy toy-Laws claims header claims (signed_text toy toy-Laws (codes "s") claims) 3
      refl refl access_token_lem

judge_lem : judge (object header) (object claims) 3 ≡ valid claims
unfolding judge get text_eq
judge_lem = refl

abbrev pub settings : Settings
settings = record {
  content_instance_id = codes "main";
  access_token_ttl_seconds = 9;
  refresh_token_ttl_seconds = 100;
  retry_window_seconds = 5;
  cleanup_grace_seconds = 5;
}

abbrev pub player : User
player = record {
  user_id = 7;
  username = codes "yang_guo";
  password = codes "pw";
  is_active = true;
}

abbrev pub account : GameAccount
account = record {
  game_account_id = 1;
  user_id = 7;
  instance_id = codes "main";
  lifecycle = Lifecycle.active;
  lifecycle_version = 1;
}

abbrev pub session : AuthSession
session = record {
  auth_session_id = 2;
  user_id = 7;
  game_account_id = 1;
  device_id = codes "d";
  refresh_family = some 3;
  state = SessionState.active;
  issued_at = 0;
  last_seen_at = 0;
  absolute_expires_at = 50000000;
  revoked_at = none;
  revoke_reason = none;
  version = 1;
}

abbrev pub family : Family
family = record {
  family_id = 3;
  auth_session_id = 2;
  state = FamilyState.active;
  current_generation = 1;
  absolute_expires_at = 50000000;
  revoked_at = none;
  revoke_reason = none;
  version = 1;
}

abbrev pub credential : Credential
credential = record {
  credential_id = 4;
  family_id = 3;
  generation = 1;
  token_hash = token;
  jti_hash = codes "0000";
  state = CredentialState.active;
  issued_at = 0;
  used_at = none;
  expires_at = 50000000;
  replaced_by = none;
  version = 1;
}

abbrev pub start : Db
start = record {
  users = player ∷ [];
  accounts = account ∷ [];
  sessions = session ∷ [];
  families = family ∷ [];
  credentials = credential ∷ [];
  terminals = [];
  audits = [];
  notices = [];
}

abbrev pub supply : Supply
supply = record {
  successor_id = 5;
  jti = 6;
  now = 1000000;
  result_now = 1000000;
  result_then = 1000000;
}

abbrev later : Supply
later = record {
  successor_id = 8;
  jti = 9;
  now = 3000000;
  result_now = 3000000;
  result_then = 3000000;
}

abbrev rows : Locked
rows = record { account = account; session = session; family = family; credential = credential }

start-Reaches : Reaches toy settings token (codes "k1") start rows
unfolding is_idempotency_key refresh_token_hash toy text_eq
start-Reaches = record {
  key_valid = refl;
  parsed = parse-materialize_example;
  located = refl;
  credential_found = refl;
  family_found = refl;
  session_found = refl;
  account_found = refl;
}

start-Consistent : Consistent start start
start-Consistent = record { keyed = omega arith; family_kept = λ k r r' e e'. ground arith }

start-OneActive : OneActive start.credentials
start-OneActive f = ground arith

refresh-OneActive_example :
    OneActive
      (refresh toy settings (text token) (text (codes "k1")) supply start start).1.credentials
refresh-OneActive_example =
    refresh-OneActive toy settings (text token) (text (codes "k1")) supply start start
      start-Consistent start-OneActive

-- the answer to the first request, and the database after it
abbrev successor_token : Text
successor_token = codes "r1.00000.11." ++ secret

abbrev request_hash : Text
request_hash = codes "POST:/api/v1/auth/refresh:v1:0000:{}"

abbrev after : Db
after = rotated_db toy settings rows successor_token (codes "k1") request_hash supply start

abbrev answered : Authentication
answered = record {
  access_token =
      signed_text toy toy-Laws (codes "s")
        (access_claims toy settings session supply.now supply.jti);
  refresh_token = successor_token;
  expires_in = 9;
  refresh_max_age = 49;
  auth_session_id = 2;
  game_account_id = 1;
}

refresh_lem :
    refresh toy settings (text token) (text (codes "k1")) supply start start
    ≡ (pure answered, after)
unfolding refresh refresh_transaction find_locator check_key check_token lock_rows answer_request
    finish rotate is_idempotency_key refresh_token_hash refresh_request_hash authentication_result
    authentication_parts parse_refresh_token materialize_refresh_token encode_access_token
    signing_key sign base64url access_claims get split rstrip toy text_eq
refresh_lem = refl

refresh_repeat_example :
    (b : Authentication) × (refresh toy settings (text token) (text (codes "k1")) later after after
      ≡ (pure b, after))
    × SameTokens answered b
refresh_repeat_example =
    refresh_repeat toy settings token (codes "k1") supply later start after rows answered
      start-Reaches refl refl refresh_lem (omega arith) (omega arith)

k2_valid : is_idempotency_key (codes "k2") ≡ true
unfolding is_idempotency_key
k2_valid = refl

k1-ne-k2 : codes "k1" ≢ codes "k2"
k1-ne-k2 h = ground arith

refresh_reused-Refused_example : Refused toy settings rows token (codes "k2") later after
refresh_reused-Refused_example =
    refresh_reused-Refused toy settings token (codes "k1") (codes "k2") supply later start after
      rows answered start-Reaches refl refresh_lem k2_valid k1-ne-k2 refl (omega arith)
      (omega arith)
