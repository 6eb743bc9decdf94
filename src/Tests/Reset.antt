-- ===== src/Tests/Reset.antt =====
-- The player resets the password with a code.
use new_mud_codex.Shared.{ℕ, ◌≡◌, ◌≢◌, refl, true, none, some, [], ◌∷◌, ◌++◌, replicate}
use new_mud_codex.Shared.Text.{Text, codes, text_eq, split, rstrip}
use new_mud_codex.Errors.{pure}
use new_mud_codex.Tokens.{
  Crypto, signing_key, sign, base64url, padded, judge, get, decode_access_token,
  decode_access_token_result, Dict, str, int, object,
}
use new_mud_codex.Sessions.Tables.{AuthSession, User, GameAccount, SessionState, Lifecycle}
use new_mud_codex.Sessions.Request.{text}
use new_mud_codex.Sessions.Access.{
  resolve_active_auth_session, auth_session_is_active, joined_session,
}
use new_mud_codex.Contacts.{
  normalize_email, is_local_part, is_local_char, read_key, lookup_digests, keyed_digest_candidates,
  keyed_digest,
}
use new_mud_codex.Delivery.Tables.{Challenge, ChallengeState, Purpose, Channel}
use new_mud_codex.Registration.Tables.{Realm, Contact, ContactState}
use new_mud_codex.Registration.Code.{active_challenge, judge_code, verification_code_digest}
use new_mud_codex.Reset.{
  reset_password, reset_body, reset_transaction, revoke_user, cancel_unfinished,
}
use new_mud_codex.Reset.Ended.{Resets, IsEnded, reset_password-IsEnded, resolve-reset_password}
use new_mud_codex.Tests.Toy.{toy}
use new_mud_codex.Tests.Sessions.{start, secret}
use new_mud_codex.Tests.Delivery.{unicode, address, digest, challenge}
use new_mud_codex.Tests.Registration.{passwords, settings}

abbrev print : ℕ → Text
print n = replicate n b'1'

abbrev code_digest : Text
code_digest =
    codes "kv1"
    ++ 31
      ∷ (codes "verification-code"
          ++ 31
            ∷ (codes "password_reset"
                ++ 31
                  ∷ (codes "email"
                      ++ 31 ∷ (digest ++ 31 ∷ (codes "1111111" ++ 31 ∷ codes "123456")))))

abbrev sent : Challenge
sent = record (challenge 5 ChallengeState.active) {
  purpose = Purpose.password_reset;
  user = some 7;
  code_digest = code_digest;
  activated_at = some 1;
  expires_at = some 600000000;
}

abbrev pub contact : Contact
contact = record {
  contact_method_id = 13;
  user_id = 7;
  channel = Channel.email;
  state = ContactState.active;
  destination_ciphertext = codes "c";
  encryption_key_id = codes "a";
  lookup_digest = digest;
  lookup_key_id = codes "a";
  verified_at = 0;
  version = 1;
}

-- another player
abbrev other : User
other = record { user_id = 8; username = codes "guo_jing"; password = codes "pw"; is_active = true }

abbrev other_account : GameAccount
other_account = record {
  game_account_id = 21;
  user_id = 8;
  instance_id = codes "main";
  lifecycle = Lifecycle.active;
  lifecycle_version = 1;
}

abbrev other_session : AuthSession
other_session = record {
  auth_session_id = 22;
  user_id = 8;
  game_account_id = 21;
  device_id = codes "d";
  refresh_family = none;
  state = SessionState.active;
  issued_at = 0;
  last_seen_at = 0;
  absolute_expires_at = 50000000;
  revoked_at = none;
  revoke_reason = none;
  version = 1;
}

abbrev pub realm : Realm
realm = record {
  db = record start {
    users = start.users ++ other ∷ [];
    accounts = start.accounts ++ other_account ∷ [];
    sessions = start.sessions ++ other_session ∷ [];
  };
  mail = record { challenges = sent ∷ []; outboxes = [] };
  contacts = contact ∷ [];
  notifications = [];
}

abbrev after : Realm
after =
    (reset_password unicode passwords settings print (text (codes "email")) (text address)
      (text (codes "123456")) (text (codes "new")) 9 realm realm).1

reset_lem :
    reset_password unicode passwords settings print
      (text (codes "email"))
      (text address)
      (text (codes "123456"))
      (text (codes "new"))
      9
      realm
      realm
    ≡ (pure tt, after)
unfolding reset_password reset_body reset_transaction revoke_user cancel_unfinished active_challenge
    judge_code verification_code_digest normalize_email is_local_part is_local_char lookup_digests
    keyed_digest_candidates keyed_digest read_key split text_eq
reset_lem = refl

reset_password-IsEnded_example :
    (i : Resets unicode passwords settings print (codes "new") 9 realm after) × IsEnded
      i.user.user_id realm.db after.db
reset_password-IsEnded_example =
    reset_password-IsEnded unicode passwords settings print (text (codes "email")) (text address)
      (text (codes "123456")) (codes "new") 9 realm realm after reset_lem

abbrev claims : Dict
claims =
    (codes "alg", str (codes "HS256"))
    ∷ (codes "typ", str (codes "JWT"))
    ∷ (codes "aud", str (codes "new-mud-h5"))
    ∷ (codes "exp", int 9)
    ∷ (codes "sub", str (codes "11111111"))
    ∷ (codes "auth_session_id", str (replicate 22 b'0'))
    ∷ (codes "game_account_id", str (replicate 21 b'0'))
    ∷ []

abbrev reader : Crypto
reader = record toy { urlsafe_b64decode = λ t. some t; loads = λ t. some (object claims) }

resolve_lem :
    resolve_active_auth_session reader (text (codes "h.c." ++ secret)) 5 5 after.db
    ≡ pure other_session
unfolding resolve_active_auth_session decode_access_token decode_access_token_result judge
    auth_session_is_active joined_session get split padded signing_key sign base64url rstrip toy
    text_eq reset_password reset_body reset_transaction revoke_user cancel_unfinished
    active_challenge judge_code verification_code_digest normalize_email is_local_part is_local_char
    lookup_digests keyed_digest_candidates keyed_digest read_key
resolve_lem = refl

resolve-reset_password_example :
    (i : Resets unicode passwords settings print (codes "new") 9 realm after) × (8 ≢ i.user.user_id)
resolve-reset_password_example =
    resolve-reset_password unicode passwords settings print reader (text (codes "email"))
      (text address) (text (codes "123456")) (text (codes "h.c." ++ secret)) (codes "new") 9 5 5
      realm realm after other_session reset_lem resolve_lem
