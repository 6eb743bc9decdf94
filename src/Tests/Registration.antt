-- ===== src/Tests/Registration.antt =====
-- A new player registers with a code and logs in.
use new_mud_codex.Shared.{◌≡◌, refl, true, some, [], ◌∷◌, ◌++◌, arith, All}
use new_mud_codex.Shared.Text.{Text, codes, text_eq, text_eq_refl, split, rstrip}
use new_mud_codex.Errors.{pure}
use new_mud_codex.Tokens.{materialize_refresh_token, signing_key, sign, base64url}
use new_mud_codex.Sessions.Result.{Authentication}
use new_mud_codex.Sessions.Request.{text}
use new_mud_codex.Sessions.Login.{login}
use new_mud_codex.Contacts.{
  normalize_email, is_local_part, is_local_char, read_key, lookup_digests, keyed_digest_candidates,
  keyed_digest,
}
use new_mud_codex.Sealed.{encrypt_value}
use new_mud_codex.Delivery.Tables.{Challenge, ChallengeState}
use new_mud_codex.Registration.{
  Verification, dictionary, Passwords, RegistrationSettings, RegistrationSupply, RegistrationResult,
  register, register_body, register_transaction, read_verification, create_account, is_username,
}
use new_mud_codex.Registration.Tables.{Realm}
use new_mud_codex.Registration.Code.{active_challenge, judge_code, verification_code_digest}
use new_mud_codex.Registration.Attempts.{IsTried, register-IsTried}
use new_mud_codex.Registration.Entry.{register-login}
use new_mud_codex.Tests.Toy.{toy}
use new_mud_codex.Tests.Sessions.{start}
use new_mud_codex.Tests.Login.{host, entry, entry_token}
use new_mud_codex.Tests.Delivery.{unicode, aead, ring, address, digest, challenge}

abbrev pub passwords : Passwords
passwords = record { is_acceptable = λ p u. true; make_password = λ t. t }

abbrev pub settings : RegistrationSettings
settings = record {
  baseline_ready = true;
  content_instance_id = codes "main";
  contact_lookup = ring;
  contact_encryption = ring;
  code_pepper = ring;
}

-- the code 123456 under the key of the ring
abbrev code_digest : Text
code_digest =
    codes "kv1"
    ++ 31
      ∷ (codes "verification-code"
          ++ 31
            ∷ (codes "registration"
                ++ 31
                  ∷ (codes "email"
                      ++ 31 ∷ (digest ++ 31 ∷ (codes "<unbound>" ++ 31 ∷ codes "123456")))))

abbrev sent : Challenge
sent = record (challenge 5 ChallengeState.active) {
  code_digest = code_digest;
  activated_at = some 1;
  expires_at = some 600000000;
}

abbrev realm : Realm
realm = record {
  db = start;
  mail = record { challenges = sent ∷ []; outboxes = [] };
  contacts = [];
  notifications = [];
}

abbrev supply : RegistrationSupply
supply = record {
  user_id = 11;
  game_account_id = 12;
  contact_method_id = 13;
  nonce = codes "n";
  now = 9;
}

abbrev with_code : Text → Verification
with_code code = dictionary (text (codes "email")) (text address) (text code)

abbrev after : Realm
after =
    (register unicode aead passwords settings (text (codes "guo_jing")) (text (codes "pw"))
      (with_code (codes "123456")) true supply realm).1

abbrev answered : RegistrationResult
answered = record { user_id = 11; game_account_id = 12 }

register_lem :
    register unicode aead passwords settings
      (text (codes "guo_jing"))
      (text (codes "pw"))
      (with_code (codes "123456"))
      true
      supply
      realm
    ≡ (pure answered, after)
unfolding register register_body register_transaction read_verification create_account is_username
    active_challenge judge_code verification_code_digest normalize_email is_local_part is_local_char
    lookup_digests keyed_digest_candidates keyed_digest read_key encrypt_value split text_eq
register_lem = refl

realm-IsTried : All IsTried realm.mail.challenges
realm-IsTried = (record { bounded = omega arith; open_bounded = λ q. omega arith }, tt)

register-IsTried_example :
    All IsTried
      (register unicode aead passwords settings
        (text (codes "guo_jing"))
        (text (codes "pw"))
        (with_code (codes "654321"))
        true
        supply
        realm).1.mail.challenges
register-IsTried_example =
    register-IsTried unicode aead passwords settings (text (codes "guo_jing")) (text (codes "pw"))
      (with_code (codes "654321")) true supply realm realm-IsTried

token_lem : materialize_refresh_token toy 5 1 ≡ pure entry_token
unfolding materialize_refresh_token signing_key sign base64url rstrip toy text_eq
token_lem = refl

register-login_example :
    (b : Authentication) × ((login toy new_mud_codex.Tests.Sessions.settings host
        (text (codes "guo_jing"))
        (text (codes "pw"))
        entry
        after.db
        after.db).0
      ≡ pure b)
    × (b.game_account_id ≡ 12)
register-login_example =
    register-login unicode aead passwords settings toy new_mud_codex.Tests.Sessions.settings host
      (codes "guo_jing") (codes "pw") entry_token (with_code (codes "123456")) true supply entry
      answered realm after refl refl (text_eq_refl (codes "pw")) token_lem refl refl register_lem
