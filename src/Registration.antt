-- ===== src/Registration.antt =====
-- src/new_mud/apps/identity/services.py: `register`.
pub mod Tables
pub mod Code
pub mod Spent
pub mod Attempts
pub mod Entry
use new_mud_codex.Shared.{
  ℕ, Bool, true, false, not, ◌&&◌, ◌||◌, Option, none, some, List, [], ◌∷◌, ◌++◌, leb, ◌==◌,
  ℕ_equality, if◌then◌else◌, length, all, is_some,
}
use new_mud_codex.Shared.Text.{Text, codes, Text_equality}
use new_mud_codex.Shared.Table.{first, exists}
use new_mud_codex.Errors.{
  Result, pure, raise, Error, ◌>>=◌, ◌>>◌, raise_if, or_raise, except_as, registration_invalid,
  registration_unavailable, registration_rate_limited, verification_code_invalid,
  verification_service_unavailable,
}
use new_mud_codex.Sessions.Tables.{User, GameAccount, Lifecycle}
use new_mud_codex.Sessions.Request.{Value, text, not_text}
use new_mud_codex.Contacts.{
  Unicode, KeyRing, NormalizedEmail, normalize_email, lookup_digests, keyed_digest,
}
use new_mud_codex.Sealed.{Aead, EncryptedValue, encrypt_value}
use new_mud_codex.Delivery.{is_code, is_digit, save_challenge}
use new_mud_codex.Delivery.Tables.{Mail, Challenge, Purpose, Channel}
use new_mud_codex.Delivery.Finish.{member}
use new_mud_codex.Registration.Tables.{Realm, Contact, ContactState, is_usable, is_email}
use new_mud_codex.Registration.Code.{
  Verdict, accepted, refused, unreadable, active_challenge, judge_code, consumed,
}

-- What the caller submits as `verification`: a dictionary with three entries, or another value.
pub data Verification : Type 0 where
  dictionary : (channel destination code : Value) → Verification
  not_dictionary : Verification

-- `validate_password(password, user=…)`, true where it raises nothing, and the hash that
-- `create_user` stores.
pub record Passwords : Type 0 where
  pub is_acceptable : Text → Text → Bool
  pub make_password : Text → Text

pub record RegistrationSettings : Type 0 where
  pub baseline_ready : Bool
  pub content_instance_id : Text
  pub contact_lookup : KeyRing
  pub contact_encryption : KeyRing
  pub code_pepper : KeyRing

-- The new keys of the rows, the nonce of the encryption, and `timezone.now()`.
pub record RegistrationSupply : Type 0 where
  pub user_id : ℕ
  pub game_account_id : ℕ
  pub contact_method_id : ℕ
  pub nonce : Text
  pub now : ℕ

pub record RegistrationResult : Type 0 where
  pub user_id : ℕ
  pub game_account_id : ℕ

abbrev is_username_char : ℕ → Bool
is_username_char c = (leb b'a' c && leb c b'z') || is_digit c || c == b'_'

-- `USERNAME_PATTERN.fullmatch`
unfoldable pub is_username : Text → Bool
is_username t = all is_username_char t && leb 3 (length t) && leb (length t) 32

abbrev pub is_email_value : Value → Bool
is_email_value not_text = false
is_email_value (text t) = t == codes "email"

abbrev code_value : Value → Result Text
code_value not_text = raise verification_code_invalid
code_value (text t) = if is_code t then pure t else raise verification_code_invalid

module _ (u : Unicode) where
  -- the checks of `verification`
  unfoldable pub read_verification : Verification → Result (Text × NormalizedEmail)
  read_verification not_dictionary = raise verification_code_invalid
  read_verification (dictionary channel destination code) = do
    raise_if (not (is_email_value channel)) verification_code_invalid
    c ← code_value code
    e ← except_as verification_code_invalid (normalize_email u destination)
    pure (c, e)

module _ (u : Unicode) (a : Aead) (passwords : Passwords) (settings : RegistrationSettings) where
  abbrev pub new_user : Text → Text → RegistrationSupply → User
  new_user username password s = record {
    user_id = s.user_id;
    username = username;
    password = passwords.make_password password;
    is_active = true;
  }

  abbrev pub new_account : RegistrationSupply → GameAccount
  new_account s = record {
    game_account_id = s.game_account_id;
    user_id = s.user_id;
    instance_id = settings.content_instance_id;
    lifecycle = Lifecycle.active;
    lifecycle_version = 1;
  }

  abbrev pub is_taken : List Text → Contact → Bool
  is_taken digests r = is_email r.channel && member r.lookup_digest digests && is_usable r.state

  abbrev pub registered :
      Text → Text → EncryptedValue → Text → Text → Challenge → RegistrationSupply → Realm → Realm
  registered username password sealed digest key_id h s realm = record realm {
    db = record realm.db {
      users = realm.db.users ++ new_user username password s ∷ [];
      accounts = realm.db.accounts ++ new_account s ∷ [];
    };
    mail = record realm.mail {
      challenges = save_challenge (consumed h s.now) realm.mail.challenges;
    };
    contacts =
        realm.contacts
        ++ record {
          contact_method_id = s.contact_method_id;
          user_id = s.user_id;
          channel = Channel.email;
          state = ContactState.active;
          destination_ciphertext = sealed.ciphertext;
          encryption_key_id = sealed.key_id;
          lookup_digest = digest;
          lookup_key_id = key_id;
          verified_at = s.now;
          version = 1;
        }
          ∷ [];
  }

  -- the branch of an accepted code; an exception rolls the transaction back
  unfoldable pub create_account :
      Text → Text → NormalizedEmail → Challenge → RegistrationSupply → Realm → Result Realm
  create_account username password email h s realm = do
    raise_if (not (passwords.is_acceptable password username)) registration_invalid
    raise_if (exists (λ x. x.username == username) realm.db.users) registration_unavailable
    raise_if (exists (is_taken (lookup_digests u email settings.contact_lookup)) realm.contacts)
        registration_unavailable
    sealed ←
        encrypt_value a email.delivery settings.contact_encryption (codes "contact:email") s.nonce
    current ←
        keyed_digest u email.comparison settings.contact_lookup (codes "contact:email")
          settings.contact_lookup.current_key_id
    pure (registered username password sealed current.digest current.key_id h s realm)

  abbrev pub settle_code :
      Verdict
      → Text
      → Text
      → NormalizedEmail
      → RegistrationSupply
      → Realm
      → Result (Option RegistrationResult × Realm)
  settle_code unreadable username password email s realm = raise verification_service_unavailable
  settle_code (refused challenges) username password email s realm =
      pure (none, record realm { mail = record realm.mail { challenges = challenges } })
  settle_code (accepted h) username password email s realm = do
    realm' ← create_account username password email h s realm
    pure (some (record { user_id = s.user_id; game_account_id = s.game_account_id }), realm')

  unfoldable pub register_transaction :
      Text
      → Text
      → Text
      → NormalizedEmail
      → RegistrationSupply
      → Realm
      → Result (Option RegistrationResult × Realm)
  register_transaction username password code email s realm =
      settle_code
        (judge_code u settings.code_pepper code none s.now
          (active_challenge Purpose.registration (lookup_digests u email settings.contact_lookup)
            none realm.mail.challenges)
          realm.mail.challenges)
        username password email s realm

  -- what may raise before the commit
  unfoldable pub register_body :
      Value
      → Value
      → Verification
      → Bool
      → RegistrationSupply
      → Realm
      → Result (Option RegistrationResult × Realm)
  register_body (text username) (text password) verification limit_allows s realm = do
    raise_if (not settings.baseline_ready) verification_service_unavailable
    raise_if (not limit_allows) registration_rate_limited
    raise_if (not (is_username (u.lower username))) registration_invalid
    (code, email) ← read_verification u verification
    register_transaction (u.lower username) password code email s realm
  register_body _ _ verification limit_allows s realm = do
    raise_if (not settings.baseline_ready) verification_service_unavailable
    raise_if (not limit_allows) registration_rate_limited
    raise registration_invalid

  -- A refused code raises after the commit of what it has written.
  abbrev pub commit_registration :
      Result (Option RegistrationResult × Realm) → Realm → Result RegistrationResult × Realm
  commit_registration (raise e) realm = (raise e, realm)
  commit_registration (pure (none, realm')) realm = (raise verification_code_invalid, realm')
  commit_registration (pure (some r, realm')) realm = (pure r, realm')

  -- `limit_allows` is the answer of `consume_request_limit`, and true without one.
  unfoldable pub register :
      Value
      → Value
      → Verification
      → Bool
      → RegistrationSupply
      → Realm
      → Result RegistrationResult × Realm
  register username password verification limit_allows s realm =
      commit_registration (register_body username password verification limit_allows s realm) realm
