-- ===== src/Reset.antt =====
-- src/new_mud/apps/identity/services.py: `reset_password_with_verification`.
pub mod Ended
use new_mud_codex.Shared.{
  ℕ, ◌+◌, Bool, true, false, not, ◌&&◌, ◌||◌, Option, none, some, List, [], ◌∷◌, ◌++◌, ltb, ◌==◌,
  ℕ_equality, if◌then◌else◌, holds,
}
use new_mud_codex.Shared.Text.{Text, codes, Text_equality}
use new_mud_codex.Shared.Table.{first, select, exists, update, count}
use new_mud_codex.Errors.{
  Result, pure, raise, ◌>>=◌, ◌>>◌, raise_if, or_raise, contact_invalid, verification_code_invalid,
  password_reset_unavailable, verification_service_unavailable, does_not_exist,
}
use new_mud_codex.Sessions.Tables.{
  Db, User, GameAccount, Lifecycle, active, cooling_off, retired, AuthSession, SessionState, Family,
  FamilyState, Credential, CredentialState, Reason, is_active_session, is_active_family,
  is_active_credential, user_is,
}
use new_mud_codex.Sessions.Request.{Value, text, not_text}
use new_mud_codex.Contacts.{Unicode, NormalizedEmail, normalize_email, lookup_digests}
use new_mud_codex.Delivery.{is_code, save_challenge, earliest}
use new_mud_codex.Delivery.Tables.{
  Mail, Challenge, ChallengeState, Outbox, OutboxState, Purpose, same_purpose, is_active_challenge,
  is_pending_challenge, is_pending, is_leased,
}
use new_mud_codex.Delivery.Finish.{member, superseded}
use new_mud_codex.Registration.{Passwords, RegistrationSettings, is_email_value}
use new_mud_codex.Registration.Tables.{Realm, Contact, ContactState, is_email}
use new_mud_codex.Registration.Code.{
  Verdict, accepted, refused, unreadable, active_challenge, judge_code, consumed,
}

abbrev is_active_contact : ContactState → Bool
is_active_contact ContactState.active = true
is_active_contact _ = false

abbrev is_reset_code : Value → Result Text
is_reset_code not_text = raise verification_code_invalid
is_reset_code (text t) = if is_code t then pure t else raise verification_code_invalid

abbrev is_new_password : Value → Result Text
is_new_password not_text = raise password_reset_unavailable
is_new_password (text t) = pure t

-- `state=ACTIVE`, for the address, of an active user
abbrev pub is_located : List User → List Text → Contact → Bool
is_located users digests r =
    is_email r.channel
    && is_active_contact r.state
    && member r.lookup_digest digests
    && exists (λ (x : User). x.user_id == r.user_id && x.is_active) users

-- `ACTIVE` or `COOLING_OFF`
abbrev pub is_open_lifecycle : Lifecycle → Bool
is_open_lifecycle active = true
is_open_lifecycle cooling_off = true
is_open_lifecycle retired = false

-- the conditions under which no code is looked at
abbrev pub is_barred : User → Contact → List GameAccount → Bool
is_barred user contact accounts =
    not user.is_active
    || not (is_active_contact contact.state)
    || not (contact.user_id == user.user_id)
    || not (
        exists (λ (x : GameAccount). x.user_id == user.user_id && is_open_lifecycle x.lifecycle)
          accounts)

-- the rows of the user
abbrev pub is_session_of : ℕ → AuthSession → Bool
is_session_of user_id s = s.user_id == user_id

abbrev pub is_family_of : ℕ → List AuthSession → Family → Bool
is_family_of user_id sessions f =
    exists (λ s. s.auth_session_id == f.auth_session_id && is_session_of user_id s) sessions

abbrev pub is_credential_of : ℕ → Db → Credential → Bool
is_credential_of user_id db r =
    exists (λ f. f.family_id == r.family_id && is_family_of user_id db.sessions f) db.families

unfoldable pub revoke_user : ℕ → ℕ → Db → Db
revoke_user user_id now db = record db {
  credentials =
      update (λ r. is_credential_of user_id db r && is_active_credential r.state)
        (λ r. record r { state = CredentialState.revoked; version = r.version + 1 }) db.credentials;
  families =
      update (λ f. is_family_of user_id db.sessions f && is_active_family f.state)
        (λ f. record f {
          state = FamilyState.revoked;
          revoked_at = some now;
          revoke_reason = some Reason.password_reset;
          version = f.version + 1;
        })
        db.families;
  sessions =
      update (λ s. is_session_of user_id s && is_active_session s.state)
        (λ s. record s {
          state = SessionState.revoked;
          revoked_at = some now;
          revoke_reason = some Reason.password_reset;
          version = s.version + 1;
        })
        db.sessions;
}

-- the other unfinished challenges of the user, and their e-mails
abbrev pub is_unfinished : ℕ → Challenge → Challenge → Bool
is_unfinished user_id h r =
    same_purpose r.purpose Purpose.password_reset
    && holds r.user user_id
    && (is_pending_challenge r.state || is_active_challenge r.state)
    && not (r.challenge_id == h.challenge_id)

abbrev pub is_canceled : ℕ → Challenge → List Challenge → Outbox → Bool
is_canceled user_id h challenges o =
    exists (λ r. r.challenge_id == o.challenge_id && is_unfinished user_id h r) challenges
    && (is_pending o.state || is_leased o.state)

unfoldable pub cancel_unfinished : ℕ → Challenge → ℕ → Mail → Mail
cancel_unfinished user_id h now mail = record mail {
  challenges = update (is_unfinished user_id h) (superseded now) mail.challenges;
  outboxes =
      update (is_canceled user_id h mail.challenges)
        (λ o. record o {
          state = OutboxState.delivery_failed;
          payload_ciphertext = none;
          lease_owner = none;
          lease_expires_at = none;
          provider_category = some (codes "canceled_by_password_reset");
          terminal_at = some now;
          version = o.version + 1;
        })
        mail.outboxes;
}

module _ (u : Unicode) (passwords : Passwords) (settings : RegistrationSettings)
    (str_of_int : ℕ → Text) where
  abbrev pub with_password : User → Text → Db → Db
  with_password user new_password db = record db {
    users =
        update (user_is user.user_id)
          (λ x. record x { password = passwords.make_password new_password }) db.users;
  }

  abbrev pub after_reset : User → Contact → Challenge → Text → ℕ → Realm → Realm
  after_reset user contact h new_password now realm = record realm {
    db = with_password user new_password (revoke_user user.user_id now realm.db);
    mail =
        (let mail = cancel_unfinished user.user_id h now realm.mail in
          record mail { challenges = save_challenge (consumed h now) mail.challenges });
    notifications =
        realm.notifications
        ++ record {
          user_id = user.user_id;
          contact_method_id = contact.contact_method_id;
          revoked_session_count =
              count (λ s. is_session_of user.user_id s && is_active_session s.state)
                realm.db.sessions;
          next_attempt_at = now;
        }
          ∷ [];
  }

  -- what the transaction returns: whether the code was accepted
  abbrev pub settle_reset : Verdict → User → Contact → Text → ℕ → Realm → Result (Bool × Realm)
  settle_reset unreadable user contact new_password now realm =
      raise verification_service_unavailable
  settle_reset (refused challenges) user contact new_password now realm =
      pure (false, record realm { mail = record realm.mail { challenges = challenges } })
  settle_reset (accepted h) user contact new_password now realm = do
    raise_if (not (passwords.is_acceptable new_password user.username)) password_reset_unavailable
    pure (true, after_reset user contact h new_password now realm)

  abbrev pub judge_reset : User → Contact → List Text → Text → ℕ → Realm → Verdict
  judge_reset user contact digests code now realm =
      if is_barred user contact realm.db.accounts
      then refused realm.mail.challenges
      else judge_code u settings.code_pepper code (some (str_of_int user.user_id)) now
          (active_challenge Purpose.password_reset digests (some user.user_id)
            realm.mail.challenges)
          realm.mail.challenges

  unfoldable pub reset_transaction :
      Contact → List Text → Text → Text → ℕ → Realm → Result (Bool × Realm)
  reset_transaction locator digests code new_password now realm = do
    user ← or_raise (first (user_is locator.user_id) realm.db.users) does_not_exist
    contact ←
        or_raise (first (λ r. r.contact_method_id == locator.contact_method_id) realm.contacts)
          does_not_exist
    settle_reset (judge_reset user contact digests code now realm) user contact new_password now
        realm

  -- The contact is located in the state `seen` before the transaction.
  unfoldable pub reset_body :
      (channel destination code new_password : Value) → ℕ → Realm → Realm → Result (Bool × Realm)
  reset_body channel destination code new_password now seen realm = do
    raise_if (not (is_email_value channel)) contact_invalid
    c ← is_reset_code code
    p ← is_new_password new_password
    email ← normalize_email u destination
    raise_if (not settings.baseline_ready) verification_service_unavailable
    let digests = lookup_digests u email settings.contact_lookup
    locator ←
        or_raise
          (earliest (λ r q. ltb r.contact_method_id q.contact_method_id)
            (select (is_located seen.db.users digests) seen.contacts))
          verification_code_invalid
    reset_transaction locator digests c p now realm

  -- A refused code raises after the commit of what it has written.
  abbrev pub commit_reset : Result (Bool × Realm) → Realm → Result (Unit {0}) × Realm
  commit_reset (raise e) realm = (raise e, realm)
  commit_reset (pure (false, realm')) realm = (raise verification_code_invalid, realm')
  commit_reset (pure (true, realm')) realm = (pure tt, realm')

  unfoldable pub reset_password :
      (channel destination code new_password : Value)
      → ℕ
      → Realm
      → Realm
      → Result (Unit {0}) × Realm
  reset_password channel destination code new_password now seen realm =
      commit_reset (reset_body channel destination code new_password now seen realm) realm
