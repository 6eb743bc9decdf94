-- ===== src/CodeRequests/Issue.antt =====
-- verification_requests.py: the challenge and the outbox row that a request issues.
use new_mud_codex.Shared.{
  ℕ, ◌+◌, ◌/◌, ◌%◌, Bool, ◌&&◌, Option, none, some, List, [], ◌∷◌, ◌++◌, ltb, ◌==◌, ℕ_equality,
  if◌then◌else◌,
}
use new_mud_codex.Shared.Text.{Text, codes, Text_equality}
use new_mud_codex.Shared.Table.{select, exists}
use new_mud_codex.Errors.{Result, pure, ◌>>=◌}
use new_mud_codex.Sessions.Tables.{GameAccount}
use new_mud_codex.Contacts.{NormalizedEmail, DigestedValue, keyed_digest, lookup_digests}
use new_mud_codex.Sealed.{EncryptedValue, encrypt_value, decrypt_value}
use new_mud_codex.Delivery.{Payload, earliest}
use new_mud_codex.Delivery.Tables.{
  Mail, Challenge, ChallengeState, Outbox, OutboxState, Purpose, registration, password_reset,
  Channel,
}
use new_mud_codex.Registration.Tables.{Realm, Contact}
use new_mud_codex.Registration.Code.{verification_code_digest, purpose_text}
use new_mud_codex.Reset.{is_located, is_open_lifecycle}
use new_mud_codex.CodeRequests.Tables.{RequestHost, RequestSettings, RequestSupply}

abbrev pub digit : ℕ → ℕ
digit n = b'0' + n % 10

-- `f"{number:06d}"`, where the number has at most six digits
unfoldable pub six_digits : ℕ → Text
six_digits n =
    digit (n / 100000)
    ∷ digit (n / 10000)
    ∷ digit (n / 1000)
    ∷ digit (n / 100)
    ∷ digit (n / 10)
    ∷ digit n
    ∷ []

-- the first active contact of the address, of an active user
abbrev pub contact_before : Contact → Contact → Bool
contact_before a b = ltb a.contact_method_id b.contact_method_id

-- the contact, where its user has an open account
abbrev pub eligible : Option Contact → List GameAccount → Option Contact
eligible none accounts = none
eligible (some r) accounts =
    if exists (λ (a : GameAccount). a.user_id == r.user_id && is_open_lifecycle a.lifecycle)
      accounts
    then some r
    else none

abbrev template : Purpose → Text
template registration = codes "registration_verification"
template password_reset = codes "password_reset_verification"

module _ (h : RequestHost) (settings : RequestSettings) where
  -- `keyed_digest(…).digest` under the current key of the ring of lookups
  abbrev pub subject_digest : Text → Text → Result DigestedValue
  subject_digest value context =
      keyed_digest h.externals.unicode value settings.contact_lookup context
        settings.contact_lookup.current_key_id

  abbrev pub delivery_payload : Purpose → Text → Text → Payload
  delivery_payload purpose code destination =
      (codes "channel", codes "email")
      ∷ (codes "code", code)
      ∷ (codes "destination", destination)
      ∷ (codes "purpose", purpose_text purpose)
      ∷ []

  -- a challenge that is to be delivered, for a user where one is bound
  abbrev pub new_challenge :
      Purpose → Option ℕ → DigestedValue → DigestedValue → RequestSupply → Challenge
  new_challenge purpose user lookup code_digest s = record {
    challenge_id = s.challenge_id;
    purpose = purpose;
    channel = Channel.email;
    destination_lookup_digest = lookup.digest;
    destination_lookup_key_id = lookup.key_id;
    user = user;
    code_digest = code_digest.digest;
    pepper_key_id = code_digest.key_id;
    state = ChallengeState.pending_delivery;
    attempt_count = 0;
    issued_at = s.now;
    activated_at = none;
    expires_at = none;
    consumed_at = none;
    superseded_at = none;
    terminal_at = none;
    version = 1;
  }

  abbrev pub new_outbox : Purpose → EncryptedValue → RequestSupply → Outbox
  new_outbox purpose sealed s = record {
    outbox_id = s.outbox_id;
    challenge_id = s.challenge_id;
    template_key = template purpose;
    payload_ciphertext = some sealed.ciphertext;
    payload_key_id = sealed.key_id;
    state = OutboxState.pending;
    attempt_count = 0;
    lease_owner = none;
    lease_expires_at = none;
    next_attempt_at = s.now;
    provider_category = none;
    created_at = s.saved_at;
    delivered_at = none;
    terminal_at = none;
    version = 1;
  }

  abbrev pub text_of_user : Option ℕ → Option Text
  text_of_user none = none
  text_of_user (some user_id) = some (h.str_of_int user_id)

  -- the challenge and its outbox
  unfoldable pub issue :
      Purpose → Option ℕ → DigestedValue → Text → RequestSupply → Mail → Result Mail
  issue purpose user lookup destination s mail = do
    let code = six_digits s.number
    let blank : DigestedValue = record { digest = []; key_id = settings.code_pepper.current_key_id }
    code_digest ←
        verification_code_digest h.externals.unicode code settings.code_pepper
          (new_challenge purpose user lookup blank s) (text_of_user user)
    sealed ←
        encrypt_value h.externals.aead (h.dumps (delivery_payload purpose code destination))
          settings.delivery_payload
          (codes "verification-delivery:" ++ h.externals.str_of_uuid s.challenge_id) s.nonce
    pure (record {
      challenges = mail.challenges ++ new_challenge purpose user lookup code_digest s ∷ [];
      outboxes = mail.outboxes ++ new_outbox purpose sealed s ∷ [];
    })

  -- what an accepted request for a registration issues
  unfoldable pub issue_registration : NormalizedEmail → RequestSupply → Realm → Result Realm
  issue_registration email s realm = do
    lookup ← subject_digest email.comparison (codes "contact:email")
    mail ← issue registration none lookup email.delivery s realm.mail
    pure (record realm { mail = mail })

  abbrev pub issue_to : Option Contact → RequestSupply → Realm → Result Realm
  issue_to none s realm = pure realm
  issue_to (some r) s realm = do
    destination ←
        decrypt_value h.externals.aead
          (record { ciphertext = r.destination_ciphertext; key_id = r.encryption_key_id })
          settings.contact_encryption (codes "contact:email")
    mail ←
        issue password_reset (some r.user_id)
          (record { digest = r.lookup_digest; key_id = r.lookup_key_id }) destination s realm.mail
    pure (record realm { mail = mail })

  -- what an accepted request for a password reset issues, where the address is that of a user
  unfoldable pub issue_reset : NormalizedEmail → RequestSupply → Realm → Result Realm
  issue_reset email s realm =
      issue_to
        (eligible
          (earliest contact_before (
            select
              (is_located realm.db.users
                (lookup_digests h.externals.unicode email settings.contact_lookup))
              realm.contacts))
          realm.db.accounts)
        s realm
