-- ===== src/CodeRequests/Sent.antt =====
-- verification_requests.py, verification_delivery.py and services.py: a code on its way to the player.
use new_mud_codex.Shared.{
  ℕ, Bool-cases, inl, inr, ◌∙◌, ◌+◌, ◌/◌, ◌<◌, ◌≡◌, refl, ap, sym, true, false, Option, some, List,
  [], ◌∷◌, ◌++◌, arith, leb, ℕ_equality, seconds,
}
use new_mud_codex.Shared.Text.{Text, codes, Text_equality, text_eq, text_eq_refl}
use new_mud_codex.Errors.{pure, ◌>>=◌, bind-eq-pure, pure-injective}
use new_mud_codex.Contacts.{
  Unicode, KeyRing, DigestedValue, read_key, selected_key_id, keyed_digest,
}
use new_mud_codex.Sealed.{EncryptedValue, encrypt_value}
use new_mud_codex.Sealed.Decrypt.{AeadLaws, decrypt-encrypt}
use new_mud_codex.Delivery.{
  Payload, strings, DeliverySettings, is_code, is_digit, message, message_from_payload,
  open_payload,
}
use new_mud_codex.Delivery.Tables.{Mail, Challenge, Outbox, Purpose, registration, password_reset}
use new_mud_codex.Delivery.Finish.{activated}
use new_mud_codex.Registration.Code.{accepted, judge_code, verification_code_digest, purpose_text}
use new_mud_codex.CodeRequests.Tables.{RequestHost, RequestSettings, RequestSupply}
use new_mud_codex.CodeRequests.Issue.{
  digit, six_digits, delivery_payload, new_challenge, new_outbox, text_of_user, issue,
}

digit-is_digit : (n : ℕ) → is_digit (digit n) ≡ true
digit-is_digit n = ground arith

is_code-six_digits : (n : ℕ) → is_code (six_digits n) ≡ true
unfolding six_digits
is_code-six_digits n =
    rw
      (
        digit-is_digit (n / 100000),
        digit-is_digit (n / 10000),
        digit-is_digit (n / 1000),
        digit-is_digit (n / 100),
        digit-is_digit (n / 10),
        digit-is_digit n,
      )
      refl

-- The worker makes a message of the payload of a request.
message-delivery_payload :
    (h : RequestHost) (settings : RequestSettings) (purpose : Purpose) (n : ℕ) (destination : Text)
    → message_from_payload (delivery_payload h settings purpose (six_digits n) destination)
      ≡ pure (message (purpose_text purpose) destination (six_digits n))
unfolding message_from_payload text_eq
message-delivery_payload h settings registration n destination = rw (is_code-six_digits n) refl
message-delivery_payload h settings password_reset n destination = rw (is_code-six_digits n) refl

-- A digest is made under the identity of its key.
keyed_digest-key_id :
    (u : Unicode) (value : Text) (ring : KeyRing) (context key_id : Text) (d : DigestedValue)
    → keyed_digest u value ring context key_id ≡ pure d
    → d.key_id ≡ selected_key_id ring key_id
unfolding keyed_digest
keyed_digest-key_id u value ring context key_id d e =
    let (_, _, k) = bind-eq-pure (read_key ring (selected_key_id ring key_id)) _ e in
    ap (λ x. x.key_id) (sym (pure-injective k))

selected-current : (ring : KeyRing) → selected_key_id ring ring.current_key_id ≡ ring.current_key_id
selected-current ring = elim (Bool-cases (text_eq ring.current_key_id [])) [
  | inl t ↦ rw t refl
  | inr f ↦ rw f refl
]

module _ (h : RequestHost) (settings : RequestSettings) (worker : DeliverySettings) where
  -- The row that a request has put into the outbox becomes the message with its code, and while the
  -- challenge that the worker has activated is valid, the code is accepted for it.
  pub record IsDeliverable (purpose : Purpose) (user : Option ℕ) (destination : Text)
      (s : RequestSupply) (now later : ℕ) (rows : List Challenge) (mail mail' : Mail) : Type 0 where
    pub challenge : Challenge
    pub outbox : Outbox
    pub added : mail' ≡ record {
      challenges = mail.challenges ++ challenge ∷ [];
      outboxes = mail.outboxes ++ outbox ∷ [];
    }
    pub of_challenge : outbox.challenge_id ≡ challenge.challenge_id
    pub sent :
        (open_payload h.externals worker outbox >>= message_from_payload)
        ≡ pure (message (purpose_text purpose) destination (six_digits s.number))
    pub accepts :
        judge_code h.externals.unicode settings.code_pepper
          (six_digits s.number)
          (text_of_user h settings user)
          later
          (some (activated h.externals worker challenge now))
          rows
        ≡ accepted (activated h.externals worker challenge now)

  module _ (laws : AeadLaws h.externals.aead)
      (loads-dumps : (p : Payload) → h.externals.loads (h.dumps p) ≡ some (strings p))
      (kept : read_key worker.delivery_payload settings.delivery_payload.current_key_id
        ≡ read_key settings.delivery_payload settings.delivery_payload.current_key_id) where
    new_outbox-sent :
        (purpose : Purpose) (destination : Text) (s : RequestSupply) (sealed : EncryptedValue)
        → encrypt_value h.externals.aead
            (h.dumps (delivery_payload h settings purpose (six_digits s.number) destination))
            settings.delivery_payload
            (codes "verification-delivery:" ++ h.externals.str_of_uuid s.challenge_id)
            s.nonce
          ≡ pure sealed
        → (open_payload h.externals worker (new_outbox h settings purpose sealed s)
            >>= message_from_payload)
          ≡ pure (message (purpose_text purpose) destination (six_digits s.number))
    unfolding open_payload
    new_outbox-sent purpose destination s sealed e =
        rw
          (
            decrypt-encrypt h.externals.aead laws _ _ s.nonce settings.delivery_payload
                worker.delivery_payload sealed e kept,
            loads-dumps (delivery_payload h settings purpose (six_digits s.number) destination),
          )
          (message-delivery_payload h settings purpose s.number destination)

    activated-accepts :
        (purpose : Purpose) (user : Option ℕ) (lookup blank digest : DigestedValue)
        (s : RequestSupply) (now later : ℕ) (rows : List Challenge)
        → blank.key_id ≡ settings.code_pepper.current_key_id
        → verification_code_digest h.externals.unicode
            (six_digits s.number)
            settings.code_pepper
            (new_challenge h settings purpose user lookup blank s)
            (text_of_user h settings user)
          ≡ pure digest
        → later < now + seconds worker.challenge_ttl_seconds
        → judge_code h.externals.unicode settings.code_pepper
            (six_digits s.number)
            (text_of_user h settings user)
            later
            (some (
              activated h.externals worker
                (new_challenge h settings purpose user lookup digest s)
                now))
            rows
          ≡ accepted (
              activated h.externals worker
                (new_challenge h settings purpose user lookup digest s)
                now)
    unfolding judge_code verification_code_digest
    activated-accepts purpose user lookup blank digest s now later rows b e valid =
        let same : digest.key_id ≡ blank.key_id =
          keyed_digest-key_id h.externals.unicode _ settings.code_pepper _ _ digest e
          ∙ rw b (selected-current settings.code_pepper) in
        let over : leb (now + seconds worker.challenge_ttl_seconds) later ≡ false = ground arith in
        rw (over, same, e, text_eq_refl digest.digest) refl

    -- A challenge and an outbox row that a request has issued belong together: the worker reads
    -- the row as the message with the code for the destination, and the challenge, once the worker
    -- has activated it and until its time is over, is judged to accept that code. AES-GCM, base64,
    -- UTF-8 and JSON read back what they write, and the key ring of the worker has the key that
    -- the row was sealed under.
    pub issue-IsDeliverable :
        (purpose : Purpose) (user : Option ℕ) (lookup : DigestedValue) (destination : Text)
        (s : RequestSupply) (now later : ℕ) (rows : List Challenge) (mail mail' : Mail)
        → issue h settings purpose user lookup destination s mail ≡ pure mail'
        → later < now + seconds worker.challenge_ttl_seconds
        → IsDeliverable purpose user destination s now later rows mail mail'
    unfolding issue
    issue-IsDeliverable purpose user lookup destination s now later rows mail mail' e valid =
        let (digest, d, e') = bind-eq-pure _ _ e in
        let (sealed, x, k) = bind-eq-pure _ _ e' in
        record {
          challenge = new_challenge h settings purpose user lookup digest s;
          outbox = new_outbox h settings purpose sealed s;
          added = sym (pure-injective k);
          of_challenge = refl;
          sent = new_outbox-sent purpose destination s sealed x;
          accepts = activated-accepts purpose user lookup _ digest s now later rows refl d valid;
        }
