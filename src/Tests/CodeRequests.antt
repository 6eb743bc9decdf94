-- ===== src/Tests/CodeRequests.antt =====
-- Requests for a code by e-mail, by a player and by someone unknown.
use new_mud_codex.Shared.{
  ℕ, zero, suc, ◌≡◌, refl, ap, arith, none, some, List, [], ◌∷◌, ◌++◌, true, replicate,
}
use new_mud_codex.Shared.Text.{Text, codes, Text_equality, text_eq, split, rstrip}
use new_mud_codex.Errors.{Result, pure, raise}
use new_mud_codex.Sessions.Request.{text, is_idempotency_key}
use new_mud_codex.Tokens.{padded}
use new_mud_codex.Contacts.{
  DigestedValue, normalize_email, is_local_part, is_local_char, read_key, lookup_digests,
  keyed_digest_candidates, keyed_digest,
}
use new_mud_codex.Sealed.{encode, encrypt_value, decrypt_value}
use new_mud_codex.Delivery.{Payload, strings}
use new_mud_codex.Delivery.Tables.{Mail, Purpose}
use new_mud_codex.Registration.Tables.{Realm}
use new_mud_codex.Registration.Code.{verification_code_digest}
use new_mud_codex.Limits.{
  consume_persistent_limits, consume_all, consume_bucket, ordered, text_before,
}
use new_mud_codex.CodeRequests.Tables.{
  Answer, accepted, limited, Desk, RequestHost, RequestSettings, RequestSupply, CodeRequest,
}
use new_mud_codex.CodeRequests.Issue.{six_digits, issue, issue_registration, issue_reset}
use new_mud_codex.CodeRequests.{
  request_hash, rate_limits, replay_or_conflict, check_request, request_registration_verification,
  request_password_reset_verification,
}
use new_mud_codex.CodeRequests.Repeat.{request_registration_again, request_password_reset_again}
use new_mud_codex.CodeRequests.Visible.{request_password_reset_alike}
use new_mud_codex.CodeRequests.Visible.Unknown.{request_password_reset_unknown}
use new_mud_codex.CodeRequests.Sent.{IsDeliverable, issue-IsDeliverable}
use new_mud_codex.Tests.Toy.{toy}
use new_mud_codex.Tests.Delivery.{unicode, aead, aead-Laws, ring, address, digest, settings}
use new_mud_codex.Tests.Reset.{realm, contact}

-- Each text is written with its code points moved by one, and ended by 0.
abbrev write_text : Text → Text → Text
write_text [] rest = 0 ∷ rest
write_text (c ∷ t) rest = suc c ∷ write_text t rest

abbrev write : Payload → Text
write [] = []
write ((k, v) ∷ p) = write_text k (write_text v (write p))

abbrev add_to_head : ℕ → List Text → List Text
add_to_head c [] = (c ∷ []) ∷ []
add_to_head c (t ∷ rest) = (c ∷ t) ∷ rest

abbrev read_texts : Text → List Text
read_texts [] = []
read_texts (zero ∷ t) = [] ∷ read_texts t
read_texts (suc c ∷ t) = add_to_head c (read_texts t)

abbrev in_pairs : List Text → Payload
in_pairs (k ∷ v ∷ rest) = (k, v) ∷ in_pairs rest
in_pairs _ = []

read-write_text : (t rest : Text) → read_texts (write_text t rest) ≡ t ∷ read_texts rest
read-write_text [] rest = refl
read-write_text (c ∷ t) rest = rw (read-write_text t rest) refl

read-write : (p : Payload) → in_pairs (read_texts (write p)) ≡ p
read-write [] = refl
read-write ((k, v) ∷ p) =
    rw (read-write_text k (write_text v (write p)), read-write_text v (write p), read-write p) refl

abbrev host : RequestHost
host = record {
  externals = record {
    unicode = unicode;
    aead = aead;
    str_of_uuid = λ k. replicate k b'0';
    loads = λ t. some (strings (in_pairs (read_texts t)));
  };
  dumps = write;
  sha256_hexdigest = λ t. t;
  str_of_int = λ n. replicate n b'1';
}

abbrev request_settings : RequestSettings
request_settings = record {
  baseline_configured = true;
  contact_lookup = ring;
  contact_encryption = ring;
  code_pepper = ring;
  delivery_payload = ring;
  retention_seconds = 86400;
}

abbrev supply : RequestSupply
supply = record {
  now = 9;
  saved_at = 10;
  number = 40213;
  challenge_id = 3;
  outbox_id = 4;
  nonce = codes "n";
}

abbrev later : RequestSupply
later = record {
  now = 11;
  saved_at = 12;
  number = 7;
  challenge_id = 6;
  outbox_id = 8;
  nonce = codes "m";
}

abbrev request : CodeRequest
request = record {
  channel = text (codes "email");
  destination = text address;
  idempotency_key = text (codes "k1");
  client_ip = codes "::1";
  device_id = codes "d";
}

abbrev empty : Mail
empty = record { challenges = []; outboxes = [] }

-- the player whose address is in the request
abbrev known : Realm
known = record realm {
  mail = empty;
  contacts =
      record contact {
        destination_ciphertext =
            codes "v1" ++ b'.' ∷ (encode aead (codes "n") ++ b'.' ∷ encode aead address);
      }
      ∷ [];
}

abbrev unknown : Realm
unknown = record realm { mail = empty; contacts = [] }

abbrev desk : Realm → Desk
desk r = record { realm = r; requests = []; buckets = [] }

abbrev result : {A : Type 0} → A → Result A → A
result a (pure b) = b
result a (raise e) = a

abbrev registered : Answer × Desk
registered =
    result (accepted, desk unknown)
      (request_registration_verification host request_settings request supply (desk unknown))

registered_lem :
    request_registration_verification host request_settings request supply (desk unknown)
    ≡ pure registered
unfolding request_registration_verification check_request request_hash replay_or_conflict
    rate_limits issue_registration issue six_digits consume_persistent_limits consume_all
    consume_bucket ordered text_before verification_code_digest normalize_email is_local_part
    is_local_char keyed_digest read_key encrypt_value split text_eq is_idempotency_key
registered_lem = refl

abbrev reset_of : Realm → Answer × Desk
reset_of r =
    result (limited 0, desk r)
      (request_password_reset_verification host request_settings request supply (desk r))

known_lem :
    request_password_reset_verification host request_settings request supply (desk known)
    ≡ pure (reset_of known)
unfolding request_password_reset_verification check_request request_hash replay_or_conflict
    rate_limits issue_reset issue six_digits consume_persistent_limits consume_all consume_bucket
    ordered text_before verification_code_digest normalize_email is_local_part is_local_char
    keyed_digest keyed_digest_candidates lookup_digests read_key encrypt_value decrypt_value split
    rstrip padded text_eq is_idempotency_key toy
known_lem = refl

unknown_lem :
    request_password_reset_verification host request_settings request supply (desk unknown)
    ≡ pure (reset_of unknown)
unfolding request_password_reset_verification check_request request_hash replay_or_conflict
    rate_limits issue_reset issue six_digits consume_persistent_limits consume_all consume_bucket
    ordered text_before verification_code_digest normalize_email is_local_part is_local_char
    keyed_digest keyed_digest_candidates lookup_digests read_key encrypt_value decrypt_value split
    rstrip padded text_eq is_idempotency_key toy
unknown_lem = refl

request_registration_again_example :
    request_registration_verification host request_settings request later registered.1
    ≡ pure registered
request_registration_again_example =
    request_registration_again host request_settings request supply later (desk unknown)
      registered.1 registered.0 registered_lem

request_password_reset_again_example :
    request_password_reset_verification host request_settings request later (reset_of known).1
    ≡ pure (reset_of known)
request_password_reset_again_example =
    request_password_reset_again host request_settings request supply later (desk known)
      (reset_of known).1 (reset_of known).0 known_lem

request_password_reset_alike_example :
    ((reset_of known).0 ≡ (reset_of unknown).0)
    × ((reset_of known).1.requests ≡ (reset_of unknown).1.requests)
    × ((reset_of known).1.buckets ≡ (reset_of unknown).1.buckets)
request_password_reset_alike_example =
    request_password_reset_alike host request_settings request supply [] [] known unknown
      (reset_of known) (reset_of unknown) known_lem unknown_lem

request_password_reset_unknown_example :
    request_password_reset_verification host request_settings request supply (desk unknown)
    ≡ pure (
      (reset_of known).0,
      record {
        realm = unknown;
        requests = (reset_of known).1.requests;
        buckets = (reset_of known).1.buckets;
      },
    )
request_password_reset_unknown_example =
    request_password_reset_unknown host request_settings request supply [] [] known unknown
      (reset_of known) known_lem refl

abbrev lookup : DigestedValue
lookup = record { digest = digest; key_id = codes "a" }

abbrev issued : Mail
issued =
    result empty (issue host request_settings Purpose.registration none lookup address supply empty)

issued_lem :
    issue host request_settings Purpose.registration none lookup address supply empty ≡ pure issued
unfolding issue six_digits verification_code_digest keyed_digest read_key encrypt_value text_eq
issued_lem = refl

issue-IsDeliverable_example :
    IsDeliverable host request_settings settings Purpose.registration none address supply 9 99 []
      empty issued
issue-IsDeliverable_example =
    issue-IsDeliverable host request_settings settings aead-Laws
      (λ p. ap (λ q. some (strings q)) (read-write p)) refl Purpose.registration none lookup address
      supply 9 99 [] empty issued issued_lem (omega arith)
