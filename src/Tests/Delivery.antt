-- ===== src/Tests/Delivery.antt =====
-- An e-mail with a code, from its address to its delivery.
use new_mud_codex.Shared.{
  ℕ, ◌≡◌, refl, true, false, none, some, [], ◌∷◌, ◌++◌, arith, all, if◌then◌else◌,
}
use new_mud_codex.Shared.Text.{Text, codes, text_eq}
use new_mud_codex.Shared.Table.{first}
use new_mud_codex.Errors.{pure}
use new_mud_codex.Contacts.{Unicode, KeyRing, NormalizedEmail, read_key}
use new_mud_codex.Contacts.Normal.{is_domain_char}
use new_mud_codex.Sealed.{Aead, EncryptedValue, encrypt_value, decrypt_value, encode}
use new_mud_codex.Sealed.Decrypt.{AeadLaws, decrypt-encrypt}
use new_mud_codex.Delivery.{
  Externals, DeliverySettings, ClaimedDelivery, delivered, retry_scheduled, other_json,
}
use new_mud_codex.Delivery.Tables.{
  Mail, Challenge, ChallengeState, Outbox, OutboxState, Purpose, Channel, outbox_is,
}
use new_mud_codex.Delivery.Finish.{finish_delivery, record_failure}
use new_mud_codex.Delivery.Steps.{Run, done, work, failed}
use new_mud_codex.Delivery.Outboxes.{Run-final}
use new_mud_codex.Tests.Toy.{toy, toy-Laws}

abbrev pub unicode : Unicode
unicode = record {
  strip = λ t. t;
  lower = λ t. t;
  casefold = λ t. t;
  idna_encode = λ t. if all is_domain_char t then some t else none;
  hmac_sha256_hexdigest = λ key message. key ++ message;
}

abbrev pub address : Text
address = codes "yang.guo@mud.cn"

abbrev normal : NormalizedEmail
normal = record { delivery = address; comparison = address }

abbrev pub aead : Aead
aead = record {
  aes_encrypt = λ k n p x. p;
  aes_decrypt = λ k n p x. some p;
  utf8 = λ t. t;
  utf8_decode = λ t. some t;
  b64encode = toy.urlsafe_b64encode;
  b64decode = toy.urlsafe_b64decode;
}

pub aead-Laws : AeadLaws aead
aead-Laws = record {
  opens = λ k n p x. refl;
  decodes = λ t. refl;
  b64_reads = toy-Laws.b64decode-b64encode;
  body = toy-Laws.b64_body;
  pads = toy-Laws.b64_pads;
  shape = toy-Laws.b64_shape;
  body-Free = toy-Laws.b64_body-Free;
  body-Free_pad = toy-Laws.b64_body-Free_pad;
  pads-lt = toy-Laws.b64_pads-lt;
  whole = toy-Laws.b64_length;
}

-- the ring before and after a new key
abbrev pub ring : KeyRing
ring = record { current_key_id = codes "a"; keys = (codes "a", codes "k") ∷ [] }

abbrev next_ring : KeyRing
next_ring = record {
  current_key_id = codes "b";
  keys = (codes "a", codes "k") ∷ (codes "b", codes "l") ∷ [];
}

abbrev sealed_code : EncryptedValue
sealed_code = record {
  ciphertext =
      codes "v1" ++ b'.' ∷ (encode aead (codes "n") ++ b'.' ∷ encode aead (codes "123456"));
  key_id = codes "a";
}

sealed_lem : encrypt_value aead (codes "123456") ring (codes "c") (codes "n") ≡ pure sealed_code
unfolding encrypt_value read_key text_eq
sealed_lem = refl

same_key : read_key next_ring (codes "a") ≡ read_key ring (codes "a")
unfolding read_key text_eq
same_key = refl

decrypt-encrypt_example :
    decrypt_value aead sealed_code next_ring (codes "c") ≡ pure (codes "123456")
decrypt-encrypt_example =
    decrypt-encrypt aead aead-Laws (codes "123456") (codes "c") (codes "n") ring next_ring
      sealed_code sealed_lem same_key

abbrev externals : Externals
externals = record {
  unicode = unicode;
  aead = aead;
  str_of_uuid = λ k. [];
  loads = λ t. some other_json;
}

abbrev pub settings : DeliverySettings
settings = record {
  baseline_configured = true;
  max_delivery_attempts = 2;
  lease_seconds = 30;
  challenge_ttl_seconds = 600;
  delivery_payload = ring;
  contact_lookup = ring;
}

abbrev pub digest : Text
digest = codes "kv1" ++ 31 ∷ (codes "contact:email" ++ 31 ∷ address)

abbrev pub challenge : ℕ → ChallengeState → Challenge
challenge k state = record {
  challenge_id = k;
  purpose = Purpose.registration;
  channel = Channel.email;
  destination_lookup_digest = digest;
  destination_lookup_key_id = codes "a";
  user = none;
  code_digest = codes "d";
  pepper_key_id = codes "a";
  state = state;
  attempt_count = 0;
  issued_at = 0;
  activated_at = none;
  expires_at = none;
  consumed_at = none;
  superseded_at = none;
  terminal_at = none;
  version = 1;
}

abbrev sent_row : Outbox
sent_row = record {
  outbox_id = 1;
  challenge_id = 1;
  template_key = codes "t";
  payload_ciphertext = none;
  payload_key_id = codes "a";
  state = OutboxState.delivered;
  attempt_count = 1;
  lease_owner = none;
  lease_expires_at = none;
  next_attempt_at = 0;
  provider_category = some (codes "accepted");
  created_at = 0;
  delivered_at = some 5;
  terminal_at = some 5;
  version = 3;
}

abbrev leased_row : Outbox
leased_row = record {
  outbox_id = 2;
  challenge_id = 2;
  template_key = codes "t";
  payload_ciphertext = some (codes "c");
  payload_key_id = codes "a";
  state = OutboxState.leased;
  attempt_count = 1;
  lease_owner = some (codes "w");
  lease_expires_at = some 30000000;
  next_attempt_at = 0;
  provider_category = none;
  created_at = 0;
  delivered_at = none;
  terminal_at = none;
  version = 2;
}

abbrev mail : Mail
mail = record {
  challenges = challenge 1 ChallengeState.active ∷ challenge 2 ChallengeState.pending_delivery ∷ [];
  outboxes = sent_row ∷ leased_row ∷ [];
}

abbrev claim : ClaimedDelivery
claim = record {
  outbox_id = 2;
  challenge_id = 2;
  worker_id = codes "w";
  payload = (codes "destination", address) ∷ [];
  attempt_count = 1;
}

abbrev later : Mail
later = elim (record_failure externals settings claim false 9 mail) [ pure (o, m) ↦ m | _ ↦ mail ]

failed_lem : record_failure externals settings claim false 9 mail ≡ pure (retry_scheduled, later)
unfolding record_failure text_eq
failed_lem = refl

run : Run externals settings mail later
run = work (failed claim false 9 retry_scheduled failed_lem) done

Run-final_example : first (outbox_is 1) later.outboxes ≡ some sent_row
Run-final_example = Run-final settings externals 1 sent_row mail later run (omega arith) refl refl

abbrev finished : Mail
finished = elim (finish_delivery externals settings claim 9 mail) [ pure (o, m) ↦ m | _ ↦ mail ]
