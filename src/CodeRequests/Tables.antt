-- ===== src/CodeRequests/Tables.antt =====
-- verification_requests.py and models.py: what a request for a code reads and writes.
use new_mud_codex.Shared.{ℕ, Bool, List, ℕ_equality}
use new_mud_codex.Shared.Text.{Text, Text_equality}
use new_mud_codex.Sessions.Request.{Value}
use new_mud_codex.Contacts.{KeyRing}
use new_mud_codex.Delivery.{Externals, Payload}
use new_mud_codex.Delivery.Tables.{Purpose}
use new_mud_codex.Registration.Tables.{Realm}
use new_mud_codex.Limits.{Bucket}

-- `VerificationRequestResult` with its two payloads: accepted, or limited with the seconds to wait.
pub data Answer : Type 0 where
  accepted : Answer
  limited : ℕ → Answer

-- `VerificationRequestRecord`
pub record RequestRecord : Type 0 where
  pub purpose : Purpose
  pub idempotency_key : Text
  pub canonical_request_hash : Text
  pub answer : Answer
  pub created_at : ℕ
  pub expires_at : ℕ

-- The tables that a request reads and writes.
pub record Desk : Type 0 where
  pub realm : Realm
  pub requests : List RequestRecord
  pub buckets : List Bucket

-- `json.dumps` with sorted keys, hashlib, and `str` of an integer
pub record RequestHost : Type 0 where
  pub externals : Externals
  pub dumps : Payload → Text
  pub sha256_hexdigest : Text → Text
  pub str_of_int : ℕ → Text

pub record RequestSettings : Type 0 where
  pub baseline_configured : Bool
  pub contact_lookup : KeyRing
  pub contact_encryption : KeyRing
  pub code_pepper : KeyRing
  pub delivery_payload : KeyRing
  pub retention_seconds : ℕ

-- `timezone.now()`, the moment at which the outbox row is saved, `secrets.randbelow`, the keys of
-- the new rows, and the nonce
pub record RequestSupply : Type 0 where
  pub now : ℕ
  pub saved_at : ℕ
  pub number : ℕ
  pub challenge_id : ℕ
  pub outbox_id : ℕ
  pub nonce : Text

pub record CodeRequest : Type 0 where
  pub channel : Value
  pub destination : Value
  pub idempotency_key : Value
  pub client_ip : Text
  pub device_id : Text
