-- ===== src/Registration/Code.antt =====
-- services.py: how `register` and the password reset judge a submitted code.
use new_mud_codex.Shared.{
  ℕ, ◌+◌, Bool, true, false, ◌&&◌, ◌||◌, Option, none, some, List, [], ◌∷◌, ◌++◌, leb, ltb, ◌==◌,
  ℕ_equality, if◌then◌else◌,
}
use new_mud_codex.Shared.Text.{Text, codes, Text_equality}
use new_mud_codex.Shared.Table.{select}
use new_mud_codex.Errors.{Result, pure, raise}
use new_mud_codex.Contacts.{Unicode, KeyRing, DigestedValue, keyed_digest}
use new_mud_codex.Delivery.{earliest, save_challenge}
use new_mud_codex.Delivery.Tables.{
  Challenge, ChallengeState, Purpose, registration, password_reset, Channel, email, sms,
  is_active_challenge, same_purpose, same_channel,
}
use new_mud_codex.Delivery.Finish.{member}

-- the choices as text
abbrev pub purpose_text : Purpose → Text
purpose_text registration = codes "registration"
purpose_text password_reset = codes "password_reset"

abbrev pub channel_text : Channel → Text
channel_text email = codes "email"
channel_text sms = codes "sms"

-- `user_id or "<unbound>"`
abbrev bound_to : Option Text → Text
bound_to none = codes "<unbound>"
bound_to (some t) = if t == [] then codes "<unbound>" else t

abbrev same_user : Option ℕ → Option ℕ → Bool
same_user none none = true
same_user (some a) (some b) = a == b
same_user _ _ = false

-- `.order_by("-activated_at", "challenge_id")`, nulls first
abbrev pub activated_before : Challenge → Challenge → Bool
activated_before a b = order a.activated_at b.activated_at (ltb a.challenge_id b.challenge_id)
  where
    order : Option ℕ → Option ℕ → Bool → Bool
    order none none rest = rest
    order none (some t) rest = true
    order (some s) none rest = false
    order (some s) (some t) rest = ltb t s || (s == t && rest)

abbrev pub is_candidate : Purpose → List Text → Option ℕ → Challenge → Bool
is_candidate purpose digests user h =
    same_purpose h.purpose purpose
    && same_channel h.channel email
    && member h.destination_lookup_digest digests
    && same_user h.user user
    && is_active_challenge h.state

unfoldable pub active_challenge : Purpose → List Text → Option ℕ → List Challenge → Option Challenge
active_challenge purpose digests user rows =
    earliest activated_before (select (is_candidate purpose digests user) rows)

abbrev pub expired : Challenge → ℕ → Challenge
expired h now = record h {
  state = ChallengeState.expired;
  terminal_at = some now;
  version = h.version + 1;
}

abbrev pub missed : Challenge → ℕ → Challenge
missed h now =
    if leb 5 (h.attempt_count + 1)
    then record h {
      attempt_count = h.attempt_count + 1;
      state = ChallengeState.locked;
      terminal_at = some now;
      version = h.version + 1;
    }
    else record h { attempt_count = h.attempt_count + 1; version = h.version + 1 }

abbrev pub consumed : Challenge → ℕ → Challenge
consumed h now = record h {
  state = ChallengeState.consumed;
  consumed_at = some now;
  terminal_at = some now;
  version = h.version + 1;
}

-- `challenge.expires_at is None or challenge.expires_at <= now`
abbrev pub is_over : Challenge → ℕ → Bool
is_over h now = elim h.expires_at [ none ↦ true | some t ↦ leb t now ]

-- A code is accepted for a challenge, or refused with what the refusal has written, or its key is
-- not in the ring.
pub data Verdict : Type 0 where
  accepted : Challenge → Verdict
  refused : List Challenge → Verdict
  unreadable : Verdict

module _ (u : Unicode) where
  unfoldable pub verification_code_digest :
      Text → KeyRing → Challenge → Option Text → Result DigestedValue
  verification_code_digest code ring h user_id =
      keyed_digest u code ring
        (codes "verification-code"
          ++ 31
            ∷ (purpose_text h.purpose
                ++ 31
                  ∷ (channel_text h.channel
                      ++ 31 ∷ (h.destination_lookup_digest ++ 31 ∷ bound_to user_id))))
        h.pepper_key_id

  abbrev pub compare_code : Challenge → ℕ → List Challenge → Result DigestedValue → Verdict
  compare_code h now rows (raise e) = unreadable
  compare_code h now rows (pure submitted) =
      if h.code_digest == submitted.digest
      then accepted h
      else refused (save_challenge (missed h now) rows)

  unfoldable pub judge_code :
      KeyRing → Text → Option Text → ℕ → Option Challenge → List Challenge → Verdict
  judge_code ring code user_id now none rows = refused rows
  judge_code ring code user_id now (some h) rows =
      if is_over h now
      then refused (save_challenge (expired h now) rows)
      else compare_code h now rows (verification_code_digest code ring h user_id)
