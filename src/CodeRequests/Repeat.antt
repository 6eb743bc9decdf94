-- ===== src/CodeRequests/Repeat.antt =====
-- verification_requests.py: a request that comes again, and what its answer depends on.
use new_mud_codex.Shared.{
  ℕ, ◌≡◌, refl, ap, subst, Bool, true, Option, none, some, List, [], ◌∷◌, ◌++◌, arith, Bool-cases,
  inl, inr, ◌==◌,
}
use new_mud_codex.Shared.Text.{Text, Text_equality, text_eq_refl}
use new_mud_codex.Shared.Table.{first}
use new_mud_codex.Errors.{
  Result, pure, raise, Error, key_unavailable, ciphertext_invalid, bind-eq-pure, pure-injective,
}
use new_mud_codex.Contacts.{NormalizedEmail}
use new_mud_codex.Delivery.Tables.{Purpose, registration, password_reset, same_purpose}
use new_mud_codex.Registration.Tables.{Realm}
use new_mud_codex.Limits.{RateLimitDecision, Bucket, consume_persistent_limits}
use new_mud_codex.CodeRequests.Tables.{
  RequestHost, RequestSettings, RequestSupply, CodeRequest, RequestRecord, Desk, Answer, accepted,
  limited,
}
use new_mud_codex.CodeRequests.Issue.{issue_registration, issue_reset}
use new_mud_codex.CodeRequests.{
  record_is, replayed, replay_or_conflict, new_record, record_answer, decide, first_time,
  unless_replayed, transact, check_request, request_hash, rate_limits, namespace,
  request_registration_verification, request_password_reset_verification, except_sealed,
}

same_purpose_refl : (p : Purpose) → same_purpose p p ≡ true
same_purpose_refl registration = refl
same_purpose_refl password_reset = refl

-- A new row that is looked for is found after those that are not.
first-append_new :
    (p : RequestRecord → Bool) (rows : List RequestRecord) (r : RequestRecord)
    → first p rows ≡ none
    → p r ≡ true
    → first p (rows ++ r ∷ []) ≡ some r
first-append_new p [] r absent found = rw found refl
first-append_new p (x ∷ rows) r absent found = ground (arith, first-append_new p rows r)

module _ (h : RequestHost) (settings : RequestSettings) where
  -- The answer is recorded under the key and the hash.
  abbrev IsRecorded : Purpose → Text → Text → Answer × Desk → Type 0
  IsRecorded purpose key hash (answer, desk) =
      replay_or_conflict purpose key hash desk.requests ≡ pure (some answer)

  record_answer-IsRecorded :
      (purpose : Purpose) (key hash : Text) (answer : Answer) (now : ℕ) (realm : Realm)
      (buckets : List Bucket) (desk : Desk)
      → first (record_is purpose key) desk.requests ≡ none
      → IsRecorded purpose key hash
          (record_answer h settings purpose key hash answer now realm buckets desk)
  unfolding replay_or_conflict
  record_answer-IsRecorded purpose key hash answer now realm buckets desk absent = rw (
    first-append_new (record_is purpose key) desk.requests
        (new_record h settings purpose key hash answer now) absent
        (rw (same_purpose_refl purpose, text_eq_refl key) refl),
    text_eq_refl hash,
  )

  decide-IsRecorded :
      (purpose : Purpose) (key hash : Text) (d : RateLimitDecision × List Bucket)
      (issued : Result Realm) (s : RequestSupply) (desk : Desk) (out : Answer × Desk)
      → first (record_is purpose key) desk.requests ≡ none
      → decide h settings purpose key hash d issued s desk ≡ pure out
      → IsRecorded purpose key hash out
  decide-IsRecorded purpose key hash (d, buckets) issued s desk out absent e =
      elim (Bool-cases d.allowed) [
        | inl t ↦
            (let (realm, _, k) = bind-eq-pure issued _ (rw t at e) in
              subst (IsRecorded purpose key hash) (pure-injective k) (
                record_answer-IsRecorded purpose key hash accepted s.now realm buckets desk absent))
        | inr f ↦ subst (IsRecorded purpose key hash) (pure-injective (rw f at e)) (
            record_answer-IsRecorded purpose key hash (limited d.retry_after) s.now desk.realm
              buckets desk absent)
      ]

  replayed-none : (o : Option RequestRecord) (hash : Text) → replayed o hash ≡ pure none → o ≡ none
  replayed-none none hash e = refl
  replayed-none (some r) hash e = elim (Bool-cases (r.canonical_request_hash == hash)) [
    | inl t ↦ absurd (cc (rw t at e))
    | inr f ↦ absurd (cc (rw f at e))
  ]

  module _ (purpose : Purpose) (key : Text) (email : NormalizedEmail) (q : CodeRequest)
      (issues : NormalizedEmail → RequestSupply → Realm → Result Realm) where
    abbrev pub hash : Text
    hash = request_hash h settings purpose email.comparison

    after_replay :
        (replay : Option Answer) (s : RequestSupply) (desk : Desk) (out : Answer × Desk)
        → replay_or_conflict purpose key hash desk.requests ≡ pure replay
        → unless_replayed h settings replay desk
            (first_time h settings purpose key hash email q issues s desk)
          ≡ pure out
        → IsRecorded purpose key hash out
    unfolding replay_or_conflict
    after_replay (some answer) s desk out found e =
        subst (IsRecorded purpose key hash) (pure-injective e) found
    after_replay none s desk out found e =
        let (limits, _, k) =
          bind-eq-pure (rate_limits h settings email.comparison q.client_ip q.device_id) _ e in
        decide-IsRecorded purpose key hash
          (consume_persistent_limits (namespace purpose) limits s.now desk.buckets)
          (issues email s desk.realm) s desk out
          (replayed-none (first (record_is purpose key) desk.requests) hash found) k

    -- A transaction that has answered answers alike when it comes again, and writes nothing.
    pub transact_again :
        (s again : RequestSupply) (desk : Desk) (out : Answer × Desk)
        → transact h settings purpose key email q issues s desk ≡ pure out
        → transact h settings purpose key email q issues again out.1 ≡ pure out
    transact_again s again desk out e =
        let (replay, found, k) =
          bind-eq-pure (replay_or_conflict purpose key hash desk.requests) _ e in
        rw (after_replay replay s desk out found k) refl

  -- A request for a registration code that was answered is answered alike when it comes again,
  -- whatever the moment and the random values, and leaves the tables and the limits as they are.
  pub request_registration_again :
      (q : CodeRequest) (s again : RequestSupply) (desk desk' : Desk) (answer : Answer)
      → request_registration_verification h settings q s desk ≡ pure (answer, desk')
      → request_registration_verification h settings q again desk' ≡ pure (answer, desk')
  unfolding request_registration_verification
  request_registration_again q s again desk desk' answer e =
      let (checked, ec, k) = bind-eq-pure (check_request h settings q) _ e in
      rw ec (
        transact_again registration checked.0 checked.1 q (issue_registration h settings) s again
          desk (answer, desk') k)

  pub except_sealed-eq-pure :
      {A : Type 0} (m : Result A) {a : A} → except_sealed m ≡ pure a → m ≡ pure a
  except_sealed-eq-pure (pure b) e = e
  except_sealed-eq-pure {A = A} (raise b) {a = a} e = absurd (raised b e)
    where
      raised : (b : Error) → except_sealed {A = A} (raise b) ≡ pure a → ⊥
      raised key_unavailable e = cc e
      raised ciphertext_invalid e = cc e
      raised b e = cc e

  -- A request for a code for a password reset that was answered is answered alike when it comes
  -- again, whatever the moment and the random values, and leaves the tables and the limits as they
  -- are.
  pub request_password_reset_again :
      (q : CodeRequest) (s again : RequestSupply) (desk desk' : Desk) (answer : Answer)
      → request_password_reset_verification h settings q s desk ≡ pure (answer, desk')
      → request_password_reset_verification h settings q again desk' ≡ pure (answer, desk')
  unfolding request_password_reset_verification
  request_password_reset_again q s again desk desk' answer e =
      let (checked, ec, k) = bind-eq-pure (check_request h settings q) _ e in
      rw ec (
        ap except_sealed (
          transact_again password_reset checked.0 checked.1 q (issue_reset h settings) s again desk
            (answer, desk') (except_sealed-eq-pure _ k)))
