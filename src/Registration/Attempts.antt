-- ===== src/Registration/Attempts.antt =====
-- services.py, `register`: the attempts at a challenge.
use new_mud_codex.Shared.{
  ℕ, ◌+◌, ◌≤◌, ◌<◌, ◌≡◌, refl, sym, subst, Bool, true, false, not, Option, none, some, List, inl,
  inr, Bool-cases, arith, All, leb, ◌==◌,
}
use new_mud_codex.Shared.Text.{Text, Text_equality}
use new_mud_codex.Shared.Table.{All-update, All-Elem}
use new_mud_codex.Errors.{
  Result, pure, raise, ◌>>◌, bind-cases, raise_if, registration_invalid, registration_rate_limited,
  verification_service_unavailable,
}
use new_mud_codex.Sessions.Request.{Value, text, not_text}
use new_mud_codex.Contacts.{Unicode, DigestedValue, NormalizedEmail, lookup_digests}
use new_mud_codex.Sealed.{Aead}
use new_mud_codex.Delivery.{save_challenge}
use new_mud_codex.Delivery.Tables.{Challenge, Purpose, challenge_is, is_active_challenge}
use new_mud_codex.Registration.{
  Verification, Passwords, RegistrationSettings, RegistrationSupply, RegistrationResult,
  read_verification, create_account, settle_code, register_transaction, register_body, register,
  commit_registration, is_username,
}
use new_mud_codex.Registration.Tables.{Realm}
use new_mud_codex.Registration.Code.{
  Verdict, accepted, refused, unreadable, judge_code, compare_code, active_challenge, is_over,
  consumed, expired, missed, verification_code_digest,
}
use new_mud_codex.Registration.Spent.{
  active_challenge-Elem, candidate-active, judge-accepted, Creates, create_account-Creates,
}

-- At most five attempts, and fewer for as long as the challenge is active.
pub record IsTried (h : Challenge) : Type 0 where
  pub bounded : h.attempt_count ≤ 5
  pub open_bounded : is_active_challenge h.state ≡ true → h.attempt_count < 5

missed-IsTried :
    (h : Challenge) (now : ℕ)
    → is_active_challenge h.state ≡ true
    → IsTried h
    → IsTried (missed h now)
missed-IsTried h now live t = elim (Bool-cases (leb 5 (h.attempt_count + 1))) [
  | inl e ↦
      (let fewer = t.open_bounded live in
        rw e (record { bounded = omega arith; open_bounded = λ q. absurd (cc q) }))
  | inr e ↦ rw e (record { bounded = ground arith; open_bounded = λ q. ground arith })
]

save-IsTried :
    (h : Challenge) (rows : List Challenge)
    → IsTried h
    → All IsTried rows
    → All IsTried (save_challenge h rows)
save-IsTried h rows t ts =
    All-update IsTried (challenge_is h.challenge_id) (λ _. h) rows (λ a e p. t) ts

module _ (u : Unicode) (settings : RegistrationSettings) where
  compare-refused :
      (h : Challenge) (now : ℕ) (rows rows' : List Challenge) (d : Result DigestedValue)
      → is_active_challenge h.state ≡ true
      → IsTried h
      → All IsTried rows
      → compare_code u h now rows d ≡ refused rows'
      → All IsTried rows'
  compare-refused h now rows rows' (raise e) live t ts k = absurd (cc k)
  compare-refused h now rows rows' (pure d) live t ts k =
      elim (Bool-cases (h.code_digest == d.digest)) [
        | inl y ↦ absurd (cc (rw y at k))
        | inr n ↦
            (let k' = rw n at k in
              subst (All IsTried) (cc k')
                (save-IsTried (missed h now) rows (missed-IsTried h now live t) ts))
      ]

  judge-refused :
      (code : Text) (now : ℕ) (o : Option Challenge) (rows rows' : List Challenge)
      → ((h : Challenge) → o ≡ some h → IsTried h × (is_active_challenge h.state ≡ true))
      → All IsTried rows
      → judge_code u settings.code_pepper code none now o rows ≡ refused rows'
      → All IsTried rows'
  unfolding judge_code
  judge-refused code now none rows rows' h ts e = subst (All IsTried) (cc e) ts
  judge-refused code now (some g) rows rows' h ts e = elim (Bool-cases (is_over g now)) [
    | inl t ↦
        (let e' = rw t at e in
          subst (All IsTried) (cc e') (
            save-IsTried (expired g now) rows
              (record { bounded = (h g refl).0.bounded; open_bounded = λ q. absurd (cc q) }) ts))
    | inr f ↦
        compare-refused g now rows rows'
          (verification_code_digest u code settings.code_pepper g none) (h g refl).1 (h g refl).0 ts
          (rw f at e)
  ]

module _ (u : Unicode) (a : Aead) (passwords : Passwords) (settings : RegistrationSettings) where
  abbrev Tried : Realm → Result (Option RegistrationResult × Realm) → Type 0
  Tried realm m = All IsTried (commit_registration u a passwords settings m realm).1.mail.challenges

  created-Tried :
      (username password : Text) (email : NormalizedEmail) (h : Challenge) (s : RegistrationSupply)
      (realm realm' : Realm)
      → Creates u a passwords settings username password email h s realm realm'
      → IsTried h
      → All IsTried realm.mail.challenges
      → All IsTried realm'.mail.challenges
  created-Tried username password email h s realm realm' c t ts =
      subst (λ (r : Realm). All IsTried r.mail.challenges) (sym c.after)
        (save-IsTried (consumed h s.now) realm.mail.challenges
          (record { bounded = t.bounded; open_bounded = λ q. absurd (cc q) }) ts)

  settle-Tried :
      (username password code : Text) (email : NormalizedEmail) (s : RegistrationSupply)
      (realm : Realm) (v : Verdict)
      → All IsTried realm.mail.challenges
      → judge_code u settings.code_pepper code none s.now
          (active_challenge Purpose.registration
            (lookup_digests u email settings.contact_lookup)
            none
            realm.mail.challenges)
          realm.mail.challenges
        ≡ v
      → Tried realm (settle_code u a passwords settings v username password email s realm)
  settle-Tried username password code email s realm unreadable ts ev = ts
  settle-Tried username password code email s realm (refused rows) ts ev =
      judge-refused u settings code s.now _ realm.mail.challenges rows
        (λ h e.
          let (present, fit) =
            active_challenge-Elem Purpose.registration
              (lookup_digests u email settings.contact_lookup) none realm.mail.challenges e in
          (
            All-Elem IsTried realm.mail.challenges ts present,
            candidate-active Purpose.registration (lookup_digests u email settings.contact_lookup)
                none h fit,
          ))
        ts ev
  settle-Tried username password code email s realm (accepted g) ts ev =
      bind-cases (Tried realm)
        (create_account u a passwords settings username password email g s realm) _ (λ e. ts)
        (λ made em.
          let (found, _, _) = judge-accepted u settings code s.now _ realm.mail.challenges g ev in
          let (present, _) =
            active_challenge-Elem Purpose.registration
              (lookup_digests u email settings.contact_lookup) none realm.mail.challenges found in
          created-Tried username password email g s realm made
            (create_account-Creates u a passwords settings username password email g s realm made
              em)
            (All-Elem IsTried realm.mail.challenges ts present) ts)

  refused_early :
      (ready allows : Bool) (realm : Realm)
      → All IsTried realm.mail.challenges
      → Tried realm (
          raise_if (not ready) verification_service_unavailable
          >> (raise_if (not allows) registration_rate_limited >> raise registration_invalid))
  refused_early true true realm ts = ts
  refused_early true false realm ts = ts
  refused_early false allows realm ts = ts

  -- Whatever is submitted to a registration, no challenge is tried more than five times, and a
  -- challenge that is still active has been tried fewer than five times.
  pub register-IsTried :
      (username password : Value) (verification : Verification) (limit_allows : Bool)
      (s : RegistrationSupply) (realm : Realm)
      → All IsTried realm.mail.challenges
      → All IsTried
          (register u a passwords settings username password verification limit_allows s
            realm).1.mail.challenges
  unfolding register register_body register_transaction
  register-IsTried not_text password verification limit_allows s realm ts =
      refused_early settings.baseline_ready limit_allows realm ts
  register-IsTried (text username) not_text verification limit_allows s realm ts =
      refused_early settings.baseline_ready limit_allows realm ts
  register-IsTried (text username) (text password) verification limit_allows s realm ts =
      bind-cases (Tried realm)
        (raise_if (not settings.baseline_ready) verification_service_unavailable) _ (λ e. ts)
        λ _ _.
          bind-cases (Tried realm) (raise_if (not limit_allows) registration_rate_limited) _
            (λ e. ts)
            λ _ _.
              bind-cases (Tried realm)
                (raise_if (not (is_username (u.lower username))) registration_invalid) _ (λ e. ts)
                λ _ _.
                  bind-cases (Tried realm) (read_verification u verification) _ (λ e. ts)
                    λ p _. settle-Tried (u.lower username) password p.0 p.1 s realm _ ts refl
