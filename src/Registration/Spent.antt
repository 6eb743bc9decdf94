-- ===== src/Registration/Spent.antt =====
-- services.py, `register`: what a successful registration has found and written.
use new_mud_codex.Shared.{
  ℕ, ◌≡◌, refl, sym, ◌∙◌, ap, subst, Bool, true, false, not, Option, none, some, List, inl, inr,
  Bool-cases, arith, ◌==◌,
}
use new_mud_codex.Shared.Text.{Text, codes, Text_equality, text_eq_iff}
use new_mud_codex.Shared.Table.{select, Elem, Elem-select, exists}
use new_mud_codex.Errors.{
  Result, pure, raise, Error, bind-eq-pure, bind-cases, pure-injective, raise_if, raise_if-eq-pure,
  registration_invalid, registration_unavailable, registration_rate_limited,
  verification_service_unavailable,
}
use new_mud_codex.Sessions.Request.{text}
use new_mud_codex.Contacts.{Unicode, DigestedValue, NormalizedEmail, lookup_digests, keyed_digest}
use new_mud_codex.Sealed.{Aead, EncryptedValue, encrypt_value}
use new_mud_codex.Delivery.Steps.{earliest-Elem}
use new_mud_codex.Delivery.Tables.{Challenge, Purpose, is_active_challenge}
use new_mud_codex.Registration.{
  Verification, Passwords, RegistrationSettings, RegistrationSupply, RegistrationResult,
  read_verification, create_account, registered, settle_code, register_transaction, register_body,
  register, commit_registration, is_taken, is_username,
}
use new_mud_codex.Registration.Tables.{Realm}
use new_mud_codex.Registration.Code.{
  Verdict, accepted, refused, unreadable, judge_code, compare_code, active_challenge,
  activated_before, is_candidate, is_over, verification_code_digest,
}

pub active_challenge-Elem :
    (purpose : Purpose) (digests : List Text) (user : Option ℕ) (rows : List Challenge)
    {h : Challenge}
    → active_challenge purpose digests user rows ≡ some h
    → Elem h rows × (is_candidate purpose digests user h ≡ true)
unfolding active_challenge
active_challenge-Elem purpose digests user rows {h = h} e =
    Elem-select (is_candidate purpose digests user) rows
      (earliest-Elem activated_before (select (is_candidate purpose digests user) rows) e)

pub candidate-active :
    (purpose : Purpose) (digests : List Text) (user : Option ℕ) (h : Challenge)
    → is_candidate purpose digests user h ≡ true
    → is_active_challenge h.state ≡ true
candidate-active purpose digests user h e = ground arith

module _ (u : Unicode) (settings : RegistrationSettings) where
  -- The submitted code is the one of the challenge.
  pub record Matches (code : Text) (h : Challenge) : Type 0 where
    pub submitted : DigestedValue
    pub digested : verification_code_digest u code settings.code_pepper h none ≡ pure submitted
    pub equal : h.code_digest ≡ submitted.digest

  compare-accepted :
      (code : Text) (h h' : Challenge) (now : ℕ) (rows : List Challenge) (d : Result DigestedValue)
      → verification_code_digest u code settings.code_pepper h none ≡ d
      → compare_code u h now rows d ≡ accepted h'
      → (h ≡ h') × Matches code h
  compare-accepted code h h' now rows (raise e) ed k = absurd (cc k)
  compare-accepted code h h' now rows (pure d) ed k =
      elim (Bool-cases (h.code_digest == d.digest)) [
        | inl t ↦ (
          cc (rw t at k),
          record { submitted = d; digested = ed; equal = (text_eq_iff h.code_digest d.digest).0 t },
        )
        | inr f ↦ absurd (cc (rw f at k))
      ]

  pub judge-accepted :
      (code : Text) (now : ℕ) (o : Option Challenge) (rows : List Challenge) (h : Challenge)
      → judge_code u settings.code_pepper code none now o rows ≡ accepted h
      → (o ≡ some h) × (is_over h now ≡ false) × Matches code h
  unfolding judge_code
  judge-accepted code now none rows h e = absurd (cc e)
  judge-accepted code now (some g) rows h e = elim (Bool-cases (is_over g now)) [
    | inl t ↦ absurd (cc (rw t at e))
    | inr f ↦
        (let (same, m) =
            compare-accepted code g h now rows
              (verification_code_digest u code settings.code_pepper g none) refl (rw f at e) in
          (ap some same, subst (λ k. is_over k now ≡ false) same f, subst (Matches code) same m))
  ]

module _ (u : Unicode) (a : Aead) (passwords : Passwords) (settings : RegistrationSettings) where
  -- What a successful registration has found and written.
  pub record Registers (username password : Text) (verification : Verification)
      (s : RegistrationSupply) (realm realm' : Realm) : Type 0 where
    pub code : Text
    pub email : NormalizedEmail
    pub challenge : Challenge
    pub sealed : EncryptedValue
    pub digest : DigestedValue
    pub verified : read_verification u verification ≡ pure (code, email)
    pub named : is_username username ≡ true
    pub present : Elem challenge realm.mail.challenges
    pub candidate :
        is_candidate Purpose.registration
          (lookup_digests u email settings.contact_lookup)
          none
          challenge
        ≡ true
    pub unexpired : is_over challenge s.now ≡ false
    pub correct : Matches u settings code challenge
    pub free_name : exists (λ x. x.username == username) realm.db.users ≡ false
    pub free_contact :
        exists
          (is_taken u a passwords settings (lookup_digests u email settings.contact_lookup))
          realm.contacts
        ≡ false
    pub after :
        realm'
        ≡ registered u a passwords settings username password sealed digest.digest digest.key_id
            challenge s realm

  abbrev Succeeds :
      RegistrationResult → Realm → Realm → Result (Option RegistrationResult × Realm) → Type 0
  Succeeds r realm realm' m = commit_registration u a passwords settings m realm ≡ (pure r, realm')

  raise-Succeeds :
      (r : RegistrationResult) (realm realm' : Realm) (e : Error)
      → Succeeds r realm realm' (raise e)
      → ⊥
  raise-Succeeds r realm realm' e h = cc (ap (λ p. p.0) h)

  -- the parts that `create_account` contributes
  pub record Creates (username password : Text) (email : NormalizedEmail) (h : Challenge)
      (s : RegistrationSupply) (realm realm' : Realm) : Type 0 where
    pub sealed : EncryptedValue
    pub digest : DigestedValue
    pub free_name : exists (λ x. x.username == username) realm.db.users ≡ false
    pub free_contact :
        exists
          (is_taken u a passwords settings (lookup_digests u email settings.contact_lookup))
          realm.contacts
        ≡ false
    pub after :
        realm'
        ≡ registered u a passwords settings username password sealed digest.digest digest.key_id h s
            realm

  pub create_account-Creates :
      (username password : Text) (email : NormalizedEmail) (h : Challenge) (s : RegistrationSupply)
      (realm realm' : Realm)
      → create_account u a passwords settings username password email h s realm ≡ pure realm'
      → Creates username password email h s realm realm'
  unfolding create_account
  create_account-Creates username password email h s realm realm' e =
      let (_, _, e1) =
        bind-eq-pure
          (raise_if (not (passwords.is_acceptable password username)) registration_invalid) _ e in
      let (_, n, e2) =
        bind-eq-pure
          (raise_if (exists (λ x. x.username == username) realm.db.users) registration_unavailable)
          _ e1 in
      let (_, t, e3) =
        bind-eq-pure
          (raise_if
            (exists
              (is_taken u a passwords settings (lookup_digests u email settings.contact_lookup))
              realm.contacts)
            registration_unavailable)
          _ e2 in
      let (sealed, _, e4) =
        bind-eq-pure
          (encrypt_value a email.delivery settings.contact_encryption (codes "contact:email")
            s.nonce)
          _ e3 in
      let (d, _, e5) =
        bind-eq-pure
          (keyed_digest u email.comparison settings.contact_lookup (codes "contact:email")
            settings.contact_lookup.current_key_id)
          _ e4 in
      record {
        sealed = sealed;
        digest = d;
        free_name = raise_if-eq-pure _ _ n;
        free_contact = raise_if-eq-pure _ _ t;
        after = sym (pure-injective e5);
      }

  settle-Registers :
      (username password code : Text) (email : NormalizedEmail) (verification : Verification)
      (s : RegistrationSupply) (r : RegistrationResult) (realm realm' : Realm) (v : Verdict)
      → read_verification u verification ≡ pure (code, email)
      → is_username username ≡ true
      → judge_code u settings.code_pepper code none s.now
          (active_challenge Purpose.registration
            (lookup_digests u email settings.contact_lookup)
            none
            realm.mail.challenges)
          realm.mail.challenges
        ≡ v
      → Succeeds r realm realm'
          (settle_code u a passwords settings v username password email s realm)
      → Registers username password verification s realm realm'
  settle-Registers username password code email verification s r realm realm' unreadable read named
        ev h =
      absurd (raise-Succeeds r realm realm' _ h)
  settle-Registers username password code email verification s r realm realm' (refused rows) read
        named ev h =
      absurd (cc (ap (λ p. p.0) h))
  settle-Registers username password code email verification s r realm realm' (accepted g) read
        named ev done =
      bind-cases
        (λ m. Succeeds r realm realm' m → Registers username password verification s realm realm')
        (create_account u a passwords settings username password email g s realm) _
        (λ e h. absurd (raise-Succeeds r realm realm' e h))
        (λ made em h.
          let (found, unexpired, correct) =
            judge-accepted u settings code s.now _ realm.mail.challenges g ev in
          let (present, candidate) =
            active_challenge-Elem Purpose.registration
              (lookup_digests u email settings.contact_lookup) none realm.mail.challenges found in
          let c = create_account-Creates username password email g s realm made em in
          let same : made ≡ realm' = ap (λ p. p.1) h in
          record {
            code = code;
            email = email;
            challenge = g;
            sealed = c.sealed;
            digest = c.digest;
            verified = read;
            named = named;
            present = present;
            candidate = candidate;
            unexpired = unexpired;
            correct = correct;
            free_name = c.free_name;
            free_contact = c.free_contact;
            after = sym same ∙ c.after;
          })
        done

  pub register-Registers :
      (username password : Text) (verification : Verification) (limit_allows : Bool)
      (s : RegistrationSupply) (r : RegistrationResult) (realm realm' : Realm)
      → register u a passwords settings
          (text username)
          (text password)
          verification
          limit_allows
          s
          realm
        ≡ (pure r, realm')
      → Registers (u.lower username) password verification s realm realm'
  unfolding register register_body register_transaction
  register-Registers username password verification limit_allows s r realm realm' =
      bind-cases Goal (raise_if (not settings.baseline_ready) verification_service_unavailable) _
        raised
        λ _ _.
          bind-cases Goal (raise_if (not limit_allows) registration_rate_limited) _ raised λ _ _.
            bind-cases Goal (raise_if (not (is_username (u.lower username))) registration_invalid) _
              raised
              λ _ named. bind-cases Goal (read_verification u verification) _ raised λ p read.
                settle-Registers (u.lower username) password p.0 p.1 verification s r realm realm' _
                  read (not_false (is_username (u.lower username)) (raise_if-eq-pure _ _ named))
                  refl
    where
      Goal : Result (Option RegistrationResult × Realm) → Type 0
      Goal m =
          Succeeds r realm realm' m
          → Registers (u.lower username) password verification s realm realm'

      raised : (e : Error) → Goal (raise e)
      raised e h = absurd (raise-Succeeds r realm realm' e h)

      not_false : (b : Bool) → not b ≡ false → b ≡ true
      not_false b h = ground arith
