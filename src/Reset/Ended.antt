-- ===== src/Reset/Ended.antt =====
-- services.py, `reset_password_with_verification`: the sessions of the user afterwards.
use new_mud_codex.Shared.{
  ℕ, ◌≡◌, ◌≢◌, refl, sym, ap, subst, Bool, true, false, not, ◌&&◌, List, arith, ltb, ◌==◌,
  ℕ_equality, nat_eq_refl,
}
use new_mud_codex.Shared.Text.{Text}
use new_mud_codex.Shared.Table.{first, select, count, count-update-none, count-found}
use new_mud_codex.Errors.{
  Result, pure, raise, Error, bind-cases, raise_if, or_raise, contact_invalid, does_not_exist,
  password_reset_unavailable, verification_service_unavailable, verification_code_invalid,
}
use new_mud_codex.Tokens.{Crypto}
use new_mud_codex.Sessions.Tables.{
  Db, User, AuthSession, is_active_session, is_active_family, is_active_credential, user_is,
  session_is,
}
use new_mud_codex.Sessions.Request.{Value, text}
use new_mud_codex.Sessions.Access.{resolve_active_auth_session}
use new_mud_codex.Sessions.Resolve.{resolve-IsUsable}
use new_mud_codex.Contacts.{Unicode, normalize_email, lookup_digests}
use new_mud_codex.Delivery.{earliest}
use new_mud_codex.Delivery.Tables.{Challenge}
use new_mud_codex.Registration.{Passwords, RegistrationSettings, is_email_value}
use new_mud_codex.Registration.Tables.{Realm, Contact}
use new_mud_codex.Registration.Code.{Verdict, accepted, refused, unreadable}
use new_mud_codex.Reset.{
  revoke_user, is_session_of, is_family_of, is_credential_of, after_reset, settle_reset,
  judge_reset, reset_transaction, reset_body, reset_password, commit_reset, is_located,
  is_reset_code,
}

-- Nothing of the user is active, by the ownership of the rows before the reset.
pub record IsEnded (user_id : ℕ) (db db' : Db) : Type 0 where
  pub sessions : count (λ s. is_session_of user_id s && is_active_session s.state) db'.sessions ≡ 0
  pub families :
      count (λ f. is_family_of user_id db.sessions f && is_active_family f.state) db'.families ≡ 0
  pub credentials :
      count (λ r. is_credential_of user_id db r && is_active_credential r.state) db'.credentials ≡ 0

revoke_user-IsEnded : (user_id now : ℕ) (db : Db) → IsEnded user_id db (revoke_user user_id now db)
unfolding revoke_user
revoke_user-IsEnded user_id now db = record {
  sessions =
      count-update-none (λ s. is_session_of user_id s && is_active_session s.state)
        (λ s. is_session_of user_id s && is_active_session s.state) _ db.sessions
        (λ a q. ground arith) (λ a q. q);
  families =
      count-update-none (λ f. is_family_of user_id db.sessions f && is_active_family f.state)
        (λ f. is_family_of user_id db.sessions f && is_active_family f.state) _ db.families
        (λ a q. dead (is_family_of user_id db.sessions a)) (λ a q. q);
  credentials =
      count-update-none (λ r. is_credential_of user_id db r && is_active_credential r.state)
        (λ r. is_credential_of user_id db r && is_active_credential r.state) _ db.credentials
        (λ a q. dead (is_credential_of user_id db a)) (λ a q. q);
}
  where
    dead : (b : Bool) → (b && false) ≡ false
    dead b = ground arith

module _ (u : Unicode) (passwords : Passwords) (settings : RegistrationSettings)
    (str_of_int : ℕ → Text) where
  -- What a successful reset has found and written.
  pub record Resets (new_password : Text) (now : ℕ) (realm realm' : Realm) : Type 0 where
    pub user : User
    pub contact : Contact
    pub challenge : Challenge
    pub digests : List Text
    pub code : Text
    pub verdict :
        judge_reset u passwords settings str_of_int user contact digests code now realm
        ≡ accepted challenge
    pub after :
        realm'
        ≡ after_reset u passwords settings str_of_int user contact challenge new_password now realm

  abbrev Succeeds : Realm → Realm → Result (Bool × Realm) → Type 0
  Succeeds realm realm' m = commit_reset u passwords settings str_of_int m realm ≡ (pure tt, realm')

  raise-Succeeds : (realm realm' : Realm) (e : Error) → Succeeds realm realm' (raise e) → ⊥
  raise-Succeeds realm realm' e h = cc (ap (λ p. p.0) h)

  settle-Resets :
      (user : User) (contact : Contact) (digests : List Text) (code new_password : Text) (now : ℕ)
      (realm realm' : Realm) (v : Verdict)
      → judge_reset u passwords settings str_of_int user contact digests code now realm ≡ v
      → Succeeds realm realm'
          (settle_reset u passwords settings str_of_int v user contact new_password now realm)
      → Resets new_password now realm realm'
  settle-Resets user contact digests code new_password now realm realm' unreadable ev h =
      absurd (raise-Succeeds realm realm' _ h)
  settle-Resets user contact digests code new_password now realm realm' (refused rows) ev h =
      absurd (cc (ap (λ p. p.0) h))
  settle-Resets user contact digests code new_password now realm realm' (accepted g) ev h =
      bind-cases (λ m. Succeeds realm realm' m → Resets new_password now realm realm')
        (raise_if (not (passwords.is_acceptable new_password user.username))
          password_reset_unavailable)
        _ (λ e k. absurd (raise-Succeeds realm realm' e k))
        (λ _ _ k. record {
          user = user;
          contact = contact;
          challenge = g;
          digests = digests;
          code = code;
          verdict = ev;
          after = sym (ap (λ p. p.1) k);
        })
        h

  pub reset_password-Resets :
      (channel destination code : Value) (new_password : Text) (now : ℕ) (seen realm realm' : Realm)
      → reset_password u passwords settings str_of_int channel destination code
          (text new_password)
          now
          seen
          realm
        ≡ (pure tt, realm')
      → Resets new_password now realm realm'
  unfolding reset_password reset_body reset_transaction
  reset_password-Resets channel destination code new_password now seen realm realm' =
      bind-cases Goal (raise_if (not (is_email_value channel)) contact_invalid) _ raised λ _ _.
        bind-cases Goal (is_reset_code code) _ raised λ c _.
          bind-cases Goal (normalize_email u destination) _ raised λ email _.
            bind-cases Goal
              (raise_if (not settings.baseline_ready) verification_service_unavailable) _ raised
              λ _ _.
                bind-cases Goal
                  (or_raise
                    (earliest (λ r q. ltb r.contact_method_id q.contact_method_id)
                      (select
                        (is_located seen.db.users (lookup_digests u email settings.contact_lookup))
                        seen.contacts))
                    verification_code_invalid)
                  _ raised
                  λ locator _.
                    bind-cases Goal
                      (or_raise (first (user_is locator.user_id) realm.db.users) does_not_exist) _
                      raised
                      λ user _.
                        bind-cases Goal
                          (or_raise
                            (first
                              (λ (r : Contact). r.contact_method_id == locator.contact_method_id)
                              realm.contacts)
                            does_not_exist)
                          _ raised
                          λ contact _.
                            settle-Resets user contact
                              (lookup_digests u email settings.contact_lookup) c new_password now
                              realm realm' _ refl
    where
      Goal : Result (Bool × Realm) → Type 0
      Goal m = Succeeds realm realm' m → Resets new_password now realm realm'

      raised : (e : Error) → Goal (raise e)
      raised e h = absurd (raise-Succeeds realm realm' e h)

  -- A successful password reset is for a user of whom no session, no family and no credential is
  -- active afterwards.
  pub reset_password-IsEnded :
      (channel destination code : Value) (new_password : Text) (now : ℕ) (seen realm realm' : Realm)
      → reset_password u passwords settings str_of_int channel destination code
          (text new_password)
          now
          seen
          realm
        ≡ (pure tt, realm')
      → (i : Resets new_password now realm realm') × IsEnded i.user.user_id realm.db realm'.db
  reset_password-IsEnded channel destination code new_password now seen realm realm' e =
      let i = reset_password-Resets channel destination code new_password now seen realm realm' e in
      let ended = revoke_user-IsEnded i.user.user_id now realm.db in
      (
        i,
        subst (λ (r : Realm). IsEnded i.user.user_id realm.db r.db) (sym i.after)
            (record {
              sessions = ended.sessions;
              families = ended.families;
              credentials = ended.credentials;
            }),
      )

  -- After a successful password reset, no access token resolves to a session of the user whose
  -- code it spent.
  pub resolve-reset_password :
      (c : Crypto) (channel destination code token : Value) (new_password : Text)
      (now decode_now later : ℕ) (seen realm realm' : Realm) (t : AuthSession)
      → reset_password u passwords settings str_of_int channel destination code
          (text new_password)
          now
          seen
          realm
        ≡ (pure tt, realm')
      → resolve_active_auth_session c token decode_now later realm'.db ≡ pure t
      → (i : Resets new_password now realm realm') × (t.user_id ≢ i.user.user_id)
  resolve-reset_password c channel destination code token new_password now decode_now later seen
        realm realm' t e r =
      let (i, ended) =
        reset_password-IsEnded channel destination code new_password now seen realm realm' e in
      let live = resolve-IsUsable c token decode_now later realm'.db t r in
      (
        i,
        λ same.
            let own : (is_session_of i.user.user_id t && is_active_session t.state) ≡ true =
              rw (same, nat_eq_refl i.user.user_id) live.active in
            let counted =
              count-found (session_is t.auth_session_id)
                (λ s. is_session_of i.user.user_id s && is_active_session s.state)
                realm'.db.sessions live.found own in
            omega (arith, counted, ended.sessions),
      )
