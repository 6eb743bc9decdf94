-- ===== src/Registration/Entry.antt =====
-- services.py, `register` and then `login`.
use new_mud_codex.Shared.{
  ◌+◌, ◌≡◌, refl, sym, ◌∙◌, subst, Bool, true, false, not, ◌||◌, none, some, List, [], ◌∷◌, arith,
  ◌==◌, ℕ_equality, ◌-◌, timestamp, seconds_left, nat_eq_refl,
}
use new_mud_codex.Shared.Text.{Text, Text_equality, text_eq_refl}
use new_mud_codex.Shared.Table.{first, exists, first-append-none, first-none_narrower}
use new_mud_codex.Errors.{pure}
use new_mud_codex.Tokens.{Crypto, materialize_refresh_token}
use new_mud_codex.Sessions.Tables.{Db, User, GameAccount, Settings, user_is}
use new_mud_codex.Sessions.Result.{Authentication, access_claims}
use new_mud_codex.Sessions.Request.{text}
use new_mud_codex.Sessions.Login.{
  Host, LoginSupply, account_of, login, login_body, login_transaction, login_result, new_session,
  expiry,
}
use new_mud_codex.Sessions.FirstRefresh.{encode-any}
use new_mud_codex.Contacts.{Unicode}
use new_mud_codex.Sealed.{Aead}
use new_mud_codex.Registration.{
  Verification, Passwords, RegistrationSettings, RegistrationSupply, RegistrationResult, register,
  new_user, new_account,
}
use new_mud_codex.Registration.Spent.{Registers, register-Registers}
use new_mud_codex.Registration.Tables.{Realm}

exists-none {ℓ} :
    {A : Type ℓ} (p : A → Bool) (xs : List A) → exists p xs ≡ false → first p xs ≡ none
exists-none p [] h = refl
exists-none p (x ∷ xs) h = ground (arith, exists-none p xs)

-- The rows of users and accounts in which a login looks.
record Enters (user : User) (account : GameAccount) (instance_id : Text) (db : Db) : Type 0 where
  pub by_name : first (λ x. x.username == user.username) db.users ≡ some user
  pub by_id : first (user_is user.user_id) db.users ≡ some user
  pub account_there : first (account_of user.user_id instance_id) db.accounts ≡ some account
  pub allowed : user.is_active ≡ true

module _ (c : Crypto) (login_settings : Settings) (host : Host) where
  -- A login with the right password succeeds where tokens can be signed.
  login-Enters :
      (name password token : Text) (user : User) (account : GameAccount) (s : LoginSupply) (db : Db)
      → Enters user account login_settings.content_instance_id db
      → user.username ≡ host.lower name
      → host.check_password user.password password ≡ true
      → materialize_refresh_token c s.credential_id 1 ≡ pure token
      → (b : Authentication) × ((login c login_settings host (text name) (text password) s db db).0
          ≡ pure b)
        × (b.game_account_id ≡ account.game_account_id)
  unfolding login login_body login_transaction login_result
  login-Enters name password token user account s db i same checked derived =
      let guard : (not (host.check_password user.password password) || not user.is_active) ≡ false =
        (let on = i.allowed in ground arith) in
      let claims =
        access_claims c login_settings (new_session c login_settings host user account s) s.now
          s.jti in
      let (access, encoded) = encode-any c s.credential_id 1 token claims derived in
      (
        record {
          access_token = access;
          refresh_token = token;
          expires_in =
              timestamp s.now + login_settings.access_token_ttl_seconds - timestamp s.response_at;
          refresh_max_age = seconds_left (expiry c login_settings host s) s.response_at;
          auth_session_id = s.session_id;
          game_account_id = account.game_account_id;
        },
        rw (sym same, i.by_name, i.by_id, i.account_there, guard, derived, encoded),
        refl,
      )

module _ (u : Unicode) (a : Aead) (passwords : Passwords) (settings : RegistrationSettings) where
  -- The new user and account are found by name and by key.
  registered-Enters :
      (username password : Text) (verification : Verification) (s : RegistrationSupply)
      (realm realm' : Realm)
      → Registers u a passwords settings username password verification s realm realm'
      → first (user_is s.user_id) realm.db.users ≡ none
      → first (λ (x : GameAccount). x.user_id == s.user_id) realm.db.accounts ≡ none
      → Enters
          (new_user u a passwords settings username password s)
          (new_account u a passwords settings s)
          settings.content_instance_id
          realm'.db
  registered-Enters username password verification s realm realm' i fresh_user fresh_account =
      subst
        (λ (r : Realm).
          Enters (new_user u a passwords settings username password s)
            (new_account u a passwords settings s) settings.content_instance_id r.db)
        (sym i.after)
        (record {
          by_name =
              first-append-none (λ (x : User). x.username == username) realm.db.users _
                (exists-none (λ (x : User). x.username == username) realm.db.users i.free_name)
              ∙ rw (text_eq_refl username);
          by_id =
              first-append-none (user_is s.user_id) realm.db.users _ fresh_user
              ∙ rw (nat_eq_refl s.user_id);
          account_there =
              first-append-none (account_of s.user_id settings.content_instance_id)
                realm.db.accounts _
                (first-none_narrower (λ (x : GameAccount). x.user_id == s.user_id)
                  (account_of s.user_id settings.content_instance_id) realm.db.accounts
                  (λ b h. ground arith) fresh_account)
              ∙ rw (nat_eq_refl s.user_id, text_eq_refl settings.content_instance_id);
          allowed = refl;
        })

  -- After a registration with fresh identifiers, a login under the same name and password succeeds
  -- and enters the new account, where both run under one instance, one lower-casing and one
  -- password hasher that accepts what it has hashed, and where a refresh token can be signed.
  pub register-login :
      (c : Crypto) (login_settings : Settings) (host : Host) (username password token : Text)
      (verification : Verification) (limit_allows : Bool) (s : RegistrationSupply) (t : LoginSupply)
      (r : RegistrationResult) (realm realm' : Realm)
      → login_settings.content_instance_id ≡ settings.content_instance_id
      → host.lower username ≡ u.lower username
      → host.check_password (passwords.make_password password) password ≡ true
      → materialize_refresh_token c t.credential_id 1 ≡ pure token
      → first (user_is s.user_id) realm.db.users ≡ none
      → first (λ (x : GameAccount). x.user_id == s.user_id) realm.db.accounts ≡ none
      → register u a passwords settings
          (text username)
          (text password)
          verification
          limit_allows
          s
          realm
        ≡ (pure r, realm')
      → (b : Authentication) × ((login c login_settings host
            (text username)
            (text password)
            t
            realm'.db
            realm'.db).0
          ≡ pure b)
        × (b.game_account_id ≡ s.game_account_id)
  register-login c login_settings host username password token verification limit_allows s t r realm
        realm' same_instance same_lower checked derived fresh_user fresh_account e =
      let i =
        register-Registers u a passwords settings username password verification limit_allows s r
          realm realm' e in
      let rows =
        registered-Enters (u.lower username) password verification s realm realm' i fresh_user
          fresh_account in
      login-Enters c login_settings host username password token
        (new_user u a passwords settings (u.lower username) password s)
        (new_account u a passwords settings s) t realm'.db
        (subst
          (λ k.
            Enters (new_user u a passwords settings (u.lower username) password s)
              (new_account u a passwords settings s) k realm'.db)
          (sym same_instance) rows)
        (sym same_lower) checked derived
