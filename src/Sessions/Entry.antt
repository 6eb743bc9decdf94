-- ===== src/Sessions/Entry.antt =====
-- services.py, `login`: what a successful login has found and written.
use new_mud_codex.Shared.{
  ℕ, ◌≡◌, sym, ◌∙◌, ap, subst, true, false, not, ◌||◌, none, some, arith, nat_eq_refl, ◌==◌,
  ℕ_equality,
}
use new_mud_codex.Shared.Text.{Text, Text_equality, text_eq_refl}
use new_mud_codex.Shared.Table.{
  first, first-fits, first-own, first-append-none, first-none_narrower, Keyed,
}
use new_mud_codex.Errors.{
  Result, Error, pure, raise, bind-cases, or_raise, or_raise-eq-pure, raise_if, raise_if-eq-pure,
  authentication_failed,
}
use new_mud_codex.Tokens.{Crypto, materialize_refresh_token, refresh_token_hash}
use new_mud_codex.Tokens.Laws.{Laws}
use new_mud_codex.Tokens.Refresh.{parse-materialize}
use new_mud_codex.Sessions.Tables.{
  Db, User, GameAccount, Settings, session_is, family_is, credential_is, account_is, user_is,
}
use new_mud_codex.Sessions.Result.{Authentication}
use new_mud_codex.Sessions.Request.{Value, text, not_text, Locked, is_idempotency_key, locator_is}
use new_mud_codex.Sessions.Login.{
  Host, LoginSupply, LoggedIn, account_of, new_session, new_family, new_credential, logged_in_db,
  login_transaction, login_body, login_result, commit_login, login,
}
use new_mud_codex.Sessions.Reuse.{Reaches}

-- The identifiers that `uuid.uuid4()` supplies are in no table.
pub record IsFresh (s : LoginSupply) (db : Db) : Type 0 where
  pub session_fresh : first (session_is s.session_id) db.sessions ≡ none
  pub family_fresh : first (family_is s.family_id) db.families ≡ none
  pub credential_fresh : first (credential_is s.credential_id) db.credentials ≡ none

abbrev pub KeyedAccounts : Db → Type 0
KeyedAccounts db = Keyed (λ (a : GameAccount). a.game_account_id) db.accounts

module _ (c : Crypto) (settings : Settings) (host : Host) where
  -- What a successful login has found and written.
  pub record LogsIn (s : LoginSupply) (db db1 : Db) (a : Authentication) : Type 0 where
    pub user : User
    pub account : GameAccount
    pub token : Text
    pub account_found :
        first (account_of user.user_id settings.content_instance_id) db.accounts ≡ some account
    pub user_found : first (user_is user.user_id) db.users ≡ some user
    pub allowed : user.is_active ≡ true
    pub derived : materialize_refresh_token c s.credential_id 1 ≡ pure token
    pub after : db1 ≡ logged_in_db c settings host user account token s db
    pub result :
        login_result c settings host (record { user = user; account = account; token = token }) s
        ≡ pure a

  abbrev Commits : LoginSupply → Db → Db → Authentication → Result (LoggedIn × Db) → Type 0
  Commits s db db1 a r = commit_login c settings host r s db ≡ (pure a, db1)

  user_key :
      (k : ℕ) (user : User) (db : Db)
      → first (user_is k) db.users ≡ some user
      → first (user_is user.user_id) db.users ≡ some user
  user_key k user db e =
      let key : user.user_id ≡ k = ground (arith, first-fits (user_is k) db.users e) in
      subst (λ n. first (user_is n) db.users ≡ some user) (sym key) e

  passed :
      (user : User) (password : Text)
      → (not (host.check_password user.password password) || not user.is_active) ≡ false
      → user.is_active ≡ true
  passed user password h = ground arith

  transaction-LogsIn :
      (k : ℕ) (password : Text) (s : LoginSupply) (db db1 : Db) (a : Authentication)
      → Commits s db db1 a (login_transaction c settings host k password s db)
      → LogsIn s db db1 a
  unfolding login_transaction
  transaction-LogsIn k password s db db1 a =
      bind-cases Goal (or_raise (first (user_is k) db.users) authentication_failed) _ raised
        λ user eu.
          bind-cases Goal
            (or_raise (first (account_of user.user_id settings.content_instance_id) db.accounts)
              authentication_failed)
            _ raised
            λ account ea.
              bind-cases Goal
                (raise_if (not (host.check_password user.password password) || not user.is_active)
                  authentication_failed)
                _ raised
                λ u eg.
                  bind-cases Goal (materialize_refresh_token c s.credential_id 1) _ raised
                    λ token et h. record {
                      user = user;
                      account = account;
                      token = token;
                      account_found = or_raise-eq-pure _ _ ea;
                      user_found = user_key k user db (or_raise-eq-pure _ _ eu);
                      allowed = passed user password (raise_if-eq-pure _ _ eg);
                      derived = et;
                      after = sym (ap (λ p. p.1) h);
                      result = ap (λ p. p.0) h;
                    }
    where
      Goal : Result (LoggedIn × Db) → Type 0
      Goal r = Commits s db db1 a r → LogsIn s db db1 a

      raised : (e : Error) → Goal (raise e)
      raised e h = absurd (cc (ap (λ p. p.0) h))

  pub login-LogsIn :
      (username password : Value) (s : LoginSupply) (seen db db1 : Db) (a : Authentication)
      → login c settings host username password s seen db ≡ (pure a, db1)
      → LogsIn s db db1 a
  unfolding login login_body
  login-LogsIn not_text password s seen db db1 a h = absurd (cc (ap (λ p. p.0) h))
  login-LogsIn (text u) not_text s seen db db1 a h = absurd (cc (ap (λ p. p.0) h))
  login-LogsIn (text u) (text p) s seen db db1 a h =
      bind-cases (λ r. Commits s db db1 a r → LogsIn s db db1 a)
        (or_raise (first (λ x. x.username == host.lower u) seen.users) authentication_failed) _
        (λ e k. absurd (cc (ap (λ p. p.0) k)))
        (λ located e. transaction-LogsIn located.user_id p s db db1 a) h

  abbrev pub login_rows : User → GameAccount → Text → LoginSupply → Locked
  login_rows user account token s = record {
    account = account;
    session = new_session c settings host user account s;
    family = new_family c settings host s;
    credential = new_credential c settings host token s;
  }

  account_key :
      (k : ℕ) (account : GameAccount) (db : Db)
      → KeyedAccounts db
      → first (account_of k settings.content_instance_id) db.accounts ≡ some account
      → first (account_is account.game_account_id) db.accounts ≡ some account
  account_key k account db u e =
      first-own (λ (a : GameAccount). a.game_account_id) (account_of k settings.content_instance_id)
        db.accounts u e

  pub logged_in_db-Reaches :
      (l : Laws c) (user : User) (account : GameAccount) (token key : Text) (s : LoginSupply)
      (db : Db)
      → IsFresh s db
      → KeyedAccounts db
      → first (account_of user.user_id settings.content_instance_id) db.accounts ≡ some account
      → materialize_refresh_token c s.credential_id 1 ≡ pure token
      → is_idempotency_key key ≡ true
      → Reaches c settings token key
          (logged_in_db c settings host user account token s db)
          (login_rows user account token s)
  logged_in_db-Reaches l user account token key s db fresh u ea derived valid = record {
    key_valid = valid;
    parsed = parse-materialize c l s.credential_id 1 token (omega arith) derived;
    located =
        first-append-none (locator_is s.credential_id 1 (refresh_token_hash c token)) db.credentials
          _
          (first-none_narrower (credential_is s.credential_id)
            (locator_is s.credential_id 1 (refresh_token_hash c token)) db.credentials
            (λ r h. ground arith) fresh.credential_fresh)
        ∙ rw (nat_eq_refl s.credential_id, text_eq_refl (refresh_token_hash c token));
    credential_found =
        first-append-none (credential_is s.credential_id) db.credentials _ fresh.credential_fresh
        ∙ rw (nat_eq_refl s.credential_id);
    family_found =
        first-append-none (family_is s.family_id) db.families _ fresh.family_fresh
        ∙ rw (nat_eq_refl s.family_id);
    session_found =
        first-append-none (session_is s.session_id) db.sessions _ fresh.session_fresh
        ∙ rw (nat_eq_refl s.session_id);
    account_found = account_key user.user_id account db u ea;
  }
