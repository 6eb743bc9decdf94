-- ===== src/Sessions/FirstRefresh.antt =====
-- services.py, `login` and then `refresh`.
use new_mud_codex.Shared.{
  timestamp, ℕ, ◌+◌, ◌≤◌, ◌<◌, ◌≡◌, refl, sym, ◌∙◌, ap, subst, true, false, none, some, [], ◌∷◌,
  ◌++◌, arith, All, inl, inr, Bool-cases, ◌==◌,
}
use new_mud_codex.Shared.Text.{Text, codes, text_eq, text_eq_refl, Text_equality}
use new_mud_codex.Shared.Table.{first, first-fits, All-first}
use new_mud_codex.Errors.{pure, bind-eq-pure, pure-injective}
use new_mud_codex.Tokens.{
  Crypto, Dict, materialize_refresh_token, refresh_token_hash, signing_key, sign, signing_input,
  encode_access_token, get, int,
}
use new_mud_codex.Tokens.Laws.{Laws}
use new_mud_codex.Sessions.Tables.{
  Db, User, GameAccount, AuthSession, Credential, Settings, is_active_lifecycle,
}
use new_mud_codex.Sessions.Result.{
  Authentication, access_claims, authentication_result, authentication_parts, as_result,
}
use new_mud_codex.Sessions.Request.{Value, text, Locked, Supply, is_idempotency_key, terminal_is}
use new_mud_codex.Sessions.Rotation.{is_replayed, is_revocable, is_stale, rotate, successor_of}
use new_mud_codex.Sessions.Refresh.{refresh, refresh_request_hash, answer_request, commit, finish}
use new_mud_codex.Sessions.Login.{
  Host, LoginSupply, account_of, expiry, logged_in_db, login, login_result, new_session,
}
use new_mud_codex.Sessions.Reuse.{refresh-Reaches}
use new_mud_codex.Sessions.Entry.{
  login-LogsIn, IsFresh, KeyedAccounts, login_rows, logged_in_db-Reaches,
}

module _ (c : Crypto) where
  -- The key is configured for one purpose as for any other.
  signing_key-any :
      (p q : Text) (k : Text) → signing_key c p ≡ pure k → (k' : Text) × (signing_key c q ≡ pure k')
  unfolding signing_key
  signing_key-any p q k e = elim (Bool-cases (c.root_key == [])) [
    | inl empty ↦ absurd (cc (rw empty at e))
    | inr set ↦ (c.hmac_sha256 c.root_key (codes "new-mud:" ++ q ++ codes ":v1"), rw set)
  ]

  materialize-any :
      (u n u' n' : ℕ) (t : Text)
      → materialize_refresh_token c u n ≡ pure t
      → (t' : Text) × (materialize_refresh_token c u' n' ≡ pure t')
  unfolding materialize_refresh_token
  materialize-any u n u' n' t e =
      let (key, k, _) = bind-eq-pure (signing_key c (codes "refresh")) _ e in
      (
        codes "r1"
            ++ b'.'
              ∷ (c.hex u'
                  ++ b'.'
                    ∷ (c.str_of_int n' ++ b'.' ∷ sign c key (c.hex u' ++ b':' ∷ c.str_of_int n'))),
        rw k,
      )

  pub encode-any :
      (u n : ℕ) (t : Text) (d : Dict)
      → materialize_refresh_token c u n ≡ pure t
      → (t' : Text) × (encode_access_token c d ≡ pure t')
  unfolding materialize_refresh_token encode_access_token
  encode-any u n t d e =
      let (key, k, _) = bind-eq-pure (signing_key c (codes "refresh")) _ e in
      let (key', k') = signing_key-any (codes "refresh") (codes "access") key k in
      (signing_input c d ++ b'.' ∷ sign c key' (signing_input c d), rw k')

module _ (c : Crypto) (settings : Settings) (l : Laws c) where
  exp_claim :
      (s : AuthSession) (issued_at jti : ℕ)
      → get (codes "exp") (access_claims c settings s issued_at jti)
        ≡ some (int (timestamp issued_at + settings.access_token_ttl_seconds))
  unfolding get access_claims text_eq
  exp_claim s issued_at jti = refl

  -- The result for a credential whose hash is that of its own token.
  pub result-total :
      (s : AuthSession) (r : Credential) (token : Text) (issued_at jti n m : ℕ)
      → materialize_refresh_token c r.credential_id r.generation ≡ pure token
      → r.token_hash ≡ refresh_token_hash c token
      → (b : Authentication) × (authentication_result c s r
            (access_claims c settings s issued_at jti)
            n
            m
          ≡ pure b)
        × (b.auth_session_id ≡ s.auth_session_id)
  unfolding authentication_result authentication_parts
  result-total s r token issued_at jti n m derived hashed =
      let d = access_claims c settings s issued_at jti in
      let (access, encoded) = encode-any c r.credential_id r.generation token d derived in
      (
        as_result c s r n m
            (token, timestamp issued_at + settings.access_token_ttl_seconds, access),
        rw (
          derived,
          hashed,
          text_eq_refl (refresh_token_hash c token),
          exp_claim s issued_at jti,
          l.int_of_str-str_of_int (timestamp issued_at + settings.access_token_ttl_seconds),
          encoded,
        ),
        refl,
      )

  pub rotate-total :
      (r : Locked) (key hash : Text) (s : Supply) (db : Db) (u n : ℕ) (t : Text)
      → materialize_refresh_token c u n ≡ pure t
      → (b : Authentication) × ((commit c settings (rotate c settings r key hash s db) s db).0
          ≡ pure b)
        × (b.auth_session_id ≡ r.session.auth_session_id)
  unfolding rotate finish
  rotate-total r key hash s db u n t e =
      let (token, derived) =
        materialize-any c u n s.successor_id (r.family.current_generation + 1) t e in
      let (b, eb, same) =
        result-total r.session (successor_of c settings r token s) token s.now s.jti s.result_now
          s.result_then derived refl in
      (b, rw (derived, eb), same)

  -- A request that reaches usable rows, has no stored result and whose token can be signed succeeds.
  pub answer-total :
      (r : Locked) (key hash : Text) (s : Supply) (db : Db) (u n : ℕ) (t : Text)
      → materialize_refresh_token c u n ≡ pure t
      → is_replayed r ≡ false
      → is_revocable r s.now ≡ false
      → is_stale r ≡ false
      → (b : Authentication) × ((commit c settings
            (answer_request c settings r key hash s db)
            s
            db).0
          ≡ pure b)
        × (b.auth_session_id ≡ r.session.auth_session_id)
  unfolding answer_request
  answer-total r key hash s db u n t e replayed revocable stale =
      let (b, eb, same) = rotate-total r key hash s db u n t e in
      (b, rw (replayed, revocable, stale) eb, same)

module _ (c : Crypto) (settings : Settings) (host : Host) (l : Laws c) where
  login_rows-current :
      (user : User) (account : GameAccount) (token : Text) (s : LoginSupply)
      → is_stale (login_rows c settings host user account token s) ≡ false
  login_rows-current user account token s = refl

  login_rows-usable :
      (user : User) (account : GameAccount) (token : Text) (s : LoginSupply) (now : ℕ)
      → is_active_lifecycle account.lifecycle ≡ true
      → 1 ≤ account.lifecycle_version
      → now < expiry c settings host s
      → is_revocable (login_rows c settings host user account token s) now ≡ false
  login_rows-usable user account token s now active version early = ground arith

  result-token :
      (user : User) (account : GameAccount) (token : Text) (s : LoginSupply) (a : Authentication)
      → login_result c settings host (record { user = user; account = account; token = token }) s
        ≡ pure a
      → (a.refresh_token ≡ token) × (a.auth_session_id ≡ s.session_id)
  unfolding login_result
  result-token user account token s a e =
      let (access, _, h) =
        bind-eq-pure
          (encode_access_token c
            (access_claims c settings (new_session c settings host user account s) s.now s.jti))
          _ e in
      (
        ap (λ x. x.refresh_token) (sym (pure-injective h)),
        ap (λ x. x.auth_session_id) (sym (pure-injective h)),
      )

  -- After a successful login with fresh identifiers, the first refresh with the token that it
  -- returned, made before the session expires and under a valid key that the family has not seen,
  -- succeeds and stays in the same session. Accounts have distinct identifiers and lifecycle
  -- versions of at least 1.
  pub login-refresh :
      (username password : Value) (key : Text) (s : LoginSupply) (r : Supply) (seen db db1 : Db)
      (a : Authentication)
      → IsFresh s db
      → KeyedAccounts db
      → All (λ (x : GameAccount). 1 ≤ x.lifecycle_version) db.accounts
      → first (terminal_is s.family_id key) db.terminals ≡ none
      → is_idempotency_key key ≡ true
      → login c settings host username password s seen db ≡ (pure a, db1)
      → r.now < expiry c settings host s
      → (b : Authentication) × ((refresh c settings (text a.refresh_token) (text key) r db1 db1).0
          ≡ pure b)
        × (b.auth_session_id ≡ a.auth_session_id)
  login-refresh username password key s r seen db db1 a fresh keyed versions unanswered valid e
        early =
      let i = login-LogsIn c settings host username password s seen db db1 a e in
      let (same_token, same_session) = result-token i.user i.account i.token s a i.result in
      let rows = login_rows c settings host i.user i.account i.token s in
      let db2 = logged_in_db c settings host i.user i.account i.token s db in
      let reaches =
        logged_in_db-Reaches c settings host l i.user i.account i.token key s db fresh keyed
          i.account_found i.derived valid in
      let active : is_active_lifecycle i.account.lifecycle ≡ true = ground (
        arith,
        first-fits (account_of i.user.user_id settings.content_instance_id) db.accounts
            i.account_found,
      ) in
      let (b, eb, kept) =
        answer-total c settings l rows key (refresh_request_hash c settings s.credential_id) r db2
          s.credential_id 1 i.token i.derived refl
          (login_rows-usable i.user i.account i.token s r.now active
            (All-first (λ (x : GameAccount). 1 ≤ x.lifecycle_version) _ db.accounts versions
              i.account_found)
            early)
          (login_rows-current i.user i.account i.token s) in
      (
        b,
        subst (λ d. (refresh c settings (text a.refresh_token) (text key) r d d).0 ≡ pure b)
            (sym i.after)
            (subst (λ t. (refresh c settings (text t) (text key) r db2 db2).0 ≡ pure b)
              (sym same_token)
              (rw (refresh-Reaches c settings i.token key r db2 rows reaches, unanswered) eb)),
        kept ∙ sym same_session,
      )
