-- ===== src/Sessions/Reuse.antt =====
-- services.py, `refresh`: a request that follows a rotation.
use new_mud_codex.Shared.{◌+◌, ◌≡◌, refl, sym, ap, subst, true, false, some, arith}
use new_mud_codex.Shared.Text.{Text}
use new_mud_codex.Shared.Table.{first, first-fits}
use new_mud_codex.Errors.{Result, pure, bind-cases}
use new_mud_codex.Tokens.{
  Crypto, materialize_refresh_token, parse_refresh_token, refresh_token_hash,
}
use new_mud_codex.Sessions.Tables.{Db, Settings, credential_is, family_is, session_is, account_is}
use new_mud_codex.Sessions.Result.{Authentication, access_claims, authentication_result}
use new_mud_codex.Sessions.Request.{
  text, Locked, Supply, Ending, check_key, check_token, lock_rows, terminal_is, is_idempotency_key,
  locator_is,
}
use new_mud_codex.Sessions.Rotation.{
  rotate, is_stale, is_revocable, rotated_db, successor_of, advance_family,
}
use new_mud_codex.Sessions.Refresh.{
  answer, answer_request, refresh, refresh_transaction, refresh_request_hash, find_locator, commit,
  refuse, finish,
}
use new_mud_codex.Sessions.Branches.{answer_request_cases}
use new_mud_codex.Sessions.Rotated.{spent, advanced, first-spent, first-advanced}

-- The request `token`, `key` reaches the rows `l` of the state `db`.
pub record Reaches (c : Crypto) (settings : Settings) (token key : Text) (db : Db) (l : Locked)
    : Type 0 where
  pub key_valid : is_idempotency_key key ≡ true
  pub parsed :
      parse_refresh_token c token
      ≡ pure (some (l.credential.credential_id, l.credential.generation))
  pub located :
      first
        (locator_is l.credential.credential_id l.credential.generation (refresh_token_hash c token))
        db.credentials
      ≡ some l.credential
  pub credential_found :
      first (credential_is l.credential.credential_id) db.credentials ≡ some l.credential
  pub family_found : first (family_is l.credential.family_id) db.families ≡ some l.family
  pub session_found : first (session_is l.family.auth_session_id) db.sessions ≡ some l.session
  pub account_found : first (account_is l.session.game_account_id) db.accounts ≡ some l.account

module _ (c : Crypto) (settings : Settings) where
  -- Such a request is answered on these rows.
  pub refresh-Reaches :
      (token key : Text) (s : Supply) (db : Db) (l : Locked)
      → Reaches c settings token key db l
      → refresh c settings (text token) (text key) s db db
        ≡ commit c settings
            (answer c settings
              (first (terminal_is l.family.family_id key) db.terminals)
              l
              key
              (refresh_request_hash c settings l.credential.credential_id)
              s
              db)
            s
            db
  unfolding refresh refresh_transaction find_locator check_key check_token lock_rows
  refresh-Reaches token key s db l r = rw (
    r.key_valid, r.parsed, r.located, r.family_found, r.session_found, r.account_found,
    r.credential_found,
  )

  -- What a rotation leaves for the next request with the same token.
  abbrev pub next_rows : Locked → Supply → Locked
  next_rows l s = record {
    account = l.account;
    session = l.session;
    family = advanced l.family;
    credential = spent l s;
  }

  pub rotated_db-Reaches :
      (token key key' successor hash : Text) (s : Supply) (db : Db) (l : Locked)
      → Reaches c settings token key db l
      → is_idempotency_key key' ≡ true
      → Reaches c settings token key'
          (rotated_db c settings l successor key hash s db)
          (next_rows l s)
  rotated_db-Reaches token key key' successor hash s db l r valid =
      let home : l.family.family_id ≡ l.credential.family_id =
        ground (arith, first-fits (family_is l.credential.family_id) db.families r.family_found) in
      record {
        key_valid = valid;
        parsed = r.parsed;
        located =
            first-spent c settings l successor s
              (locator_is l.credential.credential_id l.credential.generation
                (refresh_token_hash c token))
              db.credentials (λ q st u v b. refl) r.located;
        credential_found =
            first-spent c settings l successor s (credential_is l.credential.credential_id)
              db.credentials (λ q st u v b. refl) r.credential_found;
        family_found =
            subst
              (λ k.
                first (family_is k) (advance_family l.family db.families)
                ≡ some (advanced l.family))
              home
              (first-advanced l.family db.families (
                subst (λ k. first (family_is k) db.families ≡ some l.family) (sym home)
                  r.family_found));
        session_found = r.session_found;
        account_found = r.account_found;
      }

  -- A request that is answered for the first time and succeeds has rotated the token.
  pub record Rotates (l : Locked) (key hash : Text) (s : Supply) (db db1 : Db) (a : Authentication)
      : Type 0 where
    pub successor : Text
    pub derived :
        materialize_refresh_token c s.successor_id (l.family.current_generation + 1)
        ≡ pure successor
    pub after : db1 ≡ rotated_db c settings l successor key hash s db
    pub usable : is_revocable l s.now ≡ false
    pub current : is_stale l ≡ false
    pub result :
        authentication_result c l.session
          (successor_of c settings l successor s)
          (access_claims c settings l.session s.now s.jti)
          s.result_now
          s.result_then
        ≡ pure a

  abbrev Succeeds : Supply → Db → Db → Authentication → Result (Ending × Db) → Type 0
  Succeeds s db db1 a r = commit c settings r s db ≡ (pure a, db1)

  refuse-Succeeds :
      (l : Locked) (key hash : Text) (s : Supply) (db0 db db1 : Db) (a : Authentication)
      → Succeeds s db db1 a (refuse c settings l key hash s db0)
      → ⊥
  unfolding finish
  refuse-Succeeds l key hash s db0 db db1 a e = cc (ap (λ p. p.0) e)

  rotate-Succeeds :
      (l : Locked) (key hash : Text) (s : Supply) (db db1 : Db) (a : Authentication)
      → is_revocable l s.now ≡ false
      → is_stale l ≡ false
      → Succeeds s db db1 a (rotate c settings l key hash s db)
      → Rotates l key hash s db db1 a
  unfolding rotate finish
  rotate-Succeeds l key hash s db db1 a usable current =
      bind-cases (λ r. Succeeds s db db1 a r → Rotates l key hash s db db1 a)
        (materialize_refresh_token c s.successor_id (l.family.current_generation + 1)) _
        (λ e h. absurd (cc (ap (λ p. p.0) h)))
        (λ successor derived h. record {
          successor = successor;
          derived = derived;
          after = sym (ap (λ p. p.1) h);
          usable = usable;
          current = current;
          result = ap (λ p. p.0) h;
        })

  pub answer_request-Rotates :
      (l : Locked) (key hash : Text) (s : Supply) (db db1 : Db) (a : Authentication)
      → Succeeds s db db1 a (answer_request c settings l key hash s db)
      → Rotates l key hash s db db1 a
  answer_request-Rotates l key hash s db db1 a =
      answer_request_cases c settings (λ r. Succeeds s db db1 a r → Rotates l key hash s db db1 a) l
        key hash s db (λ _ e. absurd (refuse-Succeeds l key hash s _ db db1 a e))
        (λ _ e. absurd (refuse-Succeeds l key hash s _ db db1 a e))
        (λ _ e. absurd (refuse-Succeeds l key hash s _ db db1 a e))
        (λ _ usable current e. rotate-Succeeds l key hash s db db1 a usable current e)
