-- ===== src/Sessions/Repeat.antt =====
-- services.py, `refresh`: a request that is repeated with its idempotency key.
use new_mud_codex.Shared.{ℕ, ◌<◌, ◌≡◌, sym, ◌∙◌, ap, subst, false, none, some, arith, nat_eq_refl}
use new_mud_codex.Shared.Text.{Text, text_eq_refl}
use new_mud_codex.Shared.Table.{first, first-append-none}
use new_mud_codex.Errors.{pure, ◌>>=◌, bind-eq-pure, pure-injective}
use new_mud_codex.Tokens.{Crypto, Dict}
use new_mud_codex.Sessions.Tables.{Db, AuthSession, Credential, Settings, credential_is}
use new_mud_codex.Sessions.Result.{
  Authentication, access_claims, authentication_result, authentication_parts, as_result,
}
use new_mud_codex.Sessions.Request.{text, Locked, Supply, terminal_is, returned}
use new_mud_codex.Sessions.Rotation.{is_revocable, rotated_db, successor_of, success_terminal}
use new_mud_codex.Sessions.Retry.{replay_terminal}
use new_mud_codex.Sessions.Refresh.{
  answer, answer_request, refresh, refresh_request_hash, commit, finish,
}
use new_mud_codex.Sessions.Rotated.{first-successor}
use new_mud_codex.Sessions.Reuse.{
  Reaches, refresh-Reaches, rotated_db-Reaches, next_rows, answer_request-Rotates,
}

-- Two answers that differ in the seconds left alone.
pub record SameTokens (a b : Authentication) : Type 0 where
  pub refresh_tokens : b.refresh_token ≡ a.refresh_token
  pub access_tokens : b.access_token ≡ a.access_token
  pub sessions : b.auth_session_id ≡ a.auth_session_id
  pub accounts : b.game_account_id ≡ a.game_account_id

module _ (c : Crypto) where
  -- The moments of a result count for nothing but the seconds left.
  result-moments :
      (session : AuthSession) (r : Credential) (d : Dict) (n m n' m' : ℕ) (a : Authentication)
      → authentication_result c session r d n m ≡ pure a
      → (b : Authentication) × (authentication_result c session r d n' m' ≡ pure b) × SameTokens a b
  unfolding authentication_result
  result-moments session r d n m n' m' a e =
      let (parts, e1, f1) = bind-eq-pure (authentication_parts c r d) _ e in
      let same = pure-injective f1 in
      (
        as_result c session r n' m' parts,
        rw e1,
        record {
          refresh_tokens = ap (λ x. x.refresh_token) same;
          access_tokens = ap (λ x. x.access_token) same;
          sessions = ap (λ x. x.auth_session_id) same;
          accounts = ap (λ x. x.game_account_id) same;
        },
      )

module _ (c : Crypto) (settings : Settings) where
  replay_success_terminal :
      (l : Locked) (key hash successor : Text) (s s' : Supply) (db db1 : Db)
      → first (credential_is s.successor_id) db1.credentials
        ≡ some (successor_of c settings l successor s)
      → is_revocable l s.now ≡ false
      → s'.now < l.session.absolute_expires_at
      → s'.now < l.family.absolute_expires_at
      → replay_terminal c
          (next_rows c settings l s)
          (success_terminal c settings l key hash s)
          hash
          s'
          db1
        ≡ (authentication_result c l.session
              (successor_of c settings l successor s)
              (access_claims c settings l.session s.now s.jti)
              s'.result_now
              s'.result_then
            >>= λ a. pure (returned a))
  unfolding replay_terminal
  replay_success_terminal l key hash successor s s' db db1 found usable h k =
      rw (text_eq_refl hash, found) (ground (arith))

  answer-repeat :
      (l : Locked) (key successor : Text) (s s' : Supply) (db : Db)
      → first (terminal_is l.family.family_id key) db.terminals ≡ none
      → first
          (terminal_is l.family.family_id key)
          (rotated_db c settings l successor key
            (refresh_request_hash c settings l.credential.credential_id)
            s
            db).terminals
        ≡ some (
            success_terminal c settings l key
              (refresh_request_hash c settings l.credential.credential_id)
              s)
  answer-repeat l key successor s s' db fresh =
      first-append-none (terminal_is l.family.family_id key) db.terminals _ fresh
      ∙ rw (nat_eq_refl l.family.family_id, text_eq_refl key)

  abbrev Repeats : Text → Text → Supply → Authentication → Db → Type 0
  Repeats token key s' a db1 =
      (b : Authentication) × (refresh c settings (text token) (text key) s' db1 db1 ≡ (pure b, db1))
      × SameTokens a b

  rotated-Repeats :
      (token key successor : Text) (s s' : Supply) (db : Db) (l : Locked) (a : Authentication)
      → Reaches c settings token key db l
      → first (terminal_is l.family.family_id key) db.terminals ≡ none
      → first (credential_is s.successor_id) db.credentials ≡ none
      → is_revocable l s.now ≡ false
      → authentication_result c l.session
          (successor_of c settings l successor s)
          (access_claims c settings l.session s.now s.jti)
          s.result_now
          s.result_then
        ≡ pure a
      → s'.now < l.session.absolute_expires_at
      → s'.now < l.family.absolute_expires_at
      → Repeats token key s' a (
          rotated_db c settings l successor key
            (refresh_request_hash c settings l.credential.credential_id)
            s
            db)
  unfolding finish
  rotated-Repeats token key successor s s' db l a r fresh unused usable result h k =
      let hash = refresh_request_hash c settings l.credential.credential_id in
      let db1 = rotated_db c settings l successor key hash s db in
      let next = rotated_db-Reaches c settings token key key successor hash s db l r r.key_valid in
      let (b, eb, same) =
        result-moments c l.session (successor_of c settings l successor s)
          (access_claims c settings l.session s.now s.jti) s.result_now s.result_then s'.result_now
          s'.result_then a result in
      (
        b,
        refresh-Reaches c settings token key s' db1 (next_rows c settings l s) next
            ∙ ap
                (λ t.
                  commit c settings (answer c settings t (next_rows c settings l s) key hash s' db1)
                    s' db1)
                (answer-repeat l key successor s s' db fresh)
            ∙ rw (
              replay_success_terminal l key hash successor s s' db db1
                  (first-successor c settings l successor s db.credentials r.credential_found
                    unused)
                  usable h k,
              eb,
            ),
        same,
      )

  -- A refresh that was answered for the first time and succeeded, with a fresh identifier for the
  -- successor, repeated with its token and key before the session and the family expire, succeeds
  -- again with the same tokens and writes nothing.
  pub refresh_repeat :
      (token key : Text) (s s' : Supply) (db db1 : Db) (l : Locked) (a : Authentication)
      → Reaches c settings token key db l
      → first (terminal_is l.family.family_id key) db.terminals ≡ none
      → first (credential_is s.successor_id) db.credentials ≡ none
      → refresh c settings (text token) (text key) s db db ≡ (pure a, db1)
      → s'.now < l.session.absolute_expires_at
      → s'.now < l.family.absolute_expires_at
      → (b : Authentication) × (refresh c settings (text token) (text key) s' db1 db1
          ≡ (pure b, db1))
        × SameTokens a b
  refresh_repeat token key s s' db db1 l a r fresh unused e h k =
      let hash = refresh_request_hash c settings l.credential.credential_id in
      let first_answer : commit c settings (answer_request c settings l key hash s db) s db
          ≡ (pure a, db1) =
        ap (λ t. commit c settings (answer c settings t l key hash s db) s db) (sym fresh)
        ∙ sym (refresh-Reaches c settings token key s db l r)
        ∙ e in
      let w = answer_request-Rotates c settings l key hash s db db1 a first_answer in
      subst (Repeats token key s' a) (sym w.after)
        (rotated-Repeats token key w.successor s s' db l a r fresh unused w.usable w.result h k)
