-- ===== src/Sessions/Branches.antt =====
-- The case splits of `refresh`: the branches of the transaction, and its ways to end.
use new_mud_codex.Shared.{
  ℕ, ◌≡◌, subst, sym, ◌∙◌, List, inl, inr, true, false, some, Bool-cases, arith,
}
use new_mud_codex.Shared.Text.{Text}
use new_mud_codex.Shared.Table.{first, Keyed, first-Keyed, first-fits}
use new_mud_codex.Errors.{
  Result, pure, raise, Error, bind-eq-pure, bind-cases, or_raise, or_raise-eq-pure, refresh_failed,
  refresh_unavailable,
}
use new_mud_codex.Tokens.{Crypto, parse_refresh_token, refresh_token_hash}
use new_mud_codex.Sessions.Tables.{
  Db, Credential, SessionState, Reason, Settings, credential_is, family_is,
}
use new_mud_codex.Sessions.Converge.{converge_authentication_control, revoke_family_for_replay}
use new_mud_codex.Sessions.Request.{
  Locked, Supply, Value, Ending, terminal_is, lock_rows, check_key, check_token, locator_is,
}
use new_mud_codex.Sessions.Rotation.{is_replayed, is_revocable, is_stale, rotate}
use new_mud_codex.Sessions.Refresh.{
  answer_request, answer, refuse, refresh_body, refresh_transaction, refresh_request_hash,
  find_locator,
}

module _ (c : Crypto) (settings : Settings) where
  pub answer_request_cases {ℓ} :
      (P : Result (Ending × Db) → Type ℓ) (l : Locked) (key hash : Text) (s : Supply) (db : Db)
      → (is_replayed l ≡ true
          → P (
              refuse c settings l key hash s
                (revoke_family_for_replay l.family l.session s.now db)))
      → (is_revocable l s.now ≡ true
          → P (
              refuse c settings l key hash s
                (converge_authentication_control l.family l.session SessionState.revoked
                  Reason.session_revoked s.now db).0))
      → (is_stale l ≡ true → P (refuse c settings l key hash s db))
      → (is_replayed l ≡ false
          → is_revocable l s.now ≡ false
          → is_stale l ≡ false
          → P (rotate c settings l key hash s db))
      → P (answer_request c settings l key hash s db)
  unfolding answer_request
  answer_request_cases P l key hash s db replayed revocable stale fresh =
      elim (Bool-cases (is_replayed l)) [
        | inl a ↦ rw a (replayed a)
        | inr a ↦ elim (Bool-cases (is_revocable l s.now)) [
          | inl b ↦ rw (a, b) (revocable b)
          | inr b ↦ elim (Bool-cases (is_stale l)) [
            | inl d ↦ rw (a, b, d) (stale d)
            | inr d ↦ rw (a, b, d) (fresh a b d)
          ]
        ]
      ]

  -- Either an exception rolls the transaction back, or it commits with rows that it has locked.
  pub transaction_cases {ℓ} :
      (P : Result (Ending × Db) → Type ℓ) (locator : Credential) (key : Text) (s : Supply)
      (seen db : Db)
      → ((e : Error) → P (raise e))
      → ((l : Locked)
          → lock_rows locator seen db ≡ pure l
          → P (
              answer c settings
                (first (terminal_is l.family.family_id key) db.terminals)
                l
                key
                (refresh_request_hash c settings locator.credential_id)
                s
                db))
      → P (refresh_transaction c settings locator key s seen db)
  unfolding refresh_transaction
  transaction_cases P locator key s seen db raised locked =
      bind-cases P (lock_rows locator seen db) _ raised locked

  pub refresh_body_cases {ℓ} :
      (P : Result (Ending × Db) → Type ℓ) (token key : Value) (s : Supply) (seen db : Db)
      → ((e : Error) → P (raise e))
      → ((k t : Text) (locator : Credential)
          → check_key key ≡ pure k
          → check_token token ≡ pure t
          → find_locator c settings t seen ≡ pure locator
          → P (refresh_transaction c settings locator k s seen db))
      → P (refresh_body c settings token key s seen db)
  unfolding refresh_body
  refresh_body_cases P token key s seen db raised found =
      bind-cases P (check_key key) _ raised λ k ek.
        bind-cases P (check_token token) _ raised λ t et.
          bind-cases P (find_locator c settings t seen) _ raised
            λ locator el. found k t locator ek et el

-- The rows that are locked, where each is found.
pub record LockedFrom (l : Locked) (locator : Credential) (seen db : Db) : Type 0 where
  pub family_found : first (family_is locator.family_id) db.families ≡ some l.family
  pub credential_found :
      first (credential_is locator.credential_id) db.credentials ≡ some l.credential

pub lock_rows-LockedFrom :
    (locator : Credential) (seen db : Db) (l : Locked)
    → lock_rows locator seen db ≡ pure l
    → LockedFrom l locator seen db
unfolding lock_rows
lock_rows-LockedFrom locator seen db l e = ground arith

-- What the database keeps between the reads outside the transaction and its locks: keys are unique,
-- and the trigger of migration 0003 lets no credential change its family.
pub record Consistent (seen db : Db) : Type 0 where
  pub keyed : Keyed (λ (r : Credential). r.credential_id) seen.credentials
  pub family_kept :
      (k : ℕ) (r r' : Credential)
      → first (credential_is k) seen.credentials ≡ some r
      → first (credential_is k) db.credentials ≡ some r'
      → r'.family_id ≡ r.family_id

module _ (c : Crypto) (settings : Settings) where
  pub find_locator-Keyed :
      (t : Text) (seen : Db) (locator : Credential)
      → Keyed (λ (r : Credential). r.credential_id) seen.credentials
      → find_locator c settings t seen ≡ pure locator
      → first (credential_is locator.credential_id) seen.credentials ≡ some locator
  unfolding find_locator
  find_locator-Keyed t seen locator u e =
      let (parsed, ep, e2) = bind-eq-pure (parse_refresh_token c t) _ e in
      let (pair, eq, e3) =
        bind-eq-pure (or_raise parsed (refresh_failed refresh_unavailable)) _ e2 in
      let found =
        or_raise-eq-pure
          (first (locator_is pair.0 pair.1 (refresh_token_hash c t)) seen.credentials) _ e3 in
      let same : locator.credential_id ≡ pair.0 = ground (
        arith,
        first-fits (locator_is pair.0 pair.1 (refresh_token_hash c t)) seen.credentials found,
      ) in
      subst (λ k. first (credential_is k) seen.credentials ≡ some locator) (sym same)
        (first-Keyed (λ (r : Credential). r.credential_id) pair.0
          (locator_is pair.0 pair.1 (refresh_token_hash c t)) seen.credentials u
          (λ b h. ground arith) found)

-- The rows that a transaction has locked: the credential is the one of its key, in the family.
pub record IsLocked (l : Locked) (rows : List Credential) : Type 0 where
  pub found : first (credential_is l.credential.credential_id) rows ≡ some l.credential
  pub in_family : l.credential.family_id ≡ l.family.family_id

pub LockedFrom-IsLocked :
    (l : Locked) (locator : Credential) (seen db : Db)
    → Consistent seen db
    → first (credential_is locator.credential_id) seen.credentials ≡ some locator
    → LockedFrom l locator seen db
    → IsLocked l db.credentials
LockedFrom-IsLocked l locator seen db k e f =
    let same : l.credential.credential_id ≡ locator.credential_id =
      ground (
        arith,
        first-fits (credential_is locator.credential_id) db.credentials f.credential_found,
      ) in
    let home : l.family.family_id ≡ locator.family_id =
      ground (arith, first-fits (family_is locator.family_id) db.families f.family_found) in
    record {
      found =
          subst (λ k. first (credential_is k) db.credentials ≡ some l.credential) (sym same)
            f.credential_found;
      in_family =
          k.family_kept locator.credential_id locator l.credential e f.credential_found ∙ sym home;
    }
