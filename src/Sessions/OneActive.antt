-- ===== src/Sessions/OneActive.antt =====
-- services.py, `refresh`: the active credentials of a family, and the database's constraint
-- `identity_credential_one_active`.
use new_mud_codex.Shared.{
  ℕ, ◌+◌, ◌≤◌, ◌<◌, ◌≡◌, refl, true, false, Option, none, some, List, [], ◌∷◌, ◌++◌, arith,
  nat_eq_refl,
}
use new_mud_codex.Shared.Text.{Text}
use new_mud_codex.Shared.Table.{
  first, count, count-append, count-update-le, count-update-lt, count-update-none,
}
use new_mud_codex.Errors.{Result, pure, raise, bind-cases}
use new_mud_codex.Tokens.{Crypto, materialize_refresh_token}
use new_mud_codex.Sessions.Tables.{
  Db, Family, AuthSession, Credential, Settings, Terminal, active_in, credential_is,
}
use new_mud_codex.Sessions.Converge.{
  revoke_credentials, converge_authentication_control, revoke_family_for_replay,
}
use new_mud_codex.Sessions.Request.{Locked, Supply, Value, terminal_is, Ending}
use new_mud_codex.Sessions.Rotation.{
  use_credential, link_successor, rotated_credentials, successor_of, rotate, is_stale,
}
use new_mud_codex.Sessions.Branches.{
  IsLocked, LockedFrom-IsLocked, Consistent, find_locator-Keyed, lock_rows-LockedFrom,
  answer_request_cases, transaction_cases, refresh_body_cases,
}
use new_mud_codex.Sessions.Retry.{replay_terminal}
use new_mud_codex.Sessions.Refresh.{
  answer_request, answer, commit, refresh_body, refresh, create_failed_terminal,
}

abbrev pub OneActive : List Credential → Type 0
OneActive rows = (f : ℕ) → count (active_in f) rows ≤ 1

revoke_credentials-le :
    (k f : ℕ) (rows : List Credential)
    → count (active_in f) (revoke_credentials k rows) ≤ count (active_in f) rows
unfolding revoke_credentials
revoke_credentials-le k f rows =
    count-update-le (active_in f) (active_in k) _ rows (λ a h e. ground arith)

pub revoke_credentials-none :
    (f : ℕ) (rows : List Credential) → count (active_in f) (revoke_credentials f rows) ≡ 0
unfolding revoke_credentials
revoke_credentials-none f rows =
    count-update-none (active_in f) (active_in f) _ rows (λ a h. ground arith) (λ a h. h)

use_credential-le :
    (r : Credential) (now f : ℕ) (rows : List Credential)
    → count (active_in f) (use_credential r now rows) ≤ count (active_in f) rows
unfolding use_credential
use_credential-le r now f rows =
    count-update-le (active_in f) (credential_is r.credential_id) _ rows (λ a h e. ground arith)

use_credential-lt :
    (r : Credential) (now : ℕ) (rows : List Credential)
    → first (credential_is r.credential_id) rows ≡ some r
    → active_in r.family_id r ≡ true
    → count (active_in r.family_id) (use_credential r now rows) < count (active_in r.family_id) rows
unfolding use_credential
use_credential-lt r now rows e h =
    count-update-lt (active_in r.family_id) (credential_is r.credential_id) _ rows
      (λ b q. ground arith) e h

link_successor-le :
    (r : Credential) (k f : ℕ) (rows : List Credential)
    → count (active_in f) (link_successor r k rows) ≤ count (active_in f) rows
unfolding link_successor
link_successor-le r k f rows =
    count-update-le (active_in f) (credential_is r.credential_id) _ rows (λ a h e. e)

module _ (c : Crypto) (settings : Settings) where
  rotated_credentials-OneActive :
      (l : Locked) (token : Text) (s : Supply) (rows : List Credential)
      → IsLocked l rows
      → is_stale l ≡ false
      → OneActive rows
      → OneActive (rotated_credentials c settings l token s rows)
  rotated_credentials-OneActive l token s rows locked fresh h f = ground (
    arith,
    link_successor-le l.credential s.successor_id f
        (use_credential l.credential s.now rows ++ successor_of c settings l token s ∷ []),
    count-append (active_in f) (use_credential l.credential s.now rows)
        (successor_of c settings l token s ∷ []),
    use_credential-le l.credential s.now f rows,
    use_credential-lt l.credential s.now rows locked.found
        (ground (arith, nat_eq_refl l.credential.family_id)),
    h f,
    locked.in_family,
  )

  abbrev Keeps : Db → Result (Ending × Db) → Type 0
  Keeps db (pure (ending, db')) = OneActive db.credentials → OneActive db'.credentials
  Keeps db (raise e) = Unit

  credentials-replay :
      (family : Family) (session : AuthSession) (now : ℕ) (db : Db)
      → (revoke_family_for_replay family session now db).credentials
        ≡ revoke_credentials family.family_id db.credentials
  unfolding revoke_family_for_replay converge_authentication_control
  credentials-replay family session now db = refl

  revoke_credentials-OneActive :
      (k : ℕ) (rows : List Credential) → OneActive rows → OneActive (revoke_credentials k rows)
  revoke_credentials-OneActive k rows h f = omega (arith, h f, revoke_credentials-le k f rows)

  rotate-Keeps :
      (l : Locked) (key hash : Text) (s : Supply) (db : Db)
      → IsLocked l db.credentials
      → is_stale l ≡ false
      → Keeps db (rotate c settings l key hash s db)
  unfolding rotate
  rotate-Keeps l key hash s db locked fresh =
      bind-cases (Keeps db)
        (materialize_refresh_token c s.successor_id (l.family.current_generation + 1)) _ (λ e. tt)
        (λ token e. rotated_credentials-OneActive l token s db.credentials locked fresh)

  answer_request-Keeps :
      (l : Locked) (key hash : Text) (s : Supply) (db : Db)
      → IsLocked l db.credentials
      → Keeps db (answer_request c settings l key hash s db)
  unfolding create_failed_terminal revoke_family_for_replay converge_authentication_control
  answer_request-Keeps l key hash s db locked =
      answer_request_cases c settings (Keeps db) l key hash s db
        (λ _. revoke_credentials-OneActive l.family.family_id db.credentials)
        (λ _. revoke_credentials-OneActive l.family.family_id db.credentials) (λ _ h. h)
        (λ _ _ fresh. rotate-Keeps l key hash s db locked fresh)

  answer-Keeps :
      (t : Option Terminal) (l : Locked) (key hash : Text) (s : Supply) (db : Db)
      → IsLocked l db.credentials
      → Keeps db (answer c settings t l key hash s db)
  answer-Keeps none l key hash s db locked = answer_request-Keeps l key hash s db locked
  answer-Keeps (some t) l key hash s db locked =
      bind-cases (Keeps db) (replay_terminal c l t hash s db) _ (λ e. tt) (λ ending e h. h)

  commit-Keeps :
      (r : Result (Ending × Db)) (s : Supply) (db : Db)
      → Keeps db r
      → OneActive db.credentials
      → OneActive (commit c settings r s db).1.credentials
  commit-Keeps (pure (ending, db')) s db k h = k h
  commit-Keeps (raise e) s db k h = h

  -- Whatever the request, refresh keeps at most one active credential in each family, where
  -- identifiers of credentials are distinct and no credential changes its family between the read
  -- and the lock.
  pub refresh-OneActive :
      (token key : Value) (s : Supply) (seen db : Db)
      → Consistent seen db
      → OneActive db.credentials
      → OneActive (refresh c settings token key s seen db).1.credentials
  unfolding refresh
  refresh-OneActive token key s seen db k h =
      commit-Keeps (refresh_body c settings token key s seen db) s db
        (refresh_body_cases c settings (Keeps db) token key s seen db (λ e. tt)
          λ key' t locator _ _ found.
            transaction_cases c settings (Keeps db) locator key' s seen db (λ e. tt)
              λ l locked.
                answer-Keeps (first (terminal_is l.family.family_id key') db.terminals) l key' _ s
                  db
                  (LockedFrom-IsLocked l locator seen db k
                    (find_locator-Keyed c settings t seen locator k.keyed found)
                    (lock_rows-LockedFrom locator seen db l locked)))
        h
