-- ===== src/Sessions/Logout.antt =====
-- services.py: `logout`, and the revocation of the sessions of a user.
use new_mud_codex.Shared.{
  timestamp, ℕ, ◌+◌, Bool, false, ◌||◌, Option, none, some, List, [], ◌∷◌, ltb, ◌==◌, if◌then◌else◌,
  ℕ_equality,
}
use new_mud_codex.Shared.Text.{Text, codes, after_prefix}
use new_mud_codex.Shared.Table.{first, select}
use new_mud_codex.Errors.{Result, pure, raise, ◌>>=◌}
use new_mud_codex.Tokens.{
  Crypto, Dict, parse_refresh_token, refresh_token_hash, decode_access_token,
}
use new_mud_codex.Sessions.Tables.{
  Db, AuthSession, SessionState, Family, Credential, Reason, AuditType, Metadata, family_is,
}
use new_mud_codex.Sessions.Converge.{audit, converge_authentication_control}
use new_mud_codex.Sessions.Request.{Value, text, not_text, locator_is}
use new_mud_codex.Sessions.Access.{uuid_claim}

module _ (c : Crypto) where
  abbrev session_of_family : Option Family → Option ℕ
  session_of_family none = none
  session_of_family (some f) = some f.auth_session_id

  -- `credential.family.auth_session_id`, by the join of `select_related("family")`
  abbrev session_of_credential : Db → Option Credential → Option ℕ
  session_of_credential db none = none
  session_of_credential db (some r) = elim (first (family_is r.family_id) db.families) [
    | none ↦ none
    | some f ↦ some f.auth_session_id
  ]

  abbrev session_of_parsed : Db → Text → Option (ℕ × ℕ) → Option ℕ
  session_of_parsed db token none = none
  session_of_parsed db token (some (credential_id, generation)) =
      session_of_credential db
        (first (locator_is credential_id generation (refresh_token_hash c token)) db.credentials)

  unfoldable pub session_from_refresh_locator : Value → Db → Result (Option ℕ)
  session_from_refresh_locator not_text db = pure none
  session_from_refresh_locator (text token) db = do
    parsed ← parse_refresh_token c token
    pure (session_of_parsed db token parsed)

  abbrev session_of_claims : Option Dict → Option ℕ
  session_of_claims none = none
  session_of_claims (some claims) = uuid_claim c (codes "auth_session_id") claims

  -- `authorization.startswith("Bearer ")` and `removeprefix`
  abbrev bearer : List Text → ℕ → Result (Option ℕ)
  bearer [] now = pure none
  bearer (token ∷ _) now = do
    decoded ← decode_access_token c token (timestamp now)
    pure (session_of_claims decoded)

  unfoldable pub session_from_access_locator : Value → ℕ → Result (Option ℕ)
  session_from_access_locator not_text now = pure none
  session_from_access_locator (text authorization) now =
      bearer (after_prefix (codes "Bearer ") authorization) now

  -- `{locator for locator in (a, b) if locator is not None}`
  unfoldable pub session_ids : Option ℕ → Option ℕ → List ℕ
  session_ids none none = []
  session_ids none (some b) = b ∷ []
  session_ids (some a) none = a ∷ []
  session_ids (some a) (some b) = if a == b then a ∷ [] else a ∷ b ∷ []

-- `.filter(pk__in=ids).order_by("auth_session_id")`, for at most two ids
abbrev pub among : List ℕ → AuthSession → Bool
among [] s = false
among (k ∷ ks) s = s.auth_session_id == k || among ks s

abbrev pub insert : AuthSession → List AuthSession → List AuthSession
insert s [] = s ∷ []
insert s (t ∷ rest) =
    if ltb t.auth_session_id s.auth_session_id then t ∷ insert s rest else s ∷ t ∷ rest

unfoldable pub order_by_id : List AuthSession → List AuthSession
order_by_id [] = []
order_by_id (s ∷ rest) = insert s (order_by_id rest)

-- `.get(auth_session=session)`
abbrev pub family_of : AuthSession → Family → Bool
family_of s f = f.auth_session_id == s.auth_session_id

abbrev pub logged_out : AuthSession → ℕ → Option Family → Db → Db × ℕ
logged_out s now none db = (db, 0)
logged_out s now (some family) db =
    let (db', changed) =
      converge_authentication_control family s SessionState.logged_out Reason.logout now db in
    (
      audit
          (record {
            event_type = AuditType.logout_converged;
            user_id = s.user_id;
            auth_session_id = s.auth_session_id;
            reason_code = none;
            metadata = Metadata.server_session_revoked changed;
          })
          db',
      if changed then 1 else 0,
    )

-- the body of the loop; the second part counts the session if it was revoked
unfoldable pub logout_session : AuthSession → ℕ → Db → Db × ℕ
logout_session s now db = logged_out s now (first (family_of s) db.families) db

unfoldable pub logout_sessions : List AuthSession → ℕ → Db → Db × ℕ
logout_sessions [] now db = (db, 0)
logout_sessions (s ∷ rest) now db =
    let (db', n) = logout_session s now db in
    let (db'', m) = logout_sessions rest now db' in (db'', n + m)

module _ (c : Crypto) where
  abbrev pub commit_logout : Result (List ℕ) → ℕ → Db → Result ℕ × Db
  commit_logout (raise e) now db = (raise e, db)
  commit_logout (pure []) now db = (pure 0, db)
  commit_logout (pure (k ∷ ks)) now db =
      let (db', n) = logout_sessions (order_by_id (select (among (k ∷ ks)) db.sessions)) now db in
      (pure n, db')

  abbrev pub locators : Value → Value → ℕ → Db → Result (List ℕ)
  locators refresh_token authorization decode_now seen = do
    a ← session_from_refresh_locator c refresh_token seen
    b ← session_from_access_locator c authorization decode_now
    pure (session_ids c a b)

  -- `decode_now` is the moment of the decoder, `now` that of the revocation.
  unfoldable pub logout : Value → Value → ℕ → ℕ → Db → Db → Result ℕ × Db
  logout refresh_token authorization decode_now now seen db =
      commit_logout (locators refresh_token authorization decode_now seen) now db

-- `_revoke_locked_user_sessions`
abbrev pub revoked : AuthSession → Reason → ℕ → Option Family → Db → Db
revoked s reason now none db = db
revoked s reason now (some family) db =
    (converge_authentication_control family s SessionState.revoked reason now db).0

unfoldable pub revoke_locked_user_sessions : List AuthSession → Reason → ℕ → Db → Db
revoke_locked_user_sessions [] reason now db = db
revoke_locked_user_sessions (s ∷ rest) reason now db =
    revoke_locked_user_sessions rest reason now
      (revoked s reason now (first (family_of s) db.families) db)
