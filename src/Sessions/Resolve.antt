-- ===== src/Sessions/Resolve.antt =====
-- services.py, `resolve_active_auth_session`: the sessions it returns, and those after a logout.
use new_mud_codex.Shared.{
  ◌⊎◌, Option, timestamp, ℕ, ◌<◌, ◌≡◌, ◌≢◌, sym, subst, Bool, true, false, not, ◌||◌, none, some,
  arith, nat_eq_refl, ℕ_equality, is_some,
}
use new_mud_codex.Shared.Text.{codes, Text_equality}
use new_mud_codex.Shared.Table.{first, first-fits, count, count-first}
use new_mud_codex.Errors.{
  pure, bind-eq-pure, or_raise, or_raise-eq-pure, except_as, raise_if, authentication_failed,
  guarded-eq-pure, ◌>>◌,
}
use new_mud_codex.Tokens.{Crypto, decode_access_token}
use new_mud_codex.Sessions.Tables.{Db, AuthSession, is_active_session, session_is}
use new_mud_codex.Sessions.Request.{Value, text, not_text}
use new_mud_codex.Sessions.Access.{
  Joined, auth_session_is_active, joined_session, resolve_active_auth_session, uuid_claim,
  str_claim,
}
use new_mud_codex.Sessions.Revocation.{KeyedSessions}
use new_mud_codex.Sessions.Logout.{
  session_from_refresh_locator, session_from_access_locator, logout, family_of,
}
use new_mud_codex.Sessions.Ended.{active_session_is, logout-ended}

joined_session-found :
    (k : ℕ) (db : Db) (j : Joined)
    → joined_session k db ≡ some j
    → first (session_is k) db.sessions ≡ some j.session
unfolding joined_session
joined_session-found k db j e = ground arith

-- What a resolved session is.
pub record IsUsable (s : AuthSession) (now : ℕ) (db : Db) : Type 0 where
  pub found : first (session_is s.auth_session_id) db.sessions ≡ some s
  pub active : is_active_session s.state ≡ true
  pub unexpired : now < s.absolute_expires_at

active_parts :
    (j : Joined) (now : ℕ) (b b' : Bool)
    → (not (auth_session_is_active j none now) || b || b') ≡ false
    → (is_active_session j.session.state ≡ true) × (now < j.session.absolute_expires_at)
unfolding auth_session_is_active
active_parts j now b b' h = ground arith

joined-IsUsable :
    (k now : ℕ) (db : Db) (j : Joined) (s : AuthSession) (b b' : Bool)
    → first (session_is k) db.sessions ≡ some j.session
    → (raise_if (not (auth_session_is_active j none now) || b || b') authentication_failed
        >> pure j.session)
      ≡ pure s
    → IsUsable s now db
joined-IsUsable k now db j s b b' found h =
    let (passed, same) =
      guarded-eq-pure (not (auth_session_is_active j none now) || b || b') authentication_failed
        h in
    let (active, unexpired) = active_parts j now b b' passed in
    let key : j.session.auth_session_id ≡ k =
      ground (arith, first-fits (session_is k) db.sessions found) in
    subst (λ x. IsUsable x now db) same
      (record {
        found = subst (λ n. first (session_is n) db.sessions ≡ some j.session) (sym key) found;
        active = active;
        unexpired = unexpired;
      })

module _ (c : Crypto) where
  -- Only an active session that has not expired is resolved.
  pub resolve-IsUsable :
      (token : Value) (decode_now now : ℕ) (db : Db) (s : AuthSession)
      → resolve_active_auth_session c token decode_now now db ≡ pure s
      → IsUsable s now db
  unfolding resolve_active_auth_session auth_session_is_active
  resolve-IsUsable not_text decode_now now db s e = absurd (cc e)
  resolve-IsUsable (text token) decode_now now db s e =
      let failed = authentication_failed in
      let (decoded, _, e1) =
        bind-eq-pure (except_as failed (decode_access_token c token (timestamp decode_now))) _ e in
      let (claims, _, e2) = bind-eq-pure (or_raise decoded failed) _ e1 in
      let (k, _, e3) =
        bind-eq-pure (or_raise (uuid_claim c (codes "auth_session_id") claims) failed) _ e2 in
      let (user, _, e4) = bind-eq-pure (or_raise (str_claim c (codes "sub") claims) failed) _ e3 in
      let (account, _, e5) =
        bind-eq-pure (or_raise (uuid_claim c (codes "game_account_id") claims) failed) _ e4 in
      let (j, ej, e6) = bind-eq-pure (or_raise (joined_session k db) failed) _ e5 in
      joined-IsUsable k now db j s _ _
        (joined_session-found k db j (or_raise-eq-pure (joined_session k db) failed ej)) e6

  -- After a logout whose tokens name a session that has a family, no access token whatever
  -- resolves to that session, where no two rows of the table of sessions have one identifier.
  pub resolve-logout :
      (refresh_token authorization token : Value) (decode_now now later_decode later : ℕ)
      (seen db : Db) (a b : Option ℕ) (s t : AuthSession)
      → session_from_refresh_locator c refresh_token seen ≡ pure a
      → session_from_access_locator c authorization decode_now ≡ pure b
      → (a ≡ some s.auth_session_id) ⊎ (b ≡ some s.auth_session_id)
      → KeyedSessions db
      → first (session_is s.auth_session_id) db.sessions ≡ some s
      → is_some (first (family_of s) db.families) ≡ true
      → resolve_active_auth_session c token later_decode later
          (logout c refresh_token authorization decode_now now seen db).1
        ≡ pure t
      → t.auth_session_id ≢ s.auth_session_id
  resolve-logout refresh_token authorization token decode_now now later_decode later seen db a b s t
        ea eb named u found h r same =
      let db1 = (logout c refresh_token authorization decode_now now seen db).1 in
      let live = resolve-IsUsable token later_decode later db1 t r in
      let over =
        logout-ended c refresh_token authorization decode_now now seen db a b s ea eb named u found
          h in
      let counted =
        count-first (session_is t.auth_session_id) (λ x. is_active_session x.state) db1.sessions
          live.found (rw (nat_eq_refl t.auth_session_id) live.active) in
      let counted' = subst (λ k. 0 < count (active_session_is k) db1.sessions) same counted in
      omega (arith, over, counted')
