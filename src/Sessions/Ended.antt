-- ===== src/Sessions/Ended.antt =====
-- services.py, `logout`: the sessions that the request names.
use new_mud_codex.Shared.{
  none, some, ◌⊎◌, Option, ℕ, ◌≤◌, ◌≡◌, refl, ◌∙◌, inl, inr, Bool, true, false, ◌&&◌, some, List,
  [], ◌∷◌, arith, Bool-cases, Option-cases, ltb, ℕ_equality, is_some,
}
use new_mud_codex.Shared.Table.{
  first, select, count, update, count-update-le, count-update-none, count-Keyed, Elem, here, there,
  first-Elem, select-Elem,
}
use new_mud_codex.Errors.{pure}
use new_mud_codex.Tokens.{Crypto}
use new_mud_codex.Sessions.Tables.{
  Db, AuthSession, SessionState, Family, Reason, is_active_session, is_active_family, session_is,
  family_is,
}
use new_mud_codex.Sessions.Converge.{converge_authentication_control, end_session, revoke_family}
use new_mud_codex.Sessions.Request.{Value}
use new_mud_codex.Sessions.Revocation.{KeyedSessions}
use new_mud_codex.Sessions.Logout.{
  session_ids, session_from_refresh_locator, session_from_access_locator, logout, logout_session,
  logout_sessions, order_by_id, insert, among, locators, family_of,
}

-- The active rows of the session `k`: none or one.
abbrev pub active_session_is : ℕ → AuthSession → Bool
active_session_is k r = session_is k r && is_active_session r.state

end_session-le :
    (k : ℕ) (s : AuthSession) (target : SessionState) (reason : Reason) (now : ℕ)
    (rows : List AuthSession)
    → is_active_session target ≡ false
    → count (active_session_is k) (end_session s target reason now rows)
      ≤ count (active_session_is k) rows
unfolding end_session
end_session-le k s target reason now rows t = elim (Bool-cases (is_active_session s.state)) [
  | inl live ↦ rw live (
      count-update-le (active_session_is k) (session_is s.auth_session_id) _ rows
        (λ a h e. ground arith))
  | inr dead ↦ rw dead (omega arith)
]

logout_session-le :
    (k : ℕ) (s : AuthSession) (now : ℕ) (db : Db)
    → count (active_session_is k) (logout_session s now db).0.sessions
      ≤ count (active_session_is k) db.sessions
unfolding logout_session converge_authentication_control
logout_session-le k s now db = elim (Option-cases (first (family_of s) db.families)) [
  | inl e ↦ rw e (omega arith)
  | inr (f, e) ↦
      rw e (end_session-le k s SessionState.logged_out Reason.logout now db.sessions refl)
]

logout_sessions-le :
    (k : ℕ) (l : List AuthSession) (now : ℕ) (db : Db)
    → count (active_session_is k) (logout_sessions l now db).0.sessions
      ≤ count (active_session_is k) db.sessions
unfolding logout_sessions
logout_sessions-le k [] now db = omega arith
logout_sessions-le k (s ∷ rest) now db =
    omega (
      arith,
      logout_session-le k s now db,
      logout_sessions-le k rest now (logout_session s now db).0,
    )

-- A live session that has a family is ended.
logout_session-none :
    (s : AuthSession) (now : ℕ) (db : Db)
    → is_active_session s.state ≡ true
    → is_some (first (family_of s) db.families) ≡ true
    → count (active_session_is s.auth_session_id) (logout_session s now db).0.sessions ≡ 0
unfolding logout_session converge_authentication_control end_session
logout_session-none s now db live h = elim (Option-cases (first (family_of s) db.families)) [
  | inl e ↦ absurd (cc (rw e at h))
  | inr (f, e) ↦
      rw (e, live)
        (count-update-none (active_session_is s.auth_session_id) (session_is s.auth_session_id) _
          db.sessions (λ a q. ground arith) (λ a q. ground arith))
]

-- Whether a session has a family does not change.
has_family-update :
    (s : AuthSession) (q : Family → Bool) (f : Family → Family) (rows : List Family)
    → ((a : Family) → (f a).auth_session_id ≡ a.auth_session_id)
    → is_some (first (family_of s) (update q f rows)) ≡ is_some (first (family_of s) rows)
has_family-update s q f [] same = refl
has_family-update s q f (x ∷ rows) same = ground (arith, same x, has_family-update s q f rows same)

has_family-logout_session :
    (s t : AuthSession) (now : ℕ) (db : Db)
    → is_some (first (family_of s) (logout_session t now db).0.families)
      ≡ is_some (first (family_of s) db.families)
unfolding logout_session converge_authentication_control revoke_family
has_family-logout_session s t now db = elim (Option-cases (first (family_of t) db.families)) [
  | inl e ↦ rw e refl
  | inr (f, e) ↦ elim (Bool-cases (is_active_family f.state)) [
    | inl live ↦
        rw (e, live) (has_family-update s (family_is f.family_id) _ db.families (λ a. refl))
    | inr dead ↦ rw (e, dead) refl
  ]
]

logout_sessions-none :
    (s : AuthSession) (l : List AuthSession) (now : ℕ) (db : Db)
    → Elem s l
    → is_active_session s.state ≡ true
    → is_some (first (family_of s) db.families) ≡ true
    → count (active_session_is s.auth_session_id) (logout_sessions l now db).0.sessions ≡ 0
unfolding logout_sessions
logout_sessions-none s [] now db e live h = elim e [ ]
logout_sessions-none s (x ∷ rest) now db here live h = omega (
  arith,
  logout_session-none s now db live h,
  logout_sessions-le s.auth_session_id rest now (logout_session s now db).0,
)
logout_sessions-none s (x ∷ rest) now db (there e) live h =
    logout_sessions-none s rest now (logout_session x now db).0 e live
      (has_family-logout_session s x now db ∙ h)

insert-here : (s : AuthSession) (l : List AuthSession) → Elem s (insert s l)
insert-here s [] = here
insert-here s (t ∷ rest) = elim (Bool-cases (ltb t.auth_session_id s.auth_session_id)) [
  | inl e ↦ rw e (there (insert-here s rest))
  | inr e ↦ rw e here
]

insert-there : (s t : AuthSession) (l : List AuthSession) → Elem s l → Elem s (insert t l)
insert-there s t [] e = elim e [ ]
insert-there s t (x ∷ rest) here = elim (Bool-cases (ltb s.auth_session_id t.auth_session_id)) [
  | inl b ↦ rw b here
  | inr b ↦ rw b (there here)
]
insert-there s t (x ∷ rest) (there e) =
    elim (Bool-cases (ltb x.auth_session_id t.auth_session_id)) [
      | inl b ↦ rw b (there (insert-there s t rest e))
      | inr b ↦ rw b (there (there e))
    ]

order_by_id-Elem : (s : AuthSession) (l : List AuthSession) → Elem s l → Elem s (order_by_id l)
unfolding order_by_id
order_by_id-Elem s [] e = elim e [ ]
order_by_id-Elem s (x ∷ rest) here = insert-here s (order_by_id rest)
order_by_id-Elem s (x ∷ rest) (there e) =
    insert-there s x (order_by_id rest) (order_by_id-Elem s rest e)

sessions_ended :
    (s : AuthSession) (l : List AuthSession) (now : ℕ) (db : Db)
    → KeyedSessions db
    → first (session_is s.auth_session_id) db.sessions ≡ some s
    → is_some (first (family_of s) db.families) ≡ true
    → Elem s l
    → count (active_session_is s.auth_session_id) (logout_sessions l now db).0.sessions ≡ 0
sessions_ended s l now db u found h e = elim (Bool-cases (is_active_session s.state)) [
  | inl live ↦ logout_sessions-none s l now db e live h
  | inr dead ↦ omega (
    arith,
    count-Keyed (λ (r : AuthSession). r.auth_session_id) s.auth_session_id
        (λ r. is_active_session r.state) db.sessions u found dead,
    logout_sessions-le s.auth_session_id l now db,
  )
]

module _ (c : Crypto) where
  named-ended :
      (refresh_token authorization : Value) (decode_now now : ℕ) (seen db : Db) (ids : List ℕ)
      (s : AuthSession)
      → locators c refresh_token authorization decode_now seen ≡ pure ids
      → among ids s ≡ true
      → KeyedSessions db
      → first (session_is s.auth_session_id) db.sessions ≡ some s
      → is_some (first (family_of s) db.families) ≡ true
      → count
          (active_session_is s.auth_session_id)
          (logout c refresh_token authorization decode_now now seen db).1.sessions
        ≡ 0
  unfolding logout
  named-ended refresh_token authorization decode_now now seen db [] s e named u found h =
      absurd (cc named)
  named-ended refresh_token authorization decode_now now seen db (k ∷ ks) s e named u found h =
      rw e (
        sessions_ended s (order_by_id (select (among (k ∷ ks)) db.sessions)) now db u found h (
          order_by_id-Elem s (select (among (k ∷ ks)) db.sessions) (
            select-Elem (among (k ∷ ks)) db.sessions s named
              (first-Elem (session_is s.auth_session_id) db.sessions found))))

  -- What the two tokens name is among the sessions to end.
  session_ids-among :
      (a b : Option ℕ) (s : AuthSession)
      → (a ≡ some s.auth_session_id) ⊎ (b ≡ some s.auth_session_id)
      → among (session_ids c a b) s ≡ true
  unfolding session_ids
  session_ids-among none none s (inl h) = absurd (cc h)
  session_ids-among none none s (inr h) = absurd (cc h)
  session_ids-among none (some b) s (inl h) = absurd (cc h)
  session_ids-among none (some b) s (inr h) = ground arith
  session_ids-among (some a) none s (inl h) = ground arith
  session_ids-among (some a) none s (inr h) = absurd (cc h)
  session_ids-among (some a) (some b) s (inl h) = ground arith
  session_ids-among (some a) (some b) s (inr h) = ground arith

  -- No session that a token of a logout names is active after it, if the session has a family and
  -- no two sessions have one identifier.
  pub logout-ended :
      (refresh_token authorization : Value) (decode_now now : ℕ) (seen db : Db) (a b : Option ℕ)
      (s : AuthSession)
      → session_from_refresh_locator c refresh_token seen ≡ pure a
      → session_from_access_locator c authorization decode_now ≡ pure b
      → (a ≡ some s.auth_session_id) ⊎ (b ≡ some s.auth_session_id)
      → KeyedSessions db
      → first (session_is s.auth_session_id) db.sessions ≡ some s
      → is_some (first (family_of s) db.families) ≡ true
      → count
          (active_session_is s.auth_session_id)
          (logout c refresh_token authorization decode_now now seen db).1.sessions
        ≡ 0
  logout-ended refresh_token authorization decode_now now seen db a b s ea eb named =
      named-ended refresh_token authorization decode_now now seen db (session_ids c a b) s
        (rw (ea, eb)) (session_ids-among a b s named)
