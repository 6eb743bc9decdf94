-- ===== src/Sessions/Revocation.antt =====
-- services.py, `_converge_authentication_control`: the rows of a family and its session
-- afterwards.
use new_mud_codex.Shared.{ℕ, ◌≡◌, inl, inr, false, ◌&&◌, some, List, arith, Bool-cases}
use new_mud_codex.Shared.Table.{first, count, count-update-none, count-Keyed, Keyed}
use new_mud_codex.Sessions.Tables.{
  Db, AuthSession, SessionState, Family, Reason, is_active_session, is_active_family, active_in,
  session_is, family_is,
}
use new_mud_codex.Sessions.Converge.{converge_authentication_control, revoke_family, end_session}
use new_mud_codex.Sessions.OneActive.{revoke_credentials-none}

abbrev pub KeyedFamilies : Db → Type 0
KeyedFamilies db = Keyed (λ (f : Family). f.family_id) db.families

abbrev pub KeyedSessions : Db → Type 0
KeyedSessions db = Keyed (λ (s : AuthSession). s.auth_session_id) db.sessions

-- No active row is left of the family `f` and the session `k`.
pub record IsRevoked (f k : ℕ) (db : Db) : Type 0 where
  pub no_credential : count (active_in f) db.credentials ≡ 0
  pub no_family : count (λ r. family_is f r && is_active_family r.state) db.families ≡ 0
  pub no_session : count (λ r. session_is k r && is_active_session r.state) db.sessions ≡ 0

revoke_family-none :
    (f : Family) (reason : Reason) (now : ℕ) (rows : List Family)
    → Keyed (λ (r : Family). r.family_id) rows
    → first (family_is f.family_id) rows ≡ some f
    → count
        (λ r. family_is f.family_id r && is_active_family r.state)
        (revoke_family f reason now rows)
      ≡ 0
unfolding revoke_family
revoke_family-none f reason now rows u e = elim (Bool-cases (is_active_family f.state)) [
  | inl live ↦ rw live (
      count-update-none _ (family_is f.family_id) _ rows (λ a h. ground arith)
        (λ a h. ground arith))
  | inr dead ↦ rw dead (
      count-Keyed (λ (r : Family). r.family_id) f.family_id (λ r. is_active_family r.state) rows u e
        dead)
]

end_session-none :
    (s : AuthSession) (target : SessionState) (reason : Reason) (now : ℕ) (rows : List AuthSession)
    → is_active_session target ≡ false
    → Keyed (λ (r : AuthSession). r.auth_session_id) rows
    → first (session_is s.auth_session_id) rows ≡ some s
    → count
        (λ r. session_is s.auth_session_id r && is_active_session r.state)
        (end_session s target reason now rows)
      ≡ 0
unfolding end_session
end_session-none s target reason now rows t u e = elim (Bool-cases (is_active_session s.state)) [
  | inl live ↦ rw live (
      count-update-none _ (session_is s.auth_session_id) _ rows (λ a h. ground arith)
        (λ a h. ground arith))
  | inr dead ↦ rw dead (
      count-Keyed (λ (r : AuthSession). r.auth_session_id) s.auth_session_id
        (λ r. is_active_session r.state) rows u e dead)
]

-- The rows that were read under lock are converged, whatever state they were in.
pub converge-IsRevoked :
    (f : Family) (s : AuthSession) (target : SessionState) (reason : Reason) (now : ℕ) (db : Db)
    → is_active_session target ≡ false
    → KeyedFamilies db
    → KeyedSessions db
    → first (family_is f.family_id) db.families ≡ some f
    → first (session_is s.auth_session_id) db.sessions ≡ some s
    → IsRevoked f.family_id s.auth_session_id
        (converge_authentication_control f s target reason now db).0
unfolding converge_authentication_control
converge-IsRevoked f s target reason now db t uf us ef es = record {
  no_credential = revoke_credentials-none f.family_id db.credentials;
  no_family = revoke_family-none f reason now db.families uf ef;
  no_session = end_session-none s target reason now db.sessions t us es;
}
