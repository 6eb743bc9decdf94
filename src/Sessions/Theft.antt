-- ===== src/Sessions/Theft.antt =====
-- services.py, `refresh`: a token that comes back under another idempotency key.
use new_mud_codex.Shared.{
  ◌≡◌, ◌≢◌, refl, sym, ◌∙◌, ap, subst, true, false, none, some, arith, nat_eq_refl,
}
use new_mud_codex.Shared.Text.{Text, text_eq-ne}
use new_mud_codex.Shared.Table.{first, first-append-none, first-fits, Keyed-update}
use new_mud_codex.Errors.{pure, raise, refresh_failed, session_revoked}
use new_mud_codex.Tokens.{Crypto}
use new_mud_codex.Sessions.Tables.{
  Db, Family, SessionState, Reason, Settings, family_is, session_is,
}
use new_mud_codex.Sessions.Converge.{revoke_family_for_replay}
use new_mud_codex.Sessions.Result.{Authentication}
use new_mud_codex.Sessions.Request.{text, Locked, Supply, terminal_is, is_idempotency_key}
use new_mud_codex.Sessions.Rotation.{is_replayed, is_stale, rotated_db, advance_family}
use new_mud_codex.Sessions.Refresh.{
  answer, answer_request, refuse, refresh, refresh_request_hash, commit, finish,
  create_failed_terminal,
}
use new_mud_codex.Sessions.Revocation.{IsRevoked, KeyedFamilies, KeyedSessions, converge-IsRevoked}
use new_mud_codex.Sessions.Reuse.{
  Reaches, refresh-Reaches, rotated_db-Reaches, next_rows, answer_request-Rotates,
}

module _ (c : Crypto) (settings : Settings) where
  -- The request is refused, and nothing of the family and its session is active after it.
  abbrev pub Refused : Locked → Text → Text → Supply → Db → Type 0
  Refused l token key s db =
      ((refresh c settings (text token) (text key) s db db).0
        ≡ raise (refresh_failed session_revoked))
      × IsRevoked l.family.family_id l.session.auth_session_id
          (refresh c settings (text token) (text key) s db db).1

  -- A used credential of an earlier generation, presented under a key that is not answered yet, is
  -- a replay: the request is refused and the family revoked.
  pub replay-Refused :
      (token key : Text) (s : Supply) (db : Db) (l : Locked)
      → Reaches c settings token key db l
      → first (terminal_is l.family.family_id key) db.terminals ≡ none
      → is_replayed l ≡ true
      → KeyedFamilies db
      → KeyedSessions db
      → Refused l token key s db
  unfolding answer_request finish create_failed_terminal revoke_family_for_replay
  replay-Refused token key s db l r fresh replayed uf us =
      let hash = refresh_request_hash c settings l.credential.credential_id in
      let home : l.family.family_id ≡ l.credential.family_id =
        ground (arith, first-fits (family_is l.credential.family_id) db.families r.family_found) in
      let owner : l.session.auth_session_id ≡ l.family.auth_session_id =
        ground
          (arith, first-fits (session_is l.family.auth_session_id) db.sessions r.session_found) in
      let answered : refresh c settings (text token) (text key) s db db
          ≡ commit c settings
              (refuse c settings l key hash s
                (revoke_family_for_replay l.family l.session s.now db))
              s db =
        refresh-Reaches c settings token key s db l r
        ∙ ap (λ t. commit c settings (answer c settings t l key hash s db) s db) fresh
        ∙ rw replayed in
      let revoked =
        converge-IsRevoked l.family l.session SessionState.revoked Reason.refresh_token_replayed
          s.now db refl uf us
          (subst (λ k. first (family_is k) db.families ≡ some l.family) (sym home) r.family_found)
          (subst (λ k. first (session_is k) db.sessions ≡ some l.session) (sym owner)
            r.session_found) in
      (
        ap (λ x. x.0) answered,
        subst (λ x. IsRevoked l.family.family_id l.session.auth_session_id x.1) (sym answered)
            (record {
              no_credential = revoked.no_credential;
              no_family = revoked.no_family;
              no_session = revoked.no_session;
            }),
      )

  spent-replayed :
      (l : Locked) (s : Supply) → is_stale l ≡ false → is_replayed (next_rows c settings l s) ≡ true
  spent-replayed l s h = ground arith

  -- Where a refresh with a token has succeeded and no terminal record stands under either key, the
  -- same token presented again under another valid idempotency key is refused, and no credential,
  -- family or session that it belongs to is active afterwards. Families and sessions have distinct
  -- identifiers.
  pub refresh_reused-Refused :
      (token key key' : Text) (s s' : Supply) (db db1 : Db) (l : Locked) (a : Authentication)
      → Reaches c settings token key db l
      → first (terminal_is l.family.family_id key) db.terminals ≡ none
      → refresh c settings (text token) (text key) s db db ≡ (pure a, db1)
      → is_idempotency_key key' ≡ true
      → key ≢ key'
      → first (terminal_is l.family.family_id key') db.terminals ≡ none
      → KeyedFamilies db
      → KeyedSessions db
      → Refused l token key' s' db1
  unfolding advance_family
  refresh_reused-Refused token key key' s s' db db1 l a r fresh e valid other fresh' uf us =
      let hash = refresh_request_hash c settings l.credential.credential_id in
      let first_answer : commit c settings (answer_request c settings l key hash s db) s db
          ≡ (pure a, db1) =
        ap (λ t. commit c settings (answer c settings t l key hash s db) s db) (sym fresh)
        ∙ sym (refresh-Reaches c settings token key s db l r)
        ∙ e in
      let w = answer_request-Rotates c settings l key hash s db db1 a first_answer in
      subst (Refused l token key' s') (sym w.after) (
        replay-Refused token key' s' (rotated_db c settings l w.successor key hash s db)
          (next_rows c settings l s)
          (rotated_db-Reaches c settings token key key' w.successor hash s db l r valid)
          (first-append-none (terminal_is l.family.family_id key') db.terminals _ fresh'
            ∙ rw (nat_eq_refl l.family.family_id, text_eq-ne key key' other))
          (spent-replayed l s w.current)
          (Keyed-update (λ (f : Family). f.family_id) (family_is l.family.family_id) _ db.families
            (λ f. refl) uf)
          us)
