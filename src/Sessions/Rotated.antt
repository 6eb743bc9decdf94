-- ===== src/Sessions/Rotated.antt =====
-- The rows of a family after a rotation, as the next request finds them.
use new_mud_codex.Shared.{
  ℕ, ◌+◌, ◌≡◌, refl, sym, ◌∙◌, subst, inl, inr, Bool, true, false, Option, none, some, List, [],
  ◌∷◌, Bool-cases, nat_eq, nat_eq_iff, nat_eq_refl,
}
use new_mud_codex.Shared.Text.{Text}
use new_mud_codex.Shared.Table.{
  first, first-update_hit, first-update_miss, first-update-none, first-append-some,
  first-append-none,
}
use new_mud_codex.Tokens.{Crypto}
use new_mud_codex.Sessions.Tables.{
  Credential, CredentialState, Family, Settings, credential_is, family_is,
}
use new_mud_codex.Sessions.Request.{Locked, Supply}
use new_mud_codex.Sessions.Rotation.{
  use_credential, link_successor, advance_family, rotated_credentials, successor_of,
}

-- the row of the credential that was rotated
abbrev pub spent : Locked → Supply → Credential
spent l s = record l.credential {
  state = CredentialState.used;
  used_at = some s.now;
  version = l.credential.version + 1;
  replaced_by = some s.successor_id;
}

abbrev pub advanced : Family → Family
advanced f = record f { current_generation = f.current_generation + 1; version = f.version + 1 }

-- A query that reads only the fields that a rotation leaves alone.
abbrev pub IsStable : (Credential → Bool) → Type 0
IsStable q =
    (r : Credential) (st : CredentialState) (u : Option ℕ) (v : ℕ) (b : Option ℕ)
    → q (record r { state = st; used_at = u; version = v; replaced_by = b }) ≡ q r

module _ (c : Crypto) (settings : Settings) (l : Locked) (token : Text) (s : Supply) where
  pub first-spent :
      (q : Credential → Bool) (rows : List Credential)
      → IsStable q
      → first q rows ≡ some l.credential
      → first q (rotated_credentials c settings l token s rows) ≡ some (spent l s)
  unfolding use_credential link_successor
  first-spent q rows stable e =
      let mine : credential_is l.credential.credential_id l.credential ≡ true =
        nat_eq_refl l.credential.credential_id in
      first-update_hit q (credential_is l.credential.credential_id) _ _
        (λ r. stable r r.state r.used_at r.version (some s.successor_id))
        (first-append-some q (use_credential l.credential s.now rows)
          (successor_of c settings l token s ∷ [])
          (first-update_hit q (credential_is l.credential.credential_id) _ rows
            (λ r.
              stable r CredentialState.used (some s.now) (l.credential.version + 1) r.replaced_by)
            e mine))
        mine

  other_key :
      (rows : List Credential)
      → first (credential_is l.credential.credential_id) rows ≡ some l.credential
      → first (credential_is s.successor_id) rows ≡ none
      → nat_eq s.successor_id l.credential.credential_id ≡ false
  other_key rows e fresh = elim (Bool-cases (nat_eq s.successor_id l.credential.credential_id)) [
    | inl same ↦
        (let found : first (credential_is s.successor_id) rows ≡ some l.credential =
            subst (λ k. first (credential_is k) rows ≡ some l.credential)
              (sym ((nat_eq_iff s.successor_id l.credential.credential_id).0 same)) e in
          cc (found, fresh))
    | inr other ↦ other
  ]

  pub first-successor :
      (rows : List Credential)
      → first (credential_is l.credential.credential_id) rows ≡ some l.credential
      → first (credential_is s.successor_id) rows ≡ none
      → first (credential_is s.successor_id) (rotated_credentials c settings l token s rows)
        ≡ some (successor_of c settings l token s)
  unfolding use_credential link_successor
  first-successor rows e fresh =
      first-update_miss (credential_is s.successor_id) (credential_is l.credential.credential_id) _
        _ (λ r. refl)
        (first-append-none (credential_is s.successor_id) (use_credential l.credential s.now rows)
            (successor_of c settings l token s ∷ [])
            (first-update-none (credential_is s.successor_id)
              (credential_is l.credential.credential_id) _ rows (λ r. refl) fresh)
          ∙ rw (nat_eq_refl s.successor_id))
        (other_key rows e fresh)

pub first-advanced :
    (f : Family) (rows : List Family)
    → first (family_is f.family_id) rows ≡ some f
    → first (family_is f.family_id) (advance_family f rows) ≡ some (advanced f)
unfolding advance_family
first-advanced f rows e =
    first-update_hit (family_is f.family_id) (family_is f.family_id) _ rows (λ r. refl) e
      (nat_eq_refl f.family_id)
