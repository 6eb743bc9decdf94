-- ===== src/Contacts/Ring.antt =====
-- verification_crypto.py and verification.py: configured key rings, and what an address is looked up by.
use new_mud_codex.Shared.{
  ◌≡◌, refl, ap, sym, ◌∙◌, Bool, true, false, not, ◌||◌, Option, none, some, List, [], ◌∷◌, ◌==◌,
  ℕ_equality, if◌then◌else◌, length, map, Bool-cases, inl, inr, subst,
}
use new_mud_codex.Shared.Text.{Text, codes, Text_equality, text_eq, text_eq_iff, text_eq_refl}
use new_mud_codex.Shared.Table.{first, exists}
use new_mud_codex.Errors.{
  Result, pure, ◌>>=◌, ◌>>◌, raise_if, or_raise, raise_if-eq-pure, key_unavailable, bind-eq-pure,
  pure-injective,
}
use new_mud_codex.Limits.{text_before}
use new_mud_codex.Contacts.{
  Unicode, NormalizedEmail, KeyRing, DigestedValue, lookup, current_key, digest_under, candidate,
  read_key, keyed_digest, keyed_digest_candidates,
}

-- `dict` sorted by its keys, as `key_ids` lists them
abbrev pub insert_key : Text × Text → List (Text × Text) → List (Text × Text)
insert_key p [] = p ∷ []
insert_key p (q ∷ rest) = if text_before q.0 p.0 then q ∷ insert_key p rest else p ∷ q ∷ rest

-- `base64.b64decode(…, altchars=b"-_", validate=True)`, none where it raises
module _ (b64decode : Text → Option Text) where
  -- `_decode_key`
  unfoldable pub decode_key : Text → Result Text
  decode_key encoded = do
    decoded ← or_raise (b64decode encoded) key_unavailable
    raise_if (not (length decoded == 32)) key_unavailable
    pure decoded

  abbrev pub decode_keys : List (Text × Text) → Result (List (Text × Text))
  decode_keys [] = pure []
  decode_keys ((key_id, encoded) ∷ rest) = do
    key ← decode_key encoded
    keys ← decode_keys rest
    pure (insert_key (key_id, key) keys)

  -- `KeyRing.__init__`
  unfoldable pub key_ring : Text → List (Text × Text) → Result KeyRing
  key_ring current_key_id encoded_keys = do
    raise_if (current_key_id == [] || not (exists (λ p. p.0 == current_key_id) encoded_keys))
        key_unavailable
    keys ← decode_keys encoded_keys
    pure (record { current_key_id = current_key_id; keys = keys })

pub record EmailContactScope : Type 0 where
  pub email : NormalizedEmail
  pub current_lookup : DigestedValue
  pub lookup_candidates : List DigestedValue

-- `next(…)`, none for `StopIteration`
abbrev pub scope_of :
    NormalizedEmail → List DigestedValue → Option DigestedValue → Option EmailContactScope
scope_of email candidates none = none
scope_of email candidates (some current_lookup) =
    some (record { email = email; current_lookup = current_lookup; lookup_candidates = candidates })

unfoldable pub email_contact_scope : Unicode → NormalizedEmail → KeyRing → Option EmailContactScope
email_contact_scope u email ring =
    let candidates = keyed_digest_candidates u email.comparison ring (codes "contact:email") in
    scope_of email candidates (first (λ d. d.key_id == ring.current_key_id) candidates)

abbrev HasKey : Text → List (Text × Text) → Type 0
HasKey k keys = (v : Text) × (lookup k keys ≡ some v)

HasKey-here : (k v : Text) (rest : List (Text × Text)) → HasKey k ((k, v) ∷ rest)
HasKey-here k v rest = (v, rw (text_eq_refl k) refl)

HasKey-later :
    (k : Text) (p : Text × Text) (rest : List (Text × Text)) → HasKey k rest → HasKey k (p ∷ rest)
HasKey-later k (j, v) rest (w, e) = elim (Bool-cases (text_eq j k)) [
  | inl same ↦ (v, rw same refl)
  | inr other ↦ (w, rw (other, e) refl)
]

insert_key-HasKey_here :
    (k v : Text) (keys : List (Text × Text)) → HasKey k (insert_key (k, v) keys)
insert_key-HasKey_here k v [] = HasKey-here k v []
insert_key-HasKey_here k v (q ∷ rest) = elim (Bool-cases (text_before q.0 k)) [
  | inl t ↦ rw t (HasKey-later k q (insert_key (k, v) rest) (insert_key-HasKey_here k v rest))
  | inr f ↦ rw f (HasKey-here k v (q ∷ rest))
]

insert_key-HasKey_later :
    (k : Text) (p : Text × Text) (keys : List (Text × Text))
    → HasKey k keys
    → HasKey k (insert_key p keys)
insert_key-HasKey_later k p [] h = HasKey-later k p [] h
insert_key-HasKey_later k p ((j, w) ∷ rest) (v, e) = elim (Bool-cases (text_before j p.0)) [
  | inl t ↦ rw t (elim (Bool-cases (text_eq j k)) [
    | inl same ↦ (w, rw same refl)
    | inr other ↦
        HasKey-later k (j, w) (insert_key p rest)
          (insert_key-HasKey_later k p rest (v, rw other at e))
  ])
  | inr f ↦ rw f (HasKey-later k p ((j, w) ∷ rest) (v, e))
]

decode_keys-HasKey :
    (b64decode : Text → Option Text) (k : Text) (encoded keys : List (Text × Text))
    → exists (λ p. p.0 == k) encoded ≡ true
    → decode_keys b64decode encoded ≡ pure keys
    → HasKey k keys
decode_keys-HasKey b64decode k [] keys x e = cc x
decode_keys-HasKey b64decode k ((j, t) ∷ rest) keys x e =
    let (key, _, e') = bind-eq-pure (decode_key b64decode t) _ e in
    let (others, eo, m) = bind-eq-pure (decode_keys b64decode rest) _ e' in
    subst (HasKey k) (pure-injective m) (elim (Bool-cases (text_eq j k)) [
      | inl same ↦
          subst (λ i. HasKey k (insert_key (i, key) others)) (sym ((text_eq_iff j k).0 same))
            (insert_key-HasKey_here k key others)
      | inr other ↦
          insert_key-HasKey_later k (j, key) others
            (decode_keys-HasKey b64decode k rest others (rw other at x) eo)
    ])

-- The current key of a ring has a name and is in the ring.
abbrev IsConfigured : KeyRing → Type 0
IsConfigured ring = ((ring.current_key_id == []) ≡ false) × HasKey ring.current_key_id ring.keys

key_ring-IsConfigured :
    (b64decode : Text → Option Text) (current : Text) (encoded : List (Text × Text))
    (ring : KeyRing)
    → key_ring b64decode current encoded ≡ pure ring
    → IsConfigured ring
unfolding key_ring
key_ring-IsConfigured b64decode current encoded ring e =
    let known = exists (λ p. p.0 == current) encoded in
    let (_, c, e') = bind-eq-pure (raise_if (current == [] || not known) key_unavailable) _ e in
    let (keys, ek, m) = bind-eq-pure (decode_keys b64decode encoded) _ e' in
    let (named, is_known) = passed (current == []) known (raise_if-eq-pure _ key_unavailable c) in
    subst IsConfigured (pure-injective m)
      (named, decode_keys-HasKey b64decode current encoded keys is_known ek)
  where
    passed : (empty known : Bool) → (empty || not known) ≡ false → (empty ≡ false) × (known ≡ true)
    passed true known h = cc h
    passed false true h = (refl, refl)
    passed false false h = cc h

module _ (u : Unicode) where
  -- Of the candidates, the first under the current key is the digest under that key.
  first-candidate :
      (ring : KeyRing) (context value v : Text) (keys : List (Text × Text))
      → (ring.current_key_id == []) ≡ false
      → current_key ring ≡ v
      → lookup ring.current_key_id keys ≡ some v
      → first
          (λ (d : DigestedValue). d.key_id == ring.current_key_id)
          (map (candidate u value ring context) keys)
        ≡ some (digest_under u value context ring.current_key_id v)
  first-candidate ring context value v [] named c e = cc e
  first-candidate ring context value v ((j, w) ∷ rest) named c e =
      elim (Bool-cases (text_eq j [])) [
        | inl unnamed ↦ rw (unnamed, text_eq_refl ring.current_key_id, c) refl
        | inr is_named ↦ elim (Bool-cases (text_eq j ring.current_key_id)) [
          | inl same ↦
              (let w_is : w ≡ v = same_value (rw same at e) in
                rw (is_named, same)
                  (ap (λ i. some (digest_under u value context i w)) ((text_eq_iff j _).0 same)
                    ∙ ap (λ x. some (digest_under u value context ring.current_key_id x)) w_is))
          | inr other ↦
              rw (is_named, other)
                (first-candidate ring context value v rest named c (rw other at e))
        ]
      ]
    where
      same_value : {a b : Text} → some a ≡ some b → a ≡ b
      same_value {a = a} e = ap (λ o. elim o [ none ↦ a | some c ↦ c ]) e

  -- Under a key ring that was configured without an error, every address has a scope, whose
  -- current lookup is the digest of the address under the current key of the ring, as it is
  -- computed by itself.
  pub email_contact_scope-current :
      (b64decode : Text → Option Text) (current : Text) (encoded : List (Text × Text))
      (ring : KeyRing) (email : NormalizedEmail)
      → key_ring b64decode current encoded ≡ pure ring
      → (d : DigestedValue) × (keyed_digest u email.comparison ring
            (codes "contact:email")
            ring.current_key_id
          ≡ pure d)
        × (email_contact_scope u email ring
            ≡ some (record {
              email = email;
              current_lookup = d;
              lookup_candidates =
                  keyed_digest_candidates u email.comparison ring (codes "contact:email");
            }))
  unfolding keyed_digest read_key email_contact_scope keyed_digest_candidates
  email_contact_scope-current b64decode current encoded ring email e =
      let (named, (v, has)) = key_ring-IsConfigured b64decode current encoded ring e in
      (
        digest_under u email.comparison (codes "contact:email") ring.current_key_id v,
        rw (named, has) refl,
        ap
            (scope_of email
              (keyed_digest_candidates u email.comparison ring (codes "contact:email")))
            (first-candidate ring (codes "contact:email") email.comparison v ring.keys named
              (rw (has, current_key) refl) has),
      )
