-- ===== src/Delivery/Steps.antt =====
-- verification_delivery.py: the transactions of the workers as steps, in any order.
use new_mud_codex.Shared.{
  ℕ, ◌<◌, leb, ◌⊎◌, ◌≡◌, refl, Bool, Option, none, some, List, [], ◌∷◌, inl, inr, Bool-cases,
  if◌then◌else◌, arith, ◌||◌, true, not, sym, subst, ap,
}
use new_mud_codex.Shared.Text.{Text, codes}
use new_mud_codex.Shared.Table.{select, first, Elem, here, there, Elem-select, first-Elem}
use new_mud_codex.Errors.{
  pure, bind-eq-pure, or_raise, or_raise-eq-pure, pure-injective, raise_if,
  verification_service_unavailable, does_not_exist,
}
use new_mud_codex.Delivery.{
  Externals, DeliverySettings, DeliveryOutcome, ClaimedDelivery, earliest, sooner, claim_delivery,
  terminalize_one_exhausted_lease, claim, is_eligible, is_exhausted, next_outbox, leased_outbox,
  save_outbox, lease_before, attempt_before, terminalize_delivery_failure, exhaust, open_payload,
  failed_outbox, value_of,
}
use new_mud_codex.Sessions.Request.{text}
use new_mud_codex.Contacts.{normalize_email, lookup_digests}
use new_mud_codex.Delivery.Finish.{
  finish_delivery, record_failure, finish_row, fail_row, is_stale, delivered_outbox, rescheduled,
}
use new_mud_codex.Delivery.Tables.{Mail, Outbox, challenge_is, outbox_is, is_pending, is_leased}

module _ {ℓ} {A : Type ℓ} (before : A → A → Bool) where
  sooner-Elem :
      (x : A) (xs : List A) (o : Option A) {a : A}
      → ((b : A) → o ≡ some b → Elem b xs)
      → sooner before x o ≡ some a
      → Elem a (x ∷ xs)
  sooner-Elem x xs none h e = subst (λ y. Elem y (x ∷ xs)) (cc e) here
  sooner-Elem x xs (some y) h e = elim (Bool-cases (before y x)) [
    | inl t ↦ (let e' = rw t at e in subst (λ z. Elem z (x ∷ xs)) (cc e') (there (h y refl)))
    | inr f ↦ (let e' = rw f at e in subst (λ z. Elem z (x ∷ xs)) (cc e') here)
  ]

  -- The row that a query orders first is one of its rows.
  pub earliest-Elem : (xs : List A) {a : A} → earliest before xs ≡ some a → Elem a xs
  earliest-Elem [] e = absurd (cc e)
  earliest-Elem (x ∷ xs) {a = a} e =
      sooner-Elem x xs (earliest before xs) {a = a} (λ b h. earliest-Elem xs {a = b} h) e

module _ (x : Externals) (settings : DeliverySettings) where
  -- One committed transaction, with the claim it acts for.
  pub data Works (mail : Mail) : Mail → Type 0 where
    swept :
        (locked : ℕ → Bool) (now : ℕ) (b : Bool) {mail' : Mail}
        → terminalize_one_exhausted_lease x settings locked now mail ≡ pure (b, mail')
        → Works mail mail'
    claimed :
        (locked : ℕ → Bool) (worker_id : Text) (now : ℕ) (c : Option ClaimedDelivery) {mail' : Mail}
        → claim_delivery x settings locked worker_id now mail ≡ pure (c, mail')
        → Works mail mail'
    finished :
        (c : ClaimedDelivery) (now : ℕ) (outcome : DeliveryOutcome) {mail' : Mail}
        → finish_delivery x settings c now mail ≡ pure (outcome, mail')
        → Works mail mail'
    failed :
        (c : ClaimedDelivery) (permanent : Bool) (now : ℕ) (outcome : DeliveryOutcome)
        {mail' : Mail}
        → record_failure x settings c permanent now mail ≡ pure (outcome, mail')
        → Works mail mail'

  pub data Run : Mail → Mail → Type 0 where
    done : {mail : Mail} → Run mail mail
    work : {mail mail' mail'' : Mail} → Works mail mail' → Run mail' mail'' → Run mail mail''

  -- What a transaction writes in place of an open row.
  pub data Writes (o : Outbox) : Outbox → Type 0 where
    lease :
        (worker_id : Text) (now : ℕ)
        → (is_pending o.state || is_leased o.state) ≡ true
        → o.attempt_count < settings.max_delivery_attempts
        → Writes o (leased_outbox x settings o worker_id now)
    fail :
        (category : Text) (now : ℕ)
        → is_leased o.state ≡ true
        → Writes o (failed_outbox o category now)
    deliver : (now : ℕ) → is_leased o.state ≡ true → Writes o (delivered_outbox x settings o now)
    reschedule : (now : ℕ) → is_leased o.state ≡ true → Writes o (rescheduled x settings o now)

  -- A transaction writes at most one row of the outbox.
  pub record WritesRow (rows rows' : List Outbox) : Type 0 where
    pub old : Outbox
    pub new : Outbox
    pub present : Elem old rows
    pub writes : Writes old new
    pub saved : rows' ≡ save_outbox new rows

  abbrev pub Effect : Mail → Mail → Type 0
  Effect mail mail' = (mail'.outboxes ≡ mail.outboxes) ⊎ WritesRow mail.outboxes mail'.outboxes

  exhaust-Effect :
      (locked : ℕ → Bool) (now : ℕ) (b : Bool) (o : Option Outbox) (mail mail' : Mail)
      → ((r : Outbox)
          → o ≡ some r
          → Elem r mail.outboxes × (is_exhausted x settings locked now r ≡ true))
      → exhaust x settings o now mail ≡ pure (b, mail')
      → Effect mail mail'
  unfolding terminalize_delivery_failure
  exhaust-Effect locked now b none mail mail' h e =
      inl (ap (λ m. m.outboxes) (sym (ap (λ p. p.1) (pure-injective e))))
  exhaust-Effect locked now b (some r) mail mail' h e =
      let (c, _, e1) =
        bind-eq-pure (or_raise (first (challenge_is r.challenge_id) mail.challenges) does_not_exist)
          _ e in
      let (present, old) = h r refl in
      inr (record {
        old = r;
        new = failed_outbox r (codes "attempts_exhausted") now;
        present = present;
        writes = fail (codes "attempts_exhausted") now (ground arith);
        saved = ap (λ m. m.outboxes) (sym (ap (λ p. p.1) (pure-injective e1)));
      })

  claim-Effect :
      (locked : ℕ → Bool) (worker_id : Text) (now : ℕ) (c : Option ClaimedDelivery)
      (o : Option Outbox) (mail mail' : Mail)
      → ((r : Outbox)
          → o ≡ some r
          → Elem r mail.outboxes × (is_eligible x settings locked now r ≡ true))
      → claim x settings o worker_id now mail ≡ pure (c, mail')
      → Effect mail mail'
  claim-Effect locked worker_id now c none mail mail' h e =
      inl (ap (λ m. m.outboxes) (sym (ap (λ p. p.1) (pure-injective e))))
  claim-Effect locked worker_id now c (some r) mail mail' h e =
      let (_, _, e1) = bind-eq-pure (open_payload x settings r) _ e in
      let (present, fit) = h r refl in
      inr (record {
        old = r;
        new = leased_outbox x settings r worker_id now;
        present = present;
        writes = lease worker_id now (ground arith) (ground arith);
        saved = ap (λ m. m.outboxes) (sym (ap (λ p. p.1) (pure-injective e1)));
      })

  finish_row-Effect :
      (c : ClaimedDelivery) (digests : List Text) (now : ℕ) (o : Outbox) (outcome : DeliveryOutcome)
      (mail mail' : Mail)
      → Elem o mail.outboxes
      → finish_row x settings c digests now o mail ≡ pure (outcome, mail')
      → Effect mail mail'
  finish_row-Effect c digests now o outcome mail mail' present e =
      elim (Bool-cases (is_stale c o)) [
        | inl t ↦ inl (ap (λ m. m.outboxes) (sym (ap (λ p. p.1) (pure-injective (rw t at e)))))
        | inr f ↦
            (let (h, _, e1) =
                bind-eq-pure
                  (or_raise (first (challenge_is c.challenge_id) mail.challenges) does_not_exist) _
                  (rw f at e) in
              inr (record {
                old = o;
                new = delivered_outbox x settings o now;
                present = present;
                writes = deliver now (ground arith);
                saved = ap (λ m. m.outboxes) (sym (ap (λ p. p.1) (pure-injective e1)));
              }))
      ]

  fail_row-Effect :
      (c : ClaimedDelivery) (permanent : Bool) (now : ℕ) (o : Outbox) (outcome : DeliveryOutcome)
      (mail mail' : Mail)
      → Elem o mail.outboxes
      → fail_row x settings c permanent now o mail ≡ pure (outcome, mail')
      → Effect mail mail'
  unfolding terminalize_delivery_failure
  fail_row-Effect c permanent now o outcome mail mail' present e =
      elim (Bool-cases (is_stale c o)) [
        | inl t ↦ inl (ap (λ m. m.outboxes) (sym (ap (λ p. p.1) (pure-injective (rw t at e)))))
        | inr f ↦
            elim (Bool-cases (permanent || leb settings.max_delivery_attempts o.attempt_count)) [
              | inl over ↦
                  (let (h, _, e1) =
                      bind-eq-pure
                        (or_raise (first (challenge_is c.challenge_id) mail.challenges)
                          does_not_exist)
                        _ (rw (f, over) at e) in
                    inr (record {
                      old = o;
                      new =
                          failed_outbox o
                            (if permanent
                              then codes "permanent_failure"
                              else codes "transient_failure")
                            now;
                      present = present;
                      writes = fail _ now (ground arith);
                      saved = ap (λ m. m.outboxes) (sym (ap (λ p. p.1) (pure-injective e1)));
                    }))
              | inr again ↦ inr (record {
                old = o;
                new = rescheduled x settings o now;
                present = present;
                writes = reschedule now (ground arith);
                saved =
                    ap (λ m. m.outboxes)
                      (sym (ap (λ p. p.1) (pure-injective (rw (f, again) at e))));
              })
            ]
      ]

  pub Works-Effect : (mail mail' : Mail) → Works mail mail' → Effect mail mail'
  unfolding terminalize_one_exhausted_lease claim_delivery finish_delivery record_failure
  Works-Effect mail mail' (swept locked now b e) =
      exhaust-Effect locked now b
        (earliest (lease_before x settings)
          (select (is_exhausted x settings locked now) mail.outboxes))
        mail mail'
        (λ r h.
          Elem-select (is_exhausted x settings locked now) mail.outboxes
            (earliest-Elem (lease_before x settings) _ h))
        e
  Works-Effect mail mail' (claimed locked worker_id now c e) =
      let (_, _, e1) =
        bind-eq-pure (raise_if (not settings.baseline_configured) verification_service_unavailable)
          _ e in
      claim-Effect locked worker_id now c (next_outbox x settings locked now mail) mail mail'
        (λ r h.
          Elem-select (is_eligible x settings locked now) mail.outboxes
            (earliest-Elem (attempt_before x settings) _ h))
        e1
  Works-Effect mail mail' (finished c now outcome e) =
      let (destination, _, e1) =
        bind-eq-pure (or_raise (value_of (codes "destination") c.payload) does_not_exist) _ e in
      let (normalized, _, e2) = bind-eq-pure (normalize_email x.unicode (text destination)) _ e1 in
      let (_, _, e3) =
        bind-eq-pure (raise_if (not settings.baseline_configured) verification_service_unavailable)
          _ e2 in
      let (o, eo, e4) =
        bind-eq-pure (or_raise (first (outbox_is c.outbox_id) mail.outboxes) does_not_exist) _ e3 in
      finish_row-Effect c (lookup_digests x.unicode normalized settings.contact_lookup) now o
        outcome mail mail'
        (first-Elem (outbox_is c.outbox_id) mail.outboxes (or_raise-eq-pure _ _ eo)) e4
  Works-Effect mail mail' (failed c permanent now outcome e) =
      let (o, eo, e1) =
        bind-eq-pure (or_raise (first (outbox_is c.outbox_id) mail.outboxes) does_not_exist) _ e in
      fail_row-Effect c permanent now o outcome mail mail'
        (first-Elem (outbox_is c.outbox_id) mail.outboxes (or_raise-eq-pure _ _ eo)) e1
