-- ===== src/Delivery/Outboxes.antt =====
-- verification_delivery.py: the rows of the outbox under the workers.
use new_mud_codex.Shared.{
  ℕ, ◌≤◌, ◌≡◌, ◌≢◌, refl, Bool, some, inl, inr, arith, is_some, ◌&&◌, ◌||◌, true, false, not, sym,
  ◌∙◌, subst, All,
}
use new_mud_codex.Shared.Table.{first, Keyed, Elem-first, Keyed-save, first-save_other}
use new_mud_codex.Delivery.{Externals, DeliverySettings}
use new_mud_codex.Delivery.Tables.{
  Mail, Outbox, OutboxState, pending, leased, delivered, delivery_failed, outbox_is, is_pending,
  is_leased,
}
use new_mud_codex.Delivery.Steps.{
  Works, Run, done, work, Writes, lease, fail, deliver, reschedule, WritesRow, Works-Effect,
}

-- Whether the nullable columns fit the state: payload, owner, lease, delivered_at, terminal_at.
abbrev pub columns_fit : OutboxState → Bool → Bool → Bool → Bool → Bool → Bool
columns_fit pending payload owner until delivered_at terminal =
    payload && not delivered_at && not terminal
columns_fit leased payload owner until delivered_at terminal =
    payload && owner && until && not delivered_at && not terminal
columns_fit delivered payload owner until delivered_at terminal =
    not payload && delivered_at && terminal
columns_fit delivery_failed payload owner until delivered_at terminal =
    not payload && not delivered_at && terminal

module _ (settings : DeliverySettings) where
  -- The check constraints of the table, and the bound on attempts.
  pub record IsValid (o : Outbox) : Type 0 where
    pub columns :
        columns_fit o.state
          (is_some o.payload_ciphertext)
          (is_some o.lease_owner)
          (is_some o.lease_expires_at)
          (is_some o.delivered_at)
          (is_some o.terminal_at)
        ≡ true
    pub bounded : o.attempt_count ≤ settings.max_delivery_attempts

  abbrev pub AllValid : Mail → Type 0
  AllValid mail = All IsValid mail.outboxes

  leased_open : (st : OutboxState) → is_leased st ≡ true → (is_pending st || is_leased st) ≡ true
  leased_open st h = ground arith

  abbrev Open : Outbox → Type 0
  Open o =
      (is_some o.payload_ciphertext ≡ true)
      × (is_some o.delivered_at ≡ false)
      × (is_some o.terminal_at ≡ false)

  module _ (x : Externals) where
    same_id : (o o' : Outbox) → Writes x settings o o' → o'.outbox_id ≡ o.outbox_id
    same_id o _ (lease worker_id now h fewer) = refl
    same_id o _ (fail category now h) = refl
    same_id o _ (deliver now h) = refl
    same_id o _ (reschedule now h) = refl

    was_open :
        (o o' : Outbox) → Writes x settings o o' → (is_pending o.state || is_leased o.state) ≡ true
    was_open o _ (lease worker_id now h fewer) = h
    was_open o _ (fail category now h) = leased_open o.state h
    was_open o _ (deliver now h) = leased_open o.state h
    was_open o _ (reschedule now h) = leased_open o.state h

    abbrev pub Rows : Mail → Type 0
    Rows mail = Keyed (λ (o : Outbox). o.outbox_id) mail.outboxes

    Works-Rows : (mail mail' : Mail) → Works x settings mail mail' → Rows mail → Rows mail'
    Works-Rows mail mail' w u = elim (Works-Effect x settings mail mail' w) [
      | inl same ↦ subst (Keyed (λ (o : Outbox). o.outbox_id)) (sym same) u
      | inr r ↦
          subst (Keyed (λ (o : Outbox). o.outbox_id)) (sym r.saved)
            (Keyed-save (λ (o : Outbox). o.outbox_id) r.new mail.outboxes u)
    ]

    -- The row written is another one.
    written_other :
        (k : ℕ) (o : Outbox) (mail mail' : Mail)
        (r : WritesRow x settings mail.outboxes mail'.outboxes)
        → Rows mail
        → first (outbox_is k) mail.outboxes ≡ some o
        → (is_pending o.state || is_leased o.state) ≡ false
        → k ≢ r.new.outbox_id
    written_other k o mail mail' r u found over same =
        let old = Elem-first (λ (o : Outbox). o.outbox_id) mail.outboxes u r.present in
        let at =
          subst (λ j. first (outbox_is j) mail.outboxes ≡ some r.old)
            (sym (same ∙ same_id r.old r.new r.writes)) old in
        let open_row = was_open r.old r.new r.writes in cc

    Works-final :
        (k : ℕ) (o : Outbox) (mail mail' : Mail)
        → Works x settings mail mail'
        → Rows mail
        → first (outbox_is k) mail.outboxes ≡ some o
        → (is_pending o.state || is_leased o.state) ≡ false
        → first (outbox_is k) mail'.outboxes ≡ some o
    Works-final k o mail mail' w u found over = elim (Works-Effect x settings mail mail' w) [
      | inl same ↦ subst (λ rows. first (outbox_is k) rows ≡ some o) (sym same) found
      | inr r ↦
          subst (λ rows. first (outbox_is k) rows ≡ some o) (sym r.saved)
            (first-save_other (λ (b : Outbox). b.outbox_id) k r.new mail.outboxes
              (written_other k o mail mail' r u found over) found)
    ]

    -- A row of the outbox that is delivered or has failed is left as it is by every sequence of
    -- transactions of the delivery workers, where the rows have distinct identifiers.
    pub Run-final :
        (k : ℕ) (o : Outbox) (mail mail' : Mail)
        → Run x settings mail mail'
        → Rows mail
        → first (outbox_is k) mail.outboxes ≡ some o
        → (is_pending o.state || is_leased o.state) ≡ false
        → first (outbox_is k) mail'.outboxes ≡ some o
    Run-final k o mail _ done u found over = found
    Run-final k o mail mail'' (work {mail' = mail'} w rest) u found over =
        Run-final k o mail' mail'' rest (Works-Rows mail mail' w u)
          (Works-final k o mail mail' w u found over) over
