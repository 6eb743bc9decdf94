-- ===== src/Delivery/Activation.antt =====
-- verification_delivery.py, `_finish_delivery`: the table of challenges after a delivery.
use new_mud_codex.Shared.{ℕ, ◌≡◌, some, ℕ_equality}
use new_mud_codex.Shared.Text.{Text, codes}
use new_mud_codex.Shared.Table.{first, count}
use new_mud_codex.Errors.{pure}
use new_mud_codex.Sessions.Request.{text}
use new_mud_codex.Contacts.{normalize_email, lookup_digests, NormalizedEmail}
use new_mud_codex.Delivery.{Externals, DeliverySettings, ClaimedDelivery, value_of}
use new_mud_codex.Delivery.Finish.{is_rival, activated}
use new_mud_codex.Delivery.Tables.{Mail, Challenge, challenge_is}

module _ (x : Externals) (settings : DeliverySettings) where
  -- What a delivered turn leaves in the table of challenges.
  pub record Activates (claim : ClaimedDelivery) (now : ℕ) (mail mail' : Mail) : Type 0 where
    pub challenge : Challenge
    pub destination : Text
    pub normalized : NormalizedEmail
    pub found : first (challenge_is claim.challenge_id) mail.challenges ≡ some challenge
    pub addressed : value_of (codes "destination") claim.payload ≡ some destination
    pub normal : normalize_email x.unicode (text destination) ≡ pure normalized
    pub active :
        first (challenge_is claim.challenge_id) mail'.challenges
        ≡ some (activated x settings challenge now)
    pub alone :
        count
          (is_rival challenge (lookup_digests x.unicode normalized settings.contact_lookup))
          mail'.challenges
        ≡ 0
