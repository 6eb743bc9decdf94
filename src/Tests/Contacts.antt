-- ===== src/Tests/Contacts.antt =====
-- A key ring is configured, and an address is looked up under it.
use new_mud_codex.Shared.{◌≡◌, refl, some, List, [], ◌∷◌, replicate}
use new_mud_codex.Shared.Text.{Text, codes, text_eq}
use new_mud_codex.Errors.{pure}
use new_mud_codex.Contacts.{
  NormalizedEmail, KeyRing, DigestedValue, keyed_digest, keyed_digest_candidates,
}
use new_mud_codex.Contacts.Ring.{
  decode_key, key_ring, email_contact_scope, email_contact_scope-current,
}
use new_mud_codex.Limits.{text_before}
use new_mud_codex.Tests.Delivery.{unicode, address}

abbrev configured : List (Text × Text)
configured = (codes "b", replicate 32 b'x') ∷ (codes "a", replicate 32 b'y') ∷ []

abbrev sorted : KeyRing
sorted = record {
  current_key_id = codes "b";
  keys = (codes "a", replicate 32 b'y') ∷ (codes "b", replicate 32 b'x') ∷ [];
}

abbrev email : NormalizedEmail
email = record { delivery = address; comparison = address }

configured_lem : key_ring (λ t. some t) (codes "b") configured ≡ pure sorted
unfolding key_ring decode_key text_eq text_before
configured_lem = refl

email_contact_scope-current_example :
    (d : DigestedValue) × (keyed_digest unicode address sorted (codes "contact:email") (codes "b")
      ≡ pure d)
    × (email_contact_scope unicode email sorted
        ≡ some (record {
          email = email;
          current_lookup = d;
          lookup_candidates =
              keyed_digest_candidates unicode address sorted (codes "contact:email");
        }))
email_contact_scope-current_example =
    email_contact_scope-current unicode (λ t. some t) (codes "b") configured sorted email
      configured_lem
