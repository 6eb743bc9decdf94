-- ===== src/Tests/Provider.antt =====
-- A worker probes the provider while the other one polls.
use new_mud_codex.Shared.{subst, ◌<◌, ◌+◌, ◌≡◌, refl, true, false, none, some, arith, seconds}
use new_mud_codex.Provider.{
  ProviderSettings, RuntimeState, ProbePermit, verification_delivery, security_notification,
  created, begin_poll, poll_row, probe, finish_provider_probe, prepare_worker_poll,
}
use new_mud_codex.Provider.Fencing.{stay, move, polled, SameCircuit, probe_fenced, probe_superseded}
use new_mud_codex.Provider.Recovery.{IsSound, Steps-IsSound, Permitted, poll-recovers}

abbrev settings : ProviderSettings
settings = record {
  configured = true;
  allow_test_email_backend = false;
  heartbeat_max_age_seconds = 30;
  provider_retry_seconds = 10;
  provider_probe_lease_seconds = 5;
}

abbrev permit : ProbePermit
permit = record { version = 2; token = 7 }

abbrev started : RuntimeState
started = (begin_poll settings verification_delivery 1000000 7 none).1

abbrev watched : RuntimeState
watched = (begin_poll settings security_notification 2000000 8 (some started)).1

started_lem : begin_poll settings verification_delivery 1000000 7 none ≡ (probe permit, started)
unfolding begin_poll poll_row
started_lem = refl

kept_lem : (finish_provider_probe settings permit true 3000000 watched).0 ≡ some 3
unfolding begin_poll poll_row finish_provider_probe
kept_lem = refl

probe_fenced_example :
    (true ≡ true)
    × (3000000 < 1000000 + seconds settings.provider_probe_lease_seconds)
    × SameCircuit settings started watched
probe_fenced_example =
    probe_fenced settings verification_delivery 1000000 7 3000000 3 none true started watched permit
      started_lem (move (polled security_notification 2000000 8) stay) kept_lem

abbrev permit_again : ProbePermit
permit_again = record { version = 3; token = 9 }

abbrev restarted : RuntimeState
restarted = (begin_poll settings security_notification 9000000 9 (some watched)).1

restarted_lem :
    begin_poll settings security_notification 9000000 9 (some watched)
    ≡ (probe permit_again, restarted)
unfolding begin_poll poll_row
restarted_lem = refl

probe_superseded_example :
    finish_provider_probe settings permit true 9500000 restarted ≡ (none, restarted)
probe_superseded_example =
    probe_superseded settings verification_delivery security_notification 1000000 9000000 7 9
      9500000 none true started watched restarted restarted permit permit_again started_lem
      (move (polled security_notification 2000000 8) stay) restarted_lem stay

created-IsSound_lem : IsSound (created 1000000)
created-IsSound_lem = record { columns = refl; positive = omega arith }

Steps-IsSound_example :
    IsSound (begin_poll settings security_notification 2000000 8 (some (created 1000000))).1
Steps-IsSound_example =
    Steps-IsSound settings (created 1000000) _ (move (polled security_notification 2000000 8) stay)
      created-IsSound_lem

only-IsSound : (s : RuntimeState) → some (created 1000000) ≡ some s → IsSound s
only-IsSound s e = subst IsSound (cc e) created-IsSound_lem

poll-recovers_example : Permitted settings (
    prepare_worker_poll settings verification_delivery 2000000 7 true 3000000
      (λ t. t)
      (some (created 1000000)))
poll-recovers_example =
    poll-recovers settings verification_delivery 2000000 7 3000000 (some (created 1000000)) refl
      only-IsSound (omega arith) (omega arith)
