-- ===== src/CodeRequests/Visible.antt =====
-- verification_requests.py: what the answer to a request depends on.
pub mod Unknown
use new_mud_codex.Shared.{
  ℕ, ◌≡◌, refl, sym, ◌∙◌, ap, Bool, true, false, Option, none, some, List, [], ◌∷◌, ◌++◌,
  Bool-cases, inl, inr, if◌then◌else◌,
}
use new_mud_codex.Shared.Text.{Text}
use new_mud_codex.Errors.{Result, pure, ◌>>=◌, bind-eq-pure, pure-injective}
use new_mud_codex.Contacts.{NormalizedEmail}
use new_mud_codex.Delivery.Tables.{Purpose, registration, password_reset}
use new_mud_codex.Registration.Tables.{Realm}
use new_mud_codex.Limits.{RateLimitDecision, Bucket, PersistentLimit, consume_persistent_limits}
use new_mud_codex.CodeRequests.Tables.{
  RequestHost, RequestSettings, RequestSupply, CodeRequest, RequestRecord, Desk, Answer, accepted,
  limited,
}
use new_mud_codex.CodeRequests.Issue.{issue_reset}
use new_mud_codex.CodeRequests.{
  replay_or_conflict, new_record, decide, first_time, unless_replayed, transact, check_request,
  request_hash, rate_limits, namespace, request_password_reset_verification, except_sealed,
}
use new_mud_codex.CodeRequests.Repeat.{except_sealed-eq-pure}

-- What the caller can observe, now and later: the answer, the records and the limits.
abbrev pub Seen : Type 0
Seen = Answer × (List RequestRecord × List Bucket)

abbrev pub seen : Answer × Desk → Seen
seen (answer, desk) = (answer, (desk.requests, desk.buckets))

module _ (h : RequestHost) (settings : RequestSettings) where
  -- a request that knows nothing of contacts and accounts
  abbrev pub decide_seen :
      Purpose
      → Text
      → Text
      → RateLimitDecision × List Bucket
      → RequestSupply
      → List RequestRecord
      → Seen
  decide_seen purpose key hash (d, buckets) s requests =
      let answer = if d.allowed then accepted else limited d.retry_after in
      (answer, (requests ++ new_record h settings purpose key hash answer s.now ∷ [], buckets))

  module _ (purpose : Purpose) (key : Text) (email : NormalizedEmail) (q : CodeRequest) where
    abbrev hash : Text
    hash = request_hash h settings purpose email.comparison

    abbrev pub after_seen :
        Option Answer → RequestSupply → List RequestRecord → List Bucket → Result Seen
    after_seen (some answer) s requests buckets = pure (answer, (requests, buckets))
    after_seen none s requests buckets = do
      limits ← rate_limits h settings email.comparison q.client_ip q.device_id
      pure (
          decide_seen purpose key hash
            (consume_persistent_limits (namespace purpose) limits s.now buckets) s requests)

    abbrev pub transact_seen : RequestSupply → List RequestRecord → List Bucket → Result Seen
    transact_seen s requests buckets = do
      replay ← replay_or_conflict purpose key hash requests
      after_seen replay s requests buckets

    module _ (issues : NormalizedEmail → RequestSupply → Realm → Result Realm) where
      decide-seen :
          (d : RateLimitDecision × List Bucket) (issued : Result Realm) (s : RequestSupply)
          (desk : Desk) (out : Answer × Desk)
          → decide h settings purpose key hash d issued s desk ≡ pure out
          → decide_seen purpose key hash d s desk.requests ≡ seen out
      decide-seen (d, buckets) issued s desk out e = elim (Bool-cases d.allowed) [
        | inl t ↦
            (let (realm, _, k) = bind-eq-pure issued _ (rw t at e) in
              allowed_seen t ∙ ap seen (pure-injective k))
        | inr f ↦ allowed_seen f ∙ ap seen (pure-injective (rw f at e))
      ]
        where
          allowed_seen :
              {b : Bool}
              → d.allowed ≡ b
              → decide_seen purpose key hash (d, buckets) s desk.requests
                ≡ decide_seen purpose key hash
                    (record { allowed = b; retry_after = d.retry_after }, buckets)
                    s
                    desk.requests
          allowed_seen e =
              ap
                (λ b.
                  decide_seen purpose key hash
                    (record { allowed = b; retry_after = d.retry_after }, buckets) s desk.requests)
                e

      after-seen :
          (replay : Option Answer) (s : RequestSupply) (desk : Desk) (out : Answer × Desk)
          → unless_replayed h settings replay desk
              (first_time h settings purpose key hash email q issues s desk)
            ≡ pure out
          → after_seen replay s desk.requests desk.buckets ≡ pure (seen out)
      after-seen (some answer) s desk out e = ap pure (ap seen (pure-injective e))
      after-seen none s desk out e =
          let (limits, el, k) =
            bind-eq-pure (rate_limits h settings email.comparison q.client_ip q.device_id) _ e in
          rw el (
            ap pure (
              decide-seen (consume_persistent_limits (namespace purpose) limits s.now desk.buckets)
                (issues email s desk.realm) s desk out k))

      pub transact-seen :
          (s : RequestSupply) (desk : Desk) (out : Answer × Desk)
          → transact h settings purpose key email q issues s desk ≡ pure out
          → transact_seen s desk.requests desk.buckets ≡ pure (seen out)
      transact-seen s desk out e =
          let (replay, er, k) =
            bind-eq-pure (replay_or_conflict purpose key hash desk.requests) _ e in
          rw er (after-seen replay s desk out k)

  -- Two requests for a password reset that are answered, made alike at the same moment over the
  -- same records and limits, get the same answer and leave the same records and limits, whatever
  -- users, accounts and contacts there are.
  pub request_password_reset_alike :
      (q : CodeRequest) (s : RequestSupply) (requests : List RequestRecord) (buckets : List Bucket)
      (realm other : Realm) (out out' : Answer × Desk)
      → request_password_reset_verification h settings q s
          (record { realm = realm; requests = requests; buckets = buckets })
        ≡ pure out
      → request_password_reset_verification h settings q s
          (record { realm = other; requests = requests; buckets = buckets })
        ≡ pure out'
      → (out.0 ≡ out'.0) × (out.1.requests ≡ out'.1.requests) × (out.1.buckets ≡ out'.1.buckets)
  unfolding request_password_reset_verification
  request_password_reset_alike q s requests buckets realm other out out' e e' =
      let (checked, ec, k) = bind-eq-pure (check_request h settings q) _ e in
      let (checked', ec', k') = bind-eq-pure (check_request h settings q) _ e' in
      let same : checked' ≡ checked = pure-injective (sym ec' ∙ ec) in
      let one =
        transact-seen password_reset checked.0 checked.1 q (issue_reset h settings) s _ out
          (except_sealed-eq-pure h settings _ k) in
      let two =
        transact-seen password_reset checked'.0 checked'.1 q (issue_reset h settings) s _ out'
          (except_sealed-eq-pure h settings _ k') in
      let alike : pure (seen out) ≡ pure (seen out') =
        sym one
        ∙ ap (λ c. transact_seen password_reset c.0 c.1 q s requests buckets) (sym same)
        ∙ two in
      let p = pure-injective alike in (ap (λ x. x.0) p, ap (λ x. (x.1).0) p, ap (λ x. (x.1).1) p)
