-- ===== src/CodeRequests/Visible/Unknown.antt =====
-- verification_requests.py: a request for a password reset by someone unknown.
use new_mud_codex.Shared.{◌≡◌, refl, ◌∙◌, ap, Bool, true, false, Option, none, some, List, []}
use new_mud_codex.Shared.Text.{Text}
use new_mud_codex.Errors.{Result, pure, bind-eq-pure, pure-injective}
use new_mud_codex.Contacts.{NormalizedEmail}
use new_mud_codex.Delivery.Tables.{Purpose, password_reset}
use new_mud_codex.Registration.Tables.{Realm}
use new_mud_codex.Limits.{RateLimitDecision, Bucket, consume_persistent_limits}
use new_mud_codex.CodeRequests.Tables.{
  RequestHost, RequestSettings, RequestSupply, CodeRequest, RequestRecord, Desk, Answer,
}
use new_mud_codex.CodeRequests.Issue.{issue_reset}
use new_mud_codex.CodeRequests.{
  replay_or_conflict, decide, first_time, unless_replayed, transact, check_request, request_hash,
  rate_limits, namespace, request_password_reset_verification, except_sealed,
}
use new_mud_codex.CodeRequests.Repeat.{except_sealed-eq-pure}
use new_mud_codex.CodeRequests.Visible.{
  Seen, seen, decide_seen, after_seen, transact_seen, transact-seen,
}

abbrev pub answer_over : Realm → Seen → Answer × Desk
answer_over realm (answer, (requests, buckets)) =
    (answer, record { realm = realm; requests = requests; buckets = buckets })

module _ (h : RequestHost) (settings : RequestSettings) where
  module _ (purpose : Purpose) (key : Text) (email : NormalizedEmail) (q : CodeRequest)
      (issues : NormalizedEmail → RequestSupply → Realm → Result Realm) where
    abbrev hash : Text
    hash = request_hash h settings purpose email.comparison

    -- Where nothing is issued, the answer is what is seen.
    decide-unissued :
        (d : RateLimitDecision × List Bucket) (s : RequestSupply) (desk : Desk)
        (issued : Result Realm)
        → issued ≡ pure desk.realm
        → decide h settings purpose key hash d issued s desk
          ≡ pure
              (answer_over desk.realm (decide_seen h settings purpose key hash d s desk.requests))
    decide-unissued (d, buckets) s desk issued e = rw e (by_test d.allowed)
      where
        by_test :
            (b : Bool)
            → decide h settings purpose key hash
                (record { allowed = b; retry_after = d.retry_after }, buckets)
                (pure desk.realm)
                s
                desk
              ≡ pure (
                  answer_over desk.realm (
                    decide_seen h settings purpose key hash
                      (record { allowed = b; retry_after = d.retry_after }, buckets)
                      s
                      desk.requests))
        by_test true = refl
        by_test false = refl

    after-unissued :
        (replay : Option Answer) (s : RequestSupply) (desk : Desk) (v : Seen)
        → issues email s desk.realm ≡ pure desk.realm
        → after_seen h settings purpose key email q replay s desk.requests desk.buckets ≡ pure v
        → unless_replayed h settings replay desk
            (first_time h settings purpose key hash email q issues s desk)
          ≡ pure (answer_over desk.realm v)
    after-unissued (some answer) s desk v u e =
        ap pure (ap (answer_over desk.realm) (pure-injective e))
    after-unissued none s desk v u e =
        let (limits, el, k) =
          bind-eq-pure (rate_limits h settings email.comparison q.client_ip q.device_id) _ e in
        rw el (
          decide-unissued (consume_persistent_limits (namespace purpose) limits s.now desk.buckets)
            s desk (issues email s desk.realm) u
          ∙ ap pure (ap (answer_over desk.realm) (pure-injective k)))

    pub transact-unissued :
        (s : RequestSupply) (desk : Desk) (v : Seen)
        → issues email s desk.realm ≡ pure desk.realm
        → transact_seen h settings purpose key email q s desk.requests desk.buckets ≡ pure v
        → transact h settings purpose key email q issues s desk ≡ pure (answer_over desk.realm v)
    transact-unissued s desk v u e =
        let (replay, er, k) =
          bind-eq-pure (replay_or_conflict purpose key hash desk.requests) _ e in
        rw er (after-unissued replay s desk v u k)

  issue_reset-unknown :
      (email : NormalizedEmail) (s : RequestSupply) (realm : Realm)
      → realm.contacts ≡ []
      → issue_reset h settings email s realm ≡ pure realm
  unfolding issue_reset
  issue_reset-unknown email s realm e = rw e refl

  -- Where a request for a password reset is answered, the same request, at the same moment and
  -- over the same records and limits, is answered alike where there are no contacts, whatever
  -- users and accounts there are: the answer, the records and the limits are the same, and no code
  -- is issued.
  pub request_password_reset_unknown :
      (q : CodeRequest) (s : RequestSupply) (requests : List RequestRecord) (buckets : List Bucket)
      (realm other : Realm) (out : Answer × Desk)
      → request_password_reset_verification h settings q s
          (record { realm = realm; requests = requests; buckets = buckets })
        ≡ pure out
      → other.contacts ≡ []
      → request_password_reset_verification h settings q s
          (record { realm = other; requests = requests; buckets = buckets })
        ≡ pure (out.0, record { realm = other; requests = out.1.requests; buckets = out.1.buckets })
  unfolding request_password_reset_verification
  request_password_reset_unknown q s requests buckets realm other out e none_known =
      let (checked, ec, k) = bind-eq-pure (check_request h settings q) _ e in
      rw ec (
        ap except_sealed (
          transact-unissued password_reset checked.0 checked.1 q (issue_reset h settings) s
            (record { realm = other; requests = requests; buckets = buckets }) (seen out)
            (issue_reset-unknown checked.1 s other none_known)
            (transact-seen h settings password_reset checked.0 checked.1 q (issue_reset h settings)
              s _ out (except_sealed-eq-pure h settings _ k))))
