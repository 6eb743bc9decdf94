-- ===== src/Limits.antt =====
-- src/new_mud/apps/identity/verification_limits.py: fixed windows kept in the database.
pub mod Window
use new_mud_codex.Shared.{
  ℕ, ◌+◌, ◌-◌, ◌/◌, max, Bool, true, false, not, ◌&&◌, ◌||◌, Option, none, some, List, [], ◌∷◌,
  ◌++◌, ltb, leb, ◌==◌, ℕ_equality, if◌then◌else◌, seconds, seconds_left,
}
use new_mud_codex.Shared.Text.{Text, Text_equality}
use new_mud_codex.Shared.Table.{first, update}

pub record PersistentLimit : Type 0 where
  pub scope : Text
  pub subject_digest : Text
  pub window_seconds : ℕ
  pub limit : ℕ

pub record RateLimitDecision : Type 0 where
  pub allowed : Bool
  pub retry_after : ℕ

-- `VerificationRateLimitBucket`, whose first four columns are its key
pub record Bucket : Type 0 where
  pub namespace : Text
  pub scope : Text
  pub subject_digest : Text
  pub window_seconds : ℕ
  pub window_started_at : ℕ
  pub request_count : ℕ
  pub version : ℕ

abbrev pub bucket_is : Text → PersistentLimit → Bucket → Bool
bucket_is namespace item b =
    b.namespace == namespace
    && b.scope == item.scope
    && b.subject_digest == item.subject_digest
    && b.window_seconds == item.window_seconds

abbrev pub new_bucket : Text → PersistentLimit → ℕ → Bucket
new_bucket namespace item now = record {
  namespace = namespace;
  scope = item.scope;
  subject_digest = item.subject_digest;
  window_seconds = item.window_seconds;
  window_started_at = now;
  request_count = 0;
  version = 1;
}

-- the window begins anew where it has ended
abbrev pub current_window : PersistentLimit → ℕ → Bucket → Bucket
current_window item now b =
    if leb (b.window_started_at + seconds item.window_seconds) now
    then record b { window_started_at = now; request_count = 0 }
    else b

abbrev pub counted : Bucket → Bucket
counted b = record b { request_count = b.request_count + 1; version = b.version + 1 }

-- one request against the row: the decision, the seconds until the window ends, and the row
unfoldable pub consume_bucket : PersistentLimit → ℕ → Bucket → (Bool × ℕ) × Bucket
consume_bucket item now b =
    let w = current_window item now b in
    (
      (
        leb (w.request_count + 1) item.limit,
        max 1 (seconds_left (w.window_started_at + seconds item.window_seconds) now),
      ),
      counted w,
    )

-- `get_or_create`
abbrev pub get_or_create : Text → PersistentLimit → ℕ → List Bucket → Bucket × List Bucket
get_or_create namespace item now rows = elim (first (bucket_is namespace item) rows) [
  | none ↦ (new_bucket namespace item now, rows ++ new_bucket namespace item now ∷ [])
  | some b ↦ (b, rows)
]

-- strings in the order of Python
unfoldable pub text_before : Text → Text → Bool
text_before [] [] = false
text_before [] (b ∷ t) = true
text_before (a ∷ s) [] = false
text_before (a ∷ s) (b ∷ t) = ltb a b || (a == b && text_before s t)

-- `key=lambda item: (item.scope, item.subject_digest, item.window_seconds)`
abbrev item_before : PersistentLimit → PersistentLimit → Bool
item_before a b =
    text_before a.scope b.scope
    || (a.scope == b.scope
        && (text_before a.subject_digest b.subject_digest
            || (a.subject_digest == b.subject_digest && ltb a.window_seconds b.window_seconds)))

abbrev insert_item : PersistentLimit → List PersistentLimit → List PersistentLimit
insert_item a [] = a ∷ []
insert_item a (b ∷ rest) = if item_before b a then b ∷ insert_item a rest else a ∷ b ∷ rest

unfoldable pub ordered : List PersistentLimit → List PersistentLimit
ordered [] = []
ordered (a ∷ rest) = insert_item a (ordered rest)

abbrev pub consume_one : Text → PersistentLimit → ℕ → List Bucket → (Bool × ℕ) × List Bucket
consume_one namespace item now rows =
    let (b, rows') = get_or_create namespace item now rows in
    let (decision, b') = consume_bucket item now b in
    (decision, update (bucket_is namespace item) (λ _. b') rows')

-- the loop, with `all` and `max` of its decisions
unfoldable pub consume_all :
    Text → List PersistentLimit → ℕ → List Bucket → RateLimitDecision × List Bucket
consume_all namespace [] now rows = (record { allowed = true; retry_after = 0 }, rows)
consume_all namespace (item ∷ rest) now rows =
    let ((ok, retry), rows') = consume_one namespace item now rows in
    let (d, rows'') = consume_all namespace rest now rows' in
    (
      record {
        allowed = ok && d.allowed;
        retry_after = if ok then d.retry_after else max retry d.retry_after;
      },
      rows'',
    )

unfoldable pub consume_persistent_limits :
    Text → List PersistentLimit → ℕ → List Bucket → RateLimitDecision × List Bucket
consume_persistent_limits namespace limits now rows =
    consume_all namespace (ordered limits) now rows
