-- ===== src/Tests/Limits.antt =====
-- Three requests in a window of two.
use new_mud_codex.Shared.{◌≡◌, [], ◌∷◌, arith}
use new_mud_codex.Shared.Text.{codes}
use new_mud_codex.Limits.{PersistentLimit, Bucket, new_bucket}
use new_mud_codex.Limits.Window.{passed, passed-min}

abbrev hourly : PersistentLimit
hourly = record {
  scope = codes "email";
  subject_digest = codes "d";
  window_seconds = 3600;
  limit = 2;
}

abbrev bucket : Bucket
bucket = new_bucket (codes "request") hourly 5

passed-min_example : passed hourly (5 ∷ 6 ∷ 7 ∷ []) bucket ≡ 2
passed-min_example =
    passed-min hourly (5 ∷ 6 ∷ 7 ∷ []) bucket (omega arith, (omega arith, (omega arith, tt)))
