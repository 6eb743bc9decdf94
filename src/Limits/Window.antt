-- ===== src/Limits/Window.antt =====
-- verification_limits.py: requests against one bucket within its window.
use new_mud_codex.Shared.{
  ℕ, ◌+◌, ◌-◌, ◌<◌, ◌≡◌, false, List, [], ◌∷◌, leb, if◌then◌else◌, seconds, arith, All, suc, min,
  length,
}
use new_mud_codex.Limits.{PersistentLimit, Bucket, consume_bucket, counted}

-- The number of requests that pass, when the bucket is asked at these moments in turn.
unfoldable pub passed : PersistentLimit → List ℕ → Bucket → ℕ
passed item [] b = 0
passed item (now ∷ later) b =
    let ((ok, _), b') = consume_bucket item now b in
    let n = passed item later b' in if ok then suc n else n

-- As long as its window lasts, a bucket lets exactly the first requests pass, as many as its limit
-- leaves after those it has counted before.
pub passed-min :
    (item : PersistentLimit) (moments : List ℕ) (b : Bucket)
    → All (λ t. t < b.window_started_at + seconds item.window_seconds) moments
    → passed item moments b ≡ min (length moments) (item.limit - b.request_count)
unfolding passed consume_bucket
passed-min item [] b h = ground arith
passed-min item (now ∷ later) b (h, hs) =
    let same : leb (b.window_started_at + seconds item.window_seconds) now ≡ false = ground arith in
    let rest = passed-min item later (counted b) hs in rw same (ground (arith, rest))
