-- ===== src/Router/Response/Delay.antt =====
-- Which delay a handler's calls of RetryAfter leave.
use baaah.Prelude.{ℕ, ◌<◌, false, List, [], ◌∷◌, ◌≡◌, arith, pos, All}
use Prim.Native.Nat.{min}
use baaah.Router.Response.{Response, retry_after}

unfoldable pub retry_all : List ℕ → Response → Response
retry_all [] r = r
retry_all (d ∷ ds) r = retry_all ds (retry_after (pos d) r)

abbrev pub least : ℕ → List ℕ → ℕ
least d [] = d
least d (e ∷ ds) = least (min d e) ds

retry_all_from :
    (d : ℕ) (ds : List ℕ) (r : Response)
    → r.is_wrapper ≡ false
    → r.delay ≡ pos d
    → 0 < d
    → All (λ e. 0 < e) ds
    → (retry_all ds r).delay ≡ pos (least d ds)
unfolding retry_all retry_after
retry_all_from d [] r w e p ps = e
retry_all_from d (x ∷ ds) r w e p ps =
    retry_all_from (min d x) ds (retry_after (pos x) r) (ground arith) (ground arith) (omega arith)
      ps.1

-- Positive delays asked of a new response leave the least of them.
pub retry_all-least :
    (d : ℕ) (ds : List ℕ) (r : Response)
    → r.is_wrapper ≡ false
    → r.delay ≡ pos 0
    → 0 < d
    → All (λ e. 0 < e) ds
    → (retry_all (d ∷ ds) r).delay ≡ pos (least d ds)
unfolding retry_all retry_after
retry_all-least d ds r w e p ps =
    retry_all_from d ds (retry_after (pos d) r) (ground arith) (ground arith) p ps
