-- ===== src/Router/Backoff/Laws.antt =====
-- A key that is held back is never lost: it waits exactly while one replay is pending for it.
use baaah.Prelude.{
  false, List, [], ◌∷◌, ◌≡◌, refl, arith, ℤ, if◌then◌else◌, ◌==◌, eq_iff, count, count-append, ◌-◌,
  ◌<◌, not,
}
use baaah.Prelude.Map
use baaah.Router.Backoff.{
  LimiterKey, limiter_key_eq, Backoff, is_waiting, check_delay, remove_first, elapse,
  forget_backoff,
}

-- One goroutine sleeps for each key that waits, and none for another.
abbrev pub IsMatched : {L : Type 0} → Backoff L → Type 0
IsMatched s = (k : LimiterKey) → count k s.pending ≡ (if is_waiting k s then 1 else 0)

count-remove_first :
    (k j : LimiterKey) (ks : List LimiterKey)
    → count j (remove_first k ks) ≡ (if k == j then count j ks - 1 else count j ks)
unfolding remove_first
count-remove_first k j [] = ground arith
count-remove_first k j (i ∷ ks) =
    ground (arith, eq_iff i k, eq_iff i j, eq_iff k j, count-remove_first k j ks)

module _ {L : Type 0} (new_limiter : L) (reserve : L → ℤ × L) where
  pub check_delay-IsMatched :
      (k : LimiterKey) (s : Backoff L)
      → IsMatched s
      → IsMatched (check_delay new_limiter reserve k s).1
  unfolding check_delay
  check_delay-IsMatched k s v j =
      ground
        (arith, v j, eq_iff k j, count-append j s.pending (k ∷ []), Map.get-insert k j tt s.waiting)

  -- A key is refused exactly when it waits afterwards.
  pub check_delay_refused :
      (k : LimiterKey) (s : Backoff L)
      → (check_delay new_limiter reserve k s).0
        ≡ not (is_waiting k (check_delay new_limiter reserve k s).1)
  unfolding check_delay
  check_delay_refused k s = ground (arith, eq_iff k k, Map.get-insert k k tt s.waiting)

  -- Other keys are not held back.
  pub check_delay_other :
      (k j : LimiterKey) (s : Backoff L)
      → (k == j) ≡ false
      → is_waiting j (check_delay new_limiter reserve k s).1 ≡ is_waiting j s
  unfolding check_delay
  check_delay_other k j s n = ground (arith, Map.get-insert k j tt s.waiting)

module _ {L : Type 0} where
  pub elapse-IsMatched : (k : LimiterKey) (s : Backoff L) → IsMatched s → IsMatched (elapse k s).1
  unfolding elapse
  elapse-IsMatched k s v j =
      ground
        (arith, v j, eq_iff k j, count-remove_first k j s.pending, Map.get-delete k j s.waiting)

  pub forget_backoff-IsMatched :
      (k : LimiterKey) (s : Backoff L) → IsMatched s → IsMatched (forget_backoff k s)
  unfolding forget_backoff
  forget_backoff-IsMatched k s v = v

-- The events in the life of a backoff: a change is checked, a sleeping goroutine wakes, an object
-- is gone.
pub data Step {L : Type 0} (new_limiter : L) (reserve : L → ℤ × L)
    : Backoff L → Backoff L → Type 0 where
  check :
      (k : LimiterKey) (s : Backoff L)
      → Step new_limiter reserve s (check_delay new_limiter reserve k s).1
  wake :
      (k : LimiterKey) (s : Backoff L)
      → 0 < count k s.pending
      → Step new_limiter reserve s (elapse k s).1
  forget : (k : LimiterKey) (s : Backoff L) → Step new_limiter reserve s (forget_backoff k s)

pub data Reach {L : Type 0} (new_limiter : L) (reserve : L → ℤ × L) (s : Backoff L)
    : Backoff L → Type 0 where
  here : Reach new_limiter reserve s s
  next :
      {t u : Backoff L}
      → Reach new_limiter reserve s t
      → Step new_limiter reserve t u
      → Reach new_limiter reserve s u

abbrev pub new_backoff : {L : Type 0} → Backoff L
new_backoff = record { limiters = []; waiting = []; pending = [] }

module _ {L : Type 0} {new_limiter : L} {reserve : L → ℤ × L} where
  Step-IsMatched : {s t : Backoff L} → Step new_limiter reserve s t → IsMatched s → IsMatched t
  Step-IsMatched (check k s) v = check_delay-IsMatched new_limiter reserve k s v
  Step-IsMatched (wake k s p) v = elapse-IsMatched k s v
  Step-IsMatched (forget k s) v = forget_backoff-IsMatched k s v

  Reach-IsMatched : {s t : Backoff L} → Reach new_limiter reserve s t → IsMatched s → IsMatched t
  Reach-IsMatched here v = v
  Reach-IsMatched (next r st) v = Step-IsMatched st (Reach-IsMatched r v)

new_backoff-IsMatched : (L : Type 0) → IsMatched (new_backoff {L = L})
unfolding Map.get
new_backoff-IsMatched L k = refl

-- In every state that checks, wake-ups and forgotten keys lead to from a new backoff, exactly one
-- goroutine sleeps for a key that waits, and none for any other key.
pub Reach-pending :
    {L : Type 0} {new_limiter : L} {reserve : L → ℤ × L} {s : Backoff L}
    → Reach new_limiter reserve new_backoff s
    → (k : LimiterKey) → count k s.pending ≡ (if is_waiting k s then 1 else 0)
Reach-pending {L} r = Reach-IsMatched r (new_backoff-IsMatched L)

-- When it wakes, the key waits no longer, and no other key is let go.
pub waiting-elapse :
    {L : Type 0} (k j : LimiterKey) (s : Backoff L)
    → is_waiting j (elapse k s).1 ≡ (if k == j then false else is_waiting j s)
unfolding elapse
waiting-elapse k j s = ground (arith, Map.get-delete k j s.waiting)
