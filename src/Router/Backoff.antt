-- ===== src/Router/Backoff.antt =====
-- checkDelay and forgetBackoff of pkg/router/handler.go: a limiter for each key, and the keys that
-- wait for their replay. The goroutine that sleeps through the delay is the entry of `pending`
-- that it will remove; `elapse` is what it does when it wakes.
pub mod Laws
use baaah.Prelude.{
  Bool, true, false, Option, none, some, Str, List, [], ◌∷◌, ◌++◌, ◌&&◌, ◌≡◌, ◌↔◌, refl, arith, ℤ,
  pos, lt_int, is_some, if◌then◌else◌, Eq, ◌==◌, eq_iff, list_eq, nat_eq,
}
use baaah.Prelude.Map
use baaah.Prelude.Map.{Map}
use baaah.Objects.{Gvk, gvk_eq}

pub record LimiterKey : Type 0 where
  pub key : Str
  pub gvk : Gvk

abbrev pub limiter_key_beq : LimiterKey → LimiterKey → Bool
limiter_key_beq a b = a.key == b.key && a.gvk == b.gvk

pub limiter_key_beq_iff : (a b : LimiterKey) → (limiter_key_beq a b ≡ true) ↔ (a ≡ b)
limiter_key_beq_iff a b = ground (arith, eq_iff a.key b.key, eq_iff a.gvk b.gvk)

instance abbrev pub limiter_key_eq : Eq LimiterKey
limiter_key_eq = record { beq = limiter_key_beq; beq_iff = limiter_key_beq_iff }

-- `L` is rate.Limiter of golang.org/x/time.
pub record Backoff (L : Type 0) : Type 0 where
  pub limiters : Map LimiterKey L
  pub waiting : Map LimiterKey (Unit {0})
  pub pending : List LimiterKey

abbrev pub is_waiting : {L : Type 0} → LimiterKey → Backoff L → Bool
is_waiting k s = is_some (Map.get k s.waiting)

-- rate.NewLimiter(rate.Limit(1.0/5), 10), and limit.Reserve().Delay() with the limiter after it; the
-- time at which a limiter is asked is part of the limiter.
module _ {L : Type 0} (new_limiter : L) (reserve : L → ℤ × L) where
  abbrev limiter_of : Option L → L
  limiter_of none = new_limiter
  limiter_of (some l) = l

  -- checkDelay: whether to go on with the key now
  unfoldable pub check_delay : LimiterKey → Backoff L → Bool × Backoff L
  check_delay k s =
      if is_waiting k s
      then (false, s)
      else (let (delay, l) = reserve (limiter_of (Map.get k s.limiters)) in
          let s1 = record s { limiters = Map.insert k l s.limiters } in
          if lt_int (pos 0) delay
          then (
            false,
            record s1 { waiting = Map.insert k tt s.waiting; pending = s.pending ++ k ∷ [] },
          )
          else (true, s1))

remove_first : LimiterKey → List LimiterKey → List LimiterKey
remove_first k [] = []
remove_first k (j ∷ ks) = let rest = remove_first k ks in if j == k then ks else j ∷ rest

module _ {L : Type 0} where
  -- The goroutine wakes: its key waits no longer, and the result is the key to trigger again.
  unfoldable pub elapse : LimiterKey → Backoff L → LimiterKey × Backoff L
  unfolding remove_first
  elapse k s =
      (k, record s { waiting = Map.delete k s.waiting; pending = remove_first k s.pending })

  unfoldable pub forget_backoff : LimiterKey → Backoff L → Backoff L
  forget_backoff k s = record s { limiters = Map.delete k s.limiters }
