-- ===== src/Watcher/Tests.antt =====
-- A watch in a world that counts its time down.
use baaah.Prelude.{
  ℕ, zero, suc, ◌-◌, ◌≤◌, ◌<◌, Bool, true, false, Option, none, some, Str, str, List, [], ◌∷◌, ◌≡◌,
  refl, arith, is_some, nat_eq, ◌⊎◌, inl, inr,
}
use baaah.Objects.{Object, blank_object}
use baaah.Errors.{Error, plain, prefixed, Result, ok}
use baaah.Watcher.{
  added, deleted, Input, event, closed, canceled, Pause, interrupted, elapsed, World, by_selector,
}
use baaah.Watcher.Session.{Shows}
use baaah.Watcher.Laws.{ResultAccepted, by_selector-accepted}
use baaah.Watcher.Deadline.{is_canceled, is_interrupted, HasDeadline, by_selector-total}

abbrev pod : Object
pod =
    blank_object (record { group = []; version = str "v1"; kind = str "Pod" }) (str "ns") (str "a")

-- done once the object is gone
abbrev gone : Object → ℕ → (Bool × Option Error) × ℕ
gone o s = ((o.deleting, none), s)

-- The state counts down: every session and every event but the last takes one of it, the deletion is
-- the last event before the end.
abbrev next : ℕ → Input × ℕ
next zero = (canceled, zero)
next (suc zero) = (event (deleted pod), zero)
next (suc (suc zero)) = (closed, suc zero)
next (suc (suc (suc n))) = (event (added pod), suc (suc n))

abbrev pause : ℕ → Pause × ℕ
pause zero = (interrupted, zero)
pause (suc zero) = (elapsed, zero)
pause (suc (suc n)) = (elapsed, suc n)

abbrev world : World ℕ
world = record {
  watch = λ rev s. (none, s);
  next = next;
  pause = pause;
  stop = λ s. suc s - 1;
  ctx_err = λ s. plain (str "deadline");
}

abbrev all_pods : ℕ → Result (List Object × Str) × ℕ
all_pods s = (ok (pod ∷ [], str "7"), s)

world-HasDeadline : HasDeadline gone world (λ s. s)
world-HasDeadline = record {
  cb_left = λ o s. omega arith;
  watch_left = λ rev s. omega arith;
  stop_left = λ s. omega arith;
  next_left = λ s h. below s h;
  canceled_left = λ s. at_most s;
  pause_left = λ s h. shorter s h;
}
  where
    below : (s : ℕ) → is_canceled (next s).0 ≡ false → (next s).1 < s
    below zero h = ground (arith, h)
    below (suc zero) h = omega arith
    below (suc (suc zero)) h = omega arith
    below (suc (suc (suc n))) h = omega arith

    at_most : (s : ℕ) → (next s).1 ≤ s
    at_most zero = omega arith
    at_most (suc zero) = omega arith
    at_most (suc (suc zero)) = omega arith
    at_most (suc (suc (suc n))) = omega arith

    shorter : (s : ℕ) → is_interrupted (pause s).0 ≡ false → (pause s).1 < s
    shorter zero h = ground (arith, h)
    shorter (suc zero) h = omega arith
    shorter (suc (suc n)) h = omega arith

by_selector-total_example : is_some (by_selector gone world 5 none all_pods 4) ≡ true
by_selector-total_example =
    by_selector-total gone world (λ s. s) world-HasDeadline 5 none all_pods 4 (omega arith)
      (omega arith)

-- One session is closed by the server, and the next one meets the end of the context.
by_selector_interrupted :
    by_selector gone world 5 none all_pods 4
    ≡ some (some pod, some (prefixed (str "terminating watch: ") (plain (str "deadline"))), 0)
unfolding by_selector
by_selector_interrupted = refl

-- The callback is shown the deletion.
by_selector_ends :
    by_selector gone world 5 none all_pods 1 ≡ some (some (record pod { deleting = true }), none, 0)
unfolding by_selector
by_selector_ends = refl

-- of the object that is watched, what it is shown of it
abbrev IsShown : Object → Type 0
IsShown o = (o ≡ pod) ⊎ (o ≡ record pod { deleting = true })

next-Shows : (s : ℕ) → Shows IsShown (next s).0
next-Shows zero = tt
next-Shows (suc zero) = inr refl
next-Shows (suc (suc zero)) = tt
next-Shows (suc (suc (suc n))) = inl refl

by_selector-accepted_example :
    ResultAccepted gone world IsShown (by_selector gone world 5 none all_pods 1)
by_selector-accepted_example =
    by_selector-accepted gone world IsShown next-Shows 5 none all_pods 1 (inl refl, tt)
