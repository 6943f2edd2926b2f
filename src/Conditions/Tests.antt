-- ===== src/Conditions/Tests.antt =====
-- Two handlers, of which the first fails for good.
use baaah.Prelude.{
  ℕ, Bool, true, false, Option, none, some, Str, str, List, [], ◌∷◌, ◌≡◌, refl, sym, arith,
  if◌then◌else◌, ◌==◌, eq_refl, list_eq, nat_eq,
}
use mathlib.Core.Path.{subst}
use baaah.Errors.{plain}
use baaah.Conditions.{Failure, terminal, cause, Condition, Pass, controller, Library, Handler}
use baaah.Conditions.Laws.{status_of, Finds, IsPolite, run_handlers, HasFailed, run_handlers-fails}

abbrev find_in : List Condition → Str → Option Condition
find_in [] k = none
find_in (c ∷ cs) k = if c.kind == k then some c else find_in cs k

abbrev library : Library
library = record {
  find_status_condition = find_in;
  set_status_condition = λ c cs. c ∷ cs;
  error_text = λ f. str "broken";
  type_name = λ f. [];
}

library-Finds : Finds library
library-Finds c cs h =
    go (c.kind == controller) (subst (λ k. (k == controller) ≡ true) (sym h) (eq_refl controller))
  where
    go :
        (b : Bool)
        → b ≡ true
        → status_of (if b then some c else find_in cs controller) ≡ some c.status
    go true e = refl
    go false e = ground (arith, e)

abbrev fails : Handler ℕ
fails s = (some (terminal (cause (plain (str "broken")))), s)

abbrev passes : Handler ℕ
passes s = (none, s)

abbrev start : Pass ℕ
start = record {
  conditions = [];
  generation = 1;
  existing = none;
  errored = false;
  no_prune = false;
  outside = 0;
}

fails-IsPolite : IsPolite library library-Finds fails
fails-IsPolite = record { status = λ s. refl; errored = λ s. refl; no_prune = λ s h. h }

passes-IsPolite : IsPolite library library-Finds passes
passes-IsPolite = record { status = λ s. refl; errored = λ s. refl; no_prune = λ s h. h }

run_handlers-fails_example :
    HasFailed library library-Finds (run_handlers library library-Finds (fails ∷ passes ∷ []) start)
unfolding baaah.Conditions.as_terminal baaah.Conditions.error_middleware
run_handlers-fails_example =
    run_handlers-fails library library-Finds (fails ∷ passes ∷ []) start
      (fails-IsPolite, (passes-IsPolite, tt)) refl refl
