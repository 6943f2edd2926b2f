-- ===== src/Runtime/Transaction.antt =====
-- pkg/runtime/transaction.go: registrations that are held back until they are committed. A
-- registration is what it does to the state `W`.
use baaah.Prelude.{Option, none, some, List, [], ◌∷◌, ◌++◌, ◌≡◌, refl, sym, ◌∙◌, ap}

-- the field `todo` of a HandlerTransaction; nil is a context without one
abbrev pub Transaction : Type 0 → Type 0
Transaction W = Option (List (W → W))

module _ {W : Type 0} where
  run_all : List (W → W) → W → W
  run_all [] w = w
  run_all (f ∷ fs) w = run_all fs (f w)

  unfoldable pub do_later : (W → W) → Transaction W × W → Transaction W × W
  do_later f (none, w) = (none, f w)
  do_later f (some todo, w) = (some (todo ++ f ∷ []), w)

  unfoldable pub commit : Transaction W × W → Transaction W × W
  unfolding run_all
  commit (none, w) = (none, w)
  commit (some todo, w) = (some [], run_all todo w)

  unfoldable pub rollback : Transaction W × W → Transaction W × W
  rollback (none, w) = (none, w)
  rollback (some todo, w) = (some [], w)

  pub do_all : List (W → W) → Transaction W × W → Transaction W × W
  unfolding do_later
  do_all [] t = t
  do_all (f ∷ fs) t = do_all fs (do_later f t)

  run_all-append : (fs gs : List (W → W)) (w : W) → run_all (fs ++ gs) w ≡ run_all gs (run_all fs w)
  unfolding run_all
  run_all-append [] gs w = refl
  run_all-append (f ∷ fs) gs w = run_all-append fs gs (f w)

  commit-do_all_from :
      (fs todo : List (W → W)) (w : W)
      → commit (do_all fs (some todo, w)) ≡ (some [], run_all fs (run_all todo w))
  unfolding commit do_all run_all
  commit-do_all_from [] todo w = refl
  commit-do_all_from (f ∷ fs) todo w =
      commit-do_all_from fs (todo ++ f ∷ []) w
      ∙ ap (λ v. (some [], run_all fs v)) (run_all-append todo (f ∷ []) w)

  rollback-do_all_from :
      (fs todo : List (W → W)) (w : W) → rollback (do_all fs (some todo, w)) ≡ (some [], w)
  unfolding rollback do_all
  rollback-do_all_from [] todo w = refl
  rollback-do_all_from (f ∷ fs) todo w = rollback-do_all_from fs (todo ++ f ∷ []) w

  do_all-none : (fs : List (W → W)) (w : W) → do_all fs (none, w) ≡ (none, run_all fs w)
  unfolding do_all run_all
  do_all-none [] w = refl
  do_all-none (f ∷ fs) w = do_all-none fs (f w)

  -- A committed transaction has done what the registrations would have done at once without a
  -- transaction, in the same order, and one that is rolled back has done nothing; either is empty
  -- afterwards.
  pub do_all-commit :
      (fs : List (W → W)) (w : W)
      → (commit (do_all fs (some [], w)) ≡ (some [], (do_all fs (none, w)).1))
        × (rollback (do_all fs (some [], w)) ≡ (some [], w))
  unfolding run_all
  do_all-commit fs w = (
    commit-do_all_from fs [] w
        ∙ ap (λ (p : Transaction W × W). (some [], p.1)) (sym (do_all-none fs w)),
    rollback-do_all_from fs [] w,
  )
