-- ===== src/Router/Watching/Laws.antt =====
-- Which kinds are watched.
use baaah.Prelude.{true, false, none, List, [], ◌∷◌, ◌≡◌, refl, ◌↔◌, arith, eq_iff, All, any, ◌==◌}
use baaah.Prelude.Map
use baaah.Objects.{Gvk, gvk_eq}
use baaah.Merr.Laws.{new_errors-eq-none_iff}
use baaah.Router.State.{State, Backend}
use baaah.Router.Watching.{is_watching, watch_one, watch_all, watch_gvk}

module _ {W : Type 0} (b : Backend W) where
  -- A kind that is watched stays watched.
  watching-watch_one :
      (g h : Gvk) (s : State W)
      → is_watching h s.watching ≡ true
      → is_watching h (watch_one b g s).1.watching ≡ true
  watching-watch_one g h s k = ground (arith, eq_iff g h, Map.get-insert g h true s.watching)

  watching-watch_all :
      (gs : List Gvk) (h : Gvk) (s : State W)
      → is_watching h s.watching ≡ true
      → is_watching h (watch_all b gs s).1.watching ≡ true
  unfolding watch_all
  watching-watch_all [] h s k = k
  watching-watch_all (g ∷ gs) h s k =
      watching-watch_all gs h (watch_one b g s).1 (watching-watch_one g h s k)

  watch_one-watching :
      (g : Gvk) (s : State W)
      → ((watch_one b g s).0 ≡ none) ↔ (is_watching g (watch_one b g s).1.watching ≡ true)
  watch_one-watching g s = ground (arith, eq_iff g g, Map.get-insert g g true s.watching)

  watch_all-watching :
      (gs : List Gvk) (s : State W)
      → All (λ e. e ≡ none) (watch_all b gs s).0
      → All (λ g. is_watching g (watch_all b gs s).1.watching ≡ true) gs
  unfolding watch_all
  watch_all-watching [] s h = tt
  watch_all-watching (g ∷ gs) s h = (
    watching-watch_all gs g (watch_one b g s).1 ((watch_one-watching g s).0 h.0),
    watch_all-watching gs (watch_one b g s).1 h.1,
  )

  -- Kinds that are not in the list are not touched.
  watch_all_other :
      (gs : List Gvk) (h : Gvk) (s : State W)
      → any (λ g. g == h) gs ≡ false
      → is_watching h (watch_all b gs s).1.watching ≡ is_watching h s.watching
  unfolding watch_all
  watch_all_other [] h s n = refl
  watch_all_other (g ∷ gs) h s n = ground (
    arith,
    eq_iff g h,
    watch_all_other gs h (watch_one b g s).1,
    Map.get-insert g h true s.watching,
  )

  -- Where all are watched already, the backend is not asked again.
  watch_all_again :
      (gs : List Gvk) (s : State W)
      → All (λ g. is_watching g s.watching ≡ true) gs
      → All (λ e. e ≡ none) (watch_all b gs s).0 × ((watch_all b gs s).1 ≡ s)
  unfolding watch_all
  watch_all_again [] s h = (tt, refl)
  watch_all_again (g ∷ gs) s h = ground (arith, watch_all_again gs s)

  -- Where watching a list of kinds returns no error, every one of them is watched afterwards.
  pub watch_gvk-watching :
      (gs : List Gvk) (s : State W)
      → (watch_gvk b gs s).0 ≡ none
      → All (λ g. is_watching g (watch_gvk b gs s).1.watching ≡ true) gs
  unfolding watch_gvk
  watch_gvk-watching gs s h =
      watch_all-watching gs s ((new_errors-eq-none_iff (watch_all b gs s).0).0 h)

  pub watching-watch_gvk :
      (gs : List Gvk) (h : Gvk) (s : State W)
      → is_watching h s.watching ≡ true
      → is_watching h (watch_gvk b gs s).1.watching ≡ true
  unfolding watch_gvk
  watching-watch_gvk = watching-watch_all

  pub watch_gvk_other :
      (gs : List Gvk) (h : Gvk) (s : State W)
      → any (λ g. g == h) gs ≡ false
      → is_watching h (watch_gvk b gs s).1.watching ≡ is_watching h s.watching
  unfolding watch_gvk
  watch_gvk_other = watch_all_other

  pub watch_gvk_again :
      (gs : List Gvk) (s : State W)
      → All (λ g. is_watching g s.watching ≡ true) gs
      → watch_gvk b gs s ≡ (none, s)
  unfolding watch_gvk
  watch_gvk_again gs s h =
      let (e, same) = watch_all_again gs s h in
      ground (arith, (new_errors-eq-none_iff (watch_all b gs s).0).1 e)

  -- Where watching a list of kinds returned no error, doing it again returns nil and changes
  -- nothing: the backend is not asked a second time.
  pub watch_gvk_idempotent :
      (gs : List Gvk) (s : State W)
      → (watch_gvk b gs s).0 ≡ none
      → watch_gvk b gs (watch_gvk b gs s).1 ≡ (none, (watch_gvk b gs s).1)
  watch_gvk_idempotent gs s h = watch_gvk_again gs (watch_gvk b gs s).1 (watch_gvk-watching gs s h)

  -- The triggers are those of `register` whatever the backend answers.
  matchers-watch_all : (gs : List Gvk) (s : State W) → (watch_all b gs s).1.matchers ≡ s.matchers
  unfolding watch_all
  matchers-watch_all [] s = refl
  matchers-watch_all (g ∷ gs) s = ground (arith, matchers-watch_all gs (watch_one b g s).1)

  pub matchers-watch_gvk :
      (gs : List Gvk) (s : State W) → (watch_gvk b gs s).1.matchers ≡ s.matchers
  unfolding watch_gvk
  matchers-watch_gvk = matchers-watch_all

  heap-watch_all : (gs : List Gvk) (s : State W) → (watch_all b gs s).1.heap ≡ s.heap
  unfolding watch_all
  heap-watch_all [] s = refl
  heap-watch_all (g ∷ gs) s = ground (arith, heap-watch_all gs (watch_one b g s).1)

  pub heap-watch_gvk : (gs : List Gvk) (s : State W) → (watch_gvk b gs s).1.heap ≡ s.heap
  unfolding watch_gvk
  heap-watch_gvk = heap-watch_all
