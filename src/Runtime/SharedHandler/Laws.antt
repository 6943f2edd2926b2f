-- ===== src/Runtime/SharedHandler/Laws.antt =====
-- Registrations are told apart by their ids, and one that ends takes only itself away.
use baaah.Prelude.{
  ℕ, ◌+◌, ◌≤◌, ◌<◌, Str, List, [], ◌∷◌, ◌++◌, ◌==◌, nat_eq, ◌≡◌, ◌≢◌, refl, arith, All, filter,
  filter-append, not, map, ◌∙◌,
}
use mathlib.Core.List.{append-nil}
use baaah.Runtime.SharedHandler.{
  OnChange, HandlerEntry, SharedHandler, register, remove_id, unregister,
}

module _ {O W : Type 0} where
  abbrev pub ids : List (HandlerEntry O W) → List ℕ
  ids es = map (λ e. e.id) es

  abbrev pub Fresh : ℕ → List (HandlerEntry O W) → Type 0
  Fresh n = All (λ e. e.id ≢ n)

  abbrev pub DistinctIds : List (HandlerEntry O W) → Type 0
  DistinctIds [] = Unit
  DistinctIds (e ∷ es) = Fresh e.id es × DistinctIds es

  -- The ids are distinct, and the counter has passed all of them.
  pub record IsValid (s : SharedHandler O W) : Type 0 where
    pub distinct : DistinctIds s.handlers
    pub counted : All (λ e. e.id ≤ s.id_counter) s.handlers

  Fresh-append :
      (n : ℕ) (e : HandlerEntry O W) (es : List (HandlerEntry O W))
      → Fresh n es
      → e.id ≢ n
      → Fresh n (es ++ e ∷ [])
  Fresh-append n e [] f h = (h, tt)
  Fresh-append n e (d ∷ es) f h = (f.0, Fresh-append n e es f.1 h)

  DistinctIds-append :
      (e : HandlerEntry O W) (es : List (HandlerEntry O W))
      → DistinctIds es
      → All (λ d. d.id < e.id) es
      → DistinctIds (es ++ e ∷ [])
  DistinctIds-append e [] d l = (tt, tt)
  DistinctIds-append e (x ∷ es) d l =
      (Fresh-append x.id e es d.0 (omega arith), DistinctIds-append e es d.1 l.1)

  counted-append :
      (n : ℕ) (e : HandlerEntry O W) (es : List (HandlerEntry O W))
      → All (λ d. d.id ≤ n) es
      → e.id ≡ n + 1
      → All (λ d. d.id ≤ n + 1) (es ++ e ∷ []) × All (λ d. d.id < e.id) es
  counted-append n e [] c h = ((omega arith, tt), tt)
  counted-append n e (x ∷ es) c h =
      let (a, b) = counted-append n e es c.1 h in ((omega arith, a), (omega arith, b))

  pub register-IsValid :
      (name : Str) (h : OnChange O W) (s : SharedHandler O W)
      → IsValid s
      → IsValid (register name h s).1
  unfolding register
  register-IsValid name h s v =
      let e : HandlerEntry O W = record { id = s.id_counter + 1; name = name; handler = h } in
      let (c, l) = counted-append s.id_counter e s.handlers v.counted refl in
      record { distinct = DistinctIds-append e s.handlers v.distinct l; counted = c }

  -- the entries without those of one id
  abbrev pub without : ℕ → List (HandlerEntry O W) → List (HandlerEntry O W)
  without id es = filter (λ e. not (e.id == id)) es

  without_of_Fresh : (n : ℕ) (es : List (HandlerEntry O W)) → Fresh n es → without n es ≡ es
  without_of_Fresh n [] f = refl
  without_of_Fresh n (e ∷ es) f = ground (arith, without_of_Fresh n es)

  remove_id-without :
      (n : ℕ) (es : List (HandlerEntry O W)) → DistinctIds es → remove_id n es ≡ without n es
  unfolding remove_id
  remove_id-without n [] d = refl
  remove_id-without n (e ∷ es) d = ground (arith, remove_id-without n es, without_of_Fresh n es)

  without-append :
      (n : ℕ) (e : HandlerEntry O W) (es : List (HandlerEntry O W))
      → e.id ≡ n
      → Fresh n es
      → without n (es ++ e ∷ []) ≡ es
  without-append n e es h f =
      filter-append (λ (d : HandlerEntry O W). not (d.id == n)) es (e ∷ [])
      ∙ ground (arith, without_of_Fresh n es, append-nil es)

  counted-Fresh : (n : ℕ) (es : List (HandlerEntry O W)) → All (λ e. e.id ≤ n) es → Fresh (n + 1) es
  counted-Fresh n [] c = tt
  counted-Fresh n (e ∷ es) c = (omega arith, counted-Fresh n es c.1)

  -- The end of a registration's context takes its entry away, and no other, wherever it stands.
  pub unregister-without :
      (id : ℕ) (s : SharedHandler O W)
      → IsValid s
      → (unregister id s).handlers ≡ without id s.handlers
  unfolding unregister
  unregister-without id s v = remove_id-without id s.handlers v.distinct

  -- The end of a registration's context leaves the handlers as they were before it was registered,
  -- in a valid state: distinct ids that the counter has passed.
  pub unregister-register :
      (name : Str) (h : OnChange O W) (s : SharedHandler O W)
      → IsValid s
      → (unregister (register name h s).0 (register name h s).1).handlers ≡ s.handlers
  unregister-register name h s v =
      unregister-without (register name h s).0 (register name h s).1 (register-IsValid name h s v)
      ∙ unfold register in
        without-append (s.id_counter + 1) _ s.handlers refl
          (counted-Fresh s.id_counter s.handlers v.counted)
