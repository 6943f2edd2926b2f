-- ===== src/Apply/Process/Runs.antt =====
-- What the loops of `process` do to a cluster that stores objects by their key.
use baaah.Prelude.{
  Bool, true, false, Option, none, List, [], ◌∷◌, ◌++◌, if◌then◌else◌, ◌==◌, eq_iff, list_eq,
  nat_eq, ◌≡◌, refl, arith, All, ◌∙◌, any,
}
use baaah.Objects.{Gvk}
use baaah.Errors.{Error}
use baaah.Apply.ObjectSet.{ObjectKey, object_key_eq}
use baaah.Apply.Client.{Client}
use baaah.Apply.Namespaces.Laws.{IsKeyed}
use baaah.Apply.Process.{
  Options, Patcher, Progress, create_one, delete_one, update_one, each, run_all,
}
use baaah.Apply.Process.Calls.{
  IsStore, create_one-Sets, delete_one-Sets, Keeps, update_one-Keeps, create_one-updates,
}

abbrev pub NoErrors : List (Option Error) → Type 0
NoErrors es = All (λ e. e ≡ none) es

abbrev pub member : ObjectKey → List ObjectKey → Bool
member k ks = any (λ j. j == k) ks

-- What is there in the end, by the keys to create and the keys to delete.
abbrev pub there_after :
    {W : Type 0}
    → Options
    → (ObjectKey → W → Bool)
    → List ObjectKey
    → List ObjectKey
    → W
    → ObjectKey
    → Bool
there_after a has to_create to_delete w k =
    if member k (if a.no_prune then [] else to_delete)
    then false
    else if member k to_create
    then true
    else has k w

module _ {W : Type 0} (c : Client W) (p : Patcher W) (a : Options) (g : Gvk)
    (has : ObjectKey → W → Bool) (st : IsStore c p g has) (no_ensure : a.ensure ≡ false) where
  -- a loop of creations, or of deletions, over `ks`
  record SetsAll (b : Bool) (ks : List ObjectKey) (s t : Progress W) : Type 0 where
    objs : t.objs ≡ s.objs
    replaces : t.to_replace ≡ s.to_replace
    sets : (j : ObjectKey) → has j t.outside ≡ (if member j ks then b else has j s.outside)

  each-delete :
      (ks : List ObjectKey) (s : Progress W)
      → NoErrors (each c p a g (delete_one c p a g) ks s).0
      → SetsAll false ks s (each c p a g (delete_one c p a g) ks s).1
  unfolding each
  each-delete [] s h = record { objs = refl; replaces = refl; sets = λ j. refl }
  each-delete (k ∷ ks) s h =
      let one = delete_one-Sets c p a g has st no_ensure k s h.0 in
      let rest = each-delete ks (delete_one c p a g k s).1 h.1 in
      record {
        objs = rest.objs ∙ one.objs;
        replaces = rest.replaces ∙ one.replaces;
        sets = λ j. ground (arith, one.sets j, rest.sets j);
      }

  each-create :
      (ks : List ObjectKey) (s : Progress W)
      → IsKeyed s.objs
      → NoErrors (each c p a g (create_one c p a g) ks s).0
      → SetsAll true ks s (each c p a g (create_one c p a g) ks s).1
  unfolding each
  each-create [] s v h = record { objs = refl; replaces = refl; sets = λ j. refl }
  each-create (k ∷ ks) s v h =
      let one = create_one-Sets c p a g has st no_ensure k s v h.0 in
      let rest = each-create ks (create_one c p a g k s).1 (rw (one.objs) v) h.1 in
      record {
        objs = rest.objs ∙ one.objs;
        replaces = rest.replaces ∙ one.replaces;
        sets = λ j. ground (arith, one.sets j, rest.sets j);
      }

  each-update :
      (P : ObjectKey → Type 0) (ks : List ObjectKey) (s : Progress W)
      → All P ks
      → Keeps c p a g has st no_ensure P s (each c p a g (update_one c p a g) ks s).1
  unfolding each
  each-update P [] s x = record { objs = refl; replaces = λ v. v; keeps = λ j. refl }
  each-update P (k ∷ ks) s x =
      let one = update_one-Keeps c p a g has st no_ensure P k s x.0 in
      let rest = each-update P ks (update_one c p a g k s).1 x.1 in
      record {
        objs = rest.objs ∙ one.objs;
        replaces = λ v. rest.replaces (one.replaces v);
        keeps = λ j. rest.keeps j ∙ one.keeps j;
      }

  each-updates :
      (P : ObjectKey → Type 0) (ks : List ObjectKey) (s : Progress W)
      → All P ks
      → All P s.to_update
      → All P (each c p a g (create_one c p a g) ks s).1.to_update
  unfolding each
  each-updates P [] s x v = v
  each-updates P (k ∷ ks) s x v =
      each-updates P ks (create_one c p a g k s).1 x.1
        (create_one-updates c p a g has st no_ensure P k s x.0 v)

  NoErrors-append : (es fs : List (Option Error)) → NoErrors (es ++ fs) → NoErrors es × NoErrors fs
  NoErrors-append [] fs h = (tt, h)
  NoErrors-append (e ∷ es) fs h = let (hs, gs) = NoErrors-append es fs h.1 in ((h.0, hs), gs)

  member-All :
      (P : ObjectKey → Type 0) (ks : List ObjectKey) (k : ObjectKey)
      → All P ks
      → member k ks ≡ true
      → P k
  member-All P [] k v h = ground arith
  member-All P (j ∷ ks) k v h = ground (arith, eq_iff j k, member-All P ks k)

  pub has-run_all :
      (to_create to_delete : List ObjectKey) (s : Progress W) (k : ObjectKey)
      → IsKeyed s.objs
      → s.to_replace ≡ []
      → All (λ j. there_after a has to_create to_delete s.outside j ≡ true) to_create
      → All (λ j. there_after a has to_create to_delete s.outside j ≡ true) s.to_update
      → NoErrors (run_all c p a g to_create to_delete s).0
      → has k (run_all c p a g to_create to_delete s).1.outside
        ≡ there_after a has to_create to_delete s.outside k
  has-run_all to_create to_delete s k v r hc hu h =
      let P = λ (j : ObjectKey). there_after a has to_create to_delete s.outside j ≡ true in
      let s1 = (each c p a g (create_one c p a g) to_create s).1 in
      let s2 = (each c p a g (update_one c p a g) s1.to_update s1).1 in
      let dels = if a.no_prune then [] else to_delete in
      let s3 = (each c p a g (delete_one c p a g) dels s2).1 in
      let s4 = (each c p a g (delete_one c p a g) s3.to_replace s3).1 in
      let (h1, t1) = NoErrors-append (each c p a g (create_one c p a g) to_create s).0 _ h in
      let (h2, t2) = NoErrors-append (each c p a g (update_one c p a g) s1.to_update s1).0 _ t1 in
      let (h3, t3) = NoErrors-append (each c p a g (delete_one c p a g) dels s2).0 _ t2 in
      let (h4, h5) = NoErrors-append (each c p a g (delete_one c p a g) s3.to_replace s3).0 _ t3 in
      let e1 = each-create to_create s v h1 in
      let e2 = each-update P s1.to_update s1 (each-updates P to_create s hc hu) in
      let e3 = each-delete dels s2 h3 in
      let e4 = each-delete s3.to_replace s3 h4 in
      let e5 = each-create s3.to_replace s4 (rw (e4.objs, e3.objs, e2.objs, e1.objs) v) h5 in
      let all_replaced : All P s3.to_replace =
        rw (e3.replaces) (e2.replaces (rw (e1.replaces, r) tt)) in
      ground (
        arith,
        e1.sets k,
        e2.keeps k,
        e3.sets k,
        e4.sets k,
        e5.sets k,
        member-All P s3.to_replace k all_replaced,
      )
