-- ===== src/Apply/Desired/Laws.antt =====
-- An apply that prunes nothing.
use baaah.Prelude.{
  true, Option, none, some, Str, List, [], ◌∷◌, list_eq, nat_eq, ◌≡◌, refl, arith, inl, inr, ◌⊎◌,
}
use mathlib.Core.Path.{subst}
use baaah.Prelude.Map.{Map}
use baaah.Objects.{Gvk, gvk_eq, Selector}
use baaah.Errors.{Error, ok, err, Result-cases}
use baaah.Apply.ObjectSet.{object_key_eq, ObjectSet, empty, gvk_order_with}
use baaah.Apply.Labels.{get_labels_and_annotations}
use baaah.Apply.Client.{Client}
use baaah.Apply.Process.{Patcher}
use baaah.Apply.Process.Safety.{placed, IsHarmless}
use baaah.Apply.Process.Unpruned.{process-harmless}
use baaah.Apply.Desired.{
  Settings, Texts, known_gvk, get_selector, inject_labels_and_annotations, options_of, process_each,
  apply_injected, apply_set,
}

module _ {W : Type 0} (c : Client W) (t : Texts) (p : Gvk → Patcher W) (Q : W → Type 0) where
  -- The set with the labels and annotations of the apply.
  abbrev pub produced : Settings → ObjectSet → ObjectSet
  produced a objs =
      elim (get_labels_and_annotations t.hash t.gvk_string c.gvk_for_object a.owner_sub_context
        a.owner) [ err e ↦ empty | ok m ↦ (inject_labels_and_annotations c m.0 m.1 objs).1 ]

  -- `Q` survives the calls made for any kind, of the deletions those of the objects of the set where
  -- `process` places them.
  abbrev pub Harmless : Settings → ObjectSet → Type 0
  Harmless a objs =
      (g : Gvk)
      → IsHarmless c (p g) (options_of c t p a) g (placed c (p g) (options_of c t p a) g objs) Q

  process_each-holds :
      (a : Settings) (sel : Option Selector) (objs : ObjectSet) (gs : List Gvk) (w : W)
      → Harmless a objs
      → (a.no_prune ≡ true) ⊎ (sel ≡ none)
      → Q w
      → Q (process_each c t p a sel objs gs w).1
  unfolding process_each
  process_each-holds a sel objs [] w q n h = h
  process_each-holds a sel objs (g ∷ gs) w q n h =
      process_each-holds a sel objs gs _ q n
        (process-harmless c (p g) (options_of c t p a) g Q sel objs w (q g) n h)

  get_selector-nil :
      (labels : Map Str Str) (sel : Option Selector)
      → labels ≡ []
      → get_selector c labels ≡ ok sel
      → sel ≡ none
  unfolding get_selector
  get_selector-nil [] sel n e = ground arith
  get_selector-nil (l ∷ ls) sel n e = ground arith

  apply_injected-holds :
      (a : Settings) (labels : Map Str Str) (r : Option Error × ObjectSet) (order : List Gvk)
      (w : W)
      → Harmless a r.1
      → (a.no_prune ≡ true) ⊎ (labels ≡ [])
      → Q w
      → Q (apply_injected c t p a labels r order w).1
  apply_injected-holds a labels (some e, objs) order w q n h = h
  apply_injected-holds a labels (none, objs) order w q n h =
      elim (Result-cases (get_selector c labels)) [
        | inr (x, e) ↦ rw (e) h
        | inl (sel, e) ↦ rw (e) (process_each-holds a sel objs order w q (unselected sel n e) h)
      ]
    where
      unselected :
          (sel : Option Selector)
          → (a.no_prune ≡ true) ⊎ (labels ≡ [])
          → get_selector c labels ≡ ok sel
          → (a.no_prune ≡ true) ⊎ (sel ≡ none)
      unselected sel (inl n) e = inl n
      unselected sel (inr n) e = inr (get_selector-nil labels sel n e)

  -- Without an owner and a sub-context there are no labels.
  unlabelled :
      (a : Settings) (m : Map Str Str × Map Str Str)
      → a.owner ≡ none
      → a.owner_sub_context ≡ []
      → get_labels_and_annotations t.hash t.gvk_string c.gvk_for_object a.owner_sub_context a.owner
        ≡ ok m
      → m.0 ≡ []
  unfolding get_labels_and_annotations
  unlabelled a m n k e = ground (arith, n, k, e)

  produced-inject :
      (a : Settings) (objs : ObjectSet) (m : Map Str Str × Map Str Str)
      → get_labels_and_annotations t.hash t.gvk_string c.gvk_for_object a.owner_sub_context a.owner
        ≡ ok m
      → produced a objs ≡ (inject_labels_and_annotations c m.0 m.1 objs).1
  produced-inject a objs m e = rw (e, produced) refl

  -- An apply with pruning turned off, or with neither an owner nor a sub-context, deletes no object
  -- but to replace one that it wants: whatever holds of the cluster and survives creations, reads,
  -- lists and the comparisons of objects, which patch them, and the deletions of the objects of the
  -- produced set under the keys where they are put, holds after the apply, with or without an
  -- error, whatever the comparisons ask to be replaced.
  pub apply_set-harmless :
      (a : Settings) (objs : ObjectSet) (w : W)
      → Harmless a (produced a objs)
      → (a.no_prune ≡ true) ⊎ ((a.owner ≡ none) × (a.owner_sub_context ≡ []))
      → Q w
      → Q (apply_set c t p a objs w).1
  unfolding apply_set
  apply_set-harmless a objs w q n h =
      elim (Result-cases (
        get_labels_and_annotations t.hash t.gvk_string c.gvk_for_object a.owner_sub_context
          a.owner)) [
            | inr (x, e) ↦ rw (e, apply_set) h
            | inl (m, e) ↦
                rw (e, apply_set)
                  (apply_injected-holds a m.0 (inject_labels_and_annotations c m.0 m.1 objs)
                    (gvk_order_with t.gvk_string (known_gvk a.prune_types) objs) w
                    (subst (Harmless a) (produced-inject a objs m e) q) (cases m e n) h)
          ]
    where
      cases :
          (m : Map Str Str × Map Str Str)
          → get_labels_and_annotations t.hash t.gvk_string c.gvk_for_object a.owner_sub_context
              a.owner
            ≡ ok m
          → (a.no_prune ≡ true) ⊎ ((a.owner ≡ none) × (a.owner_sub_context ≡ []))
          → (a.no_prune ≡ true) ⊎ (m.0 ≡ [])
      cases m e (inl n) = inl n
      cases m e (inr n) = inr (unlabelled a m n.0 n.1 e)
