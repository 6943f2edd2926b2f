-- ===== src/Apply/Diff/Laws.antt =====
-- What making an object ready and patching it leave alone.
use baaah.Prelude.{
  Bool, true, false, Str, str, ◌≡◌, arith, inl, inr, Option-cases, Bool-cases, ◌==◌, list_eq,
  nat_eq,
}
use baaah.Prelude.Map
use baaah.Prelude.Map.{Map}
use baaah.Objects.{Gvk, gvk_eq, Object}
use baaah.Errors.{Result, ok, err, Result-cases}
use baaah.Apply.ObjectSet.{key_of}
use baaah.Apply.Patch.{sanitize_patch}
use baaah.Apply.Diff.{
  PatchType, Styles, PatchCache, Ran, ran, must_replace, ran_into, Library,
  prepare_object_for_create, original_and_modified, create_patch, patch_target, send, reconciled,
  reconcile, cleaned, patched, apply_patch, after_patch, compare_objects,
}

module _ {L W : Type 0} (l : Library L W) (y : Styles L) where
  -- An object that was made ready keeps its namespace and its name.
  pub key_of-prepare_object_for_create :
      (g : Gvk) (o q : Object) (clone : Bool)
      → prepare_object_for_create l y g o clone ≡ ok q
      → key_of q ≡ key_of o
  unfolding prepare_object_for_create
  key_of-prepare_object_for_create g o q clone h = ground (arith, h)

  module _ (ensure : Bool) (reconcilers : Map Gvk (Object → Object → Ran)) (Q : W → Type 0)
      (patches : (o : Object) (t : PatchType) (p : Str) (w : W) → Q w → Q (l.patch o t p w).2) where
    send-holds :
        (g : Gvk) (old new : Object) (t : PatchType) (p : Str) (w : W) (m : PatchCache y)
        → Q w
        → Q (send l y ensure reconcilers g old new t p (w, m)).2.0
    send-holds g old new t p w m q =
        let kept = patches (record new { resource_version = old.resource_version }) t p w q in
        ground (arith, kept, patches (patch_target l y ensure reconcilers g old) t p w q)

    reconciled-holds :
        (g : Gvk) (old new : Object) (t : PatchType) (p : Str) (r : Ran) (w : W) (m : PatchCache y)
        → Q w
        → Q (reconciled l y ensure reconcilers g old new t p r (w, m)).2.0
    reconciled-holds g old new t p (ran false) w m q = send-holds g old new t p w m q
    reconciled-holds g old new t p (ran true) w m q = q
    reconciled-holds g old new t p must_replace w m q = q
    reconciled-holds g old new t p (ran_into e) w m q = q

    cleaned-holds :
        (g : Gvk) (old new : Object) (t : PatchType) (r : Result Str) (w : W) (m : PatchCache y)
        → Q w
        → Q (cleaned l y ensure reconcilers g old new t r (w, m)).2.0
    cleaned-holds g old new t (err e) w m q = q
    cleaned-holds g old new t (ok p) w m q = elim (Bool-cases (p == str "{}")) [
      | inl h ↦ rw (h, cleaned) q
      | inr h ↦ elim (Option-cases (Map.get g reconcilers)) [
        | inl e ↦ rw (h, e, cleaned) (send-holds g old new t p w m q)
        | inr (f, e) ↦
            rw (h, e, cleaned)
              (reconciled-holds g old new t p (reconcile l y ensure reconcilers f g old new) w m q)
      ]
    ]

    patched-holds :
        (g : Gvk) (old new : Object) (r : Result (PatchType × Str)) (w : W) (m : PatchCache y)
        → Q w
        → Q (patched l y ensure reconcilers g old new w (r, m)).2.0
    patched-holds g old new (err e) w m q = q
    patched-holds g old new (ok (t, p)) w m q = elim (Bool-cases (p == str "{}")) [
      | inl h ↦ rw (h, patched) q
      | inr h ↦
          rw (h, patched)
            (cleaned-holds g old new t (sanitize_patch l.unmarshal l.marshal p false) w m q)
    ]

    apply_patch-holds :
        (g : Gvk) (old new : Object) (w : W) (m : PatchCache y)
        → Q w
        → Q (apply_patch l y ensure reconcilers g old new (w, m)).2.0
    unfolding apply_patch
    apply_patch-holds g old new w m q = elim (Result-cases (original_and_modified l y g old new)) [
      | inr (x, e) ↦ rw (e, apply_patch) q
      | inl (b, e) ↦ elim (Result-cases (l.marshal_object old)) [
        | inr (x, f) ↦ rw (e, f, apply_patch) q
        | inl (s, f) ↦
            rw (e, f, apply_patch)
              (patched-holds g old new (create_patch l y g b.0 b.1 s m).0 w
                (create_patch l y g b.0 b.1 s m).1 q)
      ]
    ]

    after_patch-holds :
        (old new : Object) (r : Ran) (w : W) (m : PatchCache y)
        → Q w
        → Q (after_patch l y ensure reconcilers old (r, new, (w, m))).2.0
    after_patch-holds old new must_replace w m q = q
    after_patch-holds old new (ran_into e) w m q = q
    after_patch-holds old new (ran true) w m q = q
    after_patch-holds old new (ran false) w m q = elim (Bool-cases ensure) [
      | inr e ↦ rw (e, after_patch) q
      | inl e ↦ elim (Option-cases (l.not_assignable old new)) [
        | inl f ↦ rw (e, f, after_patch) q
        | inr (x, f) ↦ rw (e, f, after_patch) q
      ]
    ]

    -- Comparing two objects calls the client for patches alone.
    pub compare_objects-holds :
        (g : Gvk) (old new : Object) (w : W) (m : PatchCache y)
        → Q w
        → Q (compare_objects l y ensure reconcilers g old new (w, m)).2.0
    unfolding compare_objects
    compare_objects-holds g old new w m q =
        let r = apply_patch l y ensure reconcilers g old new (w, m) in
        after_patch-holds old r.1 r.0 r.2.0 r.2.1 (apply_patch-holds g old new w m q)
