-- ===== src/Apply/Labels/Laws.antt =====
-- What the hash of an owner depends on.
use baaah.Prelude.{some, Str, [], ◌∷◌, ◌++◌, ◌≡◌, refl, arith, list_eq, nat_eq, ◌∙◌, sym}
use mathlib.Core.List.{append_assoc}
use baaah.Prelude.Map
use baaah.Prelude.Map.{Map}
use baaah.Objects.{Gvk, Object}
use baaah.Errors.{Result, ok}
use baaah.Apply.Labels.{
  label_hash, hashed, hash_order, owner_annotations, sub_context_annotations,
  get_labels_and_annotations,
}

hashed-owner :
    (gvk_string : Gvk → Str) (g : Gvk) (owner : Object) (sub : Str)
    → hashed hash_order (owner_annotations gvk_string g owner (sub_context_annotations sub))
      ≡ sub ++ (gvk_string g ++ (owner.name ++ (owner.namespace ++ [])))
unfolding hashed Map.get Map.insert
hashed-owner gvk_string g owner sub = refl

-- Two owners of one kind, `name ++ x` in the namespace `ns` and `name` in the namespace `x ++ ns`,
-- get the same labels for the same sub-context, whatever the hash is.
pub owner_collision :
    (hash : Str → Str) (gvk_string : Gvk → Str) (gvk_for : Object → Result Gvk)
    (sub name x ns : Str) (g : Gvk) (a b : Object)
    → gvk_for a ≡ ok g
    → gvk_for b ≡ ok g
    → a.name ≡ name ++ x
    → a.namespace ≡ ns
    → b.name ≡ name
    → b.namespace ≡ x ++ ns
    → (la : Map Str Str) × (aa : Map Str Str) × (ab : Map Str Str) × (get_labels_and_annotations
          hash gvk_string gvk_for sub
          (some a)
        ≡ ok (la, aa))
      × (get_labels_and_annotations hash gvk_string gvk_for sub (some b) ≡ ok (la, ab))
unfolding get_labels_and_annotations
owner_collision hash gvk_string gvk_for sub name x ns g a b ga gb an ans bn bns =
    let ma = owner_annotations gvk_string g a (sub_context_annotations sub) in
    let mb = owner_annotations gvk_string g b (sub_context_annotations sub) in
    let same : hashed hash_order ma ≡ hashed hash_order mb =
      hashed-owner gvk_string g a sub
      ∙ rw (an, ans, bn, bns) (simp append_assoc)
      ∙ sym (hashed-owner gvk_string g b sub) in
    ((label_hash, hash (hashed hash_order ma)) ∷ [], ma, mb, ground arith, ground arith)
