-- ===== src/Apply/ObjectSet.antt =====
-- pkg/apply/objectset/objectset.go: the objects to apply, by kind and by key, with the order in
-- which their kinds came.
pub mod Laws
use baaah.Prelude.{
  ℕ, Bool, true, false, Option, none, some, Str, List, [], ◌∷◌, ◌++◌, ◌≡◌, ◌↔◌, refl, arith, ◌&&◌,
  Eq, ◌==◌, eq_iff, list_eq, nat_eq, pair_eq, is_some, length, if◌then◌else◌,
}
use baaah.Prelude.Map
use baaah.Prelude.Map.{Map}
use baaah.Objects.{Gvk, gvk_eq, GroupKind, group_kind, Object}
use baaah.Errors.{Error, Result, ok, err}
use baaah.Apply.Sort.{sort}

pub record ObjectKey : Type 0 where
  pub name : Str
  pub namespace : Str

abbrev pub object_key_beq : ObjectKey → ObjectKey → Bool
object_key_beq a b = a.name == b.name && a.namespace == b.namespace

pub object_key_beq_iff : (a b : ObjectKey) → (object_key_beq a b ≡ true) ↔ (a ≡ b)
object_key_beq_iff a b = ground (arith, eq_iff a.name b.name, eq_iff a.namespace b.namespace)

instance abbrev pub object_key_eq : Eq ObjectKey
object_key_eq = record { beq = object_key_beq; beq_iff = object_key_beq_iff }

-- ObjectKey.String
unfoldable pub string : ObjectKey → Str
string k = if k.namespace == [] then k.name else k.namespace ++ b'/' ∷ k.name

abbrev pub key_of : Object → ObjectKey
key_of o = record { name = o.name; namespace = o.namespace }

abbrev pub ObjectByKey : Type 0
ObjectByKey = Map ObjectKey Object

-- Add of ObjectByGVK and of ObjectByGK: the inner map is made where it is missing.
abbrev pub add_by {ℓ} : {K : Type ℓ} ⦃e : Eq K⦄ → K → Object → Map K ObjectByKey → Map K ObjectByKey
add_by k o m = Map.insert k (Map.insert (key_of o) o (Map.get_list k m)) m

pub record ObjectSet : Type 0 where
  pub objects : Map Gvk ObjectByKey
  pub objects_by_gk : Map GroupKind ObjectByKey
  pub order : List Object
  pub gvk_order : List Gvk
  pub gvk_seen : Map Gvk Bool

abbrev pub empty : ObjectSet
empty = record { objects = []; objects_by_gk = []; order = []; gvk_order = []; gvk_seen = [] }

-- o.gvkSeen[gvk]
abbrev pub marked : Option Bool → Bool
marked none = false
marked (some b) = b

abbrev pub is_seen : Gvk → ObjectSet → Bool
is_seen g s = marked (Map.get g s.gvk_seen)

-- the end of `add`: a kind that is new is noted
abbrev pub note_gvk : Gvk → ObjectSet → ObjectSet
note_gvk g s =
    if is_seen g s
    then s
    else record s { gvk_seen = Map.insert g true s.gvk_seen; gvk_order = s.gvk_order ++ g ∷ [] }

abbrev pub add_object : Gvk → Object → ObjectSet → ObjectSet
add_object g o s = note_gvk g (record s {
  objects = add_by g o s.objects;
  objects_by_gk = add_by (group_kind g) o s.objects_by_gk;
  order = s.order ++ o ∷ [];
})

-- `gvk_for` is apiutil.GVKForObject with the set's scheme.
module _ (gvk_for : Object → Result Gvk) where
  unfoldable pub add_one : Option Object → ObjectSet → Option Error × ObjectSet
  add_one none s = (none, s)
  add_one (some o) s = elim (gvk_for o) [ err e ↦ (some e, s) | ok g ↦ (none, add_object g o s) ]

  -- Add: the first error ends it
  unfoldable pub add : List (Option Object) → ObjectSet → Option Error × ObjectSet
  add [] s = (none, s)
  add (o ∷ os) s =
      let (e, s') = add_one o s in
      let rest = add os s' in elim e [ some x ↦ (some x, s') | none ↦ rest ]

  -- NewObjectSet
  unfoldable pub new_object_set : List (Option Object) → Option Error × ObjectSet
  unfolding add add_one
  new_object_set os = add os empty

unfoldable pub contains : GroupKind → ObjectKey → ObjectSet → Bool
contains gk k s = is_some (Map.get k (Map.get_list gk s.objects_by_gk))

unfoldable pub len : ObjectSet → ℕ
len s = length s.objects

-- the kinds of `known` that no object has
unseen : ObjectSet → List Gvk → List Gvk
unseen s [] = []
unseen s (g ∷ gs) = if is_seen g s then unseen s gs else g ∷ unseen s gs

-- `gvk_string` is GroupVersionKind.String.
unfoldable pub gvk_order_with : (Gvk → Str) → List Gvk → ObjectSet → List Gvk
unfolding unseen
gvk_order_with gvk_string known s = s.gvk_order ++ sort gvk_string (unseen s known)
