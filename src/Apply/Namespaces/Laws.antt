-- ===== src/Apply/Namespaces/Laws.antt =====
-- Where the objects of a kind end up, and which of them get the owner.
use baaah.Prelude.{
  Bool, true, not, ◌&&◌, ◌||◌, none, some, Str, List, [], ◌∷◌, any-append, if◌then◌else◌, ◌==◌,
  eq_iff, list_eq, nat_eq, ◌≡◌, ◌≢◌, refl, arith, All, count, inl, inr, Option-cases,
}
use baaah.Prelude.Map
use baaah.Prelude.Map.{Map}
use baaah.Objects.{Gvk, group_kind, Object, OwnerReference}
use baaah.Errors.{ok, OnOk, Result-cases}
use baaah.Apply.ObjectSet.{ObjectKey, object_key_eq, ObjectByKey, ObjectSet, contains, key_of}
use baaah.Apply.Labels.{annotation_prune}
use baaah.Apply.Compare.{should}
use baaah.Apply.Client.{Client}
use baaah.Apply.Namespaces.{
  visit, adjust_one, adjust_each, adjust_namespace, clear_one, clear_each, clear_namespace,
  filter_cross_version, owner_reference, has_owner, set_owner, assign_one, assign_each, assign_loop,
  is_namespaced, assign_owner_reference,
}

-- Every object stands under its own namespace and name.
abbrev pub IsKeyed : ObjectByKey → Type 0
IsKeyed = All (λ e. e.0 ≡ key_of e.1)

IsKeyed-insert : (o : Object) (m : ObjectByKey) → IsKeyed m → IsKeyed (Map.insert (key_of o) o m)
unfolding Map.insert
IsKeyed-insert o [] v = (refl, tt)
IsKeyed-insert o ((j, p) ∷ m) v = ground (arith, IsKeyed-insert o m)

IsKeyed-delete : (k : ObjectKey) (m : ObjectByKey) → IsKeyed m → IsKeyed (Map.delete k m)
unfolding Map.delete
IsKeyed-delete k [] v = tt
IsKeyed-delete k ((j, p) ∷ m) v = ground (arith, IsKeyed-delete k m)

IsKeyed-get :
    (k : ObjectKey) (o : Object) (m : ObjectByKey) → IsKeyed m → Map.get k m ≡ some o → k ≡ key_of o
unfolding Map.get
IsKeyed-get k o [] v e = ground (arith, e)
IsKeyed-get k o ((j, p) ∷ m) v e = ground (arith, v, e, eq_iff j k, IsKeyed-get k o m)

-- A round over a key reads its entry, or passes it over.
pub visit_rule :
    (P : ObjectByKey → Type 0) (f : ObjectKey → Object → ObjectByKey → ObjectByKey) (k : ObjectKey)
    (m : ObjectByKey)
    → (Map.get k m ≡ none → P m)
    → ((o : Object) → Map.get k m ≡ some o → P (f k o m))
    → P (visit f k m)
visit_rule P f k m n h = elim (Option-cases (Map.get k m)) [
  | inl e ↦ rw (e, visit) (n e)
  | inr (o, e) ↦ rw (e, visit) (h o e)
]

adjust_each-IsKeyed :
    (ns : Str) (es m : ObjectByKey) → IsKeyed es → IsKeyed m → IsKeyed (adjust_each ns es m)
unfolding adjust_each
adjust_each-IsKeyed ns [] m ve v = v
adjust_each-IsKeyed ns ((k, _) ∷ es) m ve v =
    adjust_each-IsKeyed ns es (visit (adjust_one ns) k m) ve.1 (
      visit_rule IsKeyed (adjust_one ns) k m (λ e. v)
        (λ o e. ground (
          arith,
          IsKeyed-get k o m v e,
          IsKeyed-delete k m v,
          IsKeyed-insert (record o { namespace = ns }) (Map.delete k m),
        )))

clear_each-IsKeyed : (es m : ObjectByKey) → IsKeyed es → IsKeyed m → IsKeyed (clear_each es m)
unfolding clear_each
clear_each-IsKeyed [] m ve v = v
clear_each-IsKeyed ((k, _) ∷ es) m ve v = clear_each-IsKeyed es (visit clear_one k m) ve.1 (
    visit_rule IsKeyed clear_one k m (λ e. v)
      (λ o e. ground (
        arith,
        IsKeyed-get k o m v e,
        IsKeyed-delete k m v,
        IsKeyed-insert (record o { namespace = [] }) (Map.delete k m),
      )))

pub adjust_namespace-IsKeyed :
    (ns : Str) (m : ObjectByKey) → IsKeyed m → IsKeyed (adjust_namespace ns m)
unfolding adjust_namespace
adjust_namespace-IsKeyed ns m v = adjust_each-IsKeyed ns m m v v

pub clear_namespace-IsKeyed : (m : ObjectByKey) → IsKeyed m → IsKeyed (clear_namespace m)
unfolding clear_namespace
clear_namespace-IsKeyed m v = clear_each-IsKeyed m m v v

get-adjust_each :
    (ns : Str) (k : ObjectKey) (es m : ObjectByKey)
    → ns ≢ []
    → k.namespace ≡ []
    → (Map.get k es ≡ none → Map.get k m ≡ none)
    → Map.get k (adjust_each ns es m) ≡ none
unfolding adjust_each Map.get
get-adjust_each ns k [] m n e h = h refl
get-adjust_each ns k ((j, _) ∷ es) m n e h =
    get-adjust_each ns k es (visit (adjust_one ns) j m) n e (λ a.
      visit_rule (λ x. Map.get k x ≡ none) (adjust_one ns) j m
        (λ i. ground (arith, eq_iff j k, h, a, i))
        (λ o i. ground (
          arith,
          a,
          eq_iff j k,
          eq_iff j.namespace [],
          eq_iff (record j { namespace = ns }) k,
          h,
          Map.get-insert (record j { namespace = ns }) k (record o { namespace = ns })
              (Map.delete j m),
          Map.get-delete j k m,
        )))

-- With a default namespace, no object of a kind with namespaces is left without one.
pub get-adjust_namespace :
    (ns : Str) (k : ObjectKey) (m : ObjectByKey)
    → ns ≢ []
    → k.namespace ≡ []
    → Map.get k (adjust_namespace ns m) ≡ none
unfolding adjust_namespace
get-adjust_namespace ns k m n e = get-adjust_each ns k m m n e (λ h. h)

get-clear_each :
    (k : ObjectKey) (es m : ObjectByKey)
    → k.namespace ≢ []
    → (Map.get k es ≡ none → Map.get k m ≡ none)
    → Map.get k (clear_each es m) ≡ none
unfolding clear_each Map.get
get-clear_each k [] m n h = h refl
get-clear_each k ((j, _) ∷ es) m n h = get-clear_each k es (visit clear_one j m) n (λ a.
    visit_rule (λ x. Map.get k x ≡ none) clear_one j m (λ i. ground (arith, eq_iff j k, h, a, i))
      (λ o i. ground (
        arith,
        a,
        eq_iff j k,
        eq_iff j.namespace [],
        eq_iff (record j { namespace = [] }) k,
        h,
        Map.get-insert (record j { namespace = [] }) k (record o { namespace = [] })
            (Map.delete j m),
        Map.get-delete j k m,
      )))

pub get-clear_namespace :
    (k : ObjectKey) (m : ObjectByKey) → k.namespace ≢ [] → Map.get k (clear_namespace m) ≡ none
unfolding clear_namespace
get-clear_namespace k m n = get-clear_each k m m n (λ h. h)

-- The owner is noted, or the object is not to be pruned, or the owner has no UID.
abbrev pub owned : Object → Object → Bool
owned owner o = has_owner owner.uid o || owner.uid == [] || not (should o annotation_prune)

set_owner-owned : (g : Gvk) (owner o : Object) → owned owner (set_owner g owner o) ≡ true
unfolding should
set_owner-owned g owner o = ground (
  arith,
  eq_iff owner.uid owner.uid,
  any-append (λ (r : OwnerReference). owner.uid == r.uid) o.owner_references
      (owner_reference g owner ∷ []),
)

abbrev pub owned_at : Object → ObjectKey → ObjectByKey → Bool
owned_at owner k m = elim (Map.get k m) [ none ↦ true | some o ↦ owned owner o ]

-- Owners do not reach over the border of their namespace.
abbrev pub in_scope : Bool → Bool → Object → ObjectKey → Bool
in_scope nsed owner_nsed owner k =
    not (owner_nsed && not nsed)
    && not (nsed && not (k.namespace == []) && not (k.namespace == owner.namespace) && owner_nsed)

owned_at-assign_each :
    (nsed owner_nsed : Bool) (g : Gvk) (owner : Object) (k : ObjectKey) (es m : ObjectByKey)
    → in_scope nsed owner_nsed owner k ≡ true
    → (Map.get k es ≡ none → owned_at owner k m ≡ true)
    → owned_at owner k (assign_each nsed owner_nsed g owner es m) ≡ true
unfolding assign_each Map.get
owned_at-assign_each nsed owner_nsed g owner k [] m s h = h refl
owned_at-assign_each nsed owner_nsed g owner k ((j, _) ∷ es) m s h =
    owned_at-assign_each nsed owner_nsed g owner k es
      (visit (assign_one nsed owner_nsed g owner) j m) s
      (λ a.
        visit_rule (λ x. owned_at owner k x ≡ true) (assign_one nsed owner_nsed g owner) j m
          (λ i. ground (arith, eq_iff j k, h, a, i)) (λ o i. owned_at-assign_one a o))
  where
    owned_at-assign_one :
        Map.get k es ≡ none
        → (o : Object) → owned_at owner k (assign_one nsed owner_nsed g owner j o m) ≡ true
    owned_at-assign_one a o = ground (
      arith,
      eq_iff j k,
      eq_iff (record j { namespace = owner.namespace }) k,
      h,
      set_owner-owned g owner (record o { namespace = owner.namespace }),
      set_owner-owned g owner o,
      Map.get-insert (record j { namespace = owner.namespace }) k
          (set_owner g owner (record o { namespace = owner.namespace })) (Map.delete j m),
      Map.get-delete j k m,
      Map.get-insert j k (set_owner g owner o) m,
    )

key_of-set_owner : (g : Gvk) (owner o : Object) → key_of (set_owner g owner o) ≡ key_of o
key_of-set_owner g owner o = ground arith

assign_each-IsKeyed :
    (nsed owner_nsed : Bool) (g : Gvk) (owner : Object) (es m : ObjectByKey)
    → IsKeyed es
    → IsKeyed m
    → IsKeyed (assign_each nsed owner_nsed g owner es m)
unfolding assign_each
assign_each-IsKeyed nsed owner_nsed g owner [] m ve v = v
assign_each-IsKeyed nsed owner_nsed g owner ((j, _) ∷ es) m ve v =
    assign_each-IsKeyed nsed owner_nsed g owner es (visit (assign_one nsed owner_nsed g owner) j m)
      ve.1 (visit_rule IsKeyed (assign_one nsed owner_nsed g owner) j m (λ e. v) assign_one-IsKeyed)
  where
    assign_one-IsKeyed :
        (o : Object) → Map.get j m ≡ some o → IsKeyed (assign_one nsed owner_nsed g owner j o m)
    assign_one-IsKeyed o e = ground (
      arith,
      IsKeyed-get j o m v e,
      key_of-set_owner g owner o,
      key_of-set_owner g owner (record o { namespace = owner.namespace }),
      IsKeyed-delete j m v,
      IsKeyed-insert (set_owner g owner o) m v,
      IsKeyed-insert (set_owner g owner (record o { namespace = owner.namespace }))
          (Map.delete j m),
    )

pub count-filter_cross_version :
    (ns : Str) (objs : ObjectSet) (g : Gvk) (k : ObjectKey) (ks : List ObjectKey)
    → count k (filter_cross_version ns objs g ks) ≡ (
        if contains (group_kind g) k objs
        then 0
        else if k.namespace == ns
            && contains (group_kind g) (record { name = k.name; namespace = [] }) objs
        then 0
        else count k ks)
unfolding filter_cross_version
count-filter_cross_version ns objs g k [] = ground arith
count-filter_cross_version ns objs g k (j ∷ ks) =
    ground (arith, eq_iff j k, count-filter_cross_version ns objs g k ks)

module _ {W : Type 0} (c : Client W) where
  assign_loop-IsKeyed :
      (g owner_gvk : Gvk) (owner_nsed : Bool) (owner : Object) (objs : ObjectByKey)
      → IsKeyed objs
      → OnOk IsKeyed (assign_loop c g owner_nsed owner_gvk owner objs)
  assign_loop-IsKeyed g og on owner [] v = tt
  assign_loop-IsKeyed g og on owner (o ∷ objs) v = elim (Result-cases (is_namespaced c g)) [
    | inr (x, e) ↦ rw (e, assign_loop) tt
    | inl (n, e) ↦ rw (e, assign_loop) (assign_each-IsKeyed n on og owner (o ∷ objs) (o ∷ objs) v v)
  ]

  -- After the owner was assigned without an error, every object of the kind that the scopes of the
  -- kind and the owner allow refers to the owner by its UID, where the owner has one and the object
  -- may be pruned.
  pub assign_owner_reference-owned :
      (g owner_gvk : Gvk) (owner : Object) (objs got : ObjectByKey) (nsed owner_nsed : Bool)
      (k : ObjectKey)
      → c.gvk_for_object owner ≡ ok owner_gvk
      → is_namespaced c owner_gvk ≡ ok owner_nsed
      → is_namespaced c g ≡ ok nsed
      → assign_owner_reference c g owner objs ≡ ok got
      → in_scope nsed owner_nsed owner k ≡ true
      → owned_at owner k got ≡ true
  unfolding assign_owner_reference Map.get
  assign_owner_reference-owned g owner_gvk owner [] got nsed owner_nsed k hg ho hn h s =
      ground arith
  assign_owner_reference-owned g owner_gvk owner (e ∷ objs) got nsed owner_nsed k hg ho hn h s =
      ground (
        arith,
        owned_at-assign_each nsed owner_nsed owner_gvk owner k (e ∷ objs) (e ∷ objs) s
            (λ a. rw (a, owned_at) refl),
      )

  pub assign_owner_reference-IsKeyed :
      (g : Gvk) (owner : Object) (objs : ObjectByKey)
      → IsKeyed objs
      → OnOk IsKeyed (assign_owner_reference c g owner objs)
  unfolding assign_owner_reference
  assign_owner_reference-IsKeyed g owner objs v = elim (Result-cases (c.gvk_for_object owner)) [
    | inr (x, e) ↦ rw (e, assign_owner_reference) tt
    | inl (og, e) ↦ elim (Result-cases (is_namespaced c og)) [
      | inr (x, f) ↦ rw (e, f, assign_owner_reference) tt
      | inl (on, f) ↦ rw (e, f, assign_owner_reference) (assign_loop-IsKeyed g og on owner objs v)
    ]
  ]
