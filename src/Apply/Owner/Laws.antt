-- ===== src/Apply/Owner/Laws.antt =====
-- The owner that an apply notes on its objects is the one that is found again.
use baaah.Prelude.{
  ℕ, true, false, is_some, some, Str, [], ◌∷◌, ◌++◌, ◌≡◌, refl, arith, strip_prefix, ◌==◌, list_eq,
  nat_eq,
}
use baaah.Prelude.Map
use baaah.Prelude.Map.{Map}
use baaah.Prelude.Text.Laws.{Lacks, cut-append}
use baaah.Objects.{Gvk, Object}
use baaah.Errors.{Result, ok}
use baaah.Apply.Labels.{
  read, copy_map, label_applied, label_gvk, label_name, label_namespace, set_annotations,
  get_labels_and_annotations, owner_annotations, sub_context_annotations,
}
use baaah.Apply.Desired.Marks.{get-copy_map}
use baaah.Apply.Owner.{kind_separator, split_from, split, get_gvk, of_result, find_owner}

abbrev comma : ℕ
comma = b','

split_from_of_Lacks : (s : Str) → Lacks comma s → split_from kind_separator 0 s ≡ s ∷ []
unfolding split_from strip_prefix
split_from_of_Lacks [] l = refl
split_from_of_Lacks (c ∷ s) l = ground (arith, split_from_of_Lacks s)

split_from-append :
    (a s : Str)
    → Lacks comma a
    → split_from kind_separator 0 (a ++ (kind_separator ++ s)) ≡ a ∷ split_from kind_separator 0 s
unfolding split_from strip_prefix
split_from-append [] s l = refl
split_from-append (c ∷ a) s l = ground (arith, split_from-append a s)

-- GroupVersionKind.String
abbrev pub gvk_text : Gvk → Str
gvk_text g = (g.group ++ b'/' ∷ g.version) ++ (kind_separator ++ g.kind)

pub get_gvk-gvk_text :
    (g : Gvk)
    → Lacks comma (g.group ++ b'/' ∷ g.version)
    → Lacks b'/' g.group
    → Lacks comma g.kind
    → get_gvk (gvk_text g) ≡ ok g
unfolding get_gvk split
get_gvk-gvk_text g l m k =
    rw
      (
        split_from-append (g.group ++ b'/' ∷ g.version) g.kind l,
        split_from_of_Lacks g.kind k,
        cut-append b'/' g.group g.version m,
      )
      refl

read_owner :
    (gvk_string : Gvk → Str) (g : Gvk) (owner : Object) (sub : Str) (m : Map Str Str)
    → m ≡ owner_annotations gvk_string g owner (sub_context_annotations sub)
    → (read label_gvk m ≡ gvk_string g)
      × (read label_name m ≡ owner.name)
      × (read label_namespace m ≡ owner.namespace)
unfolding Map.get Map.insert
read_owner gvk_string g owner sub m e = rw e (refl, refl, refl)

-- each of the three is there
has_owner :
    (gvk_string : Gvk → Str) (g : Gvk) (owner : Object) (sub : Str) (m : Map Str Str)
    → m ≡ owner_annotations gvk_string g owner (sub_context_annotations sub)
    → (is_some (Map.get label_gvk m) ≡ true)
      × (is_some (Map.get label_name m) ≡ true)
      × (is_some (Map.get label_namespace m) ≡ true)
unfolding Map.get Map.insert
has_owner gvk_string g owner sub m e = rw e (refl, refl, refl)

gvk_text-ne-nil : (g : Gvk) → (gvk_text g == []) ≡ false
gvk_text-ne-nil g = text_ne (g.group) (g.version) (kind_separator ++ g.kind)
  where
    text_ne : (a b s : Str) → ((a ++ b'/' ∷ b) ++ s == []) ≡ false
    text_ne [] b s = refl
    text_ne (c ∷ a) b s = refl

-- The object with the annotation of what was applied, as prepareObjectForCreate leaves it.
abbrev pub with_applied : Str → Object → Object
with_applied applied o = record o { annotations = Map.insert label_applied applied o.annotations }

owner_annotations-Distinct :
    (gvk_string : Gvk → Str) (g : Gvk) (owner : Object) (sub : Str)
    → Map.Distinct (owner_annotations gvk_string g owner (sub_context_annotations sub))
unfolding Map.get Map.insert
owner_annotations-Distinct gvk_string g owner sub = (refl, (refl, (refl, (refl, tt))))

-- An annotation that the apply sets is read back, unless it is the one of what was applied.
read-with_applied :
    (k : Str) (applied : Str) (annotations : Map Str Str) (o : Object)
    → Map.Distinct annotations
    → is_some (Map.get k annotations) ≡ true
    → (label_applied == k) ≡ false
    → read k (with_applied applied (set_annotations annotations o)).annotations ≡ read k annotations
unfolding set_annotations
read-with_applied k applied annotations o d p n =
    rw
      (
        Map.get-insert label_applied k applied
            (copy_map annotations (Map.delete label_applied o.annotations)),
        n,
        get-copy_map annotations (Map.delete label_applied o.annotations) k d,
        p,
      )
      refl

module _ (hash : Str → Str) (gvk_string : Gvk → Str) (gvk_for : Object → Result Gvk) where
  noted :
      (sub : Str) (owner : Object) (g : Gvk) (labels annotations : Map Str Str)
      → gvk_for owner ≡ ok g
      → get_labels_and_annotations hash gvk_string gvk_for sub (some owner)
        ≡ ok (labels, annotations)
      → annotations ≡ owner_annotations gvk_string g owner (sub_context_annotations sub)
  unfolding get_labels_and_annotations
  noted sub owner g labels annotations h e = ground arith

  -- FindOwner of an object on which an apply has set its annotations, whatever other annotations
  -- the object had, and to which the annotation of what was applied was added, asks for the kind,
  -- the namespace and the name of the apply's owner, and returns what that read returns; neither
  -- the group, the version nor the kind has a comma, the group has no slash, and the text of a kind
  -- is `group/version, Kind=kind`.
  pub find_owner-get_labels_and_annotations :
      (get : Gvk → Str → Str → Result Object) (sub : Str) (owner : Object) (g : Gvk)
      (labels annotations : Map Str Str) (o : Object) (applied : Str)
      → gvk_for owner ≡ ok g
      → gvk_string g ≡ gvk_text g
      → Lacks comma (g.group ++ b'/' ∷ g.version)
      → Lacks b'/' g.group
      → Lacks comma g.kind
      → get_labels_and_annotations hash gvk_string gvk_for sub (some owner)
        ≡ ok (labels, annotations)
      → find_owner get (some (with_applied applied (set_annotations annotations o)))
        ≡ of_result (get g owner.namespace owner.name)
  unfolding find_owner
  find_owner-get_labels_and_annotations get sub owner g labels annotations o applied h t l m k e =
      let x = noted sub owner g labels annotations h e in
      let (rg, rn, rs) = read_owner gvk_string g owner sub annotations x in
      let (hg, hn, hs) = has_owner gvk_string g owner sub annotations x in
      let d : Map.Distinct annotations = rw x (owner_annotations-Distinct gvk_string g owner sub) in
      rw
        (
          read-with_applied label_gvk applied annotations o d hg refl,
          read-with_applied label_name applied annotations o d hn refl,
          read-with_applied label_namespace applied annotations o d hs refl,
          rg,
          rn,
          rs,
          t,
          gvk_text-ne-nil g,
          get_gvk-gvk_text g l m k,
        )
        refl
