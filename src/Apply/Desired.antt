-- ===== src/Apply/Desired.antt =====
-- pkg/apply/apply.go, desiredset.go and desiredset_apply.go: an apply from its options to the kinds
-- that it processes one after the other. The options are values that each call copies.
pub mod Laws
pub mod Marks
pub mod Tests
use baaah.Prelude.{
  Bool, true, false, not, Option, none, some, Str, str, List, [], ◌∷◌, ◌++◌, if◌then◌else◌, ◌==◌,
  list_eq, nat_eq, is_nil, ◌&&◌,
}
use baaah.Prelude.Map
use baaah.Prelude.Map.{Map}
use baaah.Objects.{Gvk, gvk_eq, Object, Selector}
use baaah.Errors.{Error, Result, ok, err}
use baaah.Merr.{new_errors}
use baaah.Apply.ObjectSet.{ObjectByKey, ObjectSet, empty, add, new_object_set, gvk_order_with}
use baaah.Apply.Labels.{read, label_hash, set_labels, set_annotations, get_labels_and_annotations}
use baaah.Apply.Client.{Client}
use baaah.Apply.Process.{Options, Patcher, process}

-- apply, less the context, the client and the reconcilers
pub record Settings : Type 0 where
  pub default_namespace : Str
  pub lister_namespace : Str
  pub prune_types : Map Gvk Bool
  pub prune_objects : List Object
  pub owner_sub_context : Str
  pub owner : Option Object
  pub owner_gvk : Gvk
  pub ensure : Bool
  pub no_prune : Bool

-- New
abbrev pub new : Settings
new = record {
  default_namespace = str "default";
  lister_namespace = [];
  prune_types = [];
  prune_objects = [];
  owner_sub_context = [];
  owner = none;
  owner_gvk = record { group = []; version = []; kind = [] };
  ensure = false;
  no_prune = false;
}

-- WithNoPrune
abbrev pub with_no_prune : Settings → Settings
with_no_prune a = record a { no_prune = true }

-- WithPruneTypes
abbrev pub with_prune_types : List Object → Settings → Settings
with_prune_types objs a = record a { prune_objects = a.prune_objects ++ objs }

-- withPruneGVKs: for _, gvk := range gvks { pruneTypes[gvk] = true }
unfoldable pub with_prune_gvks : List Gvk → Settings → Settings
with_prune_gvks [] a = a
with_prune_gvks (g ∷ gs) a =
    with_prune_gvks gs (record a { prune_types = Map.insert g true a.prune_types })

-- WithNamespace
abbrev pub with_namespace : Str → Settings → Settings
with_namespace ns a = record a { lister_namespace = ns; default_namespace = ns }

-- WithOwnerSubContext
abbrev pub with_owner_sub_context : Str → Settings → Settings
with_owner_sub_context s a = record a { owner_sub_context = s }

-- knownGVK
abbrev pub known_gvk : Map Gvk Bool → List Gvk
known_gvk [] = []
known_gvk ((g, b) ∷ m) = g ∷ known_gvk m

-- debugID
unfoldable pub debug_id : Settings → Str
debug_id a = elim a.owner [
  | none ↦ a.owner_sub_context
  | some o ↦
      (str "subcontext [")
      ++ (a.owner_sub_context
          ++ (str "] namespace [" ++ (o.namespace ++ (str "] name [" ++ (o.name ++ str "]")))))
]

abbrev pub some_selector : Result Selector → Result (Option Selector)
some_selector (err e) = err e
some_selector (ok s) = ok (some s)

-- the texts of the hash and of a kind, and what AddValidOwnerChange has stored
pub record Texts : Type 0 where
  pub hash : Str → Str
  pub gvk_string : Gvk → Str
  pub valid_owner_change : List Str

module _ {W : Type 0} (c : Client W) where
  -- GetSelector
  unfoldable pub get_selector : Map Str Str → Result (Option Selector)
  get_selector [] = ok none
  get_selector (l ∷ ls) = some_selector (c.new_requirement label_hash (read label_hash (l ∷ ls)))

  -- injectLabelsAndAnnotations: the inner loop over one map, from the set that was made so far
  pub inject_objects :
      Map Str Str → Map Str Str → ObjectByKey → ObjectSet → Option Error × ObjectSet
  inject_objects labels annotations [] s = (none, s)
  inject_objects labels annotations ((k, o) ∷ objs) s =
      let (e, s') =
        add c.gvk_for_object (some (set_annotations annotations (set_labels labels o)) ∷ []) s in
      let rest = inject_objects labels annotations objs s' in
      elim e [ some x ↦ (some x, s') | none ↦ rest ]

  pub inject_kinds :
      Map Str Str → Map Str Str → Map Gvk ObjectByKey → ObjectSet → Option Error × ObjectSet
  unfolding inject_objects
  inject_kinds labels annotations [] s = (none, s)
  inject_kinds labels annotations ((g, objs) ∷ m) s =
      let (e, s') = inject_objects labels annotations objs s in
      let rest = inject_kinds labels annotations m s' in
      elim e [ some x ↦ (some x, s') | none ↦ rest ]

  unfoldable pub inject_labels_and_annotations :
      Map Str Str → Map Str Str → ObjectSet → Option Error × ObjectSet
  unfolding inject_kinds
  inject_labels_and_annotations labels annotations s =
      inject_kinds labels annotations s.objects empty

  module _ (t : Texts) (p : Gvk → Patcher W) where
    abbrev pub options_of : Settings → Options
    options_of a = record {
      default_namespace = a.default_namespace;
      lister_namespace = a.lister_namespace;
      owner = a.owner;
      ensure = a.ensure;
      no_prune = a.no_prune;
      debug_id = debug_id a;
      valid_owner_change = t.valid_owner_change;
      hash = t.hash;
      gvk_string = t.gvk_string;
    }

    -- for _, gvk := range gvkOrder { a.process(debugID, sel, gvk, objs) }
    pub process_each :
        Settings → Option Selector → ObjectSet → List Gvk → W → List (Option Error) × W
    process_each a sel objs [] w = ([], w)
    process_each a sel objs (g ∷ gs) w =
        let (e, w1) = process c (p g) (options_of a) g sel objs w in
        let (es, w2) = process_each a sel objs gs w1 in (e ∷ es, w2)

    abbrev pub process_kinds :
        Settings → Result (Option Selector) → ObjectSet → List Gvk → W → Option Error × W
    process_kinds a (err e) objs order w = (some e, w)
    process_kinds a (ok sel) objs order w =
        let (es, w') = process_each a sel objs order w in (new_errors es, w')

    abbrev pub apply_injected :
        Settings → Map Str Str → Option Error × ObjectSet → List Gvk → W → Option Error × W
    apply_injected a labels (some e, objs) order w = (some e, w)
    apply_injected a labels (none, objs) order w =
        process_kinds a (get_selector labels) objs order w

    -- apply
    unfoldable pub apply_set : Settings → ObjectSet → W → Option Error × W
    unfolding get_selector process_each inject_labels_and_annotations
    apply_set a objs w =
        elim (get_labels_and_annotations t.hash t.gvk_string c.gvk_for_object a.owner_sub_context
          a.owner) [
            | err e ↦ (some e, w)
            | ok m ↦
                apply_injected a m.0 (inject_labels_and_annotations m.0 m.1 objs)
                  (gvk_order_with t.gvk_string (known_gvk a.prune_types) objs) w
          ]

    -- the kinds of a.pruneObjects
    pub prune_gvks : List Object → Result (List Gvk)
    prune_gvks [] = ok []
    prune_gvks (o ∷ os) =
        let rest = prune_gvks os in
        elim (c.gvk_for_object o) [
          | err e ↦ err e
          | ok g ↦ elim rest [ err e ↦ err e | ok gs ↦ ok (g ∷ gs) ]
        ]

    abbrev pub apply_new : Settings → Option Error × ObjectSet → W → Option Error × W
    apply_new a (some e, objs) w = (some e, w)
    apply_new a (none, objs) w = apply_set a objs w

    abbrev pub apply_for : Settings → Option Object → List (Option Object) → W → Option Error × W
    apply_for a none objs w =
        apply_new (record a { owner = none }) (new_object_set c.gvk_for_object objs) w
    apply_for a (some o) objs w = elim (c.gvk_for_object o) [
      | err e ↦ (some e, w)
      | ok g ↦
          apply_new (record a { owner = some o; owner_gvk = g })
            (new_object_set c.gvk_for_object objs) w
    ]

    -- Apply
    unfoldable pub apply : Settings → Option Object → List (Option Object) → W → Option Error × W
    unfolding apply_set prune_gvks with_prune_gvks
    apply a owner objs w = elim (prune_gvks a.prune_objects) [
      | err e ↦ (some e, w)
      | ok gs ↦ apply_for (with_prune_gvks gs a) owner objs w
    ]

    -- Ensure
    unfoldable pub ensure : Settings → List (Option Object) → W → Option Error × W
    unfolding apply
    ensure a objs w =
        apply (record a { ensure = true; owner = none; owner_sub_context = [] }) none objs w
