-- ===== src/Objects.antt =====
-- The Kubernetes values that the packages hand around. A Go interface value (an object, a selector)
-- is the record of what its methods return.
use baaah.Prelude.{
  ℕ, Bool, true, false, ◌&&◌, none, [], Option, List, Str, ◌≡◌, ◌↔◌, arith, Eq, ◌==◌, eq_iff,
  list_eq, nat_eq, pair_eq,
}
use baaah.Prelude.Map.{Map}

-- schema.GroupVersionKind
pub record Gvk : Type 0 where
  pub group : Str
  pub version : Str
  pub kind : Str

abbrev pub gvk_beq : Gvk → Gvk → Bool
gvk_beq a b = a.group == b.group && a.version == b.version && a.kind == b.kind

pub gvk_beq_iff : (a b : Gvk) → (gvk_beq a b ≡ true) ↔ (a ≡ b)
gvk_beq_iff a b =
    ground (arith, eq_iff a.group b.group, eq_iff a.version b.version, eq_iff a.kind b.kind)

instance abbrev pub gvk_eq : Eq Gvk
gvk_eq = record { beq = gvk_beq; beq_iff = gvk_beq_iff }

-- schema.GroupKind, as the pair of its group and its kind
abbrev pub GroupKind : Type 0
GroupKind = Str × Str

abbrev pub group_kind : Gvk → GroupKind
group_kind g = (g.group, g.kind)

-- fields.Fields
pub record Fields : Type 0 where
  pub has : Str → Bool
  pub get : Str → Str

-- labels.Selector
pub record Selector : Type 0 where
  pub matches : Map Str Str → Bool
  pub string : Str

-- fields.Selector
pub record FieldSelector : Type 0 where
  pub matches : Fields → Bool
  pub string : Str

-- metav1.OwnerReference, less the two flags that the code always sets
pub record OwnerReference : Type 0 where
  pub api_version : Str
  pub kind : Str
  pub name : Str
  pub uid : Str

-- client.Object: the answers of its getters. `deleting` is `!GetDeletionTimestamp().IsZero()`.
-- `status` is the field Status, where the type has one, and `fields` the object as a fields.Fields,
-- where its type has those methods. `wrapped` says that it is an uncached.Holder round the object.
pub record Object : Type 0 where
  pub gvk : Gvk
  pub namespace : Str
  pub name : Str
  pub uid : Str
  pub resource_version : Str
  pub generation : ℕ
  pub labels : Map Str Str
  pub annotations : Map Str Str
  pub finalizers : List Str
  pub owner_references : List OwnerReference
  pub deleting : Bool
  pub status : Option Str
  pub fields : Option Fields
  pub wrapped : Bool

-- An object with nothing but its kind and its name, for tests.
abbrev pub blank_object : Gvk → Str → Str → Object
blank_object gvk namespace name = record {
  gvk = gvk;
  namespace = namespace;
  name = name;
  uid = [];
  resource_version = [];
  generation = 0;
  labels = [];
  annotations = [];
  finalizers = [];
  owner_references = [];
  deleting = false;
  status = none;
  fields = none;
  wrapped = false;
}
