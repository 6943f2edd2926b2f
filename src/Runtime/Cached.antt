-- ===== src/Runtime/Cached.antt =====
-- pkg/runtime/cached.go: a client that remembers for a while what it wrote, so that a read through
-- the informers' cache does not go back behind it. An operation is handed the answer of the client that
-- it calls: the uncached one if the object is `wrapped` in an uncached.Holder, else the cached one.
pub mod Laws
use baaah.Prelude.{
  ℕ, ◌+◌, Bool, true, false, Option, none, some, Str, List, [], ◌∷◌, ◌&&◌, ltb, if◌then◌else◌, ◌≡◌,
  ◌↔◌, refl, arith, Eq, ◌==◌, eq_iff, list_eq, nat_eq,
}
use baaah.Prelude.Map
use baaah.Prelude.Map.{Map}
use baaah.Objects.{Gvk, gvk_eq, Object}
use baaah.Errors.{Error, Result, ok, err}
use baaah.Runtime.ResourceVersion.{newer}

pub record ObjectKey : Type 0 where
  pub gvk : Gvk
  pub namespace : Str
  pub name : Str

abbrev pub object_key_beq : ObjectKey → ObjectKey → Bool
object_key_beq a b = a.gvk == b.gvk && a.namespace == b.namespace && a.name == b.name

pub object_key_beq_iff : (a b : ObjectKey) → (object_key_beq a b ≡ true) ↔ (a ≡ b)
object_key_beq_iff a b =
    ground (arith, eq_iff a.gvk b.gvk, eq_iff a.namespace b.namespace, eq_iff a.name b.name)

instance abbrev pub object_key_eq : Eq ObjectKey
object_key_eq = record { beq = object_key_beq; beq_iff = object_key_beq_iff }

-- a time is a number of seconds
pub record ObjectValue : Type 0 where
  pub object : Object
  pub inserted : ℕ

abbrev pub Recent : Type 0
Recent = Map ObjectKey ObjectValue

abbrev pub cache_duration : ℕ
cache_duration = 10

abbrev pub key_of : Gvk → Object → ObjectKey
key_of g o = record { gvk = g; namespace = o.namespace; name = o.name }

-- one pass of the loop of startPurge, at the time `now`
unfoldable pub purge : ℕ → Recent → Recent
purge now [] = []
purge now ((k, v) ∷ m) =
    let rest = purge now m in if ltb (v.inserted + cache_duration) now then rest else (k, v) ∷ rest

-- What the types of Go objects decide: whether an object is an unstructured.Unstructured, whether the
-- type of one (the second) is assignable to that of another, the error that says that it is not, and
-- json.Unmarshal into the first object of what json.Marshal makes of the second.
pub record Types : Type 0 where
  pub is_unstructured : Object → Bool
  pub is_assignable : Object → Object → Bool
  pub not_assignable : Object → Object → Error
  pub json_into : Object → Object → Result Object

-- CopyInto: what it leaves in `dst`
unfoldable pub copy_into : Types → Object → Object → Result Object
copy_into t dst src =
    if t.is_unstructured src
    then t.json_into dst src
    else if t.is_assignable dst src
    then ok src
    else err (t.not_assignable dst src)

-- The map keeps the pointer that it is handed. The model keeps the object as it is then: a change that
-- the caller makes to it later is left out.
-- apiutil.GVKForObject is `gvk_for`; a failure leaves the map.
module _ (gvk_for : Object → Result Gvk) where
  unfoldable pub delete_store : Object → Recent → Recent
  delete_store o m = elim (gvk_for o) [ err e ↦ m | ok g ↦ Map.delete (key_of g o) m ]

  unfoldable pub store : ℕ → Object → Recent → Recent
  store now o m = elim (gvk_for o) [
    | err e ↦ m
    | ok g ↦ Map.insert (key_of g o) (record { object = o; inserted = now }) m
  ]

  -- the answer of Get, where the cache answered `cached`
  abbrev pub newest : Types → Object → Option ObjectValue → Result Object
  newest t cached none = ok cached
  newest t cached (some v) =
      if newer cached.resource_version v.object.resource_version
      then copy_into t cached v.object
      else ok cached

  -- cacheClient.Get
  unfoldable pub get : Types → Bool → Result Object → Recent → Result Object
  unfolding copy_into
  get t true answer m = answer
  get t false (err e) m = err e
  get t false (ok cached) m = elim (gvk_for cached) [
    | err e ↦ err e
    | ok g ↦ newest t cached (Map.get (key_of g cached) m)
  ]

  -- Create, Update and Patch: what the write left is remembered.
  unfoldable pub write :
      {W : Type 0}
      → Bool
      → ℕ
      → Option Error × Object × W
      → Recent
      → Option Error × Object × W × Recent
  unfolding store
  write true now (e, o, w) m = (e, o, w, m)
  write false now (some e, o, w) m = (some e, o, w, m)
  write false now (none, o, w) m = (none, o, w, store now o m)

  -- Delete
  unfoldable pub delete :
      {W : Type 0} → Bool → Object → Option Error × W → Recent → Option Error × W × Recent
  unfolding delete_store
  delete true o (e, w) m = (e, w, m)
  delete false o (some e, w) m = (some e, w, m)
  delete false o (none, w) m = (none, w, delete_store o m)
