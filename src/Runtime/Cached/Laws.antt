-- ===== src/Runtime/Cached/Laws.antt =====
-- A read sees at least what the process itself wrote last.
use baaah.Prelude.{
  ℕ, ◌+◌, ◌<◌, true, false, Option, none, some, Str, [], ◌≡◌, arith, eq_iff, ltb, if◌then◌else◌,
  ◌≢◌,
}
use baaah.Prelude.Map
use baaah.Objects.{Gvk, Object}
use baaah.Errors.{Result, ok}
use baaah.Runtime.ResourceVersion.{newer, IsDigits, value, int_limit, newer_lem}
use baaah.Runtime.Cached.{
  object_key_eq, ObjectValue, Recent, cache_duration, key_of, Types, copy_into, store, get, write,
  delete,
}

-- A resource version as the API server issues them.
abbrev pub IsVersion : Str → Type 0
IsVersion rv = IsDigits rv × (rv ≢ []) × (value rv < int_limit)

module _ (gvk_for : Object → Result Gvk) (t : Types) where
  -- After a write of `o` a read of the same key answers with a copy of `o`, if that is newer, or with
  -- what the cache has.
  pub get-store :
      (now : ℕ) (o cached : Object) (g : Gvk) (m : Recent)
      → gvk_for o ≡ ok g
      → gvk_for cached ≡ ok g
      → cached.namespace ≡ o.namespace
      → cached.name ≡ o.name
      → get gvk_for t false (ok cached) (store gvk_for now o m) ≡ (
          if newer cached.resource_version o.resource_version
          then copy_into t cached o
          else ok cached)
  unfolding get store
  get-store now o cached g m ho hc hns hn = ground (
    arith,
    eq_iff (key_of g o) (key_of g cached),
    Map.get-insert (key_of g o) (key_of g cached) (record { object = o; inserted = now }) m,
  )

  -- After a write that left `o`, a cached read of the same kind, namespace and name, whose object
  -- has the type of `o`, answers with a copy of `o`, where the cache still has an object of an
  -- older version; `o` is not an Unstructured and is not changed after the write, and both versions
  -- are unsigned decimal numbers below 2^63.
  pub get-write :
      {W : Type 0} (now : ℕ) (o cached : Object) (g : Gvk) (w : W) (m : Recent)
      → gvk_for o ≡ ok g
      → gvk_for cached ≡ ok g
      → cached.namespace ≡ o.namespace
      → cached.name ≡ o.name
      → t.is_unstructured o ≡ false
      → t.is_assignable cached o ≡ true
      → IsVersion cached.resource_version
      → IsVersion o.resource_version
      → value cached.resource_version < value o.resource_version
      → get gvk_for t false (ok cached) (write gvk_for false now (none, o, w) m).3 ≡ ok o
  unfolding write copy_into
  get-write now o cached g w m ho hc hns hn hu ha vc vo h = ground (
    arith,
    get-store now o cached g m ho hc hns hn,
    newer_lem cached.resource_version o.resource_version,
  )

  -- After a Delete the cache's answer is taken as it is.
  pub get-delete :
      {W : Type 0} (o cached : Object) (g : Gvk) (w : W) (m : Recent)
      → gvk_for o ≡ ok g
      → gvk_for cached ≡ ok g
      → cached.namespace ≡ o.namespace
      → cached.name ≡ o.name
      → get gvk_for t false (ok cached) (delete gvk_for false o (none, w) m).2 ≡ ok cached
  unfolding get delete
  get-delete o cached g w m ho hc hns hn = ground (
    arith,
    eq_iff (key_of g o) (key_of g cached),
    Map.get-delete (key_of g o) (key_of g cached) m,
  )

-- A value that is kept when the purge runs: it was inserted at most ten seconds ago.
abbrev pub unexpired : ℕ → Option ObjectValue → Option ObjectValue
unexpired now none = none
unexpired now (some v) = if ltb (v.inserted + cache_duration) now then none else some v
