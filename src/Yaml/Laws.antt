-- ===== src/Yaml/Laws.antt =====
-- What an export keeps of an object.
use baaah.Prelude.{
  Bool, true, false, none, some, Str, str, any, if◌then◌else◌, ◌==◌, eq_iff, list_eq, nat_eq,
  has_prefix, ◌≡◌, refl, arith, inl, inr, Bool-cases, ◌∙◌, ◌&&◌,
}
use baaah.Errors.{ok, err, Result-cases}
use baaah.Json.{Value, object, Members, empty, entry, lookup, set, remove}
use baaah.Json.Laws.{lookup-set, lookup-remove}
use baaah.Yaml.{clean_prefix, clean_map, new_metadata, is_empty_spec, without_spec, clean_document}

lookup-without_spec :
    (j : Str) (d : Members)
    → lookup j (without_spec d)
      ≡ (if str "spec" == j && is_empty_spec (lookup (str "spec") d) then none else lookup j d)
lookup-without_spec j d = elim (Bool-cases (is_empty_spec (lookup (str "spec") d))) [
  | inl e ↦ rw (e, without_spec) (lookup-remove (str "spec") j d ∙ both (str "spec" == j))
  | inr e ↦ rw (e, without_spec) (neither (str "spec" == j))
]
  where
    both : (b : Bool) → (if b then none else lookup j d) ≡ (if b && true then none else lookup j d)
    both true = refl
    both false = refl

    neither : (b : Bool) → lookup j d ≡ (if b && false then none else lookup j d)
    neither true = refl
    neither false = refl

-- Where the cleaning of an object for export succeeds, the document has no status, its metadata are
-- the new ones, a spec that is null or empty is gone, and any other key is as it was.
pub lookup-clean_document :
    (j : Str) (d got : Members)
    → clean_document d ≡ ok got
    → lookup j got ≡ (
        if str "status" == j
        then none
        else if str "metadata" == j
        then (elim (new_metadata d) [ ok m ↦ some (object m) | err e ↦ none ])
        else if str "spec" == j && is_empty_spec (lookup (str "spec") d)
        then none
        else lookup j d)
unfolding clean_document
lookup-clean_document j d got h = elim (Result-cases (new_metadata d)) [
  | inr (x, e) ↦ ground (arith, h, e)
  | inl (m, e) ↦ rw (e) (at m (from m e))
]
  where
    from :
        (m : Members)
        → new_metadata d ≡ ok m
        → got ≡ remove (str "status") (set (str "metadata") (object m) (without_spec d))
    from m e = ground (arith, h, e)

    at :
        (m : Members)
        → got ≡ remove (str "status") (set (str "metadata") (object m) (without_spec d))
        → lookup j got ≡ (
            if str "status" == j
            then none
            else if str "metadata" == j
            then some (object m)
            else if str "spec" == j && is_empty_spec (lookup (str "spec") d)
            then none
            else lookup j d)
    at m f =
        rw
          (
            f,
            lookup-remove (str "status") j (set (str "metadata") (object m) (without_spec d)),
            lookup-set (str "metadata") j (object m) (without_spec d),
            lookup-without_spec j d,
          )
          refl

-- Of a map of annotations or labels exactly the keys with a prefix to clean are gone.
lookup-clean_map :
    (j : Str) (m : Members)
    → lookup j (clean_map m) ≡ (if any (λ p. has_prefix j p) clean_prefix then none else lookup j m)
unfolding lookup clean_map
lookup-clean_map j empty = go (any (λ p. has_prefix j p) clean_prefix)
  where
    go : (b : Bool) → lookup j empty ≡ (if b then none else lookup j empty)
    go true = refl
    go false = refl
lookup-clean_map j (entry k v m) =
    at_entry k j v m (λ i. any (λ p. has_prefix i p) clean_prefix) (lookup-clean_map j m)
  where
    at_entry :
        (k j : Str) (v : Value) (m : Members) (cleans : Str → Bool)
        → lookup j (clean_map m) ≡ (if cleans j then none else lookup j m)
        → lookup j (if cleans k then clean_map m else entry k v (clean_map m))
          ≡ (if cleans j then none else if k == j then some v else lookup j m)
    at_entry k j v m cleans h = ground (arith, eq_iff k j, h)
