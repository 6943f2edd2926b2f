-- ===== src/Apply/Patch/Clean.antt =====
-- What the cleaning of a patch takes out of it.
use baaah.Prelude.{
  Bool, false, Option, none, some, Str, str, List, [], ◌∷◌, if◌then◌else◌, ◌==◌, eq_iff, list_eq,
  nat_eq, any, ◌≡◌, refl, arith, inl, inr, eq_refl, Bool-cases, ◌∙◌, ap, sym,
}
use mathlib.Core.Path.{subst}
use baaah.Json.{Value, null, bool, number, string, bytes, list, object, Members, lookup}
use baaah.Json.Laws.{lookup-set, lookup-remove}
use baaah.Apply.Patch.{drop_key, drop_keys, metadata_keys, remove_metadata_fields, sanitize}

lookup-drop_key :
    (k j : Str) (b : Bool) (m : Members)
    → lookup j (drop_key k (b, m)).1 ≡ (if k == j then none else lookup j m)
lookup-drop_key k j b m = ground (arith, eq_iff k j, lookup-remove k j m)

lookup-drop_keys :
    (ks : List Str) (j : Str) (b : Bool) (m : Members)
    → lookup j (drop_keys ks (b, m)).1 ≡ (if any (λ k. k == j) ks then none else lookup j m)
unfolding drop_keys
lookup-drop_keys [] j b m = refl
lookup-drop_keys (k ∷ ks) j b m = ground (
  arith,
  lookup-drop_keys ks j (drop_key k (b, m)).0 (drop_key k (b, m)).1,
  lookup-drop_key k j b m,
)

abbrev metadata : Str
metadata = str "metadata"

-- a value under "metadata", without the fields that the server sets
abbrev pub cleared : Option Value → Option Value
cleared (some (object n)) = some (object (drop_keys metadata_keys (false, n)).1)
cleared v = v

lookup-remove_metadata_fields :
    (j : Str) (m : Members)
    → lookup j (remove_metadata_fields m).1
      ≡ (if metadata == j then cleared (lookup metadata m) else lookup j m)
unfolding remove_metadata_fields
lookup-remove_metadata_fields j m = go (lookup metadata m) refl
  where
    same :
        (v : Option Value)
        → lookup metadata m ≡ v
        → lookup j m ≡ (if metadata == j then v else lookup j m)
    same v e = elim (Bool-cases (metadata == j)) [
      | inl h ↦ rw (h) (ap (λ k. lookup k m) (sym ((eq_iff metadata j).0 h)) ∙ e)
      | inr h ↦ rw (h) refl
    ]

    go :
        (v : Option Value)
        → lookup metadata m ≡ v
        → lookup j (remove_metadata_fields m).1 ≡ (if metadata == j then cleared v else lookup j m)
    go none e = rw (e, remove_metadata_fields) (same none e)
    go (some null) e = rw (e, remove_metadata_fields) (same (some null) e)
    go (some (bool b)) e = rw (e, remove_metadata_fields) (same (some (bool b)) e)
    go (some (number n)) e = rw (e, remove_metadata_fields) (same (some (number n)) e)
    go (some (string s)) e = rw (e, remove_metadata_fields) (same (some (string s)) e)
    go (some (bytes s)) e = rw (e, remove_metadata_fields) (same (some (bytes s)) e)
    go (some (list l)) e = rw (e, remove_metadata_fields) (same (some (list l)) e)
    go (some (object n)) e =
        rw (e, remove_metadata_fields)
          (lookup-set metadata j (object (drop_keys metadata_keys (false, n)).1) m)

abbrev pub top_keys : List Str
top_keys = str "kind" ∷ str "apiVersion" ∷ str "status" ∷ []

-- both steps at one key, where the first leaves the key of the second alone
both_steps :
    (ks : List Str) (key j : Str) (m m1 : Members)
    → ((i : Str) → lookup i m1 ≡ (if any (λ k. k == i) ks then none else lookup i m))
    → any (λ k. k == key) ks ≡ false
    → (if key == j then cleared (lookup key m1) else lookup j m1) ≡ (
        if any (λ k. k == j) ks
        then none
        else if key == j
        then cleared (lookup key m)
        else lookup j m)
both_steps ks key j m m1 h n = elim (Bool-cases (key == j)) [
  | inr e ↦ rw (e) (h j)
  | inl e ↦ subst Same ((eq_iff key j).0 e) (rw (eq_refl key, n) (ap cleared (h key ∙ rw (n) refl)))
]
  where
    Same : Str → Type 0
    Same i = (if key == i then cleared (lookup key m1) else lookup i m1) ≡ (
        if any (λ k. k == i) ks
        then none
        else if key == i
        then cleared (lookup key m)
        else lookup i m)

-- A cleaned patch, as a document and with the annotations kept, has no kind, API version and
-- status; under the metadata, if that is a map, the fields of the server are gone; and any other
-- key is as it was.
pub lookup-sanitize :
    (j : Str) (m : Members)
    → lookup j (sanitize false m).1 ≡ (
        if any (λ k. k == j) top_keys
        then none
        else if str "metadata" == j
        then cleared (lookup (str "metadata") m)
        else lookup j m)
unfolding sanitize
lookup-sanitize j m =
    let m1 = (drop_keys top_keys (false, m)).1 in
    lookup-remove_metadata_fields j m1
    ∙ both_steps top_keys metadata j m m1 (λ i. lookup-drop_keys top_keys i false m) refl
