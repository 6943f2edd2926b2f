-- ===== src/Json/Laws.antt =====
-- What is looked up in a document that was changed.
use baaah.Prelude.{none, some, Str, ◌≡◌, refl, arith, eq_iff, if◌then◌else◌, ◌==◌, list_eq, nat_eq}
use baaah.Json.{Value, Members, empty, entry, lookup, set, remove}

pub lookup-set :
    (k j : Str) (v : Value) (m : Members)
    → lookup j (set k v m) ≡ (if k == j then some v else lookup j m)
unfolding lookup set
lookup-set k j v empty = refl
lookup-set k j v (entry i w m) =
    ground (arith, eq_iff k j, eq_iff i k, eq_iff i j, lookup-set k j v m)

pub lookup-remove :
    (k j : Str) (m : Members) → lookup j (remove k m) ≡ (if k == j then none else lookup j m)
unfolding lookup remove
lookup-remove k j empty = ground arith
lookup-remove k j (entry i w m) =
    ground (arith, eq_iff k j, eq_iff i k, eq_iff i j, lookup-remove k j m)
