-- ===== src/Apply/Compare/Laws.antt =====
-- Each key lands in one list at most, and in the one that its objects ask for.
use baaah.Prelude.{
  ℕ, ◌+◌, ◌≤◌, Bool, Option, none, some, Str, [], ◌∷◌, ◌≡◌, refl, arith, eq_iff, if◌then◌else◌,
  count, ◌∙◌, All, is_some, true,
}
use baaah.Prelude.Map
use baaah.Prelude.Map.{Map, Distinct}
use baaah.Objects.{Object}
use baaah.Apply.Sort.{sort, count-sort, IsSorted, sort-IsSorted}
use baaah.Apply.ObjectSet.{ObjectKey, object_key_eq, ObjectByKey, string}
use baaah.Apply.Labels.{annotation_create, annotation_update}
use baaah.Apply.Compare.{should, deletable, compare_new, compare_existing, compare_sets}

-- 1 where an object is there and passes the test, and 0 elsewhere
abbrev pub one_if : (Object → Bool) → Option Object → ℕ
one_if p none = 0
one_if p (some o) = if p o then 1 else 0

abbrev pub creates : ObjectByKey → ObjectByKey → ObjectKey → ℕ
creates existing new k = elim (Map.get k existing) [
  | none ↦ one_if (λ o. should o annotation_create) (Map.get k new)
  | some o ↦ 0
]

abbrev pub updates : ObjectByKey → ObjectByKey → ObjectKey → ℕ
updates existing new k = elim (Map.get k existing) [
  | none ↦ 0
  | some o ↦ one_if (λ o. should o annotation_update) (Map.get k new)
]

abbrev pub deletes : (Str → Str) → ObjectByKey → ObjectByKey → ObjectKey → ℕ
deletes hash existing new k = elim (Map.get k new) [
  | none ↦ one_if (deletable hash) (Map.get k existing)
  | some o ↦ 0
]

absent-compare_new :
    (existing new : ObjectByKey) (k : ObjectKey)
    → Map.get k new ≡ none
    → (count k (compare_new existing new).0 ≡ 0) × (count k (compare_new existing new).1 ≡ 0)
unfolding compare_new Map.get
absent-compare_new existing [] k h = (refl, refl)
absent-compare_new existing ((j, o) ∷ new) k h = ground (arith, absent-compare_new existing new k)

count-compare_new :
    (existing new : ObjectByKey) (k : ObjectKey)
    → Distinct new
    → (count k (compare_new existing new).0 ≡ creates existing new k)
      × (count k (compare_new existing new).1 ≡ updates existing new k)
unfolding compare_new Map.get
count-compare_new existing [] k d = ground arith
count-compare_new existing ((j, o) ∷ new) k d =
    ground (arith, eq_iff j k, absent-compare_new existing new k, count-compare_new existing new k)

absent-compare_existing :
    (hash : Str → Str) (new existing : ObjectByKey) (k : ObjectKey)
    → Map.get k existing ≡ none
    → count k (compare_existing hash new existing) ≡ 0
unfolding compare_existing Map.get
absent-compare_existing hash new [] k h = refl
absent-compare_existing hash new ((j, o) ∷ existing) k h =
    ground (arith, absent-compare_existing hash new existing k)

count-compare_existing :
    (hash : Str → Str) (new existing : ObjectByKey) (k : ObjectKey)
    → Distinct existing
    → count k (compare_existing hash new existing) ≡ deletes hash existing new k
unfolding compare_existing Map.get
count-compare_existing hash new [] k d = ground arith
count-compare_existing hash new ((j, o) ∷ existing) k d = ground (
  arith,
  eq_iff j k,
  absent-compare_existing hash new existing k,
  count-compare_existing hash new existing k,
)

compare_existing-nil :
    (hash : Str → Str) (new existing : ObjectByKey)
    → All (λ e. is_some (Map.get e.0 new) ≡ true) existing
    → compare_existing hash new existing ≡ []
unfolding compare_existing
compare_existing-nil hash new [] v = refl
compare_existing-nil hash new ((k, o) ∷ m) v = ground (arith, compare_existing-nil hash new m v.1)

-- Where all that is there is wanted, nothing is deleted.
pub compare_sets-wanted :
    (hash : Str → Str) (existing new : ObjectByKey)
    → All (λ e. is_some (Map.get e.0 new) ≡ true) existing
    → (compare_sets hash existing new).to_delete ≡ []
unfolding compare_sets sort
compare_sets-wanted hash existing new v = rw (compare_existing-nil hash new existing v) refl

module _ (hash : Str → Str) (existing new : ObjectByKey) where
  -- A key is to be created, once, exactly if it is wanted and missing and its object allows
  -- creation; to be updated, once, if it is wanted and there and the wanted object allows updates;
  -- to be deleted, once, if it is there and not wanted and may be pruned, is not being deleted and
  -- carries its own hash or none; the keys of both sets are distinct.
  pub count-compare_sets :
      (k : ObjectKey)
      → Distinct existing
      → Distinct new
      → (count k (compare_sets hash existing new).to_create ≡ creates existing new k)
        × (count k (compare_sets hash existing new).to_update ≡ updates existing new k)
        × (count k (compare_sets hash existing new).to_delete ≡ deletes hash existing new k)
  unfolding compare_sets
  count-compare_sets k d e =
      let (c, u) = count-compare_new existing new k e in
      (
        count-sort string k (compare_new existing new).0 ∙ c,
        count-sort string k (compare_new existing new).1 ∙ u,
        count-sort string k (compare_existing hash new existing)
            ∙ count-compare_existing hash new existing k d,
      )

  -- No key is in two of the lists of keys to create, to update and to delete, nor twice in one; the
  -- keys of both sets are distinct.
  pub compare_sets_disjoint :
      (k : ObjectKey)
      → Distinct existing
      → Distinct new
      → count k (compare_sets hash existing new).to_create
          + count k (compare_sets hash existing new).to_update
          + count k (compare_sets hash existing new).to_delete
        ≤ 1
  compare_sets_disjoint k d e = ground (arith, count-compare_sets k d e)

  -- The keys to create, to update and to delete each come in the order of their texts.
  pub compare_sets-IsSorted :
      IsSorted string (compare_sets hash existing new).to_create
      × IsSorted string (compare_sets hash existing new).to_update
      × IsSorted string (compare_sets hash existing new).to_delete
  unfolding compare_sets
  compare_sets-IsSorted = (sort-IsSorted string _, sort-IsSorted string _, sort-IsSorted string _)
