-- ===== src/Apply/Process/Tests.antt =====
-- `process` run on a cluster that is a list of the objects of one kind.
use baaah.Prelude.{
  Bool, true, false, not, Option, none, some, str, List, [], ◌∷◌, ◌++◌, if◌then◌else◌, ◌==◌, eq_iff,
  list_eq, nat_eq, ◌≡◌, refl, arith, All, any, any-append, filter,
}
use mathlib.Core.Path.{subst}
use baaah.Prelude.Map
use baaah.Objects.{Gvk, gvk_eq, Object, Selector, blank_object}
use baaah.Errors.{status, already_exists, not_found, Result, ok, err, OnOk}
use baaah.Apply.ObjectSet.{ObjectKey, object_key_eq, ObjectSet, key_of, new_object_set}
use baaah.Apply.Client.{Client}
use baaah.Apply.Process.{Options, compared, Patcher, process}
use baaah.Apply.Process.Calls.{IsStore}
use baaah.Apply.Process.Laws.{process-expected}

abbrev pub Cluster : Type 0
Cluster = List Object

abbrev pub has : ObjectKey → Cluster → Bool
has k w = any (λ o. key_of o == k) w

abbrev get_object : ObjectKey → Cluster → Result Object
get_object k [] = err (status not_found (str "not found"))
get_object k (o ∷ w) = if key_of o == k then ok o else get_object k w

abbrev pub cluster_client : Client Cluster
cluster_client = record {
  gvk_for_object = λ o. ok o.gvk;
  rest_mapping = λ gk v. ok true;
  new_requirement = λ k v. ok (record { matches = λ m. true; string = [] });
  scheme_new = λ g. none;
  is_not_registered = λ e. false;
  create = λ o w.
      if has (key_of o) w
      then (some (status already_exists (str "exists")), o, w)
      else (none, o, w ++ o ∷ []);
  get = λ g ns n w. (get_object (record { name = n; namespace = ns }) w, w);
  list = λ g ns sel w. (ok w, w);
  delete =
      λ g ns n w. (none, filter (λ o. not (key_of o == record { name = n; namespace = ns })) w);
}

abbrev pub plain_patcher : Patcher Cluster
plain_patcher = record {
  prepare_object_for_create = λ g o clone. ok o;
  compare_objects = λ g old new w. (compared none, new, w);
}

has-get_object : (k : ObjectKey) (w : Cluster) (o : Object) → get_object k w ≡ ok o → has k w ≡ true
has-get_object k [] o h = ground arith
has-get_object k (x ∷ w) o h = ground (arith, has-get_object k w o)

pub has-filter :
    (k j : ObjectKey) (w : Cluster)
    → has j (filter (λ o. not (key_of o == k)) w) ≡ (if k == j then false else has j w)
has-filter k j [] = ground arith
has-filter k j (o ∷ w) =
    ground (arith, eq_iff k j, eq_iff (key_of o) k, eq_iff (key_of o) j, has-filter k j w)

All-has :
    (os w : Cluster)
    → ((k : ObjectKey) → has k os ≡ true → has k w ≡ true)
    → All (λ o. has (key_of o) w ≡ true) os
All-has [] w h = tt
All-has (o ∷ os) w h = (
  h (key_of o) (ground (arith, eq_iff (key_of o) (key_of o))),
  All-has os w (λ k m. h k (ground (arith, m))),
)

abbrev pub pod : Gvk
pod = record { group = []; version = str "v1"; kind = str "Pod" }

pub cluster-IsStore : IsStore cluster_client plain_patcher pod has
cluster-IsStore = record {
  has_create = λ o w k.
      ground (arith, eq_iff (key_of o) k, any-append (λ (x : Object). key_of x == k) w (o ∷ []));
  has_list = λ ns sel w k. refl;
  list_has = λ ns sel w os h.
      subst (OnOk (λ xs. All (λ o. has (key_of o) w ≡ true) xs)) h (All-has w w (λ k m. m));
  has_get = λ ns n w k. refl;
  get_has = λ ns n w o h. has-get_object _ w o h;
  has_delete = λ k w j. has-filter k j w;
  has_compare = λ old new w k. refl;
  key_prepare = λ o q clone h. ground (arith, h);
}

abbrev options : Options
options = record {
  default_namespace = str "ns";
  lister_namespace = str "ns";
  owner = none;
  ensure = false;
  no_prune = false;
  debug_id = [];
  valid_owner_change = [];
  hash = λ s. s;
  gvk_string = λ g. g.kind;
}

abbrev pub a : Object
a = blank_object pod (str "ns") (str "a")

abbrev pub b : Object
b = blank_object pod [] (str "b")

abbrev wanted : ObjectSet
wanted = (new_object_set (λ o. ok o.gvk) (some b ∷ [])).1

abbrev everything : Option Selector
everything = some (record { matches = λ m. true; string = [] })

process-expected_example :
    has (key_of a) (process cluster_client plain_patcher options pod everything wanted (a ∷ [])).1
    ≡ false
unfolding new_object_set process Map.get_list Map.get Map.insert baaah.Merr.new_errors
    baaah.Apply.Compare.compare_sets baaah.Apply.Sort.sort baaah.Apply.Namespaces.adjust_namespace
    Map.delete baaah.Apply.Compare.should baaah.Apply.Namespaces.filter_cross_version
    baaah.Apply.ObjectSet.contains
process-expected_example =
    process-expected cluster_client plain_patcher options pod has cluster-IsStore refl everything
      wanted true _ _ (a ∷ []) (key_of a) (refl, tt) (refl, tt) refl refl refl refl
