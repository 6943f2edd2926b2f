-- ===== src/Apply/Owner.antt =====
-- pkg/apply/desiredset_owner.go: from an applied object back to its owner, and the changes of owner
-- that desiredset_process.go allows.
pub mod Laws
use baaah.Prelude.{
  ℕ, zero, suc, ◌-◌, Bool, true, false, ◌&&◌, ◌||◌, not, Option, none, some, Str, str, List, [],
  ◌∷◌, ◌++◌, cut, has_prefix, length, any, if◌then◌else◌, ◌==◌, list_eq, nat_eq,
}
use baaah.Objects.{Gvk, Object}
use baaah.Errors.{Error, Reason, plain, status, not_found, Result, ok, err}
use baaah.Apply.Labels.{read, label_gvk, label_name, label_namespace, label_sub_context}

abbrev pub kind_separator : Str
kind_separator = str ", Kind="

abbrev pub to_head : ℕ → List Str → List Str
to_head c [] = (c ∷ []) ∷ []
to_head c (s ∷ ss) = (c ∷ s) ∷ ss

-- strings.Split(s, sep), for a separator that is not empty: `n` bytes of one that was found are left.
split_from : Str → ℕ → Str → List Str
split_from sep n [] = [] ∷ []
split_from sep (suc n) (c ∷ s) = split_from sep n s
split_from sep zero (c ∷ s) = elim (has_prefix (c ∷ s) sep) [
  | true ↦ [] ∷ split_from sep (length sep - 1) s
  | false ↦ to_head c (split_from sep 0 s)
]

unfoldable pub split : Str → Str → List Str
unfolding split_from
split s sep = split_from sep 0 s

-- The label is read as its two parts.
abbrev pub gvk_of_parts : Str → Str → Gvk
gvk_of_parts group_version kind = record {
  group = (cut b'/' group_version).0;
  version = (cut b'/' group_version).1;
  kind = kind;
}

abbrev pub gvk_of_split : Error → List Str → Result Gvk
gvk_of_split e (a ∷ b ∷ []) = ok (gvk_of_parts a b)
gvk_of_split e _ = err e

-- getGVK
unfoldable pub get_gvk : Str → Result Gvk
unfolding split
get_gvk gvk_label =
    gvk_of_split (plain (str "invalid GVK format: " ++ gvk_label)) (split gvk_label kind_separator)

-- the results of FindOwner, with ErrOwnerNotFound apart
pub data FindOwner : Type 0 where
  found : Object → FindOwner
  owner_not_found : FindOwner
  failed : Error → FindOwner

abbrev pub of_result : Result Object → FindOwner
of_result (ok o) = found o
of_result (err e) = failed e

abbrev pub is_not_found : FindOwner → Bool
is_not_found (failed (status not_found s)) = true
is_not_found f = false

-- `get` is the read of the owner by the client.
module _ (get : Gvk → Str → Str → Result Object) where
  abbrev pub get_owner : Str → Str → Result Gvk → FindOwner
  get_owner namespace name (err e) = failed e
  get_owner namespace name (ok g) = of_result (get g namespace name)

  -- FindOwner
  unfoldable pub find_owner : Option Object → FindOwner
  unfolding get_gvk
  find_owner none = owner_not_found
  find_owner (some obj) =
      if read label_gvk obj.annotations == []
      then owner_not_found
      else get_owner (read label_namespace obj.annotations) (read label_name obj.annotations)
          (get_gvk (read label_gvk obj.annotations))

  module _ {W : Type 0} (gvk_for : Object → Result Gvk)
      (delete : Gvk → Str → Str → W → Option Error × W) where
    abbrev pub delete_orphan : Object → W → Option Error × W
    delete_orphan obj w = elim (gvk_for obj) [
      | err e ↦ (some e, w)
      | ok g ↦ delete g obj.namespace obj.name w
    ]

    abbrev pub purge_found : Object → FindOwner → W → Option Error × W
    purge_found obj (found o) w = (none, w)
    purge_found obj owner_not_found w = (none, w)
    purge_found obj (failed e) w =
        if is_not_found (failed e) then delete_orphan obj w else (some e, w)

    -- PurgeOrphan
    unfoldable pub purge_orphan : Option Object → W → Option Error × W
    unfolding find_owner
    purge_orphan none w = (none, w)
    purge_orphan (some obj) w = purge_found obj (find_owner (some obj)) w

-- a label of the existing object that is set and changes
abbrev pub changes : Str → Object → Object → Bool
changes label existing new =
    not (read label existing.annotations == [])
    && not (read label existing.annotations == read label new.annotations)

-- isAllowOwnerTransition; `valid_owner_change` lists what AddValidOwnerChange stored
unfoldable pub is_allow_owner_transition : List Str → Object → Object → Bool
is_allow_owner_transition valid_owner_change existing new =
    if read label_sub_context new.annotations == []
      || changes label_gvk existing new
      || changes label_namespace existing new
      || changes label_name existing new
    then false
    else any
        (λ change. change == (
          read label_sub_context existing.annotations
          ++ (str " => " ++ read label_sub_context new.annotations)))
        valid_owner_change

-- isAssigningSubContext
unfoldable pub is_assigning_sub_context : Object → Object → Bool
is_assigning_sub_context existing new =
    read label_sub_context existing.annotations == []
    && not (read label_sub_context new.annotations == [])
    && read label_gvk existing.annotations == read label_gvk new.annotations
    && read label_namespace existing.annotations == read label_namespace new.annotations
    && read label_name existing.annotations == read label_name new.annotations
