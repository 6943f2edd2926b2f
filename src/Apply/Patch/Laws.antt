-- ===== src/Apply/Patch/Laws.antt =====
-- What a note of the applied state, its annotation and a cleaned patch can hold.
use baaah.Prelude.{
  ℕ, zero, suc, Bool, true, false, some, Str, [], ◌∷◌, ◌++◌, list_eq, nat_eq, leb, ltb, length,
  length-append, ◌≡◌, ◌≢◌, refl, arith, ◌≤◌, ◌&&◌, inl, inr, Option-cases, Bool-cases, ap, ◌∙◌,
}
use mathlib.Core.Path.{ap₂}
use baaah.Json.{
  Value, null, bool, number, string, bytes, list, object, Values, Members, nil, cons, empty, entry,
}
use baaah.Apply.Patch.{
  take, is_known, shorten, leaf, prune_list, prune_values, Codec, applied_to_annotation,
  applied_from_annotation,
}

length-take : (n : ℕ) (s : Str) → length (take n s) ≤ n
length-take zero s = omega arith
length-take (suc n) [] = omega arith
length-take (suc n) (c ∷ s) = omega (arith, length-take n s)

-- A text is kept under a known key of an item of a list, and has at most 72 bytes under any other key.
abbrev pub leaf_fits : Bool → Value → Bool
leaf_fits true v = true
leaf_fits false (string x) = leb (length x) 72
leaf_fits false (bytes x) = false
leaf_fits false v = true

abbrev pub fits : Bool → Str → Value → Bool
fits is_list k v = leaf_fits (is_list && is_known k) v

unfoldable mutual
  pub list_fits : Values → Bool
  list_fits nil = true
  list_fits (cons (object m) vs) = members_fit true m && list_fits vs
  list_fits (cons (list l) vs) = list_fits l && list_fits vs
  list_fits (cons null vs) = list_fits vs
  list_fits (cons (bool b) vs) = list_fits vs
  list_fits (cons (number n) vs) = list_fits vs
  list_fits (cons (string x) vs) = list_fits vs
  list_fits (cons (bytes x) vs) = list_fits vs

  pub members_fit : Bool → Members → Bool
  members_fit is_list empty = true
  members_fit is_list (entry k (object n) m) = members_fit false n && members_fit is_list m
  members_fit is_list (entry k (list l) m) = list_fits l && members_fit is_list m
  members_fit is_list (entry k null m) = members_fit is_list m
  members_fit is_list (entry k (bool b) m) = members_fit is_list m
  members_fit is_list (entry k (number n) m) = members_fit is_list m
  members_fit is_list (entry k (string x) m) = fits is_list k (string x) && members_fit is_list m
  members_fit is_list (entry k (bytes x) m) = fits is_list k (bytes x) && members_fit is_list m

module _ (digest : Str → Str) where
  length-shorten : (x : Str) → length (shorten digest x) ≤ 72
  length-shorten x = elim (Bool-cases (ltb 64 (length x))) [
    | inl h ↦
        rw (h, shorten)
          (cut_short (take 64 x) (take 8 (digest x)) (length-take 64 x) (length-take 8 (digest x)))
    | inr h ↦ rw (h, shorten) (short_enough (length x) h)
  ]
    where
      cut_short : (a b : Str) → length a ≤ 64 → length b ≤ 8 → length (a ++ b) ≤ 72
      cut_short a b h k = omega (arith, length-append a b, h, k)

      short_enough : (n : ℕ) → ltb 64 n ≡ false → n ≤ 72
      short_enough n h = ground (arith, h)

  leb-lem : (a b : ℕ) → a ≤ b → leb a b ≡ true
  leb-lem a b h = ground (arith, h)

  members_fit-leaf :
      (b is_list : Bool) (k x : Str) (m : Members)
      → (is_list && is_known k) ≡ b
      → members_fit is_list m ≡ true
      → members_fit is_list (entry k (leaf digest b (string x)) m) ≡ true
  unfolding members_fit
  members_fit-leaf true is_list k x m e h = ap₂ (λ c d. leaf_fits c (string x) && d) e h
  members_fit-leaf false is_list k x m e h =
      ap₂ (λ c d. leaf_fits c (string (shorten digest x)) && d) e h
      ∙ ap (λ c. c && true) (leb-lem _ _ (length-shorten x))

  members_fit-bytes :
      (b is_list : Bool) (k x : Str) (m : Members)
      → (is_list && is_known k) ≡ b
      → members_fit is_list m ≡ true
      → members_fit is_list (entry k (leaf digest b (bytes x)) m) ≡ true
  unfolding members_fit
  members_fit-bytes true is_list k x m e h = ap₂ (λ c d. leaf_fits c (bytes x) && d) e h
  members_fit-bytes false is_list k x m e h = h

  mutual
    unfolding prune_values members_fit

    list_fits-pruned : (l : Values) → list_fits (prune_list digest l) ≡ true
    list_fits-pruned nil = refl
    list_fits-pruned (cons (object m) vs) =
        ground (arith, members_fit-pruned true m, list_fits-pruned vs)
    list_fits-pruned (cons (list l) vs) = ground (arith, list_fits-pruned l, list_fits-pruned vs)
    list_fits-pruned (cons null vs) = list_fits-pruned vs
    list_fits-pruned (cons (bool b) vs) = list_fits-pruned vs
    list_fits-pruned (cons (number n) vs) = list_fits-pruned vs
    list_fits-pruned (cons (string x) vs) = list_fits-pruned vs
    list_fits-pruned (cons (bytes x) vs) = list_fits-pruned vs

    members_fit-pruned :
        (is_list : Bool) (m : Members) → members_fit is_list (prune_values digest is_list m) ≡ true
    members_fit-pruned is_list empty = refl
    members_fit-pruned is_list (entry k (object n) m) =
        ground (arith, members_fit-pruned false n, members_fit-pruned is_list m)
    members_fit-pruned is_list (entry k (list l) m) =
        ground (arith, list_fits-pruned l, members_fit-pruned is_list m)
    members_fit-pruned is_list (entry k null m) = members_fit-pruned is_list m
    members_fit-pruned is_list (entry k (bool b) m) = members_fit-pruned is_list m
    members_fit-pruned is_list (entry k (number n) m) = members_fit-pruned is_list m
    members_fit-pruned is_list (entry k (string x) m) =
        members_fit-leaf (is_list && is_known k) is_list k x (prune_values digest is_list m) refl
          (members_fit-pruned is_list m)
    members_fit-pruned is_list (entry k (bytes x) m) =
        members_fit-bytes (is_list && is_known k) is_list k x (prune_values digest is_list m) refl
          (members_fit-pruned is_list m)

  -- After the pruning of a document every text that stands under a key has at most 72 bytes, and no
  -- key holds bytes, at any depth, but for the known keys of the items of a list, whatever the
  -- digest is.
  pub members_fit-prune_values :
      (is_list : Bool) (m : Members) → members_fit is_list (prune_values digest is_list m) ≡ true
  members_fit-prune_values is_list m = members_fit-pruned is_list m

-- A text that starts with a brace is read back from the annotation that is made of it, whether the
-- compression fails or not: the compression and the encoding can be undone where they succeed, and
-- an encoded text is not empty and does not start with a brace.
pub applied_from_annotation-applied_to_annotation :
    (c : Codec) (x : ℕ) (b : Str)
    → x ≡ b'{'
    → ((z : Str) → c.gzip (x ∷ b) ≡ some z → c.gunzip z ≡ some (x ∷ b))
    → ((z : Str) → c.decode (c.encode z) ≡ some z)
    → ((z : Str)
        → c.gzip (x ∷ b) ≡ some z
        → (y : ℕ) × (s : Str) × (c.encode z ≡ y ∷ s) × (y ≢ b'{'))
    → applied_from_annotation c (applied_to_annotation c (x ∷ b)) ≡ x ∷ b
unfolding applied_from_annotation applied_to_annotation
applied_from_annotation-applied_to_annotation c x b o g d e = elim (Option-cases (c.gzip (x ∷ b))) [
  | inl h ↦ ground (arith, h, o)
  | inr (z, h) ↦ let (y, s, k, n) = e z h in ground (arith, h, k, n, d z, g z h)
]
