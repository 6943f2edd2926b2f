-- ===== src/Json.antt =====
-- The values that encoding/json makes of a document: map[string]interface{} and what it holds.
pub mod Laws
use baaah.Prelude.{
  ℕ, zero, suc, Bool, Option, none, some, Str, if◌then◌else◌, ◌==◌, list_eq, nat_eq,
}

-- a number is its text; `bytes` is a []byte, which a document never holds
mutual
  pub data Value : Type 0 where
    null : Value
    bool : Bool → Value
    number : Str → Value
    string : Str → Value
    bytes : Str → Value
    list : Values → Value
    object : Members → Value

  pub data Values : Type 0 where
    nil : Values
    cons : Value → Values → Values

  pub data Members : Type 0 where
    empty : Members
    entry : Str → Value → Members → Members

-- len(m)
abbrev pub size : Members → ℕ
size empty = zero
size (entry k v m) = suc (size m)

-- v, ok := m[k]
unfoldable pub lookup : Str → Members → Option Value
lookup k empty = none
lookup k (entry j v m) = if j == k then some v else lookup k m

-- m[k] = v
unfoldable pub set : Str → Value → Members → Members
set k v empty = entry k v empty
set k v (entry j w m) = let rest = set k v m in if j == k then entry k v m else entry j w rest

-- delete(m, k)
unfoldable pub remove : Str → Members → Members
remove k empty = empty
remove k (entry j v m) = let rest = remove k m in if j == k then rest else entry j v rest

-- m, _ := v.(map[string]interface{}), for a value that may be missing
abbrev pub as_map : Option Value → Members
as_map (some (object m)) = m
as_map v = empty
