-- ===== src/Runtime/Keys.antt =====
-- The keys of the work queues: keyFunc, keyParse and isSpecialKey of pkg/runtime/controller.go, and
-- the key under which Trigger of pkg/runtime/backend.go enqueues.
pub mod Laws
use baaah.Prelude.{
  ℕ, zero, suc, Bool, true, false, Str, List, [], ◌∷◌, ◌++◌, ◌&&◌, ◌==◌, nat_eq, list_eq, ltb,
  length, cut, ℤ, pos, lt_int, if◌then◌else◌,
}
use baaah.Router.Keys.{trigger_prefix}

abbrev pub slash : ℕ
slash = b'/'

unfoldable pub key_func : Str → Str → Str
key_func namespace name = if namespace == [] then name else namespace ++ slash ∷ name

unfoldable pub key_parse : Str → Str × Str
key_parse key =
    let (before, after, ok) = cut slash key in if ok then (before, after) else ([], before)

-- key[i] == c, after a test that the key is long enough
abbrev pub byte_is : ℕ → Str → ℕ → Bool
byte_is c [] i = false
byte_is c (d ∷ s) zero = d == c
byte_is c (d ∷ s) (suc i) = byte_is c s i

unfoldable pub is_special_key : Str → Bool
is_special_key key = ltb 2 (length key) && byte_is b'_' key 0 && byte_is b' ' key 2

-- a call of a controller: EnqueueAfter, with its key, or EnqueueKey
pub data Enqueue : Type 0 where
  after : Str → ℤ → Enqueue
  now : Str → Enqueue

-- Backend.Trigger, on the controller of the kind
unfoldable pub trigger : Str → ℤ → Enqueue
trigger key delay =
    if lt_int (pos 0) delay
    then (let (ns, name, ok) = cut slash key in
        if ok then after (key_func ns name) delay else after (key_func [] key) delay)
    else now (trigger_prefix ++ key)
