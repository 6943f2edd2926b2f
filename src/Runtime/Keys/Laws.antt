-- ===== src/Runtime/Keys/Laws.antt =====
-- Keys are read back as they were written, and marked keys are told apart.
use baaah.Prelude.{
  true, false, Str, [], ◌∷◌, ◌++◌, ◌≡◌, ◌≢◌, arith, eq_iff, list_eq, nat_eq, ℤ, pos, lt_int, cut,
  has_prefix, strip_prefix,
}
use baaah.Prelude.Text.Laws.{Lacks, cut-append, cut_of_Lacks, cut_join}
use baaah.Router.Keys.{trigger_prefix, replay_prefix, decode}
use baaah.Router.Keys.Laws.{decode-trigger}
use baaah.Runtime.Keys.{slash, key_func, key_parse, is_special_key, after, now, trigger}

-- The key of a namespace and a name without slashes is read back as that namespace and that name,
-- an empty namespace too.
pub key_parse-key_func :
    (namespace name : Str)
    → Lacks slash namespace
    → Lacks slash name
    → key_parse (key_func namespace name) ≡ (namespace, name)
unfolding key_parse key_func
key_parse-key_func [] name l k = ground (arith, cut_of_Lacks slash name k)
key_parse-key_func (c ∷ ns) name l k = ground (arith, cut-append slash (c ∷ ns) name l)

pub key_func-key_parse :
    (key : Str) → (key_parse key).0 ≢ [] → key_func (key_parse key).0 (key_parse key).1 ≡ key
unfolding key_parse key_func
key_func-key_parse key n = ground (arith, cut_join slash key, eq_iff (cut slash key).0 [])

-- Trigger with a positive delay enqueues the key itself after that delay, where the key does not
-- begin with a slash.
pub trigger_delayed :
    (key : Str) (delay : ℤ)
    → lt_int (pos 0) delay ≡ true
    → has_prefix key (slash ∷ []) ≡ false
    → trigger key delay ≡ after key delay
unfolding trigger key_func strip_prefix cut
trigger_delayed [] delay p n = ground arith
trigger_delayed (c ∷ key) delay p n = ground (arith, cut_join slash (c ∷ key), eq_iff c slash)

is_special_key-trigger : (key : Str) → is_special_key (trigger_prefix ++ key) ≡ true
unfolding is_special_key
is_special_key-trigger key = ground arith

-- Trigger without a positive delay enqueues a key that the controller takes for a special one and
-- that the router reads back as a trigger of `key`, where `key` is not marked as a replay.
pub trigger-decode :
    (key : Str) (delay : ℤ)
    → lt_int (pos 0) delay ≡ false
    → has_prefix key replay_prefix ≡ false
    → (k : Str) × (trigger key delay ≡ now k)
      × (is_special_key k ≡ true)
      × (decode k ≡ record { from_trigger = true; from_replay = false; key = key })
unfolding trigger
trigger-decode key delay p n =
    (trigger_prefix ++ key, ground arith, is_special_key-trigger key, decode-trigger key n)
