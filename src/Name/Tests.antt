-- ===== src/Name/Tests.antt =====
-- The laws of names at concrete parts.
use baaah.Prelude.{◌<◌, some, Str, str, [], ◌∷◌, ◌≡◌, refl, length, arith}
use baaah.Name.{safe_concat_name_with_separator_and_length}
use baaah.Name.Laws.{length-safe_concat_name_with_separator_and_length}

abbrev digest : Str → Str
digest s = str "0123456789"

length-safe_concat_name_with_separator_and_length_example :
    (s : Str) × (safe_concat_name_with_separator_and_length digest 10
        (str "-")
        (str "webserver" ∷ str "db" ∷ [])
      ≡ some s)
    × (length s < 10)
length-safe_concat_name_with_separator_and_length_example =
    length-safe_concat_name_with_separator_and_length digest 10 (str "-")
      (str "webserver" ∷ str "db" ∷ []) (ground arith) (ground arith)

safe_concat_test :
    safe_concat_name_with_separator_and_length digest 10 (str "-") (str "webserver" ∷ str "db" ∷ [])
    ≡ some (str "web-01234")
unfolding safe_concat_name_with_separator_and_length
safe_concat_test = refl
