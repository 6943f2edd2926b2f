-- ===== src/Yaml/Tests.antt =====
-- The export of a small object.
use baaah.Prelude.{false, some, none, Str, str, ◌≡◌, refl}
use baaah.Json.{Value, string, object, Members, empty, entry, lookup}
use baaah.Yaml.{new_metadata, clean_document}
use baaah.Yaml.Laws.{lookup-clean_document}

abbrev pod : Members
pod = entry (str "kind") (string (str "Pod")) (
    entry (str "metadata")
      (object (
        entry (str "uid") (string (str "1")) (
          entry (str "annotations")
            (object (entry (str "kubectl.kubernetes.io/last") (string (str "x")) empty))
            (entry (str "name") (string (str "a")) empty))))
      (entry (str "spec") (object empty) (entry (str "status") (string (str "ready")) empty)))

lookup-clean_document_example :
    lookup (str "metadata") (
      entry
        (str "kind")
        (string (str "Pod"))
        (entry (str "metadata") (object (entry (str "name") (string (str "a")) empty)) empty))
    ≡ some (object (entry (str "name") (string (str "a")) empty))
unfolding clean_document lookup new_metadata baaah.Json.set baaah.Json.remove baaah.Yaml.clean_map
    baaah.Prelude.strip_prefix
lookup-clean_document_example = lookup-clean_document (str "metadata") pod _ refl
