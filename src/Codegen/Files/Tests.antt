-- ===== src/Codegen/Files/Tests.antt =====
-- A disk with a stale module and an old one.
use semconv_graph.Base.{[], ◌∷◌, string_eq, pair_eq, string_dec, true, ◌≡◌, refl}
use native.Mathlib.Decide.{ℕ_discrete}
use semconv_graph.Base.Dict.{lookup, insert, keys, remove, NodupKeys, every}
use semconv_graph.Codegen.Files.{
  Files, ends_with, unlink_stale, write_all, write_files, universal_newlines, check_all,
  check_stale, check_files,
}
use semconv_graph.Codegen.Files.Laws.{
  after_write, is_readable, lookup-write_files, check_files-write_files,
}

abbrev disk : Files
disk =
    (("generated", "old.py"), "x")
    ∷ (("generated", "edges.py"), "y")
    ∷ (("generated", "notes.txt"), "z")
    ∷ (("metadata", "old.py"), "w")
    ∷ []

abbrev files : Files
files = (("generated", "edges.py"), "new") ∷ (("metadata", "schema.json"), "{}") ∷ []

files-NodupKeys : NodupKeys files
unfolding lookup string_dec
files-NodupKeys = (refl, (refl, tt))

written :
    write_files files "generated" disk
    ≡ (("generated", "edges.py"), "new")
      ∷ (("generated", "notes.txt"), "z")
      ∷ (("metadata", "old.py"), "w")
      ∷ (("metadata", "schema.json"), "{}")
      ∷ []
unfolding write_files write_all unlink_stale ends_with keys remove insert lookup string_dec
    ℕ_discrete
written = refl

abbrev returning : Files
returning = (("generated", "edges.py"), "a\r\nb") ∷ []

-- A carriage return does not survive the reading.
return_not_read : check_files returning "generated" (write_files returning "generated" []) ≡ 1
unfolding write_files write_all unlink_stale check_files check_all check_stale universal_newlines
    ends_with keys remove insert lookup string_dec ℕ_discrete
return_not_read = refl

not_up_to_date : check_files files "generated" disk ≡ 1
unfolding check_files check_all check_stale universal_newlines ends_with keys lookup string_dec
    ℕ_discrete
not_up_to_date = refl

lookup-write_files_example :
    lookup ("generated", "old.py") (write_files files "generated" disk)
    ≡ after_write files "generated" disk ("generated", "old.py")
lookup-write_files_example =
    lookup-write_files files "generated" disk ("generated", "old.py") files-NodupKeys

named : every is_readable files ≡ true
unfolding string_dec ℕ_discrete
named = refl

check_files-write_files_example :
    check_files files "generated" (write_files files "generated" disk) ≡ 0
check_files-write_files_example =
    check_files-write_files files "generated" disk files-NodupKeys named
