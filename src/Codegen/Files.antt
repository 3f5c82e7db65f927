-- ===== src/Codegen/Files.antt =====
-- The files that the generator writes and checks: `write_files` and `check_files` of
-- tools/semconv_codegen/generator.py. A path is its parent and its name, and the file system is a dict from
-- the paths of files to their contents. Lines end as on POSIX: a text is written as it is, and reading it turns
-- every carriage return, with the newline after it if there is one, into a newline.
pub mod Laws
mod Tests
use Prim.Native.Char.{Char, code}
use Prim.Native.String
use semconv_graph.Base.{
  ℕ, String, Bool, true, false, not, ◌&&◌, ◌||◌, Option, none, some, List, [], ◌∷◌, ◌==◌, string_eq,
  pair_eq, nat_eq, ◌<>◌, if◌then◌else◌, contains,
}
use semconv_graph.Base.Dict.{Dict, lookup, insert, keys, has_key, remove}

abbrev pub FilePath : Type 0
FilePath = String × String

abbrev pub Files : Type 0
Files = Dict FilePath String

unfoldable pub ends_with : String → String → Bool
ends_with suffix String.[] = String.[] == suffix
ends_with suffix (String.◌∷◌ c s) =
    let rest = ends_with suffix s in (String.◌∷◌ c s == suffix) || rest

-- Whether `generated_dir.glob("*.py")` gives the path of a file.
abbrev pub globbed : String → FilePath → Bool
globbed generated_dir p = p.0 == generated_dir && ends_with ".py" p.1

-- `path.parent == generated_dir and path.suffix == ".py"`; a name that is a suffix only has none.
abbrev pub is_expected : String → FilePath → Bool
is_expected generated_dir p = globbed generated_dir p && not (p.1 == ".py")

abbrev pub select : (FilePath → Bool) → List FilePath → List FilePath
select test [] = []
select test (p ∷ ps) = let rest = select test ps in if test p then p ∷ rest else rest

-- The first loop of `write_files`, over what the glob gives.
unfoldable pub unlink_stale : Files → List FilePath → Files → Files
unlink_stale files [] disk = disk
unlink_stale files (p ∷ ps) disk =
    unlink_stale files ps (if has_key p files then disk else remove p disk)

-- The second loop of `write_files`.
unfoldable pub write_all : Files → Files → Files
write_all [] disk = disk
write_all ((p, content) ∷ files) disk = write_all files (insert p content disk)

-- `write_files`. Directories are made as they are needed and are no part of the model.
unfoldable pub write_files : Files → String → Files → Files
write_files files generated_dir disk =
    write_all files (unlink_stale files (select (globbed generated_dir) (keys disk)) disk)

abbrev pub begins_newline : String → Bool
begins_newline String.[] = false
begins_newline (String.◌∷◌ c s) = code c == 10

-- The universal newlines of `read_text`.
unfoldable pub universal_newlines : String → String
universal_newlines String.[] = ""
universal_newlines (String.◌∷◌ c s) =
    let rest = universal_newlines s in
    if code c == 13 then (if begins_newline s then rest else "\n" <> rest) else String.◌∷◌ c rest

-- `path.read_text(…) if path.exists() else ""`
abbrev pub read_or_empty : Option String → String
read_or_empty none = ""
read_or_empty (some content) = universal_newlines content

-- The second loop of `check_files`, from the flag on.
unfoldable pub check_all : Files → Files → Bool → Bool
check_all [] disk failed = failed
check_all ((p, expected) ∷ files) disk failed =
    check_all files disk (if read_or_empty (lookup p disk) == expected then failed else true)

-- The first loop of `check_files`: whether a file that the glob gives is not expected.
unfoldable pub check_stale : List FilePath → List FilePath → Bool → Bool
check_stale expected [] failed = failed
check_stale expected (p ∷ ps) failed =
    check_stale expected ps (if contains expected p then failed else true)

-- `check_files`, without what it prints.
unfoldable pub check_files : Files → String → Files → ℕ
check_files files generated_dir disk =
    let failed =
      check_stale (select (is_expected generated_dir) (keys files))
        (select (globbed generated_dir) (keys disk)) false in
    if check_all files disk failed then 1 else 0
