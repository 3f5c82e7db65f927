-- ===== src/Codegen/Files/Laws.antt =====
-- What writing leaves on the disk, and that the check accepts it.
use Prim.Native.Char.{code}
use semconv_graph.Base.{
  nat_eq, String, Bool, true, false, not, ◌&&◌, Option, none, some, List, [], ◌∷◌, ◌==◌, string_eq,
  pair_eq, if◌then◌else◌, contains, ◌≡◌, refl, ap, arith, Bool-cases, Option-cases, inl, inr,
}
use semconv_graph.Base.Dict.{
  lookup, insert, keys, has_key, remove, lookup-remove, lookup-insert, NodupKeys, every,
  lookup-every,
}
use semconv_graph.Codegen.Files.{
  FilePath, Files, globbed, is_expected, select, unlink_stale, write_all, write_files,
  read_or_empty, universal_newlines, check_all, check_stale, check_files,
}

contains-keys : (j : FilePath) (d : Files) → contains (keys d) j ≡ has_key j d
unfolding keys lookup
contains-keys j [] = refl
contains-keys j ((p, c) ∷ d) = ground (arith, contains-keys j d)

contains-select :
    (test : FilePath → Bool) (ps : List FilePath) (j : FilePath)
    → contains (select test ps) j ≡ (contains ps j && test j)
contains-select test [] j = refl
contains-select test (p ∷ ps) j = elim (Bool-cases (j == p)) [
  | inl same ↦
      let eq : j ≡ p = ground arith in
      let respects : test j ≡ test p = ap test eq in ground (arith, contains-select test ps j)
  | inr differ ↦ ground (arith, contains-select test ps j)
]

lookup-unlink_stale :
    (files : Files) (ps : List FilePath) (disk : Files) (j : FilePath)
    → lookup j (unlink_stale files ps disk)
      ≡ (if contains ps j && not (has_key j files) then none else lookup j disk)
unfolding unlink_stale
lookup-unlink_stale files [] disk j = refl
lookup-unlink_stale files (p ∷ ps) disk j = elim (Bool-cases (j == p)) [
  | inl same ↦
      let eq : j ≡ p = ground arith in
      let respects : has_key j files ≡ has_key p files = ap (λ x. has_key x files) eq in
      ground (
        arith,
        lookup-unlink_stale files ps (if has_key p files then disk else remove p disk) j,
        lookup-remove j p disk,
      )
  | inr differ ↦ ground (
    arith,
    lookup-unlink_stale files ps (if has_key p files then disk else remove p disk) j,
    lookup-remove j p disk,
  )
]

lookup-write_all :
    (files disk : Files) (j : FilePath)
    → NodupKeys files
    → lookup j (write_all files disk)
      ≡ elim (lookup j files) [ none ↦ lookup j disk | some c ↦ some c ]
unfolding write_all lookup
lookup-write_all [] disk j once = refl
lookup-write_all ((p, c) ∷ files) disk j (fresh, once) = elim (Bool-cases (j == p)) [
  | inl same ↦
      let eq : j ≡ p = ground arith in
      let fresh' : lookup j files ≡ none = rw eq fresh in
      ground (arith, lookup-write_all files (insert p c disk) j once, lookup-insert j p c disk)
  | inr differ ↦
      ground (arith, lookup-write_all files (insert p c disk) j once, lookup-insert j p c disk)
]

-- What is on the disk after the files were written, at each path.
abbrev pub after_write : Files → String → Files → FilePath → Option String
after_write files generated_dir disk j = elim (lookup j files) [
  | some content ↦ some content
  | none ↦ if globbed generated_dir j then none else lookup j disk
]

-- After `write_files` each of the files has its content, no other Python module is left in the generated
-- directory, and everything else is as it was.
pub lookup-write_files :
    (files : Files) (generated_dir : String) (disk : Files) (j : FilePath)
    → NodupKeys files
    → lookup j (write_files files generated_dir disk) ≡ after_write files generated_dir disk j
unfolding write_files
lookup-write_files files generated_dir disk j once =
    let ps = select (globbed generated_dir) (keys disk) in
    ground (
      arith,
      lookup-write_all files (unlink_stale files ps disk) j once,
      lookup-unlink_stale files ps disk j,
      contains-select (globbed generated_dir) (keys disk) j,
      contains-keys j disk,
    )

check_stale_passes :
    (expected ps : List FilePath) (failed : Bool)
    → ((p : FilePath) → contains ps p ≡ true → contains expected p ≡ true)
    → check_stale expected ps failed ≡ failed
unfolding check_stale
check_stale_passes expected [] failed h = refl
check_stale_passes expected (p ∷ ps) failed h =
    let here : contains expected p ≡ true = h p (ground arith) in
    rw (check_stale, here) (check_stale_passes expected ps failed (λ q there. h q (ground arith)))

later :
    (p q : FilePath) (c w : String) (files : Files)
    → lookup p files ≡ none
    → lookup q files ≡ some w
    → lookup q ((p, c) ∷ files) ≡ some w
unfolding lookup
later p q c w files fresh found = elim (Bool-cases (q == p)) [
  | inl same ↦
      let eq : q ≡ p = ground arith in
      let gone : lookup q files ≡ none = rw eq fresh in absurd (ground arith)
  | inr differ ↦ rw (lookup, differ) found
]

check_all_passes :
    (files disk : Files) (failed : Bool)
    → NodupKeys files
    → ((p : FilePath) (c : String) → lookup p files ≡ some c → read_or_empty (lookup p disk) ≡ c)
    → check_all files disk failed ≡ failed
unfolding check_all lookup
check_all_passes [] disk failed once h = refl
check_all_passes ((p, c) ∷ files) disk failed (fresh, once) h =
    let here : read_or_empty (lookup p disk) ≡ c = h p c (ground arith) in
    let fits : (read_or_empty (lookup p disk) == c) ≡ true = ground arith in
    rw (check_all, fits)
      (check_all_passes files disk failed once
        (λ q w found. h q w (later p q c w files fresh found)))

abbrev pub without_returns : String → Bool
without_returns String.[] = true
without_returns (String.◌∷◌ c s) = not (code c == 13) && without_returns s

universal_newlines-eq : (s : String) → without_returns s ≡ true → universal_newlines s ≡ s
unfolding universal_newlines
universal_newlines-eq String.[] h = refl
universal_newlines-eq (String.◌∷◌ c s) h =
    let other : (code c == 13) ≡ false = ground arith in
    rw (universal_newlines, other)
      (ap (λ t. String.◌∷◌ c t) (universal_newlines-eq s (ground arith)))

-- The name is more than the suffix of a module, and the text has no carriage return.
abbrev pub is_readable : FilePath → String → Bool
is_readable p content = not (p.1 == ".py") && without_returns content

written-text :
    (files : Files) (generated_dir : String) (disk : Files) (p : FilePath) (c : String)
    → NodupKeys files
    → every is_readable files ≡ true
    → lookup p files ≡ some c
    → read_or_empty (lookup p (write_files files generated_dir disk)) ≡ c
written-text files generated_dir disk p c once named found =
    let fits = lookup-every is_readable files p c named found in
    rw (lookup-write_files files generated_dir disk p once, after_write, found)
      (universal_newlines-eq c (ground arith))

written-expected :
    (files : Files) (generated_dir : String) (disk : Files) (p : FilePath)
    → NodupKeys files
    → every is_readable files ≡ true
    → contains (select (globbed generated_dir) (keys (write_files files generated_dir disk))) p
      ≡ true
    → contains (select (is_expected generated_dir) (keys files)) p ≡ true
written-expected files generated_dir disk p once named there =
    elim (Option-cases (lookup p files)) [
      | inl absent ↦ absurd (
          ground (
            arith,
            contains-select (globbed generated_dir) (keys (write_files files generated_dir disk)) p,
            contains-keys p (write_files files generated_dir disk),
            lookup-write_files files generated_dir disk p once,
          ))
      | inr (c, found) ↦
          let known : has_key p files ≡ true = ground arith in
          let fits = lookup-every is_readable files p c named found in
          ground (
            arith,
            contains-select (globbed generated_dir) (keys (write_files files generated_dir disk)) p,
            contains-select (is_expected generated_dir) (keys files) p,
            contains-keys p files,
          )
    ]

-- The check accepts what was written: after `write_files`, `check_files` returns 0 for the same files, if no two
-- of them have one path, none has a name that is only the suffix of a module, and none has a carriage return in
-- its text, which reading would turn into a newline.
pub check_files-write_files :
    (files : Files) (generated_dir : String) (disk : Files)
    → NodupKeys files
    → every is_readable files ≡ true
    → check_files files generated_dir (write_files files generated_dir disk) ≡ 0
unfolding check_files
check_files-write_files files generated_dir disk once named =
    let disk' = write_files files generated_dir disk in
    let fresh =
      check_stale_passes (select (is_expected generated_dir) (keys files))
        (select (globbed generated_dir) (keys disk')) false
        (λ p there. written-expected files generated_dir disk p once named there) in
    let equal =
      check_all_passes files disk' false once
        (λ p c found. written-text files generated_dir disk p c once named found) in
    rw (fresh, equal) refl
