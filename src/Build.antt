-- ===== src/Build.antt =====
-- os/build.rs: the generated file link_apps.S, which embeds the programs and their table. Names are
-- lists of bytes. The order of the directory, the setting TEST, and the sort of the standard library
-- are arguments.
pub mod Table
use package.hj.Base.{
  ℕ, zero, suc, ◌+◌, ◌*◌, ◌≡◌, Bool, true, false, not, ◌&&◌, ◌||◌, Option, none, some, List, [],
  ◌∷◌, ◌++◌, ◌==◌, if◌then◌else◌, length,
}

-- The labels of a program.
pub data Part : Type 0 where
  name_start name_end elf_start elf_end : Part

pub data Symbol : Type 0 where
  num_apps : Symbol
  app : ℕ → Part → Symbol

-- The lines of the file. `incbin` has the name of a file of the directory of the programs.
pub data Line : Type 0 where
  align : ℕ → Line
  section_data : Line
  global : Symbol → Line
  label : Symbol → Line
  quad_number : ℕ → Line
  quad : Symbol → Line
  ascii : List ℕ → Line
  incbin : List ℕ → Line

-- ".rs" and "test_"
abbrev pub src_extension : List ℕ
src_extension = 46 ∷ 114 ∷ 115 ∷ []

abbrev pub test_prefix : List ℕ
test_prefix = 116 ∷ 101 ∷ 115 ∷ 116 ∷ 95 ∷ []

unfoldable pub same_bytes : List ℕ → List ℕ → Bool
same_bytes [] [] = true
same_bytes [] (y ∷ ys) = false
same_bytes (x ∷ xs) [] = false
same_bytes (x ∷ xs) (y ∷ ys) = (x == y) && same_bytes xs ys

unfoldable pub starts_with : List ℕ → List ℕ → Bool
starts_with [] name = true
starts_with (p ∷ prefix) [] = false
starts_with (p ∷ prefix) (x ∷ name) = (p == x) && starts_with prefix name

-- The name before the suffix, if it ends with it.
unfoldable pub strip_suffix : List ℕ → List ℕ → Option (List ℕ)
unfolding same_bytes
strip_suffix suffix [] = if same_bytes suffix [] then some [] else none
strip_suffix suffix (x ∷ name) =
    let rest = strip_suffix suffix name in
    if same_bytes suffix (x ∷ name)
    then some []
    else elim rest [ none ↦ none | some stem ↦ some (x ∷ stem) ]

-- A file without the extension panics; test programs are left out unless they are asked for.
unfoldable pub get_app_names : Bool → List (List ℕ) → Option (List (List ℕ))
unfolding strip_suffix starts_with
get_app_names include_test [] = some []
get_app_names include_test (file_name ∷ file_names) =
    let rest = get_app_names include_test file_names in
    elim (strip_suffix src_extension file_name) [
      | none ↦ none
      | some name ↦ elim rest [
        | none ↦ none
        | some names ↦
            some
              (if include_test || not (starts_with test_prefix name) then name ∷ names else names)
      ]
    ]

-- The loops of `write_app_asms`, from the program `i` on.
abbrev pub meta_lines : ℕ → List (List ℕ) → List Line
meta_lines i [] = []
meta_lines i (name ∷ names) =
    quad (app i name_start)
    ∷ quad (app i name_end)
    ∷ quad (app i elf_start)
    ∷ quad (app i elf_end)
    ∷ meta_lines (i + 1) names

abbrev pub name_lines : ℕ → List (List ℕ) → List Line
name_lines i [] = []
name_lines i (name ∷ names) =
    section_data
    ∷ global (app i name_start)
    ∷ global (app i name_end)
    ∷ label (app i name_start)
    ∷ ascii name
    ∷ label (app i name_end)
    ∷ name_lines (i + 1) names

abbrev pub elf_lines : ℕ → List (List ℕ) → List Line
elf_lines i [] = []
elf_lines i (name ∷ names) =
    section_data
    ∷ global (app i elf_start)
    ∷ global (app i elf_end)
    ∷ label (app i elf_start)
    ∷ incbin name
    ∷ label (app i elf_end)
    ∷ elf_lines (i + 1) names

unfoldable pub write_app_asms : List (List ℕ) → List Line
write_app_asms app_names =
    align 3
    ∷ section_data
    ∷ global num_apps
    ∷ label num_apps
    ∷ quad_number (length app_names)
    ∷ (meta_lines 0 app_names ++ (name_lines 0 app_names ++ (align 3 ∷ elf_lines 0 app_names)))

unfoldable pub generate_asm :
    (List (List ℕ) → List (List ℕ)) → Bool → List (List ℕ) → Option (List Line)
unfolding get_app_names write_app_asms
generate_asm sort include_test file_names = elim (get_app_names include_test file_names) [
  | none ↦ none
  | some names ↦ some (write_app_asms (sort names))
]
