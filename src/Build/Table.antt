-- ===== src/Build/Table.antt =====
-- The table of programs that os/build.rs writes is the one that os/src/task/apps.rs reads.
use hj.Base.{
  ℕ, zero, suc, ◌+◌, ◌-◌, ◌*◌, ◌/◌, ◌^◌, ◌<◌, ◌≡◌, refl, sym, ap, ◌∙◌, subst, Bool, false, some,
  List, [], ◌∷◌, ◌++◌, length, get_elem?, arith, leb, usize_mod, wrapping_sub, if◌then◌else◌,
}
use mathlib.Core.Option
use hj.Build.{
  Part, name_start, name_end, elf_start, elf_end, Symbol, num_apps, app, Line, align, section_data,
  global, label, quad_number, quad, ascii, incbin, meta_lines, name_lines, elf_lines,
  write_app_asms,
}
use hj.Mm.Memory.{Memory, read_word}
use hj.Task.Apps.{
  read_bytes, get_total_apps, get_app_elf, get_app_elf_start, get_app_elf_end, get_app_name,
}

-- What the assembler and the linker make of the lines from address `a` on: each label has the
-- address where it stands, and memory holds the words and bytes of the directives one after another.
abbrev pub Placed :
    (symbols : Symbol → ℕ) (files : List ℕ → List ℕ) (m : Memory) (a : ℕ) → List Line → Type 0
Placed symbols files m a [] = Unit {0}
Placed symbols files m a (align n ∷ lines) =
    Placed symbols files m ((a + 2 ^ n - 1) / 2 ^ n * 2 ^ n) lines
Placed symbols files m a (section_data ∷ lines) = Placed symbols files m a lines
Placed symbols files m a (global s ∷ lines) = Placed symbols files m a lines
Placed symbols files m a (label s ∷ lines) = (symbols s ≡ a) × Placed symbols files m a lines
Placed symbols files m a (quad_number n ∷ lines) =
    (read_word m a ≡ n) × Placed symbols files m (a + 8) lines
Placed symbols files m a (quad s ∷ lines) =
    (read_word m a ≡ symbols s) × Placed symbols files m (a + 8) lines
Placed symbols files m a (ascii bytes ∷ lines) =
    (read_bytes m a (length bytes) ≡ bytes) × Placed symbols files m (a + length bytes) lines
Placed symbols files m a (incbin name ∷ lines) =
    (read_bytes m a (length (files name)) ≡ files name)
    × Placed symbols files m (a + length (files name)) lines

module _ (symbols : Symbol → ℕ) (files : List ℕ → List ℕ) (m : Memory) where
  -- The four words of a program in the table.
  abbrev HasWords : ℕ → ℕ → Type 0
  HasWords a i =
      (read_word m a ≡ symbols (app i name_start))
      × (read_word m (a + 8) ≡ symbols (app i name_end))
      × (read_word m (a + 8 + 8) ≡ symbols (app i elf_start))
      × (read_word m (a + 8 + 8 + 8) ≡ symbols (app i elf_end))

  move_words : {a b i j : ℕ} → a ≡ b → i ≡ j → HasWords a i → HasWords b j
  move_words {a = a} {j = j} p q h = subst (λ b. HasWords b j) p (subst (λ j. HasWords a j) q h)

  meta_lines-Placed :
      (names : List (List ℕ)) (rest : List Line) (a i k : ℕ) (name : List ℕ)
      → get_elem? names k ≡ some name
      → Placed symbols files m a (meta_lines i names ++ rest)
      → HasWords (a + 32 * k) (i + k)
  meta_lines-Placed [] rest a i k name e h = cc
  meta_lines-Placed (n ∷ names) rest a i zero name e h =
      let (w0, (w1, (w2, (w3, tail)))) = h in
      move_words (omega arith) (omega arith) (w0, w1, w2, w3)
  meta_lines-Placed (n ∷ names) rest a i (suc k) name e h =
      let (w0, (w1, (w2, (w3, tail)))) = h in
      move_words (omega arith) (omega arith)
        (meta_lines-Placed names rest (a + 8 + 8 + 8 + 8) (i + 1) k name e tail)

  -- After the table come the names, and then the programs.
  meta_lines-rest :
      (names : List (List ℕ)) (rest : List Line) (a i : ℕ)
      → Placed symbols files m a (meta_lines i names ++ rest)
      → (b : ℕ) × Placed symbols files m b rest
  meta_lines-rest [] rest a i h = (a, h)
  meta_lines-rest (n ∷ names) rest a i h =
      let (w0, (w1, (w2, (w3, tail)))) = h in meta_lines-rest names rest _ (i + 1) tail

  name_lines-rest :
      (names : List (List ℕ)) (rest : List Line) (a i : ℕ)
      → Placed symbols files m a (name_lines i names ++ rest)
      → (b : ℕ) × Placed symbols files m b rest
  name_lines-rest [] rest a i h = (a, h)
  name_lines-rest (n ∷ names) rest a i h =
      let (begins, (bytes, (ends, tail))) = h in name_lines-rest names rest _ (i + 1) tail

  -- The bytes of the content stand between the labels.
  abbrev Holds : ℕ → Part → Part → List ℕ → Type 0
  Holds i start end content =
      (symbols (app i end) ≡ symbols (app i start) + length content)
      × (read_bytes m (symbols (app i start)) (length content) ≡ content)

  between :
      (i : ℕ) (start end : Part) (content : List ℕ) (a : ℕ)
      → symbols (app i start) ≡ a
      → read_bytes m a (length content) ≡ content
      → symbols (app i end) ≡ a + length content
      → Holds i start end content
  between i start end content a begins bytes ends = (
    ends ∙ ap (λ b. b + length content) (sym begins),
    ap (λ b. read_bytes m b (length content)) begins ∙ bytes,
  )

  name_lines-Placed :
      (names : List (List ℕ)) (rest : List Line) (a i k : ℕ) (name : List ℕ)
      → get_elem? names k ≡ some name
      → Placed symbols files m a (name_lines i names ++ rest)
      → Holds (i + k) name_start name_end name
  name_lines-Placed [] rest a i k name e h = cc
  name_lines-Placed (n ∷ names) rest a i zero name e h =
      let (begins, (bytes, (ends, tail))) = h in
      subst (λ content. Holds (i + 0) name_start name_end content) (Option.some-injective n name e)
        (subst (λ j. Holds j name_start name_end n) (omega arith)
          (between i name_start name_end n a begins bytes ends))
  name_lines-Placed (n ∷ names) rest a i (suc k) name e h =
      let (begins, (bytes, (ends, tail))) = h in
      subst (λ j. Holds j name_start name_end name) (omega arith)
        (name_lines-Placed names rest (a + length n) (i + 1) k name e tail)

  elf_lines-Placed :
      (names : List (List ℕ)) (a i k : ℕ) (name : List ℕ)
      → get_elem? names k ≡ some name
      → Placed symbols files m a (elf_lines i names)
      → Holds (i + k) elf_start elf_end (files name)
  elf_lines-Placed [] a i k name e h = cc
  elf_lines-Placed (n ∷ names) a i zero name e h =
      let (begins, (bytes, (ends, tail))) = h in
      subst (λ content. Holds (i + 0) elf_start elf_end (files content))
        (Option.some-injective n name e)
        (subst (λ j. Holds j elf_start elf_end (files n)) (omega arith)
          (between i elf_start elf_end (files n) a begins bytes ends))
  elf_lines-Placed (n ∷ names) a i (suc k) name e h =
      let (begins, (bytes, (ends, tail))) = h in
      subst (λ j. Holds j elf_start elf_end (files name)) (omega arith)
        (elf_lines-Placed names (a + length (files n)) (i + 1) k name e tail)

  -- What a pair of words of the table leads to.
  read_between :
      (start end s e : ℕ) (content : List ℕ)
      → s ≡ start
      → e ≡ end
      → end ≡ start + length content
      → end < usize_mod
      → read_bytes m start (length content) ≡ content
      → read_bytes m s (wrapping_sub e s) ≡ content
  read_between start end s e content p q span small bytes =
      ap (λ z. read_bytes m z (wrapping_sub e z)) p
      ∙ ap (read_bytes m start) (omega (arith, q, span))
      ∙ bytes

in_table :
    (names : List (List ℕ)) (k : ℕ) (name : List ℕ)
    → get_elem? names k ≡ some name
    → k < length names
in_table [] k name e = cc
in_table (n ∷ names) zero name e = omega arith
in_table (n ∷ names) (suc k) name e = omega (arith, in_table names k name e)

-- Where the generated file is assembled at any address and no label is past the 64-bit addresses,
-- the kernel finds as many programs as there are names, the bytes of each program are those of the
-- file with its name, and its name is the name where that is UTF-8, with characters other than
-- ASCII or without, and empty where it is not.
pub write_app_asms-Placed :
    (symbols : Symbol → ℕ) (files : List ℕ → List ℕ) (m : Memory) (is_utf8 : List ℕ → Bool)
    (names : List (List ℕ)) (a k : ℕ) (name : List ℕ)
    → Placed symbols files m a (write_app_asms names)
    → ((s : Symbol) → symbols s < usize_mod)
    → get_elem? names k ≡ some name
    → (get_total_apps m (symbols num_apps) ≡ length names)
      × (get_app_elf m (symbols num_apps) k ≡ files name)
      × (get_app_name m (symbols num_apps) is_utf8 k ≡ (if is_utf8 name then name else []))
unfolding write_app_asms get_total_apps get_app_elf get_app_elf_start get_app_elf_end get_app_name
write_app_asms-Placed symbols files m is_utf8 names a k name (base, (total, tables)) small e =
    (count, simp (inside) elf, simp (inside, named) refl)
  where
    at : ℕ
    at = (a + 2 ^ 3 - 1) / 2 ^ 3 * 2 ^ 3

    count : read_word m (symbols num_apps + 8 * 0) ≡ length names
    count = ap (read_word m) (omega (arith, base)) ∙ total

    inside : leb (read_word m (symbols num_apps + 8 * 0)) k ≡ false
    inside = ground (arith, count, in_table names k name e)

    words : HasWords symbols files m (at + 8 + 32 * k) (0 + k)
    words = meta_lines-Placed symbols files m names _ (at + 8) 0 k name e tables

    name_part :
        (b : ℕ) × Placed symbols files m b (name_lines 0 names ++ (align 3 ∷ elf_lines 0 names))
    name_part = meta_lines-rest symbols files m names _ (at + 8) 0 tables

    elf_part : (b : ℕ) × Placed symbols files m b (align 3 ∷ elf_lines 0 names)
    elf_part = name_lines-rest symbols files m names _ name_part.0 0 name_part.1

    name_bytes : Holds symbols files m (0 + k) name_start name_end name
    name_bytes = name_lines-Placed symbols files m names _ name_part.0 0 k name e name_part.1

    elf_bytes : Holds symbols files m (0 + k) elf_start elf_end (files name)
    elf_bytes = elf_lines-Placed symbols files m names _ 0 k name e elf_part.1

    word :
        (n : ℕ) (b : ℕ)
        → b ≡ symbols num_apps + 8 * (k * 4 + n)
        → read_word m (symbols num_apps + 8 * (k * 4 + n)) ≡ read_word m b
    word n b p = ap (read_word m) (sym p)

    elf :
        read_bytes m (read_word m (symbols num_apps + 8 * (k * 4 + 3))) (
          wrapping_sub
            (read_word m (symbols num_apps + 8 * (k * 4 + 4)))
            (read_word m (symbols num_apps + 8 * (k * 4 + 3))))
        ≡ files name
    elf =
        read_between symbols files m (symbols (app (0 + k) elf_start))
          (symbols (app (0 + k) elf_end)) _ _ (files name)
          (word 3 (at + 8 + 32 * k + 8 + 8) (omega (arith, base)) ∙ words.2)
          (word 4 (at + 8 + 32 * k + 8 + 8 + 8) (omega (arith, base)) ∙ words.3) elf_bytes.0
          (small (app (0 + k) elf_end)) elf_bytes.1

    named :
        read_bytes m (read_word m (symbols num_apps + 8 * (k * 4 + 1))) (
          wrapping_sub
            (read_word m (symbols num_apps + 8 * (k * 4 + 2)))
            (read_word m (symbols num_apps + 8 * (k * 4 + 1))))
        ≡ name
    named =
        read_between symbols files m (symbols (app (0 + k) name_start))
          (symbols (app (0 + k) name_end)) _ _ name
          (word 1 (at + 8 + 32 * k) (omega (arith, base)) ∙ words.0)
          (word 2 (at + 8 + 32 * k + 8) (omega (arith, base)) ∙ words.1) name_bytes.0
          (small (app (0 + k) name_end)) name_bytes.1
