-- ===== src/Task/Apps.antt =====
-- os/src/task/apps.rs: the table of the embedded programs, at the label `_num_apps` of the generated
-- link_apps.S. Differences of addresses wrap, as in release code. The standard library's test of
-- UTF-8 is an argument. The debug log of the table is left out.
use hj.Base.{ℕ, zero, suc, ◌+◌, ◌*◌, Bool, List, [], ◌∷◌, leb, if◌then◌else◌, wrapping_sub}
use hj.Mm.Memory.{Memory, read_word}

abbrev pub app_meta_items : ℕ
app_meta_items = 4

-- `slice::from_raw_parts` of `n` bytes from address `a` on.
unfoldable pub read_bytes : Memory → ℕ → ℕ → List ℕ
read_bytes m a zero = []
read_bytes m a (suc n) = m a ∷ read_bytes m (a + 1) n

-- `_num_apps` is where the table starts.
module _ (m : Memory) (num_apps : ℕ) where
  -- `get_app_meta_base().add(index).read()`
  abbrev pub read_meta : ℕ → ℕ
  read_meta index = read_word m (num_apps + 8 * index)

  unfoldable pub get_total_apps : ℕ
  get_total_apps = read_meta 0

  unfoldable pub get_app_elf_start : ℕ → ℕ
  unfolding get_total_apps
  get_app_elf_start app_index =
      if leb get_total_apps app_index then 0 else read_meta (app_index * app_meta_items + 3)

  unfoldable pub get_app_elf_end : ℕ → ℕ
  unfolding get_total_apps
  get_app_elf_end app_index =
      if leb get_total_apps app_index then 0 else read_meta (app_index * app_meta_items + 4)

  unfoldable pub get_app_elf : ℕ → List ℕ
  unfolding read_bytes get_app_elf_start get_app_elf_end
  get_app_elf app_index =
      let elf_start = get_app_elf_start app_index in
      let elf_end = get_app_elf_end app_index in
      read_bytes m elf_start (wrapping_sub elf_end elf_start)

  unfoldable pub get_app_name : (List ℕ → Bool) → ℕ → List ℕ
  unfolding read_bytes get_total_apps
  get_app_name is_utf8 app_index =
      if leb get_total_apps app_index
      then []
      else (let name_start = read_meta (app_index * app_meta_items + 1) in
          let name_end = read_meta (app_index * app_meta_items + 2) in
          let slice = read_bytes m name_start (wrapping_sub name_end name_start) in
          if is_utf8 slice then slice else [])
