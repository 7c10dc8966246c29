-- ===== src/Mm/Vm.antt =====
-- os/src/mm/vm.rs: the types of virtual memory areas and spaces, and the permissions.
-- The children model the kernel's mappings (Kernel), the pages of an area (Pages), the operations
-- on the areas of a space (Space), and the making of a user space (User).
pub mod Pages
pub mod Space
pub mod AddArea
pub mod View
pub mod Cut
pub mod Unmap
pub mod Sound
pub mod Kernel
pub mod Rounding
pub mod User
use package.hj.Base.{
  ℕ, ◌+◌, ◌-◌, ◌^◌, Bool, Option, none, some, List, [], ◌∷◌, ◌&&◌, ◌||◌, not, bit_and, bit_or, ltb,
  leb, ◌==◌, if◌then◌else◌, complement,
}
use package.hj.Outcome.{Cmd, pure, fail}
use package.hj.Mm.{Ppn, Vpn}
use package.hj.Mm.PageAlloc.{Page}
use package.hj.Mm.Sv39
use package.hj.Mm.Sv39.{RootPgt, flag_v, flag_r, flag_w, flag_x, flag_u}
use Prim.Native.String.{String}

abbrev pub permission_r : ℕ
permission_r = flag_r

abbrev pub permission_w : ℕ
permission_w = flag_w

abbrev pub permission_x : ℕ
permission_x = flag_x

abbrev pub permission_u : ℕ
permission_u = flag_u

-- PERMISSION_R | PERMISSION_W | PERMISSION_X | PERMISSION_U
abbrev pub all_permission_flags : ℕ
all_permission_flags = 30

pub data MapType : Type 0 where
  -- To a page of its own.
  anonymous : MapType
  -- To the frame KERNEL_VA_OFFSET below.
  kernel_va_offset : MapType

pub data VmError : Type 0 where
  create_root_pgt_failed : Sv39.PgtError → VmError
  pgt_error : Vpn → Sv39.PgtError → VmError
  no_area_contain_vpn : Vpn → VmError
  invalid_permissions : ℕ → VmError
  permission_denied : Vpn → ℕ → VmError
  elf_error : String → VmError
  align_data_failed : ℕ → VmError
  acquire_page_failed : VmError
  area_overlapping : Vpn → Vpn → VmError
  empty_area : Vpn → Vpn → VmError

-- `pages` is the source's map from page numbers to pages, in ascending order.
pub record VmArea : Type 0 where
  pub start_vpn : Vpn
  pub end_vpn : Vpn
  pub map_type : MapType
  pub permissions : ℕ
  pub pages : List (Vpn × Page)

unfoldable pub area_new : Vpn → Vpn → MapType → ℕ → VmArea
area_new start_vpn end_vpn map_type permissions = record {
  start_vpn = start_vpn;
  end_vpn = end_vpn;
  map_type = map_type;
  permissions = permissions;
  pages = [];
}

unfoldable pub contain_vpn : VmArea → Vpn → Bool
contain_vpn area vpn = leb area.start_vpn vpn && ltb vpn area.end_vpn

pub record VmSpace : Type 0 where
  pub root_pgt : RootPgt
  pub areas : List VmArea
  pub entry_addr : ℕ
  pub u_stack_end : ℕ
  pub k_stack_end : ℕ

abbrev pub get_satp : VmSpace → ℕ
get_satp space = Sv39.root_get_satp space.root_pgt

abbrev pub get_entry_addr : VmSpace → ℕ
get_entry_addr space = space.entry_addr

abbrev pub get_u_stack_end : VmSpace → ℕ
get_u_stack_end space = space.u_stack_end

abbrev pub get_k_stack_end : VmSpace → ℕ
get_k_stack_end space = space.k_stack_end

unfoldable pub to_pte_flags : {S : Type 0} → ℕ → Cmd S VmError ℕ
to_pte_flags permissions =
    if not (bit_and permissions (complement all_permission_flags) == 0)
    then fail (invalid_permissions permissions)
    else pure (bit_or (bit_and permissions all_permission_flags) flag_v)
