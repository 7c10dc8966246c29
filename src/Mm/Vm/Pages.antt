-- ===== src/Mm/Vm/Pages.antt =====
-- The ordered map of an area from page numbers to pages, and the drops of its pages.
use hj.Base.{Option, none, some, List, [], ◌∷◌, ltb, leb, not, ◌==◌, if◌then◌else◌, keep, map}
use hj.Mm.{Vpn}
use hj.Mm.PageAlloc.{Page, Machine, drop_page, drop_pages}
use hj.Mm.Vm.{VmArea}

abbrev pub PageMap : Type 0
PageMap = List (Vpn × Page)

-- `BTreeMap::insert`: the new map, and the page that was replaced.
unfoldable pub insert : Vpn → Page → PageMap → PageMap × Option Page
insert vpn page [] = ((vpn, page) ∷ [], none)
insert vpn page ((k, old) ∷ rest) =
    if ltb vpn k
    then ((vpn, page) ∷ (k, old) ∷ rest, none)
    else if vpn == k
    then ((vpn, page) ∷ rest, some old)
    else (let (rest', replaced) = insert vpn page rest in ((k, old) ∷ rest', replaced))

unfoldable pub lookup : Vpn → PageMap → Option Page
lookup vpn [] = none
lookup vpn ((k, page) ∷ rest) = if vpn == k then some page else lookup vpn rest

-- `BTreeMap::remove`
unfoldable pub remove : Vpn → PageMap → PageMap
remove vpn pages = keep (λ kv. not (kv.0 == vpn)) pages

-- `BTreeMap::split_off`: what stays in the map, and what is returned.
unfoldable pub split_off : Vpn → PageMap → PageMap × PageMap
split_off vpn pages = (keep (λ kv. ltb kv.0 vpn) pages, keep (λ kv. leb vpn kv.0) pages)

abbrev pub drop_option : Option Page → Machine → Machine
drop_option none m = m
drop_option (some page) m = drop_page page m

-- The drop of a map, in the order of its keys.
unfoldable pub drop_map : PageMap → Machine → Machine
drop_map pages m = drop_pages (map (λ kv. kv.1) pages) m

abbrev pub drop_area : VmArea → Machine → Machine
drop_area area m = drop_map area.pages m

-- The drop of a vector of areas.
unfoldable pub drop_areas : List VmArea → Machine → Machine
drop_areas [] m = m
drop_areas (area ∷ areas) m = drop_areas areas (drop_area area m)
