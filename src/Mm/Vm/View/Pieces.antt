-- ===== src/Mm/Vm/View/Pieces.antt =====
-- The pieces that `VMSpace::unmap` leaves of an area, in each of its four overlap cases.
use hj.Base.{◌≤◌, ◌<◌, ◌≡◌, inl, inr, refl, ap, ◌∙◌, some, [], ◌∷◌, arith}
use hj.Mm.{Vpn}
use hj.Mm.Vm.{VmArea}
use hj.Mm.Vm.Pages.{PageMap, lookup, split_off}
use hj.Mm.Vm.View.{seen, view, view-Inside, view-Outside}
use hj.Mm.Vm.View.Trim.{lookup-lower, lookup-upper, Trimmed}

module _ (a : VmArea) where
  -- The area with other pages says the same of a page that both maps hold alike.
  same_pages :
      (u : Vpn) (pages : PageMap)
      → lookup u pages ≡ lookup u a.pages
      → some (a.map_type, a.permissions, lookup u pages) ≡ some (seen a u)
  same_pages u pages e = ap (λ page. some (a.map_type, a.permissions, page)) e

  abbrev pub upper_piece : Vpn → PageMap → VmArea
  upper_piece e pages = record a { start_vpn = e; pages = pages }

  abbrev pub lower_piece : Vpn → PageMap → VmArea
  lower_piece s pages = record a { end_vpn = s; pages = pages }

  module _ (s e : Vpn) where
    pub whole-Trimmed : s ≤ a.start_vpn → a.end_vpn ≤ e → Trimmed s e a []
    unfolding view
    whole-Trimmed l h = record {
      disjoint = tt;
      within = tt;
      stays = λ u i c. absurd (ground (arith, i, c));
      goes = λ u f g. refl;
    }

    pub front-Trimmed :
        s ≤ a.start_vpn
        → a.start_vpn < e
        → e < a.end_vpn
        → Trimmed s e a (upper_piece e (split_off e a.pages).1 ∷ [])
    unfolding view
    front-Trimmed l m h =
        let b = upper_piece e (split_off e a.pages).1 in
        record {
          disjoint = (h, tt, tt);
          within = (omega arith, omega arith, tt);
          stays = λ u i c.
              view-Inside b [] u (ground (arith, i, c), i.1)
              ∙ same_pages u (split_off e a.pages).1
                  (lookup-upper u e a.pages (ground (arith, i, c)));
          goes = λ u f g. view-Outside b [] u (inl g);
        }

    pub back-Trimmed :
        a.start_vpn < s
        → s < a.end_vpn
        → a.end_vpn ≤ e
        → Trimmed s e a (lower_piece s (split_off s a.pages).0 ∷ [])
    unfolding view
    back-Trimmed l m h =
        let b = lower_piece s (split_off s a.pages).0 in
        record {
          disjoint = (l, tt, tt);
          within = (omega arith, omega arith, tt);
          stays = λ u i c.
              view-Inside b [] u (i.0, ground (arith, i, c))
              ∙ same_pages u (split_off s a.pages).0
                  (lookup-lower u s a.pages (ground (arith, i, c)));
          goes = λ u f g. view-Outside b [] u (inr f);
        }

    pub middle-Trimmed :
        a.start_vpn < s
        → s ≤ e
        → e < a.end_vpn
        → Trimmed s e a (
            lower_piece s (split_off s a.pages).0
            ∷ upper_piece e (split_off e (split_off s a.pages).1).1
            ∷ [])
    unfolding view
    middle-Trimmed l m h =
        let b = lower_piece s (split_off s a.pages).0 in
        let c = upper_piece e (split_off e (split_off s a.pages).1).1 in
        record {
          disjoint = (l, (inr m, tt), (h, tt, tt));
          within = (omega arith, omega arith, (omega arith, omega arith, tt));
          stays = λ u i clear. elim clear [
            | inl low ↦
                view-Inside b (c ∷ []) u (i.0, low)
                ∙ same_pages u (split_off s a.pages).0 (lookup-lower u s a.pages low)
            | inr high ↦
                view-Outside b (c ∷ []) u (inr (omega (arith, m, high)))
                ∙ view-Inside c [] u (high, i.1)
                ∙ same_pages u (split_off e (split_off s a.pages).1).1 (
                    lookup-upper u e (split_off s a.pages).1 high
                    ∙ lookup-upper u s a.pages (omega (arith, m, high)))
          ];
          goes = λ u f g. view-Outside b (c ∷ []) u (inr f) ∙ view-Outside c [] u (inl g);
        }
