-- ===== src/Settings/General/Writes.antt =====
-- A write is stored, and the file is marked for saving exactly if it changes something.
use hyprv.Prelude.{
  ◌≡◌, ◌↔◌, refl, Bool, true, false, not, ◌&&◌, inl, inr, Bool-cases, List, [], ◌∷◌, arith,
}
use hyprv.Prelude.Text.{text_eq_refl, eq_of_text_eq}
use hyprv.Prelude.Int.{ℤ, eq_ℤ, eq_of_eq_ℤ, eq_ℤ_refl}
use hyprv.Settings.General.{
  OpenTab, tabs_eq, Window, Appearance, General, set_open_tabs, set_window_geometry, window_eq,
  set_appearance, appearance_eq,
}

tabs_eq_refl : (ts : List OpenTab) → tabs_eq ts ts ≡ true
unfolding tabs_eq
tabs_eq_refl [] = refl
tabs_eq_refl (t ∷ ts) = rw (text_eq_refl t.kind) (rw (text_eq_refl t.identifier) (tabs_eq_refl ts))

eq_of_tabs_eq : (ts us : List OpenTab) → tabs_eq ts us ≡ true → ts ≡ us
unfolding tabs_eq
eq_of_tabs_eq [] [] h = refl
eq_of_tabs_eq [] (u ∷ us) h = ground arith
eq_of_tabs_eq (t ∷ ts) [] h = ground arith
eq_of_tabs_eq (t ∷ ts) (u ∷ us) h = ground (
  arith,
  eq_of_text_eq t.kind u.kind,
  eq_of_text_eq t.identifier u.identifier,
  eq_of_tabs_eq ts us,
)

module _ (Double : Type 0) (double_eq : Double → Double → Bool) where
  tabs_same :
      (tabs : List OpenTab) (selected : ℤ) (s : General Double)
      → (tabs_eq s.open_tabs tabs && eq_ℤ s.selected_tab_index selected) ≡ true
      → (s.open_tabs ≡ tabs) × (s.selected_tab_index ≡ selected)
  tabs_same tabs selected s h = (
    eq_of_tabs_eq s.open_tabs tabs (ground arith),
    eq_of_eq_ℤ s.selected_tab_index selected (ground arith),
  )

  tabs_same_test :
      (tabs : List OpenTab) (selected : ℤ) (s : General Double)
      → (s.open_tabs ≡ tabs) × (s.selected_tab_index ≡ selected)
      → (tabs_eq s.open_tabs tabs && eq_ℤ s.selected_tab_index selected) ≡ true
  tabs_same_test tabs selected s (e, f) = rw e (rw f (rw (tabs_eq_refl tabs) (eq_ℤ_refl selected)))

  -- After the open tabs are set they are exactly the given ones with the given one selected, and the
  -- file is left alone exactly if they were so before.
  pub set_open_tabs_lem :
      (tabs : List OpenTab) (selected : ℤ) (s : General Double)
      → ((set_open_tabs Double double_eq tabs selected s).0.open_tabs ≡ tabs)
        × ((set_open_tabs Double double_eq tabs selected s).0.selected_tab_index ≡ selected)
        × (((set_open_tabs Double double_eq tabs selected s).1 ≡ false)
            ↔ ((s.open_tabs ≡ tabs) × (s.selected_tab_index ≡ selected)))
  unfolding set_open_tabs
  set_open_tabs_lem tabs selected s =
      elim (Bool-cases (tabs_eq s.open_tabs tabs && eq_ℤ s.selected_tab_index selected)) [
        | inl same ↦
            let found = tabs_same tabs selected s same in
            rw same (found.0, found.1, ((λ h. found), (λ h. refl)))
        | inr new ↦ rw new (
          refl,
          refl,
          ((λ h. ground arith), (λ h. ground (arith, tabs_same_test tabs selected s h))),
        )
      ]

  window_self :
      (w : Window Double)
      → double_eq w.rail_width w.rail_width ≡ true
      → double_eq w.flyout_width w.flyout_width ≡ true
      → window_eq Double double_eq w w ≡ true
  unfolding window_eq
  window_self w a b =
      ground (arith, a, b, eq_ℤ_refl w.x, eq_ℤ_refl w.y, eq_ℤ_refl w.width, eq_ℤ_refl w.height)

  appearance_self :
      (a : Appearance Double)
      → double_eq a.acrylic_tint_opacity a.acrylic_tint_opacity ≡ true
      → double_eq a.mica_tint_opacity a.mica_tint_opacity ≡ true
      → appearance_eq Double double_eq a a ≡ true
  unfolding appearance_eq
  appearance_self a h k = ground (arith, h, k)

  -- After a geometry is set, the stored one passes for it, the case that nothing was written included:
  -- the two widths of the new geometry are numbers that equal themselves.
  pub set_window_geometry_lem :
      (w : Window Double) (s : General Double)
      → double_eq w.rail_width w.rail_width ≡ true
      → double_eq w.flyout_width w.flyout_width ≡ true
      → (window_eq Double double_eq (set_window_geometry Double double_eq w s).0.window w ≡ true)
        × ((set_window_geometry Double double_eq w s).1
            ≡ not (window_eq Double double_eq s.window w))
  unfolding set_window_geometry
  set_window_geometry_lem w s a b = elim (Bool-cases (window_eq Double double_eq s.window w)) [
    | inl same ↦ rw same (same, refl)
    | inr new ↦ rw new (window_self w a b, refl)
  ]

  -- After an appearance is set, the stored one passes for it, the case that nothing was written
  -- included: the two opacities of the new appearance are numbers that equal themselves.
  pub set_appearance_lem :
      (a : Appearance Double) (s : General Double)
      → double_eq a.acrylic_tint_opacity a.acrylic_tint_opacity ≡ true
      → double_eq a.mica_tint_opacity a.mica_tint_opacity ≡ true
      → (appearance_eq Double double_eq (set_appearance Double double_eq a s).0.appearance a ≡ true)
        × ((set_appearance Double double_eq a s).1
            ≡ not (appearance_eq Double double_eq s.appearance a))
  unfolding set_appearance
  set_appearance_lem a s h k = elim (Bool-cases (appearance_eq Double double_eq s.appearance a)) [
    | inl same ↦ rw same (same, refl)
    | inr new ↦ rw new (appearance_self a h k, refl)
  ]
