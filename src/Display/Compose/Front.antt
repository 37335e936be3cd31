-- ===== src/Display/Compose/Front.antt =====
-- Which layers stand in front at a pixel: src/io/display/display.cc.
use matar.Base.{ℕ, ◌≡◌, refl, ◌∙◌, true, false, List, [], ◌∷◌, if◌then◌else◌, inl, inr, Bool-cases}
use matar.Display.{Display}
use matar.Display.Compose.{Pixel, Rendered, is_visible, layer_pixel, pick_layers}

-- The layers that show at a pixel, in their order.
unfoldable pub visible_layers : ℕ → Rendered → List ℕ → List ℕ
visible_layers window r [] = []
visible_layers window r (bg ∷ rest) =
    let others = visible_layers window r rest in
    if is_visible window r bg then bg ∷ others else others

module _ (window : ℕ) (d : Display) (r : Rendered) where
  -- The first two of a list of layers, before the backdrop.
  pub first_two : List ℕ → Pixel → Pixel → Pixel × Pixel
  first_two [] top bottom = (top, bottom)
  first_two (a ∷ []) top bottom = (layer_pixel true d r a, bottom)
  first_two (a ∷ b ∷ rest) top bottom = (layer_pixel true d r a, layer_pixel false d r b)

  first_one : List ℕ → Pixel → Pixel → Pixel × Pixel
  first_one [] top bottom = (top, bottom)
  first_one (b ∷ rest) top bottom = (top, layer_pixel false d r b)

  pick_second :
      (layers : List ℕ) (top bottom : Pixel)
      → pick_layers window d r layers true top bottom
        ≡ first_one (visible_layers window r layers) top bottom
  unfolding pick_layers visible_layers first_one
  pick_second [] top bottom = refl
  pick_second (bg ∷ rest) top bottom = elim (Bool-cases (is_visible window r bg)) [
    | inl shown ↦ rw shown refl
    | inr hidden ↦ rw hidden (pick_second rest top bottom)
  ]

  first_two-cons :
      (bg : ℕ) (layers : List ℕ) (top bottom : Pixel)
      → first_one layers (layer_pixel true d r bg) bottom ≡ first_two (bg ∷ layers) top bottom
  unfolding first_two first_one
  first_two-cons bg [] top bottom = refl
  first_two-cons bg (b ∷ rest) top bottom = refl

  -- The two pixels that are picked are the first two layers that show, the backdrop where there are fewer.
  pub pick_layers-first_two :
      (layers : List ℕ) (top bottom : Pixel)
      → pick_layers window d r layers false top bottom
        ≡ first_two (visible_layers window r layers) top bottom
  unfolding pick_layers visible_layers first_two first_one
  pick_layers-first_two [] top bottom = refl
  pick_layers-first_two (bg ∷ rest) top bottom = elim (Bool-cases (is_visible window r bg)) [
    | inl shown ↦ rw shown (
        pick_second rest (layer_pixel true d r bg) bottom
        ∙ first_two-cons bg (visible_layers window r rest) top bottom)
    | inr hidden ↦ rw hidden (pick_layers-first_two rest top bottom)
  ]
