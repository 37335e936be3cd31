-- ===== src/Display/Render/Object/Front.antt =====
-- The objects of a line of src/io/display/render.cc at one pixel: the one in front.
use matar.Base.{
  ℕ, zero, suc, ◌<◌, ◌≤◌, ◌≡◌, refl, Bool, true, false, not, ◌&&◌, ◌==◌, ltb, if◌then◌else◌, arith,
  ◌⊎◌, inl, inr, Bool-cases, ==_iff, ==_false, ◌≢◌, ◌∙◌,
}
use matar.Display.{Display}
use matar.Display.Color.{Color, ObjectPixel, raw, transparent_rgb555}
use matar.Display.Render.Object.{
  ObjectBuffer, read_oam_attributes, draw_column, rot_scale_flag, is_outside, tile_pos,
  object_color, priority, mode, render_objects, render_objects_line,
}
use matar.Display.Render.Object.Columns.{covers, render_one_object-pixel}

-- The objects up to a number, one after the other, at a pixel.
pub shown : ℕ → Display → ℕ → ℕ → ObjectPixel → ObjectPixel
shown zero d c y old = old
shown (suc n) d c y old =
    let before = shown n d c y old in
    if covers n d c y then draw_column (read_oam_attributes n d) d c before else before

pub render_objects-shown :
    (n : ℕ) (d : Display) (buffer : ObjectBuffer) (c y : ℕ)
    → c < 240
    → render_objects n d buffer c y ≡ shown n d c y (buffer c y)
unfolding render_objects shown
render_objects-shown zero d buffer c y h = refl
render_objects-shown (suc n) d buffer c y h =
    rw
      (
        render_one_object-pixel n d (render_objects n d buffer) c y h,
        render_objects-shown n d buffer c y h,
      )
      refl

shown-other :
    (d : Display) (c y : ℕ)
    → y ≢ d.vertical_counter
    → (n : ℕ) (old : ObjectPixel) → shown n d c y old ≡ old
unfolding shown
shown-other d c y other zero old = refl
shown-other d c y other (suc n) old =
    let elsewhere : (y == d.vertical_counter) ≡ false = ==_false y d.vertical_counter other in
    ground (arith, elsewhere, shown-other d c y other n old)

-- The colour that an object has at a column of the line.
abbrev pub color_of : ℕ → Display → ℕ → Color
color_of i d c = let o = read_oam_attributes i d in object_color o d (tile_pos o d c)

abbrev pub priority_of : ℕ → Display → ℕ
priority_of i d = priority (read_oam_attributes i d)

-- The object can be seen at a pixel: it is drawn there with a colour, and is no window.
pub is_candidate : ℕ → Display → ℕ → ℕ → Bool
is_candidate i d c y =
    let o = read_oam_attributes i d in
    covers i d c y
    && (not (mode o == 2)
        && (not (rot_scale_flag o && is_outside o (tile_pos o d c))
            && not (raw (color_of i d c) == transparent_rgb555)))

module _ (d : Display) (c y : ℕ) where
  -- One object at a pixel, if it is drawn there.
  abbrev place : ℕ → ObjectPixel → ObjectPixel
  place i old = if covers i d c y then draw_column (read_oam_attributes i d) d c old else old

  place-passed :
      (i : ℕ) (old : ObjectPixel)
      → (is_candidate i d c y ≡ false) ⊎ (old.priority ≤ priority_of i d)
      → ((place i old).priority ≡ old.priority) × ((place i old).color ≡ old.color)
  unfolding is_candidate draw_column
  place-passed i old (inl no_candidate) = ground (arith, no_candidate)
  place-passed i old (inr behind) = ground (arith, behind)

  place-taken :
      (i : ℕ) (old : ObjectPixel)
      → is_candidate i d c y ≡ true
      → priority_of i d < old.priority
      → ((place i old).priority ≡ priority_of i d) × ((place i old).color ≡ color_of i d c)
  unfolding is_candidate draw_column
  place-taken i old can before = ground (arith, can, before)

  -- The pixel is that of an object, of those before a number: none of them has a lower priority, and
  -- none before it the same.
  pub record IsOfObject (n : ℕ) (new : ObjectPixel) : Type 0 where
    pub object : ℕ
    pub is_one : object < n
    pub candidate : is_candidate object d c y ≡ true
    pub its_color : new.color ≡ color_of object d c
    pub its_priority : new.priority ≡ priority_of object d
    pub first :
        (j : ℕ) → j < object → is_candidate j d c y ≡ true → priority_of object d < priority_of j d

  -- The pixel that the objects before a number leave of an old one.
  pub record IsFront (n : ℕ) (old new : ObjectPixel) : Type 0 where
    pub least : (i : ℕ) → i < n → is_candidate i d c y ≡ true → new.priority ≤ priority_of i d
    pub in_front : new.priority ≤ old.priority
    pub from :
        ((new.priority ≡ old.priority) × (new.color ≡ old.color))
        ⊎ (IsOfObject n new × (new.priority < old.priority))

  more : (n : ℕ) (new : ObjectPixel) → IsOfObject n new → IsOfObject (suc n) new
  more n new r = record {
    object = r.object;
    is_one = omega (arith, r.is_one);
    candidate = r.candidate;
    its_color = r.its_color;
    its_priority = r.its_priority;
    first = r.first;
  }

  same_object :
      (n : ℕ) (a b : ObjectPixel)
      → b.priority ≡ a.priority
      → b.color ≡ a.color
      → IsOfObject n a
      → IsOfObject n b
  same_object n a b p q r = record {
    object = r.object;
    is_one = r.is_one;
    candidate = r.candidate;
    its_color = q ∙ r.its_color;
    its_priority = p ∙ r.its_priority;
    first = r.first;
  }

  least_next :
      (n : ℕ) (k : ℕ)
      → ((i : ℕ) → i < n → is_candidate i d c y ≡ true → k ≤ priority_of i d)
      → (is_candidate n d c y ≡ true → k ≤ priority_of n d)
      → (i : ℕ) → i < suc n
      → is_candidate i d c y ≡ true
      → k ≤ priority_of i d
  least_next n k below at i h can = elim (Bool-cases (i == n)) [
    | inl same ↦ let e = (==_iff i n).0 same in rw e (at (rw e at can))
    | inr other ↦ below i (ground arith) can
  ]

  pass :
      (n : ℕ) (old before : ObjectPixel)
      → IsFront n old before
      → (is_candidate n d c y ≡ false) ⊎ (before.priority ≤ priority_of n d)
      → IsFront (suc n) old (place n before)
  pass n old before f passed =
      let kept = place-passed n before passed in
      let behind : is_candidate n d c y ≡ true → before.priority ≤ priority_of n d = elim passed [
        | inl none ↦ (λ can. cc)
        | inr le ↦ (λ can. le)
      ] in
      record {
        least = λ i h can. rw (kept.0) (least_next n before.priority f.least behind i h can);
        in_front = omega (arith, kept.0, f.in_front);
        from = elim f.from [
          | inl e ↦ inl (kept.0 ∙ e.0, kept.1 ∙ e.1)
          | inr r ↦ inr (
            more n (place n before) (same_object n before (place n before) kept.0 kept.1 r.0),
            omega (arith, kept.0, r.1),
          )
        ];
      }

  take :
      (n : ℕ) (old before : ObjectPixel)
      → IsFront n old before
      → is_candidate n d c y ≡ true
      → priority_of n d < before.priority
      → IsFront (suc n) old (place n before)
  take n old before f can lt =
      let taken = place-taken n before can lt in
      let below : (i : ℕ)
          → i < n
          → is_candidate i d c y ≡ true
          → priority_of n d < priority_of i d =
        λ i h can_i. omega (arith, f.least i h can_i) in
      record {
        least = λ i h can_i. rw (taken.0) (
            least_next n (priority_of n d) (λ j b q. omega (arith, below j b q)) (λ q. omega arith)
              i h can_i);
        in_front = omega (arith, taken.0, f.in_front);
        from = inr (
          record {
            object = n;
            is_one = omega arith;
            candidate = can;
            its_color = taken.1;
            its_priority = taken.0;
            first = below;
          },
          omega (arith, taken.0, f.in_front),
        );
      }

  shown-IsFront : (n : ℕ) (old : ObjectPixel) → IsFront n old (shown n d c y old)
  unfolding shown
  shown-IsFront zero old = record {
    least = λ i h can. absurd (omega arith);
    in_front = omega arith;
    from = inl (refl, refl);
  }
  shown-IsFront (suc n) old =
      let before = shown n d c y old in
      let f = shown-IsFront n old in
      elim (Bool-cases (is_candidate n d c y)) [
        | inl can ↦ elim (Bool-cases (ltb (priority_of n d) before.priority)) [
          | inl lt ↦ take n old before f can (ground arith)
          | inr ge ↦ pass n old before f (inr (ground arith))
        ]
        | inr none ↦ pass n old before f (inl none)
      ]

-- Among the objects that can be seen at a pixel of the current line, the buffer of objects gets the first of the lowest priority, if that is lower than what it held; a pixel of another line stays as it was.
pub render_objects_line-IsFront :
    (d : Display) (c y : ℕ)
    → c < 240
    → IsFront d c y 128 (d.object_buffer c y) ((render_objects_line d).object_buffer c y)
      × (y ≢ d.vertical_counter → (render_objects_line d).object_buffer c y ≡ d.object_buffer c y)
unfolding render_objects_line
render_objects_line-IsFront d c y h =
    let e = render_objects-shown 128 d d.object_buffer c y h in
    (
      rw e (shown-IsFront d c y 128 (d.object_buffer c y)),
      λ other. rw e (shown-other d c y other 128 (d.object_buffer c y)),
    )
