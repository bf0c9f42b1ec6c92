-- ===== src/Video/Screen.antt =====
-- What `update_screen` (src/dev/video.c) puts on the window.
use nemu_riscv.Base.{ℕ, zero, suc, ◌+◌, ◌*◌, ◌/◌, ◌≤◌, ◌<◌, ◌≡◌, refl, arith}
use nemu_riscv.Base.{
  Outcome, ok, Returns, Returns-map, Returns->>=, leb, if◌then◌else◌, ltb, lt→ltb, ◌&&◌, ◌==◌,
}
use nemu_riscv.Video.{
  Pixels, rgb_m12_to_m32, draw_pixel, draw_cell, draw_row, draw_rows, vmem_color, update_screen,
  scr_w, scr_h,
}

-- The pixel of the frame buffer's cell, in 32 bits.
abbrev shown : (ℕ → ℕ) → ℕ → ℕ → ℕ
shown vmem i j = rgb_m12_to_m32 (vmem_color vmem i j)

draw_pixel_lem :
    (pixels : Pixels) (x y color : ℕ)
    → x < 800
    → y < 600
    → draw_pixel pixels x y color
      ≡ ok (λ x' y'. if x' == x && y' == y then rgb_m12_to_m32 color else pixels x' y')
unfolding draw_pixel
draw_pixel_lem pixels x y color hx hy = rw (lt→ltb x 800 hx, lt→ltb y 600 hy) refl

-- It returns, and `f` tells the colour at each point.
abbrev Paints : (ℕ → ℕ → ℕ) → Outcome Pixels → Type 0
Paints f o = Returns (λ p. (x y : ℕ) → p x y ≡ f x y) o

draw_cell-Paints :
    (vmem : ℕ → ℕ) (i j : ℕ) (pixels : Pixels)
    → i < 300
    → j < 400
    → Paints
        (λ x y. if x / 2 == j && y / 2 == i then shown vmem i j else pixels x y)
        (draw_cell vmem i j pixels)
unfolding draw_cell
draw_cell-Paints vmem i j pixels hi hj =
    rw
      (
        draw_pixel_lem _ (2 * j) (2 * i) (vmem_color vmem i j) (omega arith) (omega arith),
        draw_pixel_lem _ (2 * j) (2 * i + 1) (vmem_color vmem i j) (omega arith) (omega arith),
        draw_pixel_lem _ (2 * j + 1) (2 * i) (vmem_color vmem i j) (omega arith) (omega arith),
        draw_pixel_lem _ (2 * j + 1) (2 * i + 1) (vmem_color vmem i j) (omega arith) (omega arith),
      )
      (λ x y. ground arith)

draw_row-Paints :
    (vmem : ℕ → ℕ) (i left j : ℕ) (pixels : Pixels)
    → i < 300
    → j + left ≤ 400
    → Paints
        (λ x y.
          if y / 2 == i && leb j (x / 2) && ltb (x / 2) (j + left)
          then shown vmem i (x / 2)
          else pixels x y)
        (draw_row vmem i left j pixels)
unfolding draw_row
draw_row-Paints vmem i zero j pixels hi hj = λ x y. ground arith
draw_row-Paints vmem i (suc left) j pixels hi hj =
    Returns->>= _ (draw_cell vmem i j pixels) _ (draw_cell-Paints vmem i j pixels hi (omega arith))
      λ p cell.
        Returns-map (draw_row vmem i left (j + 1) p)
          (draw_row-Paints vmem i left (j + 1) p hi (omega arith))
          λ p' row x y. let r = row x y in let c = cell x y in ground arith

draw_rows-Paints :
    (vmem : ℕ → ℕ) (left i : ℕ) (pixels : Pixels)
    → i + left ≤ 300
    → Paints
        (λ x y.
          if leb i (y / 2) && ltb (y / 2) (i + left) && ltb x 800
          then shown vmem (y / 2) (x / 2)
          else pixels x y)
        (draw_rows vmem left i pixels)
unfolding draw_rows
draw_rows-Paints vmem zero i pixels hi = λ x y. ground arith
draw_rows-Paints vmem (suc left) i pixels hi =
    Returns->>= _ (draw_row vmem i scr_w 0 pixels) _
      (draw_row-Paints vmem i scr_w 0 pixels (omega arith) (omega arith))
      λ p row.
        Returns-map (draw_rows vmem left (i + 1) p)
          (draw_rows-Paints vmem left (i + 1) p (omega arith))
          λ p' rows x y. let r = rows x y in let c = row x y in ground arith

-- The update of the screen returns (no pixel is outside the window), and afterwards each pixel of
-- the window of 800 by 600 shows the cell of the frame buffer at half its coordinates, in 32 bits.
pub update_screen_lem :
    (vmem : ℕ → ℕ) (pixels : Pixels) (x y : ℕ)
    → x < 800
    → y < 600
    → Returns
        (λ p. p x y ≡ rgb_m12_to_m32 (vmem_color vmem (y / 2) (x / 2)))
        (update_screen vmem pixels)
unfolding update_screen
update_screen_lem vmem pixels x y hx hy =
    Returns-map (draw_rows vmem scr_h 0 pixels) (draw_rows-Paints vmem scr_h 0 pixels (omega arith))
      λ p painted. let c = painted x y in ground arith
