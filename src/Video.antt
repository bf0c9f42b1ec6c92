-- ===== src/Video.antt =====
-- The frame buffer of src/dev/video.c: the bus accesses, the colours, and the copy to the window.
-- The window's pixels (`screen->pixels`) are a function of column and row.
pub mod Screen
use nemu_riscv.Base.{ℕ, zero, suc, ◌+◌, ◌-◌, ◌*◌, ◌/◌, ◌%◌, ◌^◌, Bool, ◌&&◌, ◌==◌}
use nemu_riscv.Base.{ltb, leb, if◌then◌else◌, u32, bit_and, bit_or, shr, ◌<<◌}
use nemu_riscv.Base.{Outcome, ok, ◌>>=◌, ◌>>◌, cpu_assert, defined}
use nemu_riscv.Ram.{load_host, store_host}

abbrev pub scr_w : ℕ
scr_w = 400

abbrev pub scr_h : ℕ
scr_h = 300

abbrev pub window_w : ℕ
window_w = scr_w * 2

abbrev pub window_h : ℕ
window_h = scr_h * 2

abbrev pub vmem_size : ℕ
vmem_size = 4 * window_h * window_w

abbrev pub check_vga : ℕ → ℕ → Bool
check_vga addr len = ltb addr vmem_size && leb (u32 (addr + len)) vmem_size

-- The load of four bytes is undefined in C at an address that is no multiple of 4 (`vmem` lies at one).
unfoldable pub vga_read : (ℕ → ℕ) → ℕ → ℕ → Outcome ℕ
unfolding load_host
vga_read vmem addr len = do
  cpu_assert (check_vga addr len)
  defined (addr % 4 == 0 && leb 1 len && leb len 4 && leb (addr + 4) vmem_size)
  ok (bit_and (load_host vmem addr 4) (shr (2 ^ 32 - 1) ((4 - len) * 8)))

unfoldable pub vga_write : (ℕ → ℕ) → ℕ → ℕ → ℕ → Outcome (ℕ → ℕ)
unfolding store_host
vga_write vmem addr len word = do
  cpu_assert (check_vga addr len)
  defined (leb len 4)
  ok (store_host vmem addr len word)

unfoldable pub rgb_m12_to_m32 : ℕ → ℕ
rgb_m12_to_m32 color =
    bit_or
      (bit_or (bit_or 0xFF000000 (bit_and color 0xF00 << (8 + 4))) (bit_and color 0x0F0 << (4 + 4)))
      (bit_and color 0x00F << (0 + 4))

-- `pixel_buf[y][x]`, by column and row.
abbrev pub Pixels : Type 0
Pixels = ℕ → ℕ → ℕ

unfoldable pub draw_pixel : Pixels → ℕ → ℕ → ℕ → Outcome Pixels
unfolding rgb_m12_to_m32
draw_pixel pixels x y color = do
  cpu_assert (ltb x window_w && ltb y window_h)
  ok (λ x' y'. if x' == x && y' == y then rgb_m12_to_m32 color else pixels x' y')

-- `vmem_ptr[i][j]`, a `uint16_t` of the frame buffer.
unfoldable pub vmem_color : (ℕ → ℕ) → ℕ → ℕ → ℕ
unfolding load_host
vmem_color vmem i j = load_host vmem (2 * (scr_w * i + j)) 2

-- The body of the inner loop: one colour becomes two by two pixels.
unfoldable pub draw_cell : (ℕ → ℕ) → ℕ → ℕ → Pixels → Outcome Pixels
unfolding draw_pixel vmem_color
draw_cell vmem i j pixels = do
  let color = vmem_color vmem i j
  p0 ← draw_pixel pixels (2 * j) (2 * i) color
  p1 ← draw_pixel p0 (2 * j) (2 * i + 1) color
  p2 ← draw_pixel p1 (2 * j + 1) (2 * i) color
  draw_pixel p2 (2 * j + 1) (2 * i + 1) color

-- The inner loop, with `left` rounds to go.
unfoldable pub draw_row : (ℕ → ℕ) → ℕ → ℕ → ℕ → Pixels → Outcome Pixels
draw_row vmem i zero j pixels = ok pixels
draw_row vmem i (suc left) j pixels = do
  pixels' ← draw_cell vmem i j pixels
  draw_row vmem i left (j + 1) pixels'

-- The outer loop, with `left` rounds to go.
unfoldable pub draw_rows : (ℕ → ℕ) → ℕ → ℕ → Pixels → Outcome Pixels
draw_rows vmem zero i pixels = ok pixels
draw_rows vmem (suc left) i pixels = do
  pixels' ← draw_row vmem i scr_w 0 pixels
  draw_rows vmem left (i + 1) pixels'

unfoldable pub update_screen : (ℕ → ℕ) → Pixels → Outcome Pixels
update_screen vmem pixels = draw_rows vmem scr_h 0 pixels
