-- ===== src/Keyboard/Codes.antt =====
-- The scan codes of src/dev/keyboard.c.
use nemu_riscv.Base.{
  ℕ, suc, ◌+◌, ◌%◌, ◌≡◌, ◌≢◌, refl, arith, ltb, ◌==◌, if◌then◌else◌, ap, ◌∙◌, sym,
}
use nemu_riscv.Base.{List, [], ◌∷◌, get_elem?, some, none, ◌↔◌}
use nemu_riscv.Sdl.{Sdl, KeyName, key_names, sdlk_escape}
use nemu_riscv.Sdl.Names.{position, get_elem?-position}
use nemu_riscv.Sdl.Switch.{find_key_lem}
use nemu_riscv.Keyboard.{scancode_of, sdlk_to_scancode}

-- The code of a release in scan code set 2: the byte 0xF0 before the last byte of the press.
abbrev pub break_code : ℕ → ℕ
break_code down = if ltb down 0x100 then 0xF000 + down else 0xE0F000 + down % 0x100

scancode_of-break :
    (name : KeyName) → (scancode_of name).upcode ≡ break_code (scancode_of name).downcode
unfolding scancode_of
scancode_of-break sdlk_escape = refl
scancode_of-break _ = refl

downcode-ne-zero : (name : KeyName) → (scancode_of name).downcode ≢ 0
unfolding scancode_of
downcode-ne-zero sdlk_escape = λ e. omega arith
downcode-ne-zero _ = λ e. omega arith

-- Which place a press code has, searched through a list of names.
place_from : List KeyName → ℕ → ℕ → ℕ
place_from [] i code = 0
place_from (name ∷ rest) i code =
    if (scancode_of name).downcode == code then i else place_from rest (suc i) code

-- No other key before it sends the same code.
place_from-downcode :
    (name : KeyName) → place_from key_names 0 (scancode_of name).downcode ≡ position name
unfolding place_from scancode_of position
place_from-downcode sdlk_escape = refl
place_from-downcode _ = refl

downcode_injective : (j k : KeyName) → (scancode_of j).downcode ≡ (scancode_of k).downcode → j ≡ k
downcode_injective j k e =
    let places : position j ≡ position k =
      sym (place_from-downcode j) ∙ ap (place_from key_names 0) e ∙ place_from-downcode k in
    let both : some j ≡ some k =
      sym (get_elem?-position j) ∙ ap (get_elem? key_names) places ∙ get_elem?-position k in
    cc

sdlk_to_scancode-keysym :
    (sdl : Sdl) (name : KeyName) → sdlk_to_scancode sdl (sdl.keysym name) ≡ scancode_of name
unfolding sdlk_to_scancode
sdlk_to_scancode-keysym sdl name =
    ap (λ found. elim found [ none ↦ record { downcode = 0; upcode = 0 } | some n ↦ scancode_of n ])
      (find_key_lem sdl name)

-- Each key that the source names has a press code that is not 0 and that no other such key has, and
-- its release code is that code with the byte 0xF0 put before its last byte.
pub sdlk_to_scancode_lem :
    (sdl : Sdl) (j k : KeyName)
    → (((sdlk_to_scancode sdl (sdl.keysym j)).downcode
          ≡ (sdlk_to_scancode sdl (sdl.keysym k)).downcode)
        ↔ (j ≡ k))
      × ((sdlk_to_scancode sdl (sdl.keysym k)).downcode ≢ 0)
      × ((sdlk_to_scancode sdl (sdl.keysym k)).upcode
          ≡ break_code (sdlk_to_scancode sdl (sdl.keysym k)).downcode)
sdlk_to_scancode_lem sdl j k =
    rw (sdlk_to_scancode-keysym sdl j, sdlk_to_scancode-keysym sdl k)
      (
        (downcode_injective j k, λ e. ap (λ n. (scancode_of n).downcode) e),
        downcode-ne-zero k,
        scancode_of-break k,
      )
