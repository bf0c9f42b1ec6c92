-- ===== src/Sdl/Switch.antt =====
-- The `switch` over a key symbol (SDLK_to_scancode of src/dev/keyboard.c, SDLK_to_ascii of
-- src/dev/serial.c): which name stands for the key.
use nemu_riscv.Base.{
  ℕ, zero, suc, ◌==◌, ◌≡◌, refl, ap, sym, if◌then◌else◌, Option, none, some, get_elem?,
}
use nemu_riscv.Base.{List, [], ◌∷◌, Bool-cases, inl, inr, ==_iff}
use nemu_riscv.Sdl.{Sdl, KeyName, key_names}
use nemu_riscv.Sdl.Names.{position, get_elem?-position}

-- The first of the names whose symbol is the key.
unfoldable pub find_key : Sdl → List KeyName → ℕ → Option KeyName
find_key sdl [] key = none
find_key sdl (name ∷ rest) key = if key == sdl.keysym name then some name else find_key sdl rest key

find_key-get_elem? :
    (sdl : Sdl) (names : List KeyName) (i : ℕ) (name : KeyName)
    → get_elem? names i ≡ some name
    → find_key sdl names (sdl.keysym name) ≡ some name
unfolding find_key
find_key-get_elem? sdl [] i name e = absurd (cc)
find_key-get_elem? sdl (n ∷ names) zero name e =
    let same : n ≡ name = cc in rw (same, (==_iff (sdl.keysym name) (sdl.keysym name)).1 refl) refl
find_key-get_elem? sdl (n ∷ names) (suc i) name e =
    elim (Bool-cases (sdl.keysym name == sdl.keysym n)) [
      | inl hit ↦
          let same : name ≡ n = sdl.keysym_injective name n ((==_iff _ _).0 hit) in
          rw hit (ap some (sym same))
      | inr miss ↦ rw miss (find_key-get_elem? sdl names i name e)
    ]

-- The symbol of a name finds that name.
pub find_key_lem :
    (sdl : Sdl) (name : KeyName) → find_key sdl key_names (sdl.keysym name) ≡ some name
find_key_lem sdl name =
    find_key-get_elem? sdl key_names (position name) name (get_elem?-position name)
