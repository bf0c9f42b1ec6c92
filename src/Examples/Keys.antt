-- ===== src/Examples/Keys.antt =====
-- The theorems on keys, on their queues and on the timer signal, at concrete states.
use nemu_riscv.Base.{
  ◌+◌, ◌/◌, ◌%◌, ◌<◌, ◌≡◌, ◌≢◌, ◌↔◌, ◌∙◌, sym, ap, refl, arith, true, false, Returns,
}
use nemu_riscv.Base.{[], ◌∷◌, get_elem?, some, u64}
use nemu_riscv.Sdl.{
  Sdl, KeyName, key_names, sdlk_a, sdlk_escape, sdlk_up, Event, sdl_keydown, sdl_keyup,
}
use nemu_riscv.Sdl.Names.{position, get_elem?-position}
use nemu_riscv.Serial.{Serial}
use nemu_riscv.Serial.Fifo.{IsFifo, contents}
use nemu_riscv.Serial.Keys.{serial_enqueue}
use nemu_riscv.Serial.Keys.Typing.{serial_enqueue_press, typed}
use nemu_riscv.Keyboard.{Keyboard, sdlk_to_scancode, keyboard_enqueue}
use nemu_riscv.Keyboard.Codes.{sdlk_to_scancode_lem, break_code}
use nemu_riscv.Keyboard.Queue.{codes, IsQueue, keyboard_enqueue-codes}
use nemu_riscv.Video.{rgb_m12_to_m32, vmem_color}
use nemu_riscv.Device.{World, device_update}
use nemu_riscv.Device.{set_serial}
use nemu_riscv.Device.Frame.{device_update_lem}
use nemu_riscv.Examples.{zeros, booted, idle_serial}

pub position_injective : (j k : KeyName) → position j ≡ position k → j ≡ k
position_injective j k e =
    let same : some j ≡ some k =
      sym (get_elem?-position j) ∙ ap (get_elem? key_names) e ∙ get_elem?-position k in
    cc

pub position-lt : (k : KeyName) → position k < 99
unfolding position
position-lt sdlk_escape = omega arith
position-lt _ = omega arith

-- Key symbols without gaps, in the order of the source.
abbrev pub counted : Sdl
counted = record {
  keysym = position;
  sdlk_last = 99;
  keysym_injective = position_injective;
  keysym_lt = position-lt;
}

sdlk_to_scancode_lem_example :
    (((sdlk_to_scancode counted (position sdlk_a)).downcode
        ≡ (sdlk_to_scancode counted (position sdlk_up)).downcode)
      ↔ (sdlk_a ≡ sdlk_up))
    × ((sdlk_to_scancode counted (position sdlk_up)).downcode ≢ 0)
    × ((sdlk_to_scancode counted (position sdlk_up)).upcode
        ≡ break_code (sdlk_to_scancode counted (position sdlk_up)).downcode)
sdlk_to_scancode_lem_example = sdlk_to_scancode_lem counted sdlk_a sdlk_up

abbrev pub no_keys : Keyboard
no_keys = record { keyboard_queue = zeros; keyboard_f = 7; keyboard_r = 7 }

keyboard_enqueue-codes_example :
    IsQueue (keyboard_enqueue counted no_keys sdl_keyup 79)
    × (codes (keyboard_enqueue counted no_keys sdl_keyup 79) ≡ 0xE0F06B ∷ [])
unfolding sdlk_to_scancode position
keyboard_enqueue-codes_example =
    keyboard_enqueue-codes counted no_keys sdl_keyup 79 (omega arith, omega arith)

serial_enqueue_press_example :
    (s' : Serial) × (serial_enqueue counted idle_serial sdl_keydown 43 ≡ s')
    × IsFifo s'
    × (contents s' ≡ typed counted idle_serial 43)
    × (serial_enqueue counted s' sdl_keydown 43 ≡ s')
    × (contents (serial_enqueue counted s' sdl_keyup 43) ≡ contents s')
    × ((serial_enqueue counted s' sdl_keyup 43).sdlk_state 43 ≡ false)
serial_enqueue_press_example =
    serial_enqueue_press counted idle_serial 43 (omega arith, omega arith) refl refl

abbrev pub started : World
started = record { machine = booted; keyboard = no_keys; pixels = λ x. zeros; jiffy = 3 }

abbrev press_a : Event
press_a = record { event_type = sdl_keydown; sym = 43 }

device_update_lem_example :
    Returns
      (λ w.
        (w.machine
          ≡ set_serial started.machine
              (serial_enqueue counted started.machine.sys.serial sdl_keydown press_a.sym))
        × (w.keyboard ≡ keyboard_enqueue counted started.keyboard sdl_keydown press_a.sym)
        × (w.jiffy ≡ u64 (3 + 1))
        × (u64 (3 + 1) % 4 ≡ 0
            → w.pixels 799 599 ≡ rgb_m12_to_m32 (vmem_color zeros (599 / 2) (799 / 2))))
      (device_update counted press_a true started)
device_update_lem_example =
    device_update_lem counted press_a started 799 599 (λ e. cc) (omega arith) (omega arith)
