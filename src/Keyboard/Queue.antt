-- ===== src/Keyboard/Queue.antt =====
-- The queue of scan codes of src/dev/keyboard.c as a bounded queue.
use nemu_riscv.Base.{ℕ, ◌+◌, ◌%◌, ◌<◌, ◌≡◌, ◌∙◌, refl, sym, ap, arith}
use nemu_riscv.Base.{List, [], ◌∷◌, ◌++◌, update, length, ok, Bool-cases, ◌==◌, not_eq}
use nemu_riscv.Base.{inl, inr, ◌⊎◌, if◌then◌else◌, leb}
use nemu_riscv.Ring.{ring_count, ring_items, items, ring_items-store, ring_items-next}
use nemu_riscv.Base.{take}
use nemu_riscv.Ring.{take-ring_items_full, take-ring_items_nil, take-ring_items, length-ring_items}
use nemu_riscv.Sdl.{Sdl, EventType}
use nemu_riscv.Keyboard.{
  Keyboard, enqueue_code, keyboard_enqueue, kb_read, code_sent, sdlk_to_scancode,
}
use nemu_riscv.Keyboard.{kb_code, kb_stat}

abbrev pub codes : Keyboard → List ℕ
codes k = ring_items k.keyboard_queue k.keyboard_f k.keyboard_r

-- Both indices are inside the array.
abbrev pub IsQueue : Keyboard → Type 0
IsQueue k = (k.keyboard_f < 1024) × (k.keyboard_r < 1024)

-- A scan code 0 sends nothing.
abbrev pub sent : ℕ → List ℕ
sent code = if code == 0 then [] else code ∷ []

enqueue_code-codes :
    (k : Keyboard) (code : ℕ)
    → IsQueue k
    → IsQueue (enqueue_code k code)
      × (codes (enqueue_code k code) ≡ take 1023 (codes k ++ sent code))
unfolding enqueue_code
enqueue_code-codes k code (hf, hr) = elim (Bool-cases (code == 0)) [
  | inl nothing ↦
      rw nothing ((hf, hr), sym (take-ring_items_nil k.keyboard_queue k.keyboard_f k.keyboard_r))
  | inr some_code ↦ elim (Bool-cases (not_eq ((k.keyboard_r + 1) % 1024) k.keyboard_f)) [
    | inl room ↦
        rw (some_code, room)
          (
            (hf, omega arith),
            sym (
                  take-ring_items (update k.keyboard_queue k.keyboard_r code) k.keyboard_f
                    ((k.keyboard_r + 1) % 1024))
                ∙ ap (take 1023) (
                    ring_items-store k.keyboard_queue k.keyboard_f k.keyboard_r code hf hr
                      (λ e. ground arith)),
          )
    | inr full ↦
        rw (some_code, full)
          (
            (hf, hr),
            sym (
                take-ring_items_full k.keyboard_queue k.keyboard_f k.keyboard_r (code ∷ []) hf hr
                  (ground arith)),
          )
  ]
]

-- Where both indices are inside the array: an event whose key is below SDLK_LAST appends the scan
-- code of the key to the queue, or nothing where that code is 0 or the queue holds 1023 codes; a key
-- from SDLK_LAST on changes nothing. The indices stay inside the array.
pub keyboard_enqueue-codes :
    (sdl : Sdl) (k : Keyboard) (type : EventType) (key : ℕ)
    → IsQueue k
    → IsQueue (keyboard_enqueue sdl k type key)
      × (codes (keyboard_enqueue sdl k type key) ≡ (
          if leb sdl.sdlk_last key
          then codes k
          else take 1023 (codes k ++ sent (code_sent type (sdlk_to_scancode sdl key)))))
unfolding keyboard_enqueue
keyboard_enqueue-codes sdl k type key h = elim (Bool-cases (leb sdl.sdlk_last key)) [
  | inl outside ↦ rw outside (h, refl)
  | inr inside ↦ rw inside (enqueue_code-codes k (code_sent type (sdlk_to_scancode sdl key)) h)
]

kb_read-next :
    (k : Keyboard)
    → (kb_read k kb_code 4
        ≡ ok (k.keyboard_queue k.keyboard_f, record k { keyboard_f = (k.keyboard_f + 1) % 1024 }))
      × (kb_read k kb_stat 4 ≡ ok (if k.keyboard_f == k.keyboard_r then 0 else 1, k))
unfolding kb_read
kb_read-next k = (refl, refl)

-- Where both indices are inside the array: with a code in the queue, the status reads 1 and a read
-- returns the oldest code and takes it out. With an empty queue, the status reads 0, but a read moves
-- the front index too: the queue then seems full, of 1023 codes that were never sent or are old.
kb_read-codes :
    (k : Keyboard)
    → IsQueue k
    → (k' : Keyboard) × (code : ℕ) × (kb_read k kb_code 4 ≡ ok (code, k'))
      × IsQueue k'
      × (((codes k ≡ code ∷ codes k') × (kb_read k kb_stat 4 ≡ ok (1, k)))
          ⊎ ((codes k ≡ []) × (kb_read k kb_stat 4 ≡ ok (0, k)) × (length (codes k') ≡ 1023)))
kb_read-codes k (hf, hr) = (
  record k { keyboard_f = (k.keyboard_f + 1) % 1024 },
  k.keyboard_queue k.keyboard_f,
  (kb_read-next k).0,
  (omega arith, hr),
  elim (Bool-cases (k.keyboard_f == k.keyboard_r)) [
    | inl same ↦
        let empty : ring_count k.keyboard_f k.keyboard_r ≡ 0 = ground arith in
        let filled : ring_count ((k.keyboard_f + 1) % 1024) k.keyboard_r ≡ 1023 = ground arith in
        inr (
          ap (items k.keyboard_queue k.keyboard_f) empty,
          (kb_read-next k).1 ∙ ap (λ b. ok (if b then 0 else 1, k)) same,
          length-ring_items k.keyboard_queue ((k.keyboard_f + 1) % 1024) k.keyboard_r ∙ filled,
        )
    | inr apart ↦ inl (
      ring_items-next k.keyboard_queue k.keyboard_f k.keyboard_r hf hr (λ e. ground arith),
      (kb_read-next k).1 ∙ ap (λ b. ok (if b then 0 else 1, k)) apart,
    )
  ],
)
