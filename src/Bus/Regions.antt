-- ===== src/Bus/Regions.antt =====
-- The search in the memory map (`find_region`, `region_collide` and `init_mmio` of src/memory.c).
use nemu_riscv.Base.{ℕ, zero, suc, ◌+◌, ◌≤◌, ◌<◌, ◌≡◌, ◌↔◌, refl, arith, true}
use nemu_riscv.Base.{
  some, List, [], ◌∷◌, get_elem?, ok, Bool-cases, inl, inr, ap, ◌∙◌, sym, >>-eq-ok,
}
use Prim.Native.Nat.{max}
use nemu_riscv.Bus.{MmapRegion, holds, mmap_table, find_from, find_region}
use nemu_riscv.Bus.{region_collide, check_row, check_rows, init_mmio}

-- For two regions that are not empty, `region_collide` holds exactly when some address lies in
-- both.
region_collide_iff :
    (x y a b : ℕ)
    → x < y
    → a < b
    → (region_collide x y a b ≡ true) ↔ ((t : ℕ) × (x ≤ t) × (t < y) × (a ≤ t) × (t < b))
unfolding region_collide
region_collide_iff x y a b p q =
    (λ h. (max x a, ground arith, ground arith, ground arith, ground arith), λ h. ground arith)

-- The region of a row is not empty.
abbrev pub IsNonempty : MmapRegion → Type 0
IsNonempty region = region.start < region.end

abbrev pub AllNonempty : List MmapRegion → Type 0
AllNonempty [] = Unit {0}
AllNonempty (region ∷ rest) = IsNonempty region × AllNonempty rest

-- Two rows hold no address in common.
abbrev pub Apart : MmapRegion → MmapRegion → Type 0
Apart r q = (t : ℕ) → holds r t ≡ true → holds q t ≡ true → ⊥

check_row_head :
    (r q : MmapRegion) (rest : List MmapRegion)
    → IsNonempty r
    → IsNonempty q
    → check_row r (q ∷ rest) ≡ ok tt
    → Apart r q × (check_row r rest ≡ ok tt)
unfolding check_row region_collide
check_row_head r q rest nr nq h = (λ t hr hq. ground arith, ground arith)

check_row-Apart :
    (r : MmapRegion) (rest : List MmapRegion) (i : ℕ) (q : MmapRegion)
    → IsNonempty r
    → AllNonempty rest
    → check_row r rest ≡ ok tt
    → get_elem? rest i ≡ some q
    → Apart r q
check_row-Apart r [] i q nr nq h e = absurd (cc)
check_row-Apart r (p ∷ rest) zero q nr nq h e = ground (arith, check_row_head r p rest nr nq.0 h)
check_row-Apart r (p ∷ rest) (suc i) q nr nq h e =
    check_row-Apart r rest i q nr nq.1 (check_row_head r p rest nr nq.0 h).1 e

-- What the search returns is a row that holds the address.
find_from_sound :
    (a : ℕ) (rs : List MmapRegion) (k i : ℕ)
    → find_from a rs k ≡ some i
    → (j : ℕ) × (i ≡ k + j) × (r : MmapRegion) × (get_elem? rs j ≡ some r) × (holds r a ≡ true)
unfolding find_from
find_from_sound a [] k i h = absurd (cc)
find_from_sound a (r ∷ rs) k i h = elim (Bool-cases (holds r a)) [
  | inl e ↦ (0, ground arith, r, refl, e)
  | inr e ↦
      let (j, ej, q, g, hq) = find_from_sound a rs (suc k) i (rw e at h) in
      (suc j, omega arith, q, g, hq)
]

-- Where the rows are apart, the row that holds the address is the one found.
find_from_complete :
    (a : ℕ) (rs : List MmapRegion) (k i : ℕ) (r : MmapRegion)
    → AllNonempty rs
    → check_rows rs ≡ ok tt
    → get_elem? rs i ≡ some r
    → holds r a ≡ true
    → find_from a rs k ≡ some (k + i)
unfolding find_from check_rows
find_from_complete a [] k i r ne ch e h = absurd (cc)
find_from_complete a (p ∷ rs) k zero r ne ch e h =
    let same : p ≡ r = cc in rw (same, h) (ap some (omega arith))
find_from_complete a (p ∷ rs) k (suc i) r ne ch e h =
    let (row_ok, rest_ok) = >>-eq-ok (check_row p rs) ch in
    elim (Bool-cases (holds p a)) [
      | inl both ↦ absurd (check_row-Apart p rs i r ne.0 ne.1 row_ok e a both h)
      | inr ne_p ↦
          rw ne_p (find_from_complete a rs (suc k) i r ne.1 rest_ok e h ∙ ap some (omega arith))
    ]

-- The assertions of `init_mmio` all pass.
pub init_mmio_passes : init_mmio ≡ ok tt
unfolding init_mmio region_collide
init_mmio_passes = refl

mmap_table-AllNonempty : AllNonempty mmap_table
unfolding mmap_table
mmap_table-AllNonempty = omega arith

mmap_table_checked : check_rows mmap_table ≡ ok tt
mmap_table_checked = (unfold init_mmio in init_mmio_passes)

find_region_lem : (a : ℕ) → find_region a ≡ find_from a mmap_table 0
unfolding find_region
find_region_lem a = refl

-- `find_region` returns a row exactly when that row holds the address: since the rows pass the
-- assertions of `init_mmio`, the order of the table does not matter.
find_region_iff :
    (a i : ℕ)
    → (find_region a ≡ some i)
      ↔ ((r : MmapRegion) × (get_elem? mmap_table i ≡ some r) × (holds r a ≡ true))
find_region_iff a i = (
  λ h.
      (let (j, e, r, g, hr) = find_from_sound a mmap_table 0 i (sym (find_region_lem a) ∙ h) in
        let same : i ≡ j = omega arith in (r, rw same g, hr)),
  λ (r, g, hr).
      (find_region_lem a
        ∙ find_from_complete a mmap_table 0 i r mmap_table-AllNonempty mmap_table_checked g hr
        ∙ ap some (omega arith)),
)
