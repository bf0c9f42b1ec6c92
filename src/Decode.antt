-- ===== src/Decode.antt =====
-- The dispatch tables of src/cpu/exec-handlers.h. A label of the computed gotos is a `Handler`, or
-- one of the six `exec_...` entries that go on to a second table.
pub mod Manual
pub mod Tables
pub mod Found
use nemu_riscv.Base.{ℕ, zero, suc, ◌/◌, ◌==◌, bit_and, shr, List, [], ◌∷◌, get_elem?, none, some}
use nemu_riscv.Base.{Outcome, ok, fault, ◌>>=◌, ◌>>◌, cpu_assert, Option, if◌then◌else◌}
use nemu_riscv.Inst.{op, func3, func7}

pub data AluOp : Type 0 where
  add sub and or xor slt sltu sll srl sra : AluOp
  mul mulh mulhu mulhsu div rem divu remu : AluOp

pub data AluiOp : Type 0 where
  addi slli slti sltiu xori srli ori andi srai : AluiOp

pub data BranchOp : Type 0 where
  beq bne blt bge bltu bgeu : BranchOp

pub data LoadOp : Type 0 where
  lb lh lw lbu lhu : LoadOp

pub data StoreOp : Type 0 where
  sb sh sw : StoreOp

pub data CsrOp : Type 0 where
  csrrw csrrs csrrc csrrwi csrrsi csrrci : CsrOp

pub data Handler : Type 0 where
  inv fence auipc lui jal jalr ecall_ebreak : Handler
  alu : AluOp → Handler
  alui : AluiOp → Handler
  branch : BranchOp → Handler
  load : LoadOp → Handler
  store : StoreOp → Handler
  csr : CsrOp → Handler

pub data Entry : Type 0 where
  exec_load exec_alui exec_store exec_alu exec_branch exec_csr : Entry
  goto : Handler → Entry

unfoldable pub branch_table : List Handler
branch_table =
    branch beq ∷ branch bne ∷ inv ∷ inv ∷ branch blt ∷ branch bge ∷ branch bltu ∷ branch bgeu ∷ []

unfoldable pub load_table : List Handler
load_table = load lb ∷ load lh ∷ load lw ∷ inv ∷ load lbu ∷ load lhu ∷ inv ∷ inv ∷ []

unfoldable pub store_table : List Handler
store_table = store sb ∷ store sh ∷ store sw ∷ inv ∷ inv ∷ inv ∷ inv ∷ inv ∷ []

unfoldable pub alui_table_0 : List Handler
alui_table_0 =
    alui addi
    ∷ alui slli
    ∷ alui slti
    ∷ alui sltiu
    ∷ alui xori
    ∷ alui srli
    ∷ alui ori
    ∷ alui andi
    ∷ []

unfoldable pub alui_table_32 : List Handler
alui_table_32 = inv ∷ inv ∷ inv ∷ inv ∷ inv ∷ alui srai ∷ inv ∷ inv ∷ []

unfoldable pub alu_table_0 : List Handler
alu_table_0 = alu add ∷ alu sll ∷ alu slt ∷ alu sltu ∷ alu xor ∷ alu srl ∷ alu or ∷ alu and ∷ []

unfoldable pub alu_table_1 : List Handler
alu_table_1 =
    alu mul ∷ alu mulh ∷ alu mulhsu ∷ alu mulhu ∷ alu div ∷ alu divu ∷ alu rem ∷ alu remu ∷ []

unfoldable pub alu_table_32 : List Handler
alu_table_32 = alu sub ∷ inv ∷ inv ∷ inv ∷ inv ∷ alu sra ∷ inv ∷ inv ∷ []

unfoldable pub csr_table : List Handler
csr_table =
    ecall_ebreak
    ∷ csr csrrw
    ∷ csr csrrs
    ∷ csr csrrc
    ∷ inv
    ∷ csr csrrwi
    ∷ csr csrrsi
    ∷ csr csrrci
    ∷ []

unfoldable pub opcode_table : List Entry
opcode_table =
    exec_load
    ∷ goto inv
    ∷ goto inv
    ∷ goto fence
    ∷ exec_alui
    ∷ goto auipc
    ∷ goto inv
    ∷ goto inv
    ∷ exec_store
    ∷ goto inv
    ∷ goto inv
    ∷ goto inv
    ∷ exec_alu
    ∷ goto lui
    ∷ goto inv
    ∷ goto inv
    ∷ goto inv
    ∷ goto inv
    ∷ goto inv
    ∷ goto inv
    ∷ goto inv
    ∷ goto inv
    ∷ goto inv
    ∷ goto inv
    ∷ exec_branch
    ∷ goto inv
    ∷ goto inv
    ∷ goto jalr
    ∷ exec_csr
    ∷ goto jal
    ∷ goto inv
    ∷ goto inv
    ∷ []

-- `table[i]`; an index outside the table is undefined behaviour.
unfoldable pub at {ℓ} : {A : Type ℓ} → List A → ℕ → Outcome A
at table i = elim (get_elem? table i) [ none ↦ fault | some entry ↦ ok entry ]

-- The entries that go on to a second table.
unfoldable pub enter : Entry → ℕ → Outcome Handler
enter exec_load inst = at load_table (func3 inst)
enter exec_store inst = at store_table (func3 inst)
enter exec_branch inst = at branch_table (func3 inst)
enter exec_csr inst = at csr_table (func3 inst)
enter exec_alui inst =
    if func7 inst == 0
    then at alui_table_0 (func3 inst)
    else if func7 inst == 1
    then at alui_table_32 (func3 inst)
    else ok inv
enter exec_alu inst =
    if func7 inst == 0
    then at alu_table_0 (func3 inst)
    else if func7 inst == 1
    then at alu_table_1 (func3 inst)
    else if func7 inst == 32
    then at alu_table_32 (func3 inst)
    else ok inv
enter (goto handler) inst = ok handler

-- `make_entry`
unfoldable pub dispatch : ℕ → Outcome Handler
unfolding enter
dispatch inst = do
  cpu_assert (bit_and (op inst) 0x3 == 0x3)
  entry ← at opcode_table (shr (op inst) 2)
  enter entry inst
