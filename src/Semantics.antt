-- ===== src/Semantics.antt =====
-- What the intermediate code means, the specification that the optimizer is held to: the listing's
-- reading of each opcode (compiler/opcode.cc) over two registers, three stacks and memory. The
-- words that a program does not define, the bodies of code words and the addresses that the linker
-- picks are a parameter, `Runtime`.
pub mod Fuel
pub mod Simulation
pub mod Layout
pub mod Refine
pub mod Step
pub mod Unique
use vnpforth.Prelude.{
  ℕ, zero, suc, ◌+◌, ◌-◌, ◌%◌, ◌^◌, Bool, true, false, not, ◌&&◌, ◌||◌, List, [], ◌∷◌, Option, none,
  some, ◌≡◌, ◌>>=◌, Text, ◌==◌, ltb, if◌then◌else◌,
}
use vnpforth.Symbol.{Symbol, same_symbol}
use vnpforth.Opcode.{
  Register, r0, r1, Stack, data_stack, return_stack, float_stack, Label, Instruction, call, define,
  end_define, label, assembly, load_value, load_register, load_symbol, load_symbol_indirect,
  load_data, store_symbol_indirect, push, pop, add_value, add_register, subtract_value,
  subtract_register, jump, jump_zero, jump_non_zero, jump_greater_zero, jump_less_zero,
  jump_greater_equal_zero, jump_less_equal_zero, jump_equal, jump_not_equal, no_op, Opcode,
  instruction, is_label_opcode, is_define_opcode,
}

-- The registers, the stacks (top first), the cells of memory, and all else that words may change.
pub record Machine (W : Type 0) : Type 0 where
  pub reg0 : ℕ
  pub reg1 : ℕ
  pub data_cells : List ℕ
  pub return_cells : List ℕ
  pub float_cells : List ℕ
  pub memory : ℕ → ℕ
  pub world : W

-- What the program does not contain; `none` is a fault.
pub record Runtime (W : Type 0) : Type 0 where
  pub run_external : Symbol → Machine W → Option (Machine W)
  pub run_assembly : Text → Machine W → Option (Machine W)
  pub symbol_address : Symbol → ℕ
  pub data_address : ℕ → ℕ

-- What an opcode does next: go on, branch, call, return, or fault.
pub data Action (W : Type 0) : Type 0 where
  next : Machine W → Action W
  goto : Label → Machine W → Action W
  enter : Symbol → Machine W → Action W
  leave : Machine W → Action W
  fault : Action W

abbrev pub cell_mod : ℕ
cell_mod = 2 ^ 32

-- Signed tests on a 32-bit pattern.
abbrev pub is_negative : ℕ → Bool
is_negative v = not (ltb v (2 ^ 31))

abbrev pub is_positive : ℕ → Bool
is_positive v = not (v == 0) && not (is_negative v)

module _ {W : Type 0} where
  abbrev pub get : Register → Machine W → ℕ
  get r0 m = m.reg0
  get r1 m = m.reg1

  abbrev pub set : Register → ℕ → Machine W → Machine W
  set r0 v m = record m { reg0 = v }
  set r1 v m = record m { reg1 = v }

  abbrev pub push_cell : Stack → ℕ → Machine W → Machine W
  push_cell data_stack v m = record m { data_cells = v ∷ m.data_cells }
  push_cell return_stack v m = record m { return_cells = v ∷ m.return_cells }
  push_cell float_stack v m = record m { float_cells = v ∷ m.float_cells }

  -- A pop from an empty stack is a fault.
  abbrev pub pop_cell : Stack → Machine W → Option (ℕ × Machine W)
  pop_cell data_stack m = elim (m.data_cells) [
    | [] ↦ none
    | v ∷ vs ↦ some (v, record m { data_cells = vs })
  ]
  pop_cell return_stack m = elim (m.return_cells) [
    | [] ↦ none
    | v ∷ vs ↦ some (v, record m { return_cells = vs })
  ]
  pop_cell float_stack m = elim (m.float_cells) [
    | [] ↦ none
    | v ∷ vs ↦ some (v, record m { float_cells = vs })
  ]

  abbrev pub write : ℕ → ℕ → Machine W → Machine W
  write a v m = record m { memory = λ b. if a == b then v else m.memory b }

  abbrev pub proceed : Option (Machine W) → Action W
  proceed none = fault
  proceed (some m) = next m

  abbrev pub branch : Bool → Label → Machine W → Action W
  branch true l m = goto l m
  branch false l m = next m

  abbrev pub popped : Register → Option (ℕ × Machine W) → Action W
  popped r none = fault
  popped r (some (v, m)) = next (set r v m)

-- The program: where a label or the definition of a symbol stands, as the code that follows it.
unfoldable pub find_label : Label → List Opcode → Option (List Opcode)
unfolding is_label_opcode
find_label l [] = none
find_label l (op ∷ rest) = elim (is_label_opcode (instruction op)) [
  | none ↦ find_label l rest
  | some k ↦ if k == l then some rest else find_label l rest
]

unfoldable pub find_define : Symbol → List Opcode → Option (List Opcode)
unfolding is_define_opcode
find_define s [] = none
find_define s (op ∷ rest) = elim (is_define_opcode (instruction op)) [
  | none ↦ find_define s rest
  | some d ↦ if same_symbol d s then some rest else find_define s rest
]

module _ {W : Type 0} (R : Runtime W) where
  unfoldable pub step : Instruction → Machine W → Action W
  step (call s) m = enter s m
  step (define s) m = fault
  step (end_define s) m = leave m
  step (label l) m = next m
  step (assembly t) m = proceed (R.run_assembly t m)
  step (load_value r v) m = next (set r v m)
  step (load_register r with) m = next (set r (get with m) m)
  step (load_symbol r s) m = next (set r (R.symbol_address s) m)
  step (load_symbol_indirect r s) m = next (set r (m.memory (R.symbol_address s)) m)
  step (load_data r d) m = next (set r (R.data_address d) m)
  step (store_symbol_indirect r s) m = next (write (R.symbol_address s) (get r m) m)
  step (push r s) m = next (push_cell s (get r m) m)
  step (pop r s) m = popped r (pop_cell s m)
  step (add_value r v) m = next (set r ((get r m + v) % cell_mod) m)
  step (add_register r i) m = next (set r ((get r m + get i m) % cell_mod) m)
  step (subtract_value r v) m = next (set r ((get r m + cell_mod - v) % cell_mod) m)
  step (subtract_register r d) m = next (set r ((get r m + cell_mod - get d m) % cell_mod) m)
  step (jump l) m = goto l m
  step (jump_zero r l) m = branch (get r m == 0) l m
  step (jump_non_zero r l) m = branch (not (get r m == 0)) l m
  step (jump_greater_zero r l) m = branch (is_positive (get r m)) l m
  step (jump_less_zero r l) m = branch (is_negative (get r m)) l m
  step (jump_greater_equal_zero r l) m = branch (not (is_negative (get r m))) l m
  step (jump_less_equal_zero r l) m = branch (not (is_positive (get r m))) l m
  step (jump_equal r s l) m = branch (get r m == get s m) l m
  step (jump_not_equal r s l) m = branch (not (get r m == get s m)) l m
  step no_op m = next m

  module _ (P : List Opcode) where
    -- A call: of a definition of the program, or else of an external word.
    abbrev pub invoke :
        (Machine W → Option (Machine W))
        → (List Opcode → Machine W → Option (Machine W))
        → Symbol
        → Machine W
        → Option (List Opcode)
        → Option (Machine W)
    invoke resume transfer s m none = R.run_external s m >>= resume
    invoke resume transfer s m (some body) = transfer body m >>= resume

    abbrev pub arrive :
        (List Opcode → Machine W → Option (Machine W))
        → Machine W
        → Option (List Opcode)
        → Option (Machine W)
    arrive transfer m none = none
    arrive transfer m (some code) = transfer code m

    unfoldable pub follow :
        (Machine W → Option (Machine W))
        → (List Opcode → Machine W → Option (Machine W))
        → Action W
        → Option (Machine W)
    follow resume transfer (next m) = resume m
    follow resume transfer (goto l m) = arrive transfer m (find_label l P)
    follow resume transfer (enter s m) = invoke resume transfer s m (find_define s P)
    follow resume transfer (leave m) = some m
    follow resume transfer fault = none

    abbrev pub stuck : List Opcode → Machine W → Option (Machine W)
    stuck code m = none

    -- Runs code until the definition's end. Each branch or call of a definition that is nested in
    -- the run takes one unit of fuel; code that runs on takes none.
    unfoldable pub exec : ℕ → List Opcode → Machine W → Option (Machine W)
    exec zero [] m = none
    exec (suc n) [] m = none
    exec zero (op ∷ code) m = follow (exec zero code) stuck (step (instruction op) m)
    exec (suc n) (op ∷ code) m = follow (exec (suc n) code) (exec n) (step (instruction op) m)

    -- A run of one definition, from its first opcode.
    unfoldable pub run : ℕ → Symbol → Machine W → Option (Machine W)
    run n s m = arrive (exec n) m (find_define s P)

-- A program does all that another one does: each run of it that ends is a run of this one, with
-- the same result and no more branches and calls.
abbrev pub Refines : {W : Type 0} → Runtime W → List Opcode → List Opcode → Type 0
Refines {W} R P Q =
    (n : ℕ) (s : Symbol) (m t : Machine W) → run R P n s m ≡ some t → run R Q n s m ≡ some t
