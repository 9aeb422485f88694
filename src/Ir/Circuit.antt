-- ===== src/Ir/Circuit.antt =====
-- `Node` of src/opencollate/sequential_ir.py, with its operator as a constructor for each spelling
-- that the interpreter and the bit blaster know, and one for all others.
use Prim.Native.String.{String}
use open_collate.Common.{ℕ, Bool, List}

pub data Op : Type 0 where
  ref const cast mux slice concat : Op
  add subtract multiply binary_and binary_or binary_xor binary_xnor : Op
  equality inequality less_than less_than_equal greater_than greater_than_equal : Op
  logical_and logical_or : Op
  logical_shift_left arithmetic_shift_left logical_shift_right arithmetic_shift_right : Op
  plus minus bitwise_not logical_not : Op
  reduce_and reduce_nand reduce_or reduce_nor reduce_xor reduce_xnor : Op
  unknown_op : String → Op

-- `Node.value`: a signal's name, or a number (masked to the width of a constant, or an offset).
pub data Payload : Type 0 where
  name : String → Payload
  numeral : ℕ → Payload

pub record Node : Type 0 where
  pub op : Op
  pub width : ℕ
  pub signed : Bool
  pub args : List ℕ
  pub value : Payload

-- `SequentialError` by message; `lookup_error` is the IndexError or KeyError of a failed read.
pub data SequentialError : Type 0 where
  undriven too_many_state_bits combinational_cycle unresolved_in_cone : SequentialError
  bad_width not_topological too_many_nodes bad_reference unhandled_operator lookup_error
        out_of_fuel :
      SequentialError
