-- ===== src/Lower/Nodes.antt =====
-- The body of the loop of `Unroller.lower` (src/opencollate/sequential_cnf.py): the bits of a node
-- from the bits of its operands.
use Prim.Native.Nat.{min}
use Prim.Native.String.{String}
use open_collate.Common.{
  ℕ, ℤ, ◌+◌, ◌-◌, ◌^◌, Bool, true, false, ◌&&◌, Option, none, some, List, [], ◌∷◌, ◌++◌, length,
  take, drop, replicate, neg, leb, ◌==◌, if◌then◌else◌,
}
use open_collate.Kernel.Meter.{unsupported_operator, width_disagrees, lookup_failed}
use open_collate.Cnf.State.{one, minus_one, M, pure, raise, ◌>>=◌}
use open_collate.Cnf.Gates.{and_, or_, xor}
use open_collate.Cnf.Words.{Bits, negate, any_, all_, equal, less, zip_with}
use open_collate.Cnf.Words as Words
use open_collate.Ir.Circuit.{
  Op, ref, const, cast, mux, slice, concat, add, subtract, multiply, binary_and, binary_or,
  binary_xor, binary_xnor, equality, inequality, less_than, less_than_equal, greater_than,
  greater_than_equal, logical_and, logical_or, logical_shift_left, arithmetic_shift_left,
  logical_shift_right, arithmetic_shift_right, plus, minus, bitwise_not, logical_not, reduce_and,
  reduce_nand, reduce_or, reduce_nor, reduce_xor, reduce_xnor, unknown_op, Payload, name, numeral,
  Node,
}

-- An operand: whether its node is signed, and its bits.
pub record Lowered : Type 0 where
  pub signed : Bool
  pub bits : Bits

-- A dict from names to bits.
abbrev pub Frame : Type 0
Frame = String → Option Bits

-- A dict read that raises KeyError where there is nothing.
abbrev pub read : Option Bits → M Bits
read none = raise lookup_failed
read (some v) = pure v

-- `boolean(literal)`: for a node of positive width.
unfoldable pub boolean : ℕ → ℤ → Bits
boolean width l = l ∷ replicate (width - 1) minus_one

abbrev pub boolean_of : ℕ → M ℤ → M Bits
boolean_of width m = do l ← m; pure (boolean width l)

abbrev pub boolean_not : ℕ → M ℤ → M Bits
boolean_not width m = do l ← m; pure (boolean width (neg l))

-- `a[-1]`, the top bit.
unfoldable pub top : Bits → Option ℤ
top [] = none
top (x ∷ []) = some x
top (x ∷ y ∷ ys) = top (y ∷ ys)

-- `a[-1] if signed else -1`
unfoldable pub fill_of : Bool → Bits → M ℤ
unfolding top
fill_of false ls = pure minus_one
fill_of true ls = elim (top ls) [ none ↦ raise lookup_failed | some l ↦ pure l ]

-- `(*a, *([fill] * max(0, width - len(a))))[:width]`
unfoldable pub resize : ℕ → ℤ → Bits → Bits
resize width fill ls = take width (ls ++ replicate (width - length ls) fill)

-- `tuple(q.mux(select, x, y) for x, y in zip(…, strict=True))`
unfoldable pub mux_bits : ℤ → Bits → Bits → M Bits
unfolding zip_with
mux_bits select = zip_with (Words.mux select)

unfoldable pub concat_bits : List Lowered → Bits
concat_bits [] = []
concat_bits (x ∷ xs) = concat_bits xs ++ x.bits

-- `tuple(q.and_(x, bit) for x in a)`
unfoldable pub and_each : ℤ → Bits → M Bits
unfolding and_
and_each b [] = pure []
and_each b (x ∷ xs) = do v ← and_ x b; vs ← and_each b xs; pure (v ∷ vs)

-- Where `a[: width - j]` ends: an end below 0 counts from the end of the word.
abbrev pub slice_end : ℕ → ℕ → ℕ → ℕ
slice_end width j size = if leb j width then width - j else size - (j - width)

-- The loop of `Multiply`, from row `j` and the sum `v`.
unfoldable pub multiply_rows : ℕ → ℕ → Bits → Bits → Bits → M Bits
unfolding and_each
multiply_rows width j a [] v = pure v
multiply_rows width j a (b ∷ bs) v = do
  row ← and_each b (take (slice_end width j (length a)) a)
  v' ← Words.add v (replicate j minus_one ++ row) minus_one
  multiply_rows width (j + 1) a bs v'

-- The shifted word of one round of a shift.
abbrev pub shifted : Bool → ℕ → ℤ → Bits → Bits
shifted true distance fill v = replicate distance minus_one ++ take (length v - distance) v
shifted false distance fill v = drop distance v ++ replicate distance fill

-- The loop of the shifts, from round `j`.
unfoldable pub shift_rounds : Bool → ℕ → ℤ → Bits → Bits → M Bits
unfolding mux_bits
shift_rounds left j fill [] v = pure v
shift_rounds left j fill (b ∷ bs) v = do
  v' ← mux_bits b (shifted left (min (2 ^ j) (length v)) fill v) v
  shift_rounds left (j + 1) fill bs v'

abbrev pub shift_bits : Bool → Bool → Lowered → Lowered → M Bits
shift_bits left arithmetic x distance = do
  fill ← fill_of (arithmetic && x.signed) x.bits
  shift_rounds left 0 fill distance.bits x.bits

-- The loop of the reduction by XOR, from `condition`.
unfoldable pub xor_from : ℤ → Bits → M ℤ
unfolding xor
xor_from condition [] = pure condition
xor_from condition (x ∷ xs) = do r ← xor condition x; xor_from r xs

abbrev pub less_operands : Lowered → Lowered → M ℤ
less_operands x y = less x.bits y.bits (x.signed && y.signed)

unfoldable pub lower_op : Op → ℕ → Payload → List Lowered → Frame → M Bits
unfolding boolean concat_bits resize fill_of mux_bits multiply_rows shift_rounds xor_from
lower_op ref w (name s) a frame = read (frame s)
lower_op const w (numeral k) a frame = pure (Words.const k w)
lower_op cast w p (x ∷ _) frame = do fill ← fill_of x.signed x.bits; pure (resize w fill x.bits)
lower_op mux w p (c ∷ x ∷ y ∷ _) frame = do select ← any_ c.bits; mux_bits select x.bits y.bits
lower_op slice w (numeral k) (x ∷ _) frame = pure (take w (drop k x.bits))
lower_op concat w p a frame = pure (concat_bits a)
lower_op add w p (x ∷ y ∷ _) frame = Words.add x.bits y.bits minus_one
lower_op subtract w p (x ∷ y ∷ _) frame = Words.add x.bits (negate y.bits) one
lower_op multiply w p (x ∷ y ∷ _) frame = multiply_rows w 0 x.bits y.bits (Words.const 0 w)
lower_op binary_and w p (x ∷ y ∷ _) frame = zip_with and_ x.bits y.bits
lower_op binary_or w p (x ∷ y ∷ _) frame = zip_with or_ x.bits y.bits
lower_op binary_xor w p (x ∷ y ∷ _) frame = zip_with xor x.bits y.bits
lower_op binary_xnor w p (x ∷ y ∷ _) frame = do v ← zip_with xor x.bits y.bits; pure (negate v)
lower_op equality w p (x ∷ y ∷ _) frame = boolean_of w (equal x.bits y.bits)
lower_op inequality w p (x ∷ y ∷ _) frame = boolean_not w (equal x.bits y.bits)
lower_op less_than w p (x ∷ y ∷ _) frame = boolean_of w (less_operands x y)
lower_op less_than_equal w p (x ∷ y ∷ _) frame = boolean_not w (less_operands y x)
lower_op greater_than w p (x ∷ y ∷ _) frame = boolean_of w (less_operands y x)
lower_op greater_than_equal w p (x ∷ y ∷ _) frame = boolean_not w (less_operands x y)
lower_op logical_and w p (x ∷ y ∷ _) frame = do
  l ← any_ x.bits
  r ← any_ y.bits
  boolean_of w (and_ l r)
lower_op logical_or w p (x ∷ y ∷ _) frame = do
  l ← any_ x.bits
  r ← any_ y.bits
  boolean_of w (or_ l r)
lower_op logical_shift_left w p (x ∷ y ∷ _) frame = shift_bits true false x y
lower_op arithmetic_shift_left w p (x ∷ y ∷ _) frame = shift_bits true false x y
lower_op logical_shift_right w p (x ∷ y ∷ _) frame = shift_bits false false x y
lower_op arithmetic_shift_right w p (x ∷ y ∷ _) frame = shift_bits false true x y
lower_op plus w p (x ∷ _) frame = pure x.bits
lower_op minus w p (x ∷ _) frame = Words.add (Words.const 0 w) (negate x.bits) one
lower_op bitwise_not w p (x ∷ _) frame = pure (negate x.bits)
lower_op logical_not w p (x ∷ _) frame = boolean_not w (any_ x.bits)
lower_op reduce_and w p (x ∷ _) frame = boolean_of w (all_ x.bits)
lower_op reduce_nand w p (x ∷ _) frame = boolean_not w (all_ x.bits)
lower_op reduce_or w p (x ∷ _) frame = boolean_of w (any_ x.bits)
lower_op reduce_nor w p (x ∷ _) frame = boolean_not w (any_ x.bits)
lower_op reduce_xor w p (x ∷ _) frame = boolean_of w (xor_from minus_one x.bits)
lower_op reduce_xnor w p (x ∷ _) frame = boolean_not w (xor_from minus_one x.bits)
lower_op (unknown_op o) w p a frame = raise unsupported_operator
lower_op _ w p a frame = raise lookup_failed

abbrev pub check_width : ℕ → Bits → M Bits
check_width width v = if length v == width then pure v else raise width_disagrees

unfoldable pub lower_node : Node → List Lowered → Frame → M Bits
unfolding lower_op
lower_node n a frame = do v ← lower_op n.op n.width n.value a frame; check_width n.width v
