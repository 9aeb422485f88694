-- ===== src/Ir/Values.antt =====
-- The body of the loop of `evaluate` in src/opencollate/sequential_ir.py: the value of a node from
-- the values of its operands.
use Prim.Native.Nat.{bit_and, bit_or, bit_xor}
use Prim.Native.String.{String}
use open_collate.Common.{
  ℕ, ℤ, zero, suc, pos, negsuc, ◌+◌, ◌-◌, ◌*◌, ◌/◌, ◌%◌, ◌^◌, Bool, true, false, not, ◌&&◌, ◌||◌,
  Option, List, [], ◌∷◌, Result, ok, err, ◌>>=◌, or_raise, neg, eqz, lez, leb, ◌==◌, if◌then◌else◌,
}
use open_collate.Ir.Circuit.{
  Op, ref, const, cast, mux, slice, concat, add, subtract, multiply, binary_and, binary_or,
  binary_xor, binary_xnor, equality, inequality, less_than, less_than_equal, greater_than,
  greater_than_equal, logical_and, logical_or, logical_shift_left, arithmetic_shift_left,
  logical_shift_right, arithmetic_shift_right, plus, minus, bitwise_not, logical_not, reduce_and,
  reduce_nand, reduce_or, reduce_nor, reduce_xor, reduce_xnor, unknown_op, Payload, name, numeral,
  Node, SequentialError, unhandled_operator, lookup_error,
}

-- An operand: the node that it is, and its value.
pub record Operand : Type 0 where
  pub width : ℕ
  pub signed : Bool
  pub value : ℕ

-- A dict from names to values.
abbrev pub Env : Type 0
Env = String → Option ℕ

-- `a - b` on integers, for numbers.
abbrev pub sub_ℕ : ℕ → ℕ → ℤ
sub_ℕ a b = if leb b a then pos (a - b) else negsuc (b - a - 1)

-- `v & ((1 << width) - 1)`
unfoldable pub mask : ℕ → ℤ → ℕ
mask width (pos n) = n % 2 ^ width
mask width (negsuc n) = 2 ^ width - 1 - n % 2 ^ width

-- `value & (1 << bit)`, as a truth value.
abbrev pub test_bit : ℕ → ℕ → Bool
test_bit value place = value / 2 ^ place % 2 == 1

unfoldable pub signed_value : ℕ → ℕ → ℤ
signed_value value width = if test_bit value (width - 1) then sub_ℕ value (2 ^ width) else pos value

-- `signed_value(a, width) if signed else a`
abbrev pub value_if : Bool → Operand → ℤ
value_if signed x = if signed then signed_value x.value x.width else pos x.value

-- `int(b)` for a truth value.
abbrev pub int_of : Bool → ℤ
int_of true = pos 1
int_of false = pos 0

-- `~x` for a number.
abbrev pub invert : ℕ → ℤ
invert n = negsuc n

-- The loop of `concat`, from `v`.
unfoldable pub concat_values : ℕ → List Operand → ℕ
concat_values v [] = v
concat_values v (x ∷ xs) = concat_values (bit_or (v * 2 ^ x.width) x.value) xs

-- `x >> distance` on an integer rounds down.
abbrev pub shift_down : ℤ → ℕ → ℤ
shift_down (pos n) distance = pos (n / 2 ^ distance)
shift_down (negsuc n) distance = negsuc (n / 2 ^ distance)

abbrev pub shift_up : ℤ → ℕ → ℤ
shift_up (pos n) distance = pos (n * 2 ^ distance)
shift_up (negsuc n) distance = neg (pos (suc n * 2 ^ distance))

abbrev pub is_negative : ℤ → Bool
is_negative (pos n) = false
is_negative (negsuc n) = true

-- The shifts, by whether they go left and whether they keep a sign.
unfoldable pub shift_value : Bool → Bool → Operand → Operand → ℤ
shift_value left arithmetic x distance =
    let v = value_if (arithmetic && x.signed) x in
    if leb x.width distance.value
    then (if arithmetic && is_negative v then negsuc 0 else pos 0)
    else if left
    then shift_up v distance.value
    else shift_down v distance.value

-- `bit_count() % 2`, on fuel; a number has at most as many bits as it counts.
unfoldable pub parity_from : ℕ → ℕ → Bool
parity_from zero n = false
parity_from (suc fuel) zero = false
parity_from (suc fuel) (suc n) =
    let rest = parity_from fuel (suc n / 2) in if suc n % 2 == 1 then not rest else rest

unfoldable pub parity : ℕ → Bool
unfolding parity_from
parity n = parity_from n n

abbrev pub compare_values : (ℤ → ℤ → Bool) → Operand → Operand → ℤ
compare_values test x y =
    let signed = x.signed && y.signed in int_of (test (value_if signed x) (value_if signed y))

abbrev pub is_set : Operand → Bool
is_set x = not (x.value == 0)

-- `int(a == (1 << w) - 1)`
abbrev pub is_full : Operand → Bool
is_full x = x.value + 1 == 2 ^ x.width

unfoldable pub raw_value : Op → Payload → List Operand → Env → Result SequentialError ℤ
unfolding signed_value concat_values shift_value parity
raw_value ref (name s) a env = do v ← or_raise lookup_error (env s); ok (pos v)
raw_value const (numeral k) a env = ok (pos k)
raw_value cast p (x ∷ _) env = ok (value_if x.signed x)
raw_value mux p (c ∷ x ∷ y ∷ _) env = ok (pos (if is_set c then x.value else y.value))
raw_value slice (numeral k) (x ∷ _) env = ok (pos (x.value / 2 ^ k))
raw_value concat p a env = ok (pos (concat_values 0 a))
raw_value add p (x ∷ y ∷ _) env = ok (pos (x.value + y.value))
raw_value subtract p (x ∷ y ∷ _) env = ok (sub_ℕ x.value y.value)
raw_value multiply p (x ∷ y ∷ _) env = ok (pos (x.value * y.value))
raw_value binary_and p (x ∷ y ∷ _) env = ok (pos (bit_and x.value y.value))
raw_value binary_or p (x ∷ y ∷ _) env = ok (pos (bit_or x.value y.value))
raw_value binary_xor p (x ∷ y ∷ _) env = ok (pos (bit_xor x.value y.value))
raw_value binary_xnor p (x ∷ y ∷ _) env = ok (invert (bit_xor x.value y.value))
raw_value equality p (x ∷ y ∷ _) env = ok (compare_values eqz x y)
raw_value inequality p (x ∷ y ∷ _) env = ok (compare_values (λ v w. not (eqz v w)) x y)
raw_value less_than p (x ∷ y ∷ _) env = ok (compare_values (λ v w. not (lez w v)) x y)
raw_value less_than_equal p (x ∷ y ∷ _) env = ok (compare_values lez x y)
raw_value greater_than p (x ∷ y ∷ _) env = ok (compare_values (λ v w. not (lez v w)) x y)
raw_value greater_than_equal p (x ∷ y ∷ _) env = ok (compare_values (λ v w. lez w v) x y)
raw_value logical_and p (x ∷ y ∷ _) env = ok (int_of (is_set x && is_set y))
raw_value logical_or p (x ∷ y ∷ _) env = ok (int_of (is_set x || is_set y))
raw_value logical_shift_left p (x ∷ y ∷ _) env = ok (shift_value true false x y)
raw_value arithmetic_shift_left p (x ∷ y ∷ _) env = ok (shift_value true false x y)
raw_value logical_shift_right p (x ∷ y ∷ _) env = ok (shift_value false false x y)
raw_value arithmetic_shift_right p (x ∷ y ∷ _) env = ok (shift_value false true x y)
raw_value plus p (x ∷ _) env = ok (pos x.value)
raw_value minus p (x ∷ _) env = ok (neg (pos x.value))
raw_value bitwise_not p (x ∷ _) env = ok (invert x.value)
raw_value logical_not p (x ∷ _) env = ok (int_of (not (is_set x)))
raw_value reduce_and p (x ∷ _) env = ok (int_of (is_full x))
raw_value reduce_nand p (x ∷ _) env = ok (int_of (not (is_full x)))
raw_value reduce_or p (x ∷ _) env = ok (int_of (is_set x))
raw_value reduce_nor p (x ∷ _) env = ok (int_of (not (is_set x)))
raw_value reduce_xor p (x ∷ _) env = ok (int_of (parity x.value))
raw_value reduce_xnor p (x ∷ _) env = ok (int_of (not (parity x.value)))
raw_value (unknown_op o) p a env = err unhandled_operator
raw_value _ p a env = err lookup_error

-- The body of the loop: the masked value of a node.
unfoldable pub node_value : Node → List Operand → Env → Result SequentialError ℕ
unfolding raw_value mask
node_value n a env = do v ← raw_value n.op n.value a env; ok (mask n.width v)
