-- ===== src/Derived.antt =====
-- python/src/trlog/_derived.py: derived signals, an expression over input signals that is
-- compiled to bytecode and evaluated when the signal is read.
pub mod Opcodes
pub mod Value
pub mod Compile
pub mod Stored
pub mod Changes
pub mod Times
pub mod Trace
mod Tests
use trlog.Prelude.{
  ℕ, zero, suc, ◌+◌, ◌-◌, ◌^◌, List, [], ◌∷◌, ◌++◌, length, get_elem?, Option, none, some, Bool,
  true, false, not, ◌==◌, if◌then◌else◌, ltb, take, bit_and,
}
use trlog.Prelude.Int.{ℤ, pos, negsuc}
use trlog.Prelude.Int.Bits.{◌<<◌, ◌>>ℤ◌, invert, ◌&ℤ◌, ◌|ℤ◌, ◌^ℤ◌}
use trlog.Wire.{
  Bytes, Result, ok, err, bind, ◌+++◌, concat, concat_map, Decoder, pure, ◌>>=◌, repeat, read_slice,
  index_error, value_error, out_of_fuel,
}
use trlog.Codec.{encode_uvarint, decode_uvarint}
use trlog.Codec.Framed.{encode_bytes, decode_bytes}

-- The operators of the expression language: `op` of UnOp, BinOp, ShiftOp and ReduceOp.
pub data UnaryOp : Type 0 where
  op_not op_lnot : UnaryOp

pub data BinaryOp : Type 0 where
  op_and op_or op_xor op_eq op_ne : BinaryOp

pub data Shift : Type 0 where
  op_shl op_shr : Shift

pub data Reduction : Type 0 where
  op_red_and op_red_or : Reduction

unfoldable pub unary_code : UnaryOp → ℕ
unary_code op_not = 0x03
unary_code op_lnot = 0x07

unfoldable pub binary_code : BinaryOp → ℕ
binary_code op_and = 0x04
binary_code op_or = 0x05
binary_code op_xor = 0x06
binary_code op_eq = 0x08
binary_code op_ne = 0x09

unfoldable pub shift_code : Shift → ℕ
shift_code op_shl = 0x0A
shift_code op_shr = 0x0B

unfoldable pub reduction_code : Reduction → ℕ
reduction_code op_red_and = 0x0C
reduction_code op_red_or = 0x0D

pub data Expr : Type 0 where
  input : (idx : ℕ) → Expr
  const : (value : ℤ) → Expr
  un_op : UnaryOp → (a : Expr) → Expr
  bin_op : BinaryOp → (a b : Expr) → Expr
  shift_op : Shift → (a : Expr) → (k : ℕ) → Expr
  reduce_op : Reduction → (a : Expr) → (width : ℕ) → Expr
  slice_op : (a : Expr) → (lo width : ℕ) → Expr
  concat_op : (a b : Expr) → (width_b : ℕ) → Expr

unfoldable pub compile_expr : Expr → Result Bytes
unfolding unary_code binary_code shift_code reduction_code
compile_expr (input idx) = ok (0x01 ∷ []) +++ encode_uvarint (pos idx)
compile_expr (const value) = ok (0x02 ∷ []) +++ encode_uvarint value
compile_expr (un_op op a) = compile_expr a +++ ok (unary_code op ∷ [])
compile_expr (bin_op op a b) = compile_expr a +++ compile_expr b +++ ok (binary_code op ∷ [])
compile_expr (shift_op op a k) =
    compile_expr a +++ ok (shift_code op ∷ []) +++ encode_uvarint (pos k)
compile_expr (reduce_op op a width) =
    compile_expr a +++ ok (reduction_code op ∷ []) +++ encode_uvarint (pos width)
compile_expr (slice_op a lo width) =
    compile_expr a +++ ok (0x0E ∷ []) +++ encode_uvarint (pos lo) +++ encode_uvarint (pos width)
compile_expr (concat_op a b width_b) =
    compile_expr a +++ compile_expr b +++ ok (0x0F ∷ []) +++ encode_uvarint (pos width_b)

unfoldable pub mask : ℕ → ℤ
mask width = pos (2 ^ width - 1)

unfoldable pub eq_ℤ : ℤ → ℤ → Bool
eq_ℤ (pos a) (pos b) = a == b
eq_ℤ (negsuc a) (negsuc b) = a == b
eq_ℤ a b = false

abbrev pub bit : Bool → ℤ
bit true = pos 1
bit false = pos 0

-- What each opcode does to its operands.
unfoldable pub apply_unary : UnaryOp → ℤ → ℤ
unfolding eq_ℤ
apply_unary op_not a = invert a
apply_unary op_lnot a = bit (eq_ℤ a (pos 0))

unfoldable pub apply_binary : BinaryOp → ℤ → ℤ → ℤ
unfolding eq_ℤ
apply_binary op_and a b = a &ℤ b
apply_binary op_or a b = a |ℤ b
apply_binary op_xor a b = a ^ℤ b
apply_binary op_eq a b = bit (eq_ℤ a b)
apply_binary op_ne a b = bit (not (eq_ℤ a b))

unfoldable pub apply_shift : Shift → ℤ → ℕ → ℤ
apply_shift op_shl a k = a << k
apply_shift op_shr a k = a >>ℤ k

unfoldable pub apply_reduction : Reduction → ℤ → ℕ → ℤ
unfolding eq_ℤ mask
apply_reduction op_red_and a w = bit (eq_ℤ (a &ℤ mask w) (mask w))
apply_reduction op_red_or a w = bit (not (eq_ℤ (a &ℤ mask w) (pos 0)))

unfoldable pub slice : ℤ → ℕ → ℕ → ℤ
unfolding mask
slice a lo w = (a >>ℤ lo) &ℤ mask w

unfoldable pub concat_bits : ℤ → ℤ → ℕ → ℤ
unfolding mask
concat_bits a b wb = (a << wb) |ℤ (b &ℤ mask wb)

-- `stack.pop()`; the top of the stack is the list's head.
abbrev pub pop : List ℤ → Result (ℤ × List ℤ)
pop [] = err index_error
pop (a ∷ stack) = ok (a, stack)

abbrev pub State : Type 0
State = List ℤ × Bytes

unfoldable pub unary : UnaryOp → State → Result State
unary op (stack, buf) = bind (pop stack) λ (a, s). ok (apply_unary op a ∷ s, buf)

unfoldable pub binary : BinaryOp → State → Result State
binary op (stack, buf) =
    bind (pop stack) λ (b, s). bind (pop s) λ (a, t). ok (apply_binary op a b ∷ t, buf)

-- an opcode with one number behind it, which is read before the operand is popped
unfoldable pub with_number : (ℤ → ℕ → ℤ) → State → Result State
with_number f (stack, buf) =
    bind (decode_uvarint buf) λ (k, rest). bind (pop stack) λ (a, s). ok (f a k ∷ s, rest)

unfoldable pub exec_slice : State → Result State
exec_slice (stack, buf) = bind (decode_uvarint buf) λ (lo, b).
    bind (decode_uvarint b) λ (w, rest). bind (pop stack) λ (a, s). ok (slice a lo w ∷ s, rest)

unfoldable pub exec_concat : State → Result State
exec_concat (stack, buf) = bind (decode_uvarint buf) λ (wb, rest).
    bind (pop stack) λ (b, s). bind (pop s) λ (a, t). ok (concat_bits a b wb ∷ t, rest)

-- `inputs[idx]`
unfoldable pub read_input : List ℤ → ℕ → Result ℤ
read_input inputs idx = elim (get_elem? inputs idx) [ none ↦ err index_error | some v ↦ ok v ]

unfoldable pub push_input : List ℤ → State → Result State
push_input inputs (stack, buf) =
    bind (decode_uvarint buf) λ (idx, rest). bind (read_input inputs idx) λ v. ok (v ∷ stack, rest)

unfoldable pub push_const : State → Result State
push_const (stack, buf) = bind (decode_uvarint buf) λ (v, rest). ok (pos v ∷ stack, rest)

-- One round of the loop behind its opcode.
unfoldable pub exec : ℕ → List ℤ → State → Result State
exec op inputs st =
    if op == 0x01
    then push_input inputs st
    else if op == 0x02
    then push_const st
    else if op == 0x03
    then unary op_not st
    else if op == 0x04
    then binary op_and st
    else if op == 0x05
    then binary op_or st
    else if op == 0x06
    then binary op_xor st
    else if op == 0x07
    then unary op_lnot st
    else if op == 0x08
    then binary op_eq st
    else if op == 0x09
    then binary op_ne st
    else if op == 0x0A
    then with_number (apply_shift op_shl) st
    else if op == 0x0B
    then with_number (apply_shift op_shr) st
    else if op == 0x0C
    then with_number (apply_reduction op_red_and) st
    else if op == 0x0D
    then with_number (apply_reduction op_red_or) st
    else if op == 0x0E
    then exec_slice st
    else if op == 0x0F
    then exec_concat st
    else err value_error

-- `while o < n`. Each round reads a byte, so as many rounds as there are bytes are enough.
unfoldable pub eval_loop : ℕ → List ℤ → List ℤ → Bytes → Result (List ℤ)
eval_loop fuel inputs stack [] = ok stack
eval_loop zero inputs stack (op ∷ buf) = err out_of_fuel
eval_loop (suc fuel) inputs stack (op ∷ buf) =
    bind (exec op inputs (stack, buf)) λ (stack', rest). eval_loop fuel inputs stack' rest

-- What is left when the loop ends: one value, cut to the output's width, or to 64 bits.
unfoldable pub finish : ℕ → List ℤ → Result ℤ
unfolding mask
finish out_width (result ∷ []) =
    ok (if out_width == 0 then result &ℤ pos (2 ^ 64 - 1) else result &ℤ mask out_width)
finish out_width stack = err value_error

unfoldable pub eval_bytecode : Bytes → List ℤ → ℕ → Result ℤ
eval_bytecode bytecode inputs out_width =
    bind (eval_loop (length bytecode) inputs [] bytecode) (finish out_width)

pub record DerivedDef : Type 0 where
  pub bit_width : ℕ
  pub input_var_ids : List ℕ
  pub bytecode : Bytes
  pub flags : ℕ

unfoldable pub materialized : DerivedDef → Bool
materialized d = not (bit_and d.flags 0x01 == 0)

unfoldable pub encode : DerivedDef → Result Bytes
encode d = concat (
    encode_uvarint (pos d.flags)
    ∷ encode_uvarint (pos d.bit_width)
    ∷ encode_uvarint (pos (length d.input_var_ids))
    ∷ concat_map (λ v. encode_uvarint (pos v)) d.input_var_ids
    ∷ encode_bytes d.bytecode
    ∷ [])

unfoldable pub decode_fields : Decoder DerivedDef
decode_fields = do
  flags ← decode_uvarint
  bit_width ← decode_uvarint
  n ← decode_uvarint
  inputs ← repeat n decode_uvarint
  bytecode ← decode_bytes
  pure
      (record { bit_width = bit_width; input_var_ids = inputs; bytecode = bytecode; flags = flags })

unfoldable pub decode : Bytes → Result DerivedDef
decode data_bytes = bind (decode_fields data_bytes) λ (d, _). ok d
