-- ===== src/Derived/Tests.antt =====
-- Runs of the derived signals at concrete inputs.
use trlog.Prelude.{ℕ, ◌+◌, ◌≤◌, ◌≡◌, refl, List, [], ◌∷◌, ◌++◌, arith, map, none}
use trlog.Prelude.Int.{ℤ, pos, negsuc}
use trlog.Wire.{Bytes, ok, bind}
use trlog.Derived.{
  Expr, input, const, un_op, bin_op, slice_op, op_xor, op_and, op_not, compile_expr, eval_bytecode,
  finish, DerivedDef, encode, decode,
}
use trlog.Derived.Compile.{value_of, cut, eval-compile_expr}
use trlog.Derived.Stored.{decode-encode_derived}
use trlog.Derived.Changes.{Changes, evaluate_changes}
use trlog.Derived.Trace.{Trace, evaluate_changes_lem}

-- (a ^ b)[2:1]
abbrev sliced : Expr
sliced = slice_op (bin_op op_xor (input 0) (input 1)) 1 2

eval_sliced :
    eval_bytecode (1 ∷ 0 ∷ 1 ∷ 1 ∷ 6 ∷ 14 ∷ 1 ∷ 2 ∷ []) (pos 12 ∷ pos 10 ∷ []) 8 ≡ ok (pos 3)
unfolding eval_bytecode trlog.Derived.eval_loop trlog.Derived.exec trlog.Derived.push_input
    trlog.Codec.decode_uvarint trlog.Codec.decode_uvarint_loop trlog.Derived.read_input
    trlog.Derived.binary trlog.Derived.exec_slice finish trlog.Prelude.Int.Bits.◌&ℤ◌
    trlog.Derived.slice trlog.Prelude.Int.Bits.◌>>ℤ◌ trlog.Derived.apply_binary
    trlog.Prelude.Int.Bits.◌^ℤ◌
eval_sliced = refl

-- ~a cut to four bits
eval_not : eval_bytecode (1 ∷ 0 ∷ 3 ∷ []) (pos 5 ∷ []) 4 ≡ ok (pos 10)
unfolding eval_bytecode trlog.Derived.eval_loop trlog.Derived.exec trlog.Derived.push_input
    trlog.Codec.decode_uvarint trlog.Codec.decode_uvarint_loop trlog.Derived.read_input
    trlog.Derived.unary finish trlog.Prelude.Int.Bits.◌&ℤ◌ trlog.Derived.apply_unary
    trlog.Prelude.Int.Bits.invert
eval_not = refl

eval-compile_expr_example :
    (bytecode : Bytes) × (compile_expr sliced ≡ ok bytecode)
    × (eval_bytecode bytecode (pos 12 ∷ pos 10 ∷ []) 8
        ≡ bind (value_of (pos 12 ∷ pos 10 ∷ []) sliced) (λ v. ok (cut 8 v)))
eval-compile_expr_example =
    eval-compile_expr sliced (pos 12 ∷ pos 10 ∷ []) 8
      ((omega arith, omega arith), omega arith, omega arith)

-- the signal a & b
abbrev both : DerivedDef
both = record {
  bit_width = 1;
  input_var_ids = 3 ∷ 4 ∷ [];
  bytecode = 1 ∷ 0 ∷ 1 ∷ 1 ∷ 4 ∷ [];
  flags = 0;
}

decode-encode_derived_example :
    (bytes : Bytes) × (encode both ≡ ok bytes) × (decode (bytes ++ (9 ∷ [])) ≡ ok both)
decode-encode_derived_example = decode-encode_derived both (9 ∷ []) (record {
  flags_fit = omega arith;
  width_fits = omega arith;
  inputs_fit = (omega arith, (omega arith, tt));
  few = omega arith;
  bytecode_fits = omega arith;
})

abbrev two_inputs : List Changes
two_inputs = ((2, pos 1) ∷ (7, pos 0) ∷ []) ∷ ((4, pos 1) ∷ []) ∷ []

evaluate_both : evaluate_changes both two_inputs ≡ ok ((2, pos 0) ∷ (4, pos 1) ∷ (7, pos 0) ∷ [])
unfolding evaluate_changes eval_bytecode trlog.Derived.eval_loop trlog.Derived.exec
    trlog.Derived.push_input trlog.Codec.decode_uvarint trlog.Codec.decode_uvarint_loop
    trlog.Derived.read_input trlog.Derived.binary finish trlog.Prelude.Int.Bits.◌&ℤ◌
    trlog.Derived.eq_ℤ trlog.Derived.apply_binary
evaluate_both = refl

evaluate_changes_lem_example : Trace both two_inputs (evaluate_changes both two_inputs)
evaluate_changes_lem_example =
    evaluate_changes_lem both two_inputs (((omega arith, tt), (tt, tt)), ((tt, tt), tt))
