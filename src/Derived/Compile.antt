-- ===== src/Derived/Compile.antt =====
-- python/src/trlog/_derived.py: bytecode against the expression that it was compiled from.
use trlog.Prelude.{
  ℕ, ◌-◌, ◌≡◌, refl, ◌∙◌, List, [], ◌∷◌, append-nil, length, arith, ap, ◌^◌, ◌==◌, if◌then◌else◌,
  Bool-cases, inl, inr,
}
use trlog.Prelude.Int.{ℤ, pos, negsuc}
use trlog.Prelude.Int.Bits.{◌&ℤ◌}
use trlog.Wire.{Bytes, Result, ok, err, bind, ◌+++◌}
use trlog.Codec.Uvarint.{Codes-uvarint}
use trlog.TypeRegistry.Entries.{IsUvarint}
use trlog.Derived.{
  Expr, input, const, un_op, bin_op, shift_op, reduce_op, slice_op, concat_op, compile_expr,
  read_input, exec, eval_loop, finish, eval_bytecode, mask,
}
use trlog.Derived.Value.{
  mod_pow, unary_value, binary_value, shift_value, reduction_value, slice_value, concat_value,
  apply_unary_lem, apply_binary_lem, apply_shift_lem, apply_reduction_lem, slice_lem,
  concat_bits_lem, cut_lem,
}
use trlog.Derived.Opcodes.{
  Code, Code-op, Code-then, Code-eq, Code-unary, Code-binary, Code-shift, Code-reduction,
  Code-concat, Code-slice, input_step, const_step, on_one, on_two, push,
}

-- The value of an expression at the inputs' values, as arithmetic on whole numbers.
pub value_of : List ℤ → Expr → Result ℤ
unfolding read_input
value_of inputs (input idx) = read_input inputs idx
value_of inputs (const value) = ok value
value_of inputs (un_op op a) = bind (value_of inputs a) λ x. ok (unary_value op x)
value_of inputs (bin_op op a b) =
    bind (value_of inputs a) λ x. bind (value_of inputs b) λ y. ok (binary_value op x y)
value_of inputs (shift_op op a k) = bind (value_of inputs a) λ x. ok (shift_value op x k)
value_of inputs (reduce_op op a width) =
    bind (value_of inputs a) λ x. ok (reduction_value op x width)
value_of inputs (slice_op a lo width) = bind (value_of inputs a) λ x. ok (slice_value x lo width)
value_of inputs (concat_op a b width_b) =
    bind (value_of inputs a) λ x. bind (value_of inputs b) λ y. ok (concat_value x y width_b)

-- A value cut to the output's width, and to 64 bits where none is given.
abbrev pub cut : ℕ → ℤ → ℤ
cut out_width v = pos (mod_pow v (if out_width == 0 then 64 else out_width))

finish_lem : (out_width : ℕ) (v : ℤ) → finish out_width (v ∷ []) ≡ ok (cut out_width v)
unfolding finish
finish_lem out_width v = elim (Bool-cases (out_width == 0)) [
  | inl none_given ↦ rw none_given (ap ok (mask_64 v))
  | inr given ↦ rw given (ap ok (cut_lem v out_width))
]
  where
    mask_64 : (x : ℤ) → x &ℤ pos (2 ^ 64 - 1) ≡ pos (mod_pow x 64)
    mask_64 x = unfold mask in cut_lem x 64

-- Every number in the expression fits a varint of the format.
abbrev pub IsExpr : Expr → Type 0
IsExpr (input idx) = IsUvarint idx
IsExpr (const (pos n)) = IsUvarint n
IsExpr (const (negsuc n)) = ⊥
IsExpr (un_op op a) = IsExpr a
IsExpr (bin_op op a b) = IsExpr a × IsExpr b
IsExpr (shift_op op a k) = IsExpr a × IsUvarint k
IsExpr (reduce_op op a width) = IsExpr a × IsUvarint width
IsExpr (slice_op a lo width) = IsExpr a × IsUvarint lo × IsUvarint width
IsExpr (concat_op a b width_b) = IsExpr a × IsExpr b × IsUvarint width_b

-- A node over one operand, and one over two.
Code-over_one :
    {r s : Result Bytes} (inputs : List ℤ) (v : Result ℤ) (f g : ℤ → ℤ)
    → ((x : ℤ) → f x ≡ g x)
    → Code r inputs (push v)
    → Code s inputs (on_one f)
    → Code (r +++ s) inputs (push (bind v λ x. ok (g x)))
Code-over_one inputs v f g law a b = Code-eq inputs _ _ (λ s. same v s) (Code-then inputs _ _ a b)
  where
    same : (v : Result ℤ) (s : List ℤ) → bind (push v s) (on_one f) ≡ push (bind v λ x. ok (g x)) s
    same (ok x) s = ap (λ y. ok (y ∷ s)) (law x)
    same (err e) s = refl

Code-over_two :
    {r s t : Result Bytes} (inputs : List ℤ) (v w : Result ℤ) (f g : ℤ → ℤ → ℤ)
    → ((x y : ℤ) → f x y ≡ g x y)
    → Code r inputs (push v)
    → Code s inputs (push w)
    → Code t inputs (on_two f)
    → Code (r +++ s +++ t) inputs (push (bind v λ x. bind w λ y. ok (g x y)))
Code-over_two inputs v w f g law a b c =
    Code-eq inputs _ _ (λ s. same v w s) (Code-then inputs _ _ a (Code-then inputs _ _ b c))
  where
    same :
        (v w : Result ℤ) (s : List ℤ)
        → bind (push v s) (λ t. bind (push w t) (on_two f))
          ≡ push (bind v λ x. bind w λ y. ok (g x y)) s
    same (ok x) (ok y) s = ap (λ z. ok (z ∷ s)) (law x y)
    same (ok x) (err e) s = refl
    same (err e) w s = refl

Code-expr :
    (e : Expr) (inputs : List ℤ)
    → IsExpr e
    → Code (compile_expr e) inputs (push (value_of inputs e))
unfolding compile_expr value_of exec
Code-expr (input idx) inputs h =
    Code-op 0x01 (Codes-uvarint h).bytes inputs _ (Codes-uvarint h).encoded
      (input_step idx h inputs)
Code-expr (const (pos n)) inputs h =
    Code-op 0x02 (Codes-uvarint h).bytes inputs _ (Codes-uvarint h).encoded (const_step n h)
Code-expr (const (negsuc n)) inputs h = absurd h
Code-expr (un_op op a) inputs h =
    Code-over_one inputs _ _ _ (apply_unary_lem op) (Code-expr a inputs h) (Code-unary op inputs)
Code-expr (bin_op op a b) inputs (ha, hb) =
    Code-over_two inputs _ _ _ _ (apply_binary_lem op) (Code-expr a inputs ha)
      (Code-expr b inputs hb) (Code-binary op inputs)
Code-expr (shift_op op a k) inputs (ha, hk) =
    Code-over_one inputs _ _ _ (λ x. apply_shift_lem op x k) (Code-expr a inputs ha)
      (Code-shift op k inputs hk)
Code-expr (reduce_op op a width) inputs (ha, hw) =
    Code-over_one inputs _ _ _ (λ x. apply_reduction_lem op x width) (Code-expr a inputs ha)
      (Code-reduction op width inputs hw)
Code-expr (slice_op a lo width) inputs (ha, hl, hw) =
    Code-over_one inputs _ _ _ (λ x. slice_lem x lo width) (Code-expr a inputs ha)
      (Code-slice lo width inputs hl hw)
Code-expr (concat_op a b width_b) inputs (ha, hb, hw) =
    Code-over_two inputs _ _ _ _ (λ x y. concat_bits_lem x y width_b) (Code-expr a inputs ha)
      (Code-expr b inputs hb) (Code-concat width_b inputs hw)

-- An expression whose numbers fit a varint compiles, and its bytecode evaluates, in the rounds that
-- the loop is given, to the remainder of the expression's value by 2 to the output's width, or by
-- 2 ^ 64 where that width is 0. The value is that of arithmetic on whole numbers: shifts are products
-- and quotients by powers of 2, slices, reductions and concatenations go by remainders, and `&`, `|`
-- and `^` are Python's. An input that is out of range is the same error in both.
pub eval-compile_expr :
    (e : Expr) (inputs : List ℤ) (out_width : ℕ)
    → IsExpr e
    → (bytecode : Bytes) × (compile_expr e ≡ ok bytecode)
      × (eval_bytecode bytecode inputs out_width
          ≡ bind (value_of inputs e) (λ v. ok (cut out_width v)))
unfolding eval_bytecode eval_loop
eval-compile_expr e inputs out_width h = (c.bytes, c.encoded, rw ran (finished (value_of inputs e)))
  where
    c : Code (compile_expr e) inputs (push (value_of inputs e))
    c = Code-expr e inputs h

    ended : (v : Result ℤ) (n : ℕ) → bind (push v []) (λ s. eval_loop n inputs s []) ≡ push v []
    ended (ok x) n = refl
    ended (err x) n = refl

    finished :
        (v : Result ℤ) → bind (push v []) (finish out_width) ≡ bind v (λ x. ok (cut out_width x))
    finished (ok x) = finish_lem out_width x
    finished (err x) = refl

    ran : eval_loop (length c.bytes) inputs [] c.bytes ≡ push (value_of inputs e) []
    ran =
        rw append-nil at
          (c.run [] (length c.bytes) (length c.bytes - c.rounds) [] (omega (arith, c.enough)))
        ∙ ended (value_of inputs e) (length c.bytes - c.rounds)
