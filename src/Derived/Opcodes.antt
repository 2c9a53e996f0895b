-- ===== src/Derived/Opcodes.antt =====
-- python/src/trlog/_derived.py: the effect of each opcode on the stack, with what stands behind it.
use trlog.Prelude.{
  ℕ, suc, ◌+◌, ◌≤◌, ◌≡◌, refl, ap, ◌∙◌, List, [], ◌∷◌, ◌++◌, append_assoc, length, length-append,
  arith, sym,
}
use trlog.Prelude.Int.{ℤ, pos}
use trlog.Wire.{Bytes, Result, ok, err, bind, ◌+++◌}
use trlog.Codec.{encode_uvarint}
use trlog.Codec.Uvarint.{Codes-uvarint}
use trlog.TypeRegistry.Entries.{IsUvarint}
use trlog.Derived.{
  UnaryOp, BinaryOp, Shift, Reduction, op_not, op_lnot, op_and, op_or, op_xor, op_eq, op_ne, op_shl,
  op_shr, op_red_and, op_red_or, unary_code, binary_code, shift_code, reduction_code, apply_unary,
  apply_binary, apply_shift, apply_reduction, slice, concat_bits, pop, unary, binary, with_number,
  exec_slice, exec_concat, read_input, push_input, push_const, exec, eval_loop,
}

-- Bytes that run in `rounds` rounds and do `effect` to the stack, whatever follows them.
pub record Code (r : Result Bytes) (inputs : List ℤ) (effect : List ℤ → Result (List ℤ))
    : Type 0 where
  pub bytes : Bytes
  pub encoded : r ≡ ok bytes
  pub rounds : ℕ
  pub enough : rounds ≤ length bytes
  pub run :
      (stack : List ℤ) (fuel n : ℕ) (rest : Bytes)
      → fuel ≡ rounds + n
      → eval_loop fuel inputs stack (bytes ++ rest)
        ≡ bind (effect stack) (λ s. eval_loop n inputs s rest)

pub bind_assoc {ℓ κ ι} :
    {A : Type ℓ} {B : Type κ} {C : Type ι} (r : Result A) (f : A → Result B) (g : B → Result C)
    → bind (bind r f) g ≡ bind r (λ x. bind (f x) g)
bind_assoc (ok a) f g = refl
bind_assoc (err e) f g = refl

pub bind_cong {ℓ κ} :
    {A : Type ℓ} {B : Type κ} (r : Result A) {f g : A → Result B}
    → ((x : A) → f x ≡ g x)
    → bind r f ≡ bind r g
bind_cong (ok a) h = h a
bind_cong (err e) h = refl

-- One opcode with what stands behind it.
pub Code-op :
    (op : ℕ) {r : Result Bytes} (bs : Bytes) (inputs : List ℤ) (effect : List ℤ → Result (List ℤ))
    → r ≡ ok bs
    → ((stack : List ℤ) (rest : Bytes)
        → exec op inputs (stack, bs ++ rest) ≡ bind (effect stack) (λ s. ok (s, rest)))
    → Code (ok (op ∷ []) +++ r) inputs effect
unfolding ◌+++◌ eval_loop
Code-op op bs inputs effect e step = record {
  bytes = op ∷ bs;
  encoded = rw e;
  rounds = 1;
  enough = omega arith;
  run = λ stack fuel n rest q.
      rw (one_more fuel n q, step stack rest) (bind_assoc (effect stack) (λ s. ok (s, rest)) _);
}
  where
    one_more : (k n : ℕ) → k ≡ 1 + n → k ≡ suc n
    one_more k n e = omega (arith, e)

pub Code-then :
    {r s : Result Bytes} (inputs : List ℤ) (f g : List ℤ → Result (List ℤ))
    → Code r inputs f
    → Code s inputs g
    → Code (r +++ s) inputs (λ x. bind (f x) g)
unfolding ◌+++◌
Code-then inputs f g a b = record {
  bytes = a.bytes ++ b.bytes;
  encoded = rw (a.encoded, b.encoded);
  rounds = a.rounds + b.rounds;
  enough = omega (arith, a.enough, b.enough, length-append a.bytes b.bytes);
  run = λ stack fuel n rest q. rw append_assoc (
      a.run stack fuel (b.rounds + n) (b.bytes ++ rest) (omega (arith, q))
      ∙ (bind_cong (f stack) (λ x. b.run x (b.rounds + n) n rest refl)
          ∙ sym (bind_assoc (f stack) g _)));
}

pub Code-eq :
    {r : Result Bytes} (inputs : List ℤ) (f g : List ℤ → Result (List ℤ))
    → ((s : List ℤ) → f s ≡ g s)
    → Code r inputs f
    → Code r inputs g
Code-eq inputs f g h a = record {
  bytes = a.bytes;
  encoded = a.encoded;
  rounds = a.rounds;
  enough = a.enough;
  run = λ stack fuel n rest q.
      a.run stack fuel n rest q ∙ ap (λ r. bind r (λ s. eval_loop n inputs s rest)) (h stack);
}

-- What each kind of node does to the stack behind its operands.
abbrev pub on_one : (ℤ → ℤ) → List ℤ → Result (List ℤ)
on_one f stack = bind (pop stack) λ (a, s). ok (f a ∷ s)

abbrev pub on_two : (ℤ → ℤ → ℤ) → List ℤ → Result (List ℤ)
on_two f stack = bind (pop stack) λ (b, s). bind (pop s) λ (a, t). ok (f a b ∷ t)

abbrev pub push : Result ℤ → List ℤ → Result (List ℤ)
push v stack = bind v λ x. ok (x ∷ stack)

exec-unary :
    (op : UnaryOp) (inputs stack : List ℤ) (rest : Bytes)
    → exec (unary_code op) inputs (stack, rest)
      ≡ bind (on_one (apply_unary op) stack) (λ s. ok (s, rest))
unfolding exec unary unary_code
exec-unary op_not inputs [] rest = refl
exec-unary op_not inputs (a ∷ s) rest = refl
exec-unary op_lnot inputs [] rest = refl
exec-unary op_lnot inputs (a ∷ s) rest = refl

pub Code-unary :
    (op : UnaryOp) (inputs : List ℤ)
    → Code (ok (unary_code op ∷ [])) inputs (on_one (apply_unary op))
unfolding ◌+++◌
Code-unary op inputs = Code-op (unary_code op) [] inputs _ refl (exec-unary op inputs)

binary_step :
    (op : BinaryOp) (stack : List ℤ) (rest : Bytes)
    → binary op (stack, rest) ≡ bind (on_two (apply_binary op) stack) (λ s. ok (s, rest))
unfolding binary
binary_step op [] rest = refl
binary_step op (b ∷ []) rest = refl
binary_step op (b ∷ a ∷ s) rest = refl

exec-binary :
    (op : BinaryOp) (inputs stack : List ℤ) (rest : Bytes)
    → exec (binary_code op) inputs (stack, rest) ≡ binary op (stack, rest)
unfolding exec binary_code
exec-binary op_and inputs stack rest = refl
exec-binary op_or inputs stack rest = refl
exec-binary op_xor inputs stack rest = refl
exec-binary op_eq inputs stack rest = refl
exec-binary op_ne inputs stack rest = refl

pub Code-binary :
    (op : BinaryOp) (inputs : List ℤ)
    → Code (ok (binary_code op ∷ [])) inputs (on_two (apply_binary op))
unfolding ◌+++◌
Code-binary op inputs =
    Code-op (binary_code op) [] inputs _ refl
      (λ stack rest. exec-binary op inputs stack rest ∙ binary_step op stack rest)

number_step :
    (f : ℤ → ℕ → ℤ) (k : ℕ) (h : IsUvarint k) (stack : List ℤ) (rest : Bytes)
    → with_number f (stack, (Codes-uvarint h).bytes ++ rest)
      ≡ bind (on_one (λ a. f a k) stack) (λ s. ok (s, rest))
unfolding with_number
number_step f k h [] rest = rw ((Codes-uvarint h).decoded rest)
number_step f k h (a ∷ s) rest = rw ((Codes-uvarint h).decoded rest)

exec-shift :
    (op : Shift) (inputs : List ℤ) (st : List ℤ × Bytes)
    → exec (shift_code op) inputs st ≡ with_number (apply_shift op) st
unfolding exec shift_code
exec-shift op_shl inputs st = refl
exec-shift op_shr inputs st = refl

pub Code-shift :
    (op : Shift) (k : ℕ) (inputs : List ℤ)
    → IsUvarint k
    → Code
        (ok (shift_code op ∷ []) +++ encode_uvarint (pos k))
        inputs
        (on_one (λ a. apply_shift op a k))
Code-shift op k inputs h =
    Code-op (shift_code op) (Codes-uvarint h).bytes inputs _ (Codes-uvarint h).encoded
      (λ stack rest. exec-shift op inputs _ ∙ number_step (apply_shift op) k h stack rest)

exec-reduction :
    (op : Reduction) (inputs : List ℤ) (st : List ℤ × Bytes)
    → exec (reduction_code op) inputs st ≡ with_number (apply_reduction op) st
unfolding exec reduction_code
exec-reduction op_red_and inputs st = refl
exec-reduction op_red_or inputs st = refl

pub Code-reduction :
    (op : Reduction) (k : ℕ) (inputs : List ℤ)
    → IsUvarint k
    → Code
        (ok (reduction_code op ∷ []) +++ encode_uvarint (pos k))
        inputs
        (on_one (λ a. apply_reduction op a k))
Code-reduction op k inputs h =
    Code-op (reduction_code op) (Codes-uvarint h).bytes inputs _ (Codes-uvarint h).encoded
      (λ stack rest. exec-reduction op inputs _ ∙ number_step (apply_reduction op) k h stack rest)

concat_step :
    (k : ℕ) (h : IsUvarint k) (stack : List ℤ) (rest : Bytes)
    → exec_concat (stack, (Codes-uvarint h).bytes ++ rest)
      ≡ bind (on_two (λ a b. concat_bits a b k) stack) (λ s. ok (s, rest))
unfolding exec_concat
concat_step k h [] rest = rw ((Codes-uvarint h).decoded rest)
concat_step k h (b ∷ []) rest = rw ((Codes-uvarint h).decoded rest)
concat_step k h (b ∷ a ∷ s) rest = rw ((Codes-uvarint h).decoded rest)

pub Code-concat :
    (k : ℕ) (inputs : List ℤ)
    → IsUvarint k
    → Code (ok (0x0F ∷ []) +++ encode_uvarint (pos k)) inputs (on_two (λ a b. concat_bits a b k))
unfolding exec
Code-concat k inputs h =
    Code-op 0x0F (Codes-uvarint h).bytes inputs _ (Codes-uvarint h).encoded (concat_step k h)

slice_step :
    (lo w : ℕ) (hl : IsUvarint lo) (hw : IsUvarint w) (stack : List ℤ) (rest : Bytes)
    → exec_slice (stack, ((Codes-uvarint hl).bytes ++ (Codes-uvarint hw).bytes) ++ rest)
      ≡ bind (on_one (λ a. slice a lo w) stack) (λ s. ok (s, rest))
unfolding exec_slice
slice_step lo w hl hw [] rest =
    rw (append_assoc, (Codes-uvarint hl).decoded, (Codes-uvarint hw).decoded)
slice_step lo w hl hw (a ∷ s) rest =
    rw (append_assoc, (Codes-uvarint hl).decoded, (Codes-uvarint hw).decoded)

pub Code-slice :
    (lo w : ℕ) (inputs : List ℤ)
    → IsUvarint lo
    → IsUvarint w
    → Code
        (ok (0x0E ∷ []) +++ encode_uvarint (pos lo) +++ encode_uvarint (pos w))
        inputs
        (on_one (λ a. slice a lo w))
unfolding exec ◌+++◌
Code-slice lo w inputs hl hw =
    Code-op 0x0E ((Codes-uvarint hl).bytes ++ (Codes-uvarint hw).bytes) inputs _
      (rw ((Codes-uvarint hl).encoded, (Codes-uvarint hw).encoded)) (slice_step lo w hl hw)

pub input_step :
    (idx : ℕ) (h : IsUvarint idx) (inputs stack : List ℤ) (rest : Bytes)
    → push_input inputs (stack, (Codes-uvarint h).bytes ++ rest)
      ≡ bind (push (read_input inputs idx) stack) (λ s. ok (s, rest))
unfolding push_input
input_step idx h inputs stack rest =
    rw ((Codes-uvarint h).decoded rest) (sym (bind_assoc (read_input inputs idx) _ _))

pub const_step :
    (n : ℕ) (h : IsUvarint n) (stack : List ℤ) (rest : Bytes)
    → push_const (stack, (Codes-uvarint h).bytes ++ rest) ≡ ok (pos n ∷ stack, rest)
unfolding push_const
const_step n h stack rest = rw ((Codes-uvarint h).decoded rest)
