-- ===== src/Metadata/Infer.antt =====
-- python/src/trlog/_metadata.py: `infer_attr_type`, the type that is chosen for a Python value.
use trlog.Prelude.{ℕ, List, [], ◌∷◌, bit_or, Bool}
use trlog.Prelude.Int.{ℤ, pos, negsuc}
use trlog.Wire.{Result, ok, err, bind, type_error}
use trlog.Text.{Str}
use trlog.Floats.{Float}
use trlog.Metadata.{
  at_bool, at_i64, at_u64, at_f64, at_str, at_array, Scalar, bool, int, float, Value, scalar, list,
}

-- A value as the caller has it, before its strings are interned; `other` is of any other type.
mutual
  pub data PyValue : Type 0 where
    a_bool : Bool → PyValue
    an_int : ℤ → PyValue
    a_float : Float → PyValue
    a_str : Str → PyValue
    items : PyValues → PyValue
    other : PyValue

  pub data PyValues : Type 0 where
    nil : PyValues
    cons : PyValue → PyValues → PyValues

-- Of a list the first item decides.
unfoldable mutual
  pub infer_attr_type : PyValue → Result ℕ
  infer_attr_type (items vs) = infer_items vs
  infer_attr_type (a_bool b) = ok at_bool
  infer_attr_type (an_int (pos n)) = ok at_u64
  infer_attr_type (an_int (negsuc n)) = ok at_i64
  infer_attr_type (a_float x) = ok at_f64
  infer_attr_type (a_str s) = ok at_str
  infer_attr_type other = err type_error

  pub infer_items : PyValues → Result ℕ
  infer_items nil = ok (bit_or at_array at_str)
  infer_items (cons v vs) = bind (infer_attr_type v) λ t. ok (bit_or at_array t)

abbrev pub py_scalar : Scalar → PyValue
py_scalar (bool b) = a_bool b
py_scalar (int n) = an_int n
py_scalar (float x) = a_float x

abbrev pub py_scalars : List Scalar → PyValues
py_scalars [] = nil
py_scalars (x ∷ xs) = cons (py_scalar x) (py_scalars xs)

abbrev pub py_value : Value → PyValue
py_value (scalar x) = py_scalar x
py_value (list xs) = items (py_scalars xs)
