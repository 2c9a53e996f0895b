-- ===== src/Metadata/Attr.antt =====
-- python/src/trlog/_writer.py and _reader.py: `_build_typed_attr`, which interns the strings of an
-- attribute whose type is not given, and `_resolve_typed_attr`, which looks them up again.
use trlog.Prelude.{
  ℕ, List, [], ◌∷◌, ◌==◌, if◌then◌else◌,
  Bool, true, false,
}
use trlog.Prelude.Int.{ℤ, pos}
use trlog.Wire.{Result, ok, err, bind, type_error}
use trlog.Text.{Str}
use trlog.Compression.{has_flag}
use trlog.StringTable.{StringTable, intern, lookup}
use trlog.Metadata.{
  at_array, at_str, Scalar, bool, int, float, Value, scalar, list, scalar_base, TypedAttr,
}
use trlog.Metadata.Infer.{
  PyValue, PyValues, a_str, items, nil, cons, infer_attr_type, py_value, py_scalars,
}

-- A Python value that can be an attribute's: one without strings, a string, or a list of strings.
pub data Attribute : Type 0 where
  plain : Value → Attribute
  text : Str → Attribute
  texts : List Str → Attribute

abbrev pub py_strings : List Str → PyValues
py_strings [] = nil
py_strings (s ∷ ss) = cons (a_str s) (py_strings ss)

abbrev pub py_attribute : Attribute → PyValue
py_attribute (plain v) = py_value v
py_attribute (text s) = a_str s
py_attribute (texts ss) = items (py_strings ss)

-- `[self._strtab.intern(v) for v in value]`
unfoldable pub intern_all : List Str → StringTable → List Scalar × StringTable
intern_all [] st = ([], st)
intern_all (s ∷ ss) st =
    let (i, st1) = intern s st in let (ids, st2) = intern_all ss st1 in (int (pos i) ∷ ids, st2)

-- The value under a string type: a number in the string table is refused when that is encoded.
abbrev pub intern_value : Attribute → StringTable → Result (Value × StringTable)
intern_value (text s) st = let (i, st1) = intern s st in ok (scalar (int (pos i)), st1)
intern_value (texts ss) st = let (ids, st1) = intern_all ss st in ok (list ids, st1)
intern_value (plain (list [])) st = ok (list [], st)
intern_value (plain (list (x ∷ xs))) st = err type_error
intern_value (plain (scalar x)) st = err type_error

-- The value under another type: a string is refused when the attribute is encoded.
abbrev pub keep_value : Attribute → StringTable → Result (Value × StringTable)
keep_value (plain v) st = ok (v, st)
keep_value (text s) st = err type_error
keep_value (texts ss) st = err type_error

unfoldable pub build_typed_attr : Str → Attribute → StringTable → Result (TypedAttr × StringTable)
unfolding intern_all
build_typed_attr key value st =
    let (key_id, st1) = intern key st in
    bind (infer_attr_type (py_attribute value)) λ attr_type.
      bind
        (if scalar_base attr_type == at_str then intern_value value st1 else keep_value value st1)
        λ (v, st2). ok (record { key_str_id = key_id; attr_type = attr_type; value = v }, st2)

abbrev bool_id : Bool → ℤ
bool_id true = pos 1
bool_id false = pos 0

abbrev pub lookup_id : StringTable → Scalar → Result Str
lookup_id st (int n) = lookup st n
lookup_id st (bool b) = lookup st (bool_id b)
lookup_id st (float x) = err type_error

abbrev pub lookup_all : StringTable → List Scalar → Result PyValues
lookup_all st [] = ok nil
lookup_all st (x ∷ xs) =
    bind (lookup_id st x) λ s. bind (lookup_all st xs) λ ss. ok (cons (a_str s) ss)

unfoldable pub resolve_value : StringTable → ℕ → Value → Result PyValue
resolve_value st attr_type (list xs) =
    if has_flag attr_type at_array
    then (if scalar_base attr_type == at_str
        then bind (lookup_all st xs) (λ ss. ok (items ss))
        else ok (items (py_scalars xs)))
    else if scalar_base attr_type == at_str
    then err type_error
    else ok (py_value (list xs))
resolve_value st attr_type (scalar x) =
    if has_flag attr_type at_array
    then err type_error
    else if scalar_base attr_type == at_str
    then bind (lookup_id st x) (λ s. ok (a_str s))
    else ok (py_value (scalar x))

unfoldable pub resolve_typed_attr : StringTable → TypedAttr → Result PyValue
unfolding resolve_value
resolve_typed_attr st attr = resolve_value st attr.attr_type attr.value
