-- ===== src/Metadata/Resolve.antt =====
-- python/src/trlog/_writer.py, _metadata.py and _reader.py: an attribute whose type is inferred, from
-- the caller's value through its bytes to the value that a query gives.
use trlog.Prelude.{
  ℕ, suc, ◌+◌, ◌^◌, ◌<◌, ◌≡◌, refl, List, [], ◌∷◌, length, arith, 
  
}
use trlog.Prelude.Int.{pos, negsuc}
use trlog.Prelude.Dict.{list_eq}
use trlog.Wire.{ok}
use trlog.Wire.Reads.{All, Codes}
use trlog.Text.{Str}
use trlog.Codec.Svarint.{IsI64}
use trlog.Floats.{Floats}
use trlog.StringTable.{StringTable, intern, lookup}
use trlog.StringTable.Intern.{
  IsValid, intern-IsValid, intern_lem, lookup-intern_old, 
}
use trlog.Metadata.{
  at_bool, at_i64, at_u64, at_f64, at_array, at_str, Scalar, bool, int, float, scalar, list,
  scalar_base, TypedAttr, encode_typed_attr, decode_typed_attr,
}
use trlog.Metadata.RoundTrip.{
  Fits, a_bool, an_i64, a_u64, an_f64, a_str, a_scalar, an_array, 
  Codes-typed_attr,
}
use trlog.Metadata.Infer.{
  infer_attr_type, items, py_scalar, py_scalars,
}
use trlog.Metadata.Interned.{intern-lt, intern_all-Interned}
use trlog.Metadata.Attr.{
  Attribute, plain, text, texts, py_attribute, intern_all, build_typed_attr, 
  resolve_value, resolve_typed_attr,
}

-- The value is of the kind of the first of its list, and that kind's field of the format has room
-- for it.
abbrev FitsFirst : Scalar → Scalar → Type 0
FitsFirst (bool a) (bool b) = Unit
FitsFirst (int (pos a)) (int (pos n)) = n < 2 ^ 70
FitsFirst (int (negsuc a)) (int n) = IsI64 n
FitsFirst (float a) (float x) = x < 2 ^ 64
FitsFirst x y = ⊥

abbrev HasRoom : Attribute → Type 0
HasRoom (plain (scalar x)) = FitsFirst x x
HasRoom (plain (list [])) = Unit
HasRoom (plain (list (x ∷ xs))) = All (FitsFirst x) (x ∷ xs) × (length (x ∷ xs) < 2 ^ 70)
HasRoom (text s) = Unit
HasRoom (texts ss) = Unit

-- How many strings the value has.
abbrev strings_in : Attribute → ℕ
strings_in (plain v) = 0
strings_in (text s) = 1
strings_in (texts ss) = length ss

abbrev base_of : Scalar → ℕ
base_of (bool b) = at_bool
base_of (int (pos n)) = at_u64
base_of (int (negsuc n)) = at_i64
base_of (float x) = at_f64

FitsFirst-Fits : (x y : Scalar) → FitsFirst x y → Fits (base_of x) y
FitsFirst-Fits (bool a) (bool b) h = a_bool refl b refl
FitsFirst-Fits (bool a) (int n) h = absurd h
FitsFirst-Fits (bool a) (float x) h = absurd h
FitsFirst-Fits (int (pos a)) (int (pos n)) h = a_u64 refl n h refl
FitsFirst-Fits (int (pos a)) (int (negsuc n)) h = absurd h
FitsFirst-Fits (int (pos a)) (bool b) h = absurd h
FitsFirst-Fits (int (pos a)) (float x) h = absurd h
FitsFirst-Fits (int (negsuc a)) (int n) h = an_i64 refl n h refl
FitsFirst-Fits (int (negsuc a)) (bool b) h = absurd h
FitsFirst-Fits (int (negsuc a)) (float x) h = absurd h
FitsFirst-Fits (float a) (float x) h = an_f64 refl x h refl
FitsFirst-Fits (float a) (bool b) h = absurd h
FitsFirst-Fits (float a) (int n) h = absurd h

All-Fits : (x : Scalar) (ys : List Scalar) → All (FitsFirst x) ys → All (Fits (base_of x)) ys
All-Fits x [] h = tt
All-Fits x (y ∷ ys) (h, hs) = (FitsFirst-Fits x y h, All-Fits x ys hs)

infer-scalar : (x : Scalar) → infer_attr_type (py_scalar x) ≡ ok (base_of x)
unfolding infer_attr_type
infer-scalar (bool b) = refl
infer-scalar (int (pos n)) = refl
infer-scalar (int (negsuc n)) = refl
infer-scalar (float x) = refl

-- What the attribute that was built is, and what the reader makes of it.
abbrev pub Stored : Floats → Str → Attribute → StringTable → TypedAttr → StringTable → Type 0
Stored fl key v st attr st' =
    (build_typed_attr key v st ≡ ok (attr, st'))
    × Codes (encode_typed_attr fl attr) decode_typed_attr attr
    × (resolve_typed_attr st' attr ≡ ok (py_attribute v))
    × (lookup st' (pos attr.key_str_id) ≡ ok key)

abbrev Stores : Floats → Str → Attribute → StringTable → Type 0
Stores fl key v st = (attr : TypedAttr) × (st' : StringTable) × Stored fl key v st attr st'

key_fits :
    (key : Str) (st : StringTable) (n : ℕ)
    → IsValid st
    → length st.id_to_str + suc n < 2 ^ 70
    → (intern key st).0 < 2 ^ 70
key_fits key st n v room = let (below, grown) = intern-lt key st v in omega arith

Stores-scalar :
    (fl : Floats) (key : Str) (x : Scalar) (st : StringTable)
    → IsValid st
    → length st.id_to_str + 1 < 2 ^ 70
    → FitsFirst x x
    → Stores fl key (plain (scalar x)) st
unfolding build_typed_attr resolve_typed_attr resolve_value infer_attr_type scalar_base
Stores-scalar fl key x st v room h = (
  record { key_str_id = (intern key st).0; attr_type = base_of x; value = scalar x },
  (intern key st).1,
  (
    built x,
    Codes-typed_attr fl _ (record {
      key_fits = key_fits key st 0 v room;
      typed = a_scalar (small x) x (FitsFirst-Fits x x h) refl;
    }),
    resolved x,
    (intern_lem key st v).1,
  ),
)
  where
    small : (x : Scalar) → base_of x < at_array
    small (bool b) = omega arith
    small (int (pos n)) = omega arith
    small (int (negsuc n)) = omega arith
    small (float x) = omega arith

    built :
        (x : Scalar)
        → build_typed_attr key (plain (scalar x)) st
          ≡ ok (
            record { key_str_id = (intern key st).0; attr_type = base_of x; value = scalar x },
            (intern key st).1,
          )
    built (bool b) = refl
    built (int (pos n)) = refl
    built (int (negsuc n)) = refl
    built (float x) = refl

    resolved :
        (x : Scalar) → resolve_value (intern key st).1 (base_of x) (scalar x) ≡ ok (py_scalar x)
    resolved (bool b) = refl
    resolved (int (pos n)) = refl
    resolved (int (negsuc n)) = refl
    resolved (float x) = refl

Stores-empty :
    (fl : Floats) (key : Str) (st : StringTable)
    → IsValid st
    → length st.id_to_str + 1 < 2 ^ 70
    → Stores fl key (plain (list [])) st
unfolding build_typed_attr resolve_typed_attr resolve_value infer_attr_type scalar_base
Stores-empty fl key st v room = (
  record { key_str_id = (intern key st).0; attr_type = at_str + at_array; value = list [] },
  (intern key st).1,
  (
    refl,
    Codes-typed_attr fl _ (record {
      key_fits = key_fits key st 0 v room;
      typed = an_array at_str (omega arith) refl [] tt (omega arith) refl;
    }),
    refl,
    (intern_lem key st v).1,
  ),
)

Stores-list :
    (fl : Floats) (key : Str) (x : Scalar) (xs : List Scalar) (st : StringTable)
    → IsValid st
    → length st.id_to_str + 1 < 2 ^ 70
    → All (FitsFirst x) (x ∷ xs)
    → length (x ∷ xs) < 2 ^ 70
    → Stores fl key (plain (list (x ∷ xs))) st
unfolding build_typed_attr resolve_typed_attr resolve_value infer_attr_type scalar_base
Stores-list fl key x xs st v room h few = (
  record {
    key_str_id = (intern key st).0;
    attr_type = base_of x + at_array;
    value = list (x ∷ xs);
  },
  (intern key st).1,
  (
    built x xs,
    Codes-typed_attr fl _ (record {
      key_fits = key_fits key st 0 v room;
      typed = an_array (base_of x) (small x) refl (x ∷ xs) (All-Fits x (x ∷ xs) h) few refl;
    }),
    resolved x (x ∷ xs),
    (intern_lem key st v).1,
  ),
)
  where
    small : (x : Scalar) → base_of x < at_array
    small (bool b) = omega arith
    small (int (pos n)) = omega arith
    small (int (negsuc n)) = omega arith
    small (float x) = omega arith

    built :
        (x : Scalar) (xs : List Scalar)
        → build_typed_attr key (plain (list (x ∷ xs))) st
          ≡ ok (
            record {
              key_str_id = (intern key st).0;
              attr_type = base_of x + at_array;
              value = list (x ∷ xs);
            },
            (intern key st).1,
          )
    built (bool b) xs = refl
    built (int (pos n)) xs = refl
    built (int (negsuc n)) xs = refl
    built (float x) xs = refl

    resolved :
        (x : Scalar) (xs : List Scalar)
        → resolve_value (intern key st).1 (base_of x + at_array) (list xs)
          ≡ ok (items (py_scalars xs))
    resolved (bool b) xs = refl
    resolved (int (pos n)) xs = refl
    resolved (int (negsuc n)) xs = refl
    resolved (float x) xs = refl

Stores-text :
    (fl : Floats) (key s : Str) (st : StringTable)
    → IsValid st
    → length st.id_to_str + 2 < 2 ^ 70
    → Stores fl key (text s) st
unfolding build_typed_attr resolve_typed_attr resolve_value infer_attr_type scalar_base
Stores-text fl key s st v room =
    let (below, grown) = intern-lt key st v in
    let st1 = (intern key st).1 in
    let v1 = intern-IsValid key st v in
    (
      record {
        key_str_id = (intern key st).0;
        attr_type = at_str;
        value = scalar (int (pos (intern s st1).0));
      },
      (intern s st1).1,
      (
        refl,
        Codes-typed_attr fl _ (record {
          key_fits = key_fits key st 1 v room;
          typed =
              a_scalar (omega arith) _
                (a_str refl (intern s st1).0 (key_fits s st1 0 v1 (omega arith)) refl) refl;
        }),
        rw ((intern_lem s st1 v1).1) refl,
        lookup-intern_old s key st1 _ (intern_lem key st v).1,
      ),
    )

Stores-texts :
    (fl : Floats) (key : Str) (ss : List Str) (st : StringTable)
    → IsValid st
    → length st.id_to_str + suc (length ss) < 2 ^ 70
    → Stores fl key (texts ss) st
unfolding build_typed_attr resolve_typed_attr resolve_value scalar_base
Stores-texts fl key ss st v room =
    let (below, grown) = intern-lt key st v in
    let st1 = (intern key st).1 in
    let v1 = intern-IsValid key st v in
    let all = intern_all-Interned ss st1 v1 (omega arith) in
    (
      record {
        key_str_id = (intern key st).0;
        attr_type = at_str + at_array;
        value = list (intern_all ss st1).0;
      },
      (intern_all ss st1).1,
      (
        rw (infer_texts ss) refl,
        Codes-typed_attr fl _ (record {
          key_fits = key_fits key st (length ss) v room;
          typed =
              an_array at_str (omega arith) refl (intern_all ss st1).0 all.fit
                (omega (arith, all.as_many)) refl;
        }),
        rw all.found refl,
        all.kept _ key (intern_lem key st v).1,
      ),
    )
  where
    infer_texts :
        (ss : List Str) → infer_attr_type (py_attribute (texts ss)) ≡ ok (at_str + at_array)
    infer_texts [] = unfold infer_attr_type in refl
    infer_texts (s ∷ ss) = unfold infer_attr_type in refl

-- In a valid string table with fewer than 2 ^ 70 strings, those of the attribute included, an
-- attribute whose type is not given is built from a key and a bool, an int, a float, a string or a
-- list of values of one of these kinds, where the ints fit the field that the sign of the first int
-- chooses; its bytes are read back whatever follows; and under the table that it was built with the
-- reader makes the caller's value and key of it again.
pub resolve-build_typed_attr :
    (fl : Floats) (key : Str) (value : Attribute) (st : StringTable)
    → IsValid st
    → length st.id_to_str + suc (strings_in value) < 2 ^ 70
    → HasRoom value
    → (attr : TypedAttr) × (st' : StringTable) × Stored fl key value st attr st'
resolve-build_typed_attr fl key (plain (scalar x)) st v room h = Stores-scalar fl key x st v room h
resolve-build_typed_attr fl key (plain (list [])) st v room h = Stores-empty fl key st v room
resolve-build_typed_attr fl key (plain (list (x ∷ xs))) st v room (h, few) =
    Stores-list fl key x xs st v room h few
resolve-build_typed_attr fl key (text s) st v room h = Stores-text fl key s st v room
resolve-build_typed_attr fl key (texts ss) st v room h = Stores-texts fl key ss st v room
