-- ===== src/Metadata/Interned.antt =====
-- python/src/trlog/_writer.py: the strings of an attribute in the string table.
use trlog.Prelude.{
  suc, ◌+◌, ◌^◌, ◌<◌, ◌≤◌, ◌≡◌, refl, ap, List, [], ◌∷◌, length, arith, 
  Option-cases, inl, inr, length-append, get_elem?-some_lt, 
}
use trlog.Prelude.Int.{ℤ, pos}
use trlog.Prelude.Dict.{get, list_eq}
use trlog.Wire.{ok}
use trlog.Wire.Reads.{All}
use trlog.Text.{Str}
use trlog.StringTable.{StringTable, append_str, intern, lookup}
use trlog.StringTable.Intern.{
  IsValid, intern-IsValid, intern_lem, lookup-intern_old, intern_old, intern_fresh,
}
use trlog.Metadata.{
  at_str, Scalar, 
  
}
use trlog.Metadata.RoundTrip.{
  Fits, a_str, 
  
}
use trlog.Metadata.Attr.{
  py_strings, intern_all, 
  lookup_all, 
}

-- An id is a place in the table, which grows by at most one.
pub intern-lt :
    (s : Str) (st : StringTable)
    → IsValid st
    → ((intern s st).0 < length (intern s st).1.id_to_str)
      × (length (intern s st).1.id_to_str ≤ length st.id_to_str + 1)
unfolding append_str
intern-lt s st v = elim (Option-cases (get st.str_to_id s)) [
  | inl e ↦ rw (intern_fresh s st e) (
    ground (arith, length-append st.id_to_str (s ∷ [])),
    ground (arith, length-append st.id_to_str (s ∷ [])),
  )
  | inr (i, e) ↦
      rw (intern_old s st i e) (get_elem?-some_lt st.id_to_str i (v.id_found s i e).1, omega arith)
]

-- The strings of a list under their ids, in a table that has what the one before had.
pub record Interned (ss : List Str) (st : StringTable) (ids : List Scalar) (st' : StringTable)
    : Type 0 where
  pub kept : (j : ℤ) (u : Str) → lookup st j ≡ ok u → lookup st' j ≡ ok u
  pub found : lookup_all st' ids ≡ ok (py_strings ss)
  pub fit : All (Fits at_str) ids
  pub as_many : length ids ≡ length ss

pub intern_all-Interned :
    (ss : List Str) (st : StringTable)
    → IsValid st
    → length st.id_to_str + length ss < 2 ^ 70
    → Interned ss st (intern_all ss st).0 (intern_all ss st).1
unfolding intern_all
intern_all-Interned [] st v room = record {
  kept = λ j u e. e;
  found = refl;
  fit = tt;
  as_many = refl;
}
intern_all-Interned (s ∷ ss) st v room =
    let (below, grown) = intern-lt s st v in
    let later = intern_all-Interned ss (intern s st).1 (intern-IsValid s st v) (omega arith) in
    record {
      kept = λ j u e. later.kept j u (lookup-intern_old s u st j e);
      found = rw (later.kept (pos (intern s st).0) s (intern_lem s st v).1, later.found) refl;
      fit = (a_str refl (intern s st).0 (omega arith) refl, later.fit);
      as_many = ap suc later.as_many;
    }
