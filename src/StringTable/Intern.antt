-- ===== src/StringTable/Intern.antt =====
-- `intern` and `lookup` of python/src/trlog/_string_table.py: ids and strings in both directions.
use trlog.Prelude.{
  ℕ, zero, suc, ◌≤◌, ◌<◌, ◌≡◌, [], ◌∷◌, none, some, length, get_elem?, get_elem?-append_one,
  get_elem?-some_lt, length-append, arith, Option-cases, inl, inr,
}
use trlog.Prelude.Int.{ℤ, pos, negsuc}
use trlog.Prelude.Dict.{get, list_eq, list_beq_iff, get-put, get-put_self}
use trlog.Wire.{ok}
use trlog.Text.{Str}
use trlog.StringTable.{StringTable, empty, append_str, intern, lookup}

-- A string's id is its place in the list, and nothing but the reserved place 0 is without one.
pub record IsValid (t : StringTable) : Type 0 where
  pub reserved : 0 < length t.id_to_str
  pub id_found :
      (s : Str) (i : ℕ) → get t.str_to_id s ≡ some i → (1 ≤ i) × (get_elem? t.id_to_str i ≡ some s)
  pub str_found :
      (s : Str) (i : ℕ) → 1 ≤ i → get_elem? t.id_to_str i ≡ some s → get t.str_to_id s ≡ some i

-- behind the reserved place an empty table has nothing
no_entry : (s : Str) (i : ℕ) → 1 ≤ i → get_elem? ([] ∷ []) i ≡ some s → none ≡ some i
no_entry s zero h e = absurd (omega arith)
no_entry s (suc i) h e = cc

pub empty-IsValid : IsValid empty
unfolding empty get
empty-IsValid = record {
  reserved = omega arith;
  id_found = λ s i e. cc;
  str_found = λ s i h e. no_entry s i h e;
}

append_str-IsValid :
    (s : Str) (t : StringTable) → IsValid t → get t.str_to_id s ≡ none → IsValid (append_str s t)
unfolding append_str
append_str-IsValid s t v fresh = record {
  reserved = omega (arith, length-append t.id_to_str (s ∷ []));
  id_found = λ u i e. ground (
    arith,
    e,
    get-put t.str_to_id s u (length t.id_to_str),
    list_beq_iff s u,
    get_elem?-append_one t.id_to_str s i,
    v.id_found u i,
    v.reserved,
    λ (g : get_elem? t.id_to_str i ≡ some u). get_elem?-some_lt t.id_to_str i g,
  );
  str_found = λ u i h e. ground (
    arith,
    e,
    fresh,
    get-put t.str_to_id s u (length t.id_to_str),
    list_beq_iff s u,
    get_elem?-append_one t.id_to_str s i,
    v.str_found u i,
  );
}

pub intern_fresh :
    (s : Str) (t : StringTable)
    → get t.str_to_id s ≡ none
    → intern s t ≡ (length t.id_to_str, append_str s t)
unfolding intern
intern_fresh s t e = rw (e, intern)

pub intern_old : (s : Str) (t : StringTable) (i : ℕ) → get t.str_to_id s ≡ some i → intern s t ≡ (i, t)
unfolding intern
intern_old s t i e = rw (e, intern)

lookup_at :
    (t : StringTable) (i : ℕ) (s : Str) → get_elem? t.id_to_str i ≡ some s → lookup t (pos i) ≡ ok s
unfolding lookup
lookup_at t i s e = rw (e, lookup)

pub intern-IsValid : (s : Str) (t : StringTable) → IsValid t → IsValid (intern s t).1
unfolding intern
intern-IsValid s t v = elim (Option-cases (get t.str_to_id s)) [
  | inl e ↦ rw (e, intern) (append_str-IsValid s t v e)
  | inr (i, e) ↦ rw (e, intern) v
]

-- The id that `intern` returns is not the reserved one and looks the string up, and to intern the
-- string again returns the same id and changes nothing.
pub intern_lem :
    (s : Str) (t : StringTable)
    → IsValid t
    → (1 ≤ (intern s t).0)
      × (lookup (intern s t).1 (pos (intern s t).0) ≡ ok s)
      × (intern s (intern s t).1 ≡ intern s t)
intern_lem s t v = elim (Option-cases (get t.str_to_id s)) [
  | inl e ↦ rw (intern_fresh s t e) (
    v.reserved,
    lookup_at (append_str s t) (length t.id_to_str) s (
        unfold append_str in
        ground (arith, get_elem?-append_one t.id_to_str s (length t.id_to_str))),
    intern_old s (append_str s t) (length t.id_to_str)
        (unfold append_str in get-put_self t.str_to_id s (length t.id_to_str)),
  )
  | inr (i, e) ↦
      rw (intern_old s t i e)
        ((v.id_found s i e).0, lookup_at t i s (v.id_found s i e).1, intern_old s t i e)
]

-- An id that has been given out keeps its string, whatever is interned later.
pub lookup-intern_old :
    (s u : Str) (t : StringTable) (j : ℤ) → lookup t j ≡ ok u → lookup (intern s t).1 j ≡ ok u
unfolding intern lookup
lookup-intern_old s u t (negsuc j) e = cc
lookup-intern_old s u t (pos j) e = ground (
  arith,
  e,
  get_elem?-append_one t.id_to_str s j,
  λ (g : get_elem? t.id_to_str j ≡ some u). get_elem?-some_lt t.id_to_str j g,
)
