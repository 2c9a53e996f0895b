-- ===== src/Txn/ColumnReader/Table.antt =====
-- python/src/trlog/_txn_data.py: the table of the columns that a block writes, and the columns that
-- a reader makes of it.
use trlog.Prelude.{
  ℕ, ◌<◌, ◌≤◌, ◌^◌, ◌≡◌, refl, List, [], ◌∷◌, ◌++◌, append_assoc, append-nil, length, Option, none,
  some, false, ◌==◌, ==_iff, ltb, leb, if◌then◌else◌, Bool-cases, inl, inr, arith,
}
use trlog.Prelude.Dict.{Dict, get, put, nat_eq, get-put, sorted, insert_sorted}
use trlog.Wire.{Bytes, concat_map}
use trlog.Wire.Reads.{Codes, Codes-bind, Codes-slice, Codes-pure, All, +++_assoc}
use trlog.Codec.Uvarint.{Codes-uvarint}
use trlog.Txn.Column.{
  Pushes, col_tag, col_attr_base, or_no_bytes, gather, named_columns, if_filled, filled,
  attr_columns, column_table, encode_column,
}
use trlog.Txn.ColumnReader.{read_table}
use trlog.Txn.ColumnReader.Cursors.{gathered, occurs}

-- The columns that a table is read into.
unfoldable pub put_all : Pushes → Dict ℕ Bytes → Dict ℕ Bytes
put_all [] cols = cols
put_all ((col, bs) ∷ table) cols = put_all table (put cols col bs)

-- A column whose number and length fit a varint.
abbrev pub Short : ℕ × Bytes → Type 0
Short (col, bs) = (col < 2 ^ 70) × (length bs < 2 ^ 70)

pub Codes-table :
    (table : Pushes) (cols : Dict ℕ Bytes)
    → All Short table
    → Codes (concat_map encode_column table) (read_table (length table) cols) (put_all table cols)
unfolding concat_map read_table put_all encode_column
Codes-table [] cols h = Codes-pure cols
Codes-table ((col, bs) ∷ table) cols ((hc, hl), more) =
    rw (+++_assoc, +++_assoc)
      (Codes-bind _ (Codes-uvarint hc) (
        Codes-bind _ (Codes-uvarint hl)
          (Codes-bind _ (Codes-slice bs) (Codes-table table (put cols col bs) more))))

pub gathered_none : (j : ℕ) (ps : Pushes) → occurs j ps ≡ false → gathered j ps ≡ []
unfolding gathered occurs
gathered_none j [] h = refl
gathered_none j ((i, bs) ∷ ps) h = ground (arith, gathered_none j ps)

-- What is gathered in a column.
pub get-gather :
    (ps : Pushes) (cols : Dict ℕ Bytes) (j : ℕ)
    → get (gather ps cols) j
      ≡ (if occurs j ps then some (or_no_bytes (get cols j) ++ gathered j ps) else get cols j)
unfolding gather gathered occurs
get-gather [] cols j = refl
get-gather ((i, bs) ∷ ps) cols j =
    let old = or_no_bytes (get cols i) in
    ground (
      arith,
      get-gather ps (put cols i (old ++ bs)) j,
      get-put cols i j (old ++ bs),
      ==_iff i j,
      append_assoc old bs (gathered j ps),
      gathered_none j ps,
      append-nil bs,
    )

get-insert_sorted :
    (k j : ℕ) (bs : Bytes) (d : Dict ℕ Bytes)
    → get (insert_sorted k bs d) j ≡ (if k == j then some bs else get d j)
unfolding insert_sorted get
get-insert_sorted k j bs [] = refl
get-insert_sorted k j bs ((i, cs) ∷ d) =
    ground (arith, get-insert_sorted k j bs d, ==_iff i j, ==_iff k j)

pub get-sorted : (d : Dict ℕ Bytes) (j : ℕ) → get (sorted d) j ≡ get d j
unfolding sorted get
get-sorted [] j = refl
get-sorted ((i, bs) ∷ d) j = ground (arith, get-insert_sorted i j bs (sorted d), get-sorted d j)

pub get-attr_columns :
    (d : Dict ℕ Bytes) (j : ℕ) → col_attr_base ≤ j → get (attr_columns d) j ≡ get d j
unfolding attr_columns get
get-attr_columns [] j h = refl
get-attr_columns ((i, bs) ∷ d) j h = ground (arith, get-attr_columns d j, ==_iff i j)

-- No column stands twice in the dictionary.
abbrev pub Unique : Dict ℕ Bytes → Type 0
Unique [] = Unit
Unique ((k, v) ∷ d) = (get d k ≡ none) × Unique d

Unique-put : (d : Dict ℕ Bytes) (k : ℕ) (v : Bytes) → Unique d → Unique (put d k v)
unfolding put get
Unique-put [] k v h = (refl, tt)
Unique-put ((j, w) ∷ d) k v (absent, h) = elim (Bool-cases (j == k)) [
  | inl same ↦ rw same (absent, h)
  | inr other ↦
      rw other (ground (arith, get-put d k j v, ==_iff j k, ==_iff k j, absent), Unique-put d k v h)
]

pub Unique-gather : (ps : Pushes) (d : Dict ℕ Bytes) → Unique d → Unique (gather ps d)
unfolding gather
Unique-gather [] d h = h
Unique-gather ((i, bs) ∷ ps) d h =
    Unique-gather ps (put d i (or_no_bytes (get d i) ++ bs))
      (Unique-put d i (or_no_bytes (get d i) ++ bs) h)

-- A pair that the columns have.
abbrev pub Entry : Dict ℕ Bytes → ℕ × Bytes → Type 0
Entry cols (k, v) = get cols k ≡ some v

Entries-cons :
    (d : Dict ℕ Bytes) (j : ℕ) (w : Bytes) (xs : Pushes)
    → get d j ≡ none
    → All (Entry d) xs
    → All (Entry ((j, w) ∷ d)) xs
unfolding get
Entries-cons d j w [] absent h = tt
Entries-cons d j w ((k, v) ∷ xs) absent (e, h) =
    (ground (arith, ==_iff j k, absent, e), Entries-cons d j w xs absent h)

Entries-self : (d : Dict ℕ Bytes) → Unique d → All (Entry d) d
unfolding get
Entries-self [] h = tt
Entries-self ((j, w) ∷ d) (absent, h) =
    (ground (arith, ==_iff j j), Entries-cons d j w d absent (Entries-self d h))

module _ (P : ℕ × Bytes → Type 0) where
  All-attr_columns : (d : Dict ℕ Bytes) → All P d → All P (attr_columns d)
  unfolding attr_columns
  All-attr_columns [] h = tt
  All-attr_columns ((k, v) ∷ d) (p, h) = elim (Bool-cases (leb col_attr_base k)) [
    | inl attr ↦ rw attr (p, All-attr_columns d h)
    | inr named ↦ rw named (All-attr_columns d h)
  ]

  All-insert_sorted :
      (k : ℕ) (v : Bytes) (d : Pushes) → P (k, v) → All P d → All P (insert_sorted k v d)
  unfolding insert_sorted
  All-insert_sorted k v [] p h = (p, tt)
  All-insert_sorted k v ((j, w) ∷ d) p (q, h) = elim (Bool-cases (ltb j k)) [
    | inl before ↦ rw before (q, All-insert_sorted k v d p h)
    | inr behind ↦ rw behind (p, (q, h))
  ]

  All-sorted : (d : Pushes) → All P d → All P (sorted d)
  unfolding sorted
  All-sorted [] h = tt
  All-sorted ((k, v) ∷ d) (p, h) = All-insert_sorted k v (sorted d) p (All-sorted d h)

module _ (cols : Dict ℕ Bytes) where
  Entries-if_filled :
      (col : ℕ) (o : Option Bytes) (rest : Pushes)
      → get cols col ≡ o
      → All (Entry cols) rest
      → All (Entry cols) (if_filled col (or_no_bytes o) rest)
  Entries-if_filled col none rest e h = h
  Entries-if_filled col (some []) rest e h = h
  Entries-if_filled col (some (b ∷ bs)) rest e h = (e, h)

  Entries-filled :
      (more : List ℕ) (rest : Pushes)
      → All (Entry cols) rest
      → All (Entry cols) (filled cols more rest)
  unfolding filled
  Entries-filled [] rest h = h
  Entries-filled (col ∷ more) rest h =
      Entries-if_filled col (get cols col) (filled cols more rest) refl (Entries-filled more rest h)

  -- Every pair of the table is one of the columns', if there are tags.
  pub Entries-column_table :
      {tags : Bytes}
      → Unique cols
      → get cols col_tag ≡ some tags
      → All (Entry cols) (column_table cols)
  unfolding column_table
  Entries-column_table u e = (
    rw e,
    Entries-filled named_columns (sorted (attr_columns cols)) (
        All-sorted (Entry cols) (attr_columns cols)
          (All-attr_columns (Entry cols) cols (Entries-self cols u))),
  )
