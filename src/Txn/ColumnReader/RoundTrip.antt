-- ===== src/Txn/ColumnReader/RoundTrip.antt =====
-- python/src/trlog/_txn_data.py: the column layout of a payload is read back as its records.
use trlog.Prelude.{
  ℕ, ◌<◌, ◌≤◌, ◌^◌, ◌≡◌, refl, sym, ◌∙◌, List, [], ◌∷◌, ◌++◌, append-nil, map, length, some, Bool,
  true, false, ◌==◌, ==_iff, ◌||◌, Bool-cases, ◌⊎◌, inl, inr, arith,
}
use trlog.Prelude.Bits.{every, every_sound}
use trlog.Prelude.Int.{ℤ}
use trlog.Prelude.Dict.{Dict, get, put, nat_eq, get-put, sorted}
use trlog.Wire.{Bytes, ok}
use trlog.Wire.Reads.{Codes, Codes-bind, Codes-pure, All}
use trlog.Codec.Uvarint.{Codes-uvarint}
use trlog.Codec.Value.{Numbers}
use trlog.Txn.{TxnRecord, txn_record_tag_code, Schemas, TxnDataBlock}
use trlog.Txn.Row.{at_start}
use trlog.Txn.Row.RoundTrip.{Codes-u64, to_tag-code, as_read, FitsBlock}
use trlog.Txn.Column.{
  Pushes, col_tag, col_attr_base, or_no_bytes, gather, named_columns, if_filled, filled,
  attr_columns, column_table, encode_table, push_records, encode_payload_column,
}
use trlog.Txn.ColumnReader.{
  to_tags, read_records, decode_table, decode_columns, decode_payload_column,
}
use trlog.Txn.ColumnReader.Cursors.{gathered, occurs, Holds, Filled, Named, AllNamed, ColumnCodes}
use trlog.Txn.ColumnReader.Parts.{FitsColumn}
use trlog.Txn.ColumnReader.Records.{tag_of, records_columns}
use trlog.Txn.ColumnReader.Table.{
  put_all, Short, Codes-table, Unique-gather, Entry, Entries-column_table, get-gather, get-sorted,
  get-attr_columns, gathered_none,
}

has : ℕ → List ℕ → Bool
has j [] = false
has j (k ∷ ks) = k == j || has j ks

module _ (cols : Dict ℕ Bytes) where
  -- A pair of the table is the last to be put under its number, or like it.
  get-put_all :
      (table : Pushes) (d : Dict ℕ Bytes) (j : ℕ)
      → All (Entry cols) table
      → ((v : Bytes) × (get table j ≡ some v)) ⊎ (get d j ≡ get cols j)
      → get (put_all table d) j ≡ get cols j
  unfolding put_all get
  get-put_all [] d j h (inl (v, e)) = absurd (cc e)
  get-put_all [] d j h (inr e) = e
  get-put_all ((k, v) ∷ table) d j (e, h) place = elim (Bool-cases (k == j)) [
    | inl same ↦
        get-put_all table (put d k v) j h
          (inr (ground (arith, get-put d k j v, same, e, ==_iff k j)))
    | inr other ↦ get-put_all table (put d k v) j h (elim place [
      | inl (w, p) ↦ inl (w, rw other at p)
      | inr q ↦ inr (ground (arith, get-put d k j v, other, q))
    ])
  ]

  get-if_filled_past :
      (col j : ℕ) (bs : Bytes) (rest : Pushes)
      → col == j ≡ false
      → get (if_filled col bs rest) j ≡ get rest j
  unfolding get
  get-if_filled_past col j [] rest h = refl
  get-if_filled_past col j (b ∷ bs) rest h = rw h

  get-filled_past :
      (more : List ℕ) (rest : Pushes) (j : ℕ)
      → has j more ≡ false
      → get (filled cols more rest) j ≡ get rest j
  unfolding filled has
  get-filled_past [] rest j h = refl
  get-filled_past (col ∷ more) rest j h =
      get-if_filled_past col j (or_no_bytes (get cols col)) (filled cols more rest)
        (ground (arith, h))
      ∙ get-filled_past more rest j (ground (arith, h))

  get-if_filled :
      (col j : ℕ) (bs : Bytes) (rest : Pushes)
      → Filled bs
      → col == j ≡ true
      → get (if_filled col bs rest) j ≡ some bs
  unfolding get
  get-if_filled col j [] rest f h = absurd f
  get-if_filled col j (b ∷ bs) rest f h = rw h

  get-filled :
      (more : List ℕ) (rest : Pushes) (j : ℕ) (bs : Bytes)
      → has j more ≡ true
      → Filled bs
      → get cols j ≡ some bs
      → get (filled cols more rest) j ≡ some bs
  unfolding filled has
  get-filled [] rest j bs h f e = absurd (cc h)
  get-filled (col ∷ more) rest j bs h f e = elim (Bool-cases (col == j)) [
    | inl same ↦
        let q : col ≡ j = (==_iff col j).0 same in
        rw (q, e) (get-if_filled j j bs (filled cols more rest) f (rw q at same))
    | inr other ↦
        get-if_filled_past col j (or_no_bytes (get cols col)) (filled cols more rest) other
        ∙ get-filled more rest j bs (rw other at h) f e
  ]

has_named : (j : ℕ) → 0 < j → j ≤ 12 → has j named_columns ≡ true
unfolding has every
has_named j above below = ground (arith, every_sound (λ i. i == 0 || has i named_columns) 13 refl j)

has_no_attr : (j : ℕ) → col_attr_base ≤ j → has j named_columns ≡ false
unfolding has
has_no_attr j h = ground arith

module _ (cols : Dict ℕ Bytes) where
  get-table_past :
      (j : ℕ)
      → 0 < j
      → get (column_table cols) j ≡ get (filled cols named_columns (sorted (attr_columns cols))) j
  unfolding column_table get
  get-table_past j above = ground arith

  -- A column with a name that is not empty, or one of an attribute, is in the table.
  get-column_table :
      (j : ℕ) (bs : Bytes)
      → 0 < j
      → ((j ≤ 12) × Filled bs) ⊎ (col_attr_base ≤ j)
      → get cols j ≡ some bs
      → get (column_table cols) j ≡ some bs
  get-column_table j bs above (inl (below, f)) e =
      get-table_past j above
      ∙ get-filled cols named_columns (sorted (attr_columns cols)) j bs (has_named j above below) f
          e
  get-column_table j bs above (inr attr) e =
      get-table_past j above
      ∙ get-filled_past cols named_columns (sorted (attr_columns cols)) j (has_no_attr j attr)
      ∙ get-sorted (attr_columns cols) j
      ∙ get-attr_columns cols j attr
      ∙ e

  get-tag :
      {tags : Bytes} → get cols col_tag ≡ some tags → get (column_table cols) col_tag ≡ some tags
  unfolding column_table get
  get-tag e = rw e refl

Filled-append : (bs cs : Bytes) → Filled bs → Filled (bs ++ cs)
Filled-append [] cs f = absurd f
Filled-append (b ∷ bs) cs f = tt

Named-at :
    (i j : ℕ) (bs cs : Bytes)
    → i ≡ j
    → Named (i, bs)
    → ((j ≤ 12) × Filled (bs ++ cs)) ⊎ (col_attr_base ≤ j)
Named-at i j bs cs e (inl (below, f)) = inl (omega arith, Filled-append bs cs f)
Named-at i j bs cs e (inr attr) = inr (omega arith)

gathered-Named :
    (ps : Pushes) (j : ℕ)
    → AllNamed ps
    → occurs j ps ≡ true
    → ((j ≤ 12) × Filled (gathered j ps)) ⊎ (col_attr_base ≤ j)
unfolding gathered occurs
gathered-Named [] j h o = absurd (cc o)
gathered-Named ((i, bs) ∷ ps) j (n, h) o = elim (Bool-cases (i == j)) [
  | inl same ↦ rw same (Named-at i j bs (gathered j ps) ((==_iff i j).0 same) n)
  | inr other ↦ rw other (gathered-Named ps j h (rw other at o))
]

-- The columns that the reader makes of the table.
abbrev read_back : Pushes → Dict ℕ Bytes
read_back ps = put_all (column_table (gather ps [])) []

module _ (ps : Pushes) (named : AllNamed ps) where
  gathered_there : (j : ℕ) → occurs j ps ≡ true → get (gather ps []) j ≡ some (gathered j ps)
  unfolding get
  gathered_there j o = rw o at (get-gather ps [] j)

  entries : occurs col_tag ps ≡ true → All (Entry (gather ps [])) (column_table (gather ps []))
  entries o =
      Entries-column_table (gather ps []) (Unique-gather ps [] tt) (gathered_there col_tag o)

  read_back-tags :
      occurs col_tag ps ≡ true → get (read_back ps) col_tag ≡ some (gathered col_tag ps)
  read_back-tags o =
      get-put_all (gather ps []) (column_table (gather ps [])) [] col_tag (entries o)
        (inl (gathered col_tag ps, get-tag (gather ps []) (gathered_there col_tag o)))
      ∙ gathered_there col_tag o

  read_back-Holds : occurs col_tag ps ≡ true → Holds (read_back ps) ps
  read_back-Holds o j above oj =
      get-put_all (gather ps []) (column_table (gather ps [])) [] j (entries o) (
        inl (
          gathered j ps,
          get-column_table (gather ps []) j (gathered j ps) above (gathered-Named ps j named oj)
              (gathered_there j oj),
        ))
      ∙ gathered_there j oj

to_tags-codes :
    (rs : List TxnRecord)
    → to_tags (map (λ r. txn_record_tag_code (tag_of r)) rs) ≡ ok (map tag_of rs)
unfolding to_tags
to_tags-codes [] = refl
to_tags-codes (r ∷ rs) = rw (to_tag-code (tag_of r), to_tags-codes rs) refl

-- The codes of the tags.
abbrev codes : List TxnRecord → Bytes
codes = map (λ r. txn_record_tag_code (tag_of r))

occurs_there :
    (ps : Pushes) {b : ℕ} {bs : Bytes} → gathered col_tag ps ≡ b ∷ bs → occurs col_tag ps ≡ true
occurs_there ps e = elim (Bool-cases (occurs col_tag ps)) [
  | inl o ↦ o
  | inr o ↦ absurd (cc (gathered_none col_tag ps o, e))
]

columns_read :
    (py : Numbers) (delta : Bool) (schemas : Schemas) (start_time : ℤ) (rs : List TxnRecord)
    (c : ColumnCodes
      (push_records py schemas delta rs (at_start start_time))
      (read_records py schemas delta (map tag_of rs) (at_start start_time))
      (map as_read rs)
      (codes rs))
    → decode_columns py delta schemas start_time (length rs) (read_back c.pushes)
      ≡ ok (map as_read rs)
unfolding decode_columns
columns_read py delta schemas start_time [] c = refl
columns_read py delta schemas start_time (r ∷ rs) c =
    let o = occurs_there c.pushes c.tagged in
    let u = c.read [] (read_back c.pushes) (rw append-nil (read_back-Holds c.pushes c.named o)) in
    ground (arith, read_back-tags c.pushes c.named o, c.tagged, to_tags-codes (r ∷ rs), u.read_as)

-- Numbers and lengths of the columns that fit a varint.
abbrev pub ColumnsFit : Numbers → Bool → TxnDataBlock → Type 0
ColumnsFit py delta b =
    (ps : Pushes)
    → push_records py b.schemas delta b.records (at_start b.start_time) ≡ ok ps
    → All Short (column_table (gather ps [])) × (length (column_table (gather ps [])) < 2 ^ 70)

module _ (py : Numbers) (delta : Bool) (b : TxnDataBlock) (fits : FitsBlock py b)
    (fits_columns : All (FitsColumn py b.schemas) b.records)
    (columns_fit : ColumnsFit py delta b) where
  Codes-encode_table :
      (table : Pushes)
      → All Short table
      → length table < 2 ^ 70
      → Codes
          (encode_table b table)
          decode_table
          (b.start_time, b.end_time, length b.records, put_all table [])
  unfolding encode_table decode_table
  Codes-encode_table table short few = Codes-bind _ (Codes-u64 b.start_time fits.start_fits) (
      Codes-bind _ (Codes-u64 b.end_time fits.end_fits) (
        Codes-bind _ (Codes-uvarint fits.few) (
          Codes-bind _ (Codes-uvarint few)
            (Codes-bind _ (Codes-table table [] short) (Codes-pure _)))))

  pub decode-encode_payload_column :
      {payload : Bytes}
      → encode_payload_column py delta b ≡ ok payload
      → decode_payload_column py delta b.schemas payload
        ≡ ok (b.start_time, b.end_time, map as_read b.records)
  unfolding encode_payload_column decode_payload_column
  decode-encode_payload_column {payload} e =
      let c =
        records_columns py b.schemas delta b.records (at_start b.start_time) fits.records_fit
          fits_columns (omega arith, fits.start_fits) in
      let (short, few) = columns_fit c.pushes c.pushed in
      let t = Codes-encode_table (column_table (gather c.pushes [])) short few in
      let same : ok t.bytes ≡ ok payload = sym t.encoded ∙ rw c.pushed at e in
      let whole = rw (append-nil, same_bytes same) at (t.decoded []) in
      rw (whole, columns_read py delta b.schemas b.start_time b.records c) refl
    where
      same_bytes : {x y : Bytes} → ok x ≡ ok y → x ≡ y
      same_bytes q = cc q
