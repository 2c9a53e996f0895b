-- ===== src/TypeRegistry/Method.antt =====
-- python/src/trlog/_type_registry.py: entries under all methods of TypeRegistry that change it,
-- `read_block` included, which takes over the ids that it reads and leaves the next ones alone.
use mathlib.Core.Path.{subst}
use trlog.Prelude.{
  ℕ, suc, zero, ◌≡◌, ◌≢◌, sym, ◌∙◌, [], ◌∷◌, ◌==◌, leb, none, some, Option, Option-cases,
  Bool-cases, ap, inl, inr,
}
use trlog.Prelude.Dict.{get, put, nat_eq, get-put_ne}
use trlog.Wire.{Bytes, Result, ok, bind-eq-ok}
use trlog.Codec.{decode_uvarint}
use trlog.Compression.{Compression, decompress_payload}
use trlog.TypeRegistry.Entries.{
  SignalTypeEntry, TxnSchemaEntry, EnumTypeEntry, decode_signal_type, decode_txn_schema,
  decode_enum_type,
}
use trlog.TypeRegistry.Stream.{StreamDeclEntry, decode_stream_decl, decode_stream_decl_v2}
use trlog.TypeRegistry.{
  TypeRegistry, store_txn_schema, store_stream_decl, decode_entry, decode_entries, decode_payload,
  read_block, get_txn_schema,
}
use trlog.TypeRegistry.Valid.{Step, IsValid, Step-get_txn_schema}

-- One call of any method that changes the registry.
pub data Method (c : Compression) : TypeRegistry → TypeRegistry → Type 0 where
  builds : {r r' : TypeRegistry} → Step r r' → Method c r r'
  reads :
      {r r' : TypeRegistry} (flags : ℕ) (payload : Bytes)
      → read_block c flags payload r ≡ ok r'
      → Method c r r'

-- What every stored entry keeps, the block that is read keeps.
module _ (P : TypeRegistry → Type 0)
    (by_signal : (r : TypeRegistry) (e : SignalTypeEntry)
      → P r
      → P (record r { signal_types = put r.signal_types e.sig_type_id e }))
    (by_schema : (r r' : TypeRegistry) (e : TxnSchemaEntry)
      → P r
      → store_txn_schema e r ≡ ok r'
      → P r')
    (by_enum : (r : TypeRegistry) (e : EnumTypeEntry)
      → P r
      → P (record r { enum_types = put r.enum_types e.enum_type_id e }))
    (by_stream : (r : TypeRegistry) (e : StreamDeclEntry) → P r → P (store_stream_decl e r)) where
  abbrev Next : Option TypeRegistry × Bytes → Type 0
  Next (none, rest) = Unit
  Next (some r, rest) = P r

  stored :
      {r : TypeRegistry} {rest : Bytes} {p : Option TypeRegistry × Bytes}
      → P r
      → ◌≡◌ {A = Result (Option TypeRegistry × Bytes)} (ok (some r, rest)) (ok p)
      → Next p
  stored {r} {rest} {p} h e = let same : (some r, rest) ≡ p = cc e in subst (λ x. Next x) same h

  left :
      {buf : Bytes} {p : Option TypeRegistry × Bytes}
      → ◌≡◌ {A = Result (Option TypeRegistry × Bytes)} (ok (none, buf)) (ok p)
      → Next p
  left {buf} {p} e =
      let same : (none, buf) ≡ p = cc e in
      let nothing : Next (none, buf) = tt in subst (λ x. Next x) same nothing

  decode_entry-Next :
      (tag : ℕ) (r : TypeRegistry) (buf : Bytes) {p : Option TypeRegistry × Bytes}
      → P r
      → decode_entry tag r buf ≡ ok p
      → Next p
  unfolding decode_entry
  decode_entry-Next tag r buf h e = elim (Bool-cases (tag == 0x01)) [
    | inl q1 ↦
        let ((x, rest), d, e1) =
          bind-eq-ok (decode_signal_type buf) _ (rw (decode_entry, q1) at e) in
        stored (by_signal r x h) e1
    | inr q1 ↦ elim (Bool-cases (tag == 0x02)) [
      | inl q2 ↦
          let ((x, rest), d, e1) =
            bind-eq-ok (decode_txn_schema buf) _ (rw (decode_entry, q1, q2) at e) in
          let (r', f, e2) = bind-eq-ok (store_txn_schema x r) _ e1 in
          stored (by_schema r r' x h f) e2
      | inr q2 ↦ elim (Bool-cases (tag == 0x03)) [
        | inl q3 ↦
            let ((x, rest), d, e1) =
              bind-eq-ok (decode_enum_type buf) _ (rw (decode_entry, q1, q2, q3) at e) in
            stored (by_enum r x h) e1
        | inr q3 ↦ elim (Bool-cases (tag == 0x04)) [
          | inl q4 ↦
              let ((x, rest), d, e1) =
                bind-eq-ok (decode_stream_decl buf) _ (rw (decode_entry, q1, q2, q3, q4) at e) in
              stored (by_stream r x h) e1
          | inr q4 ↦ elim (Bool-cases (tag == 0x05)) [
            | inl q5 ↦
                let ((x, rest), d, e1) =
                  bind-eq-ok (decode_stream_decl_v2 buf) _
                    (rw (decode_entry, q1, q2, q3, q4, q5) at e) in
                stored (by_stream r x h) e1
            | inr q5 ↦ elim (Bool-cases (leb 0x05 tag)) [
              | inl q6 ↦
                  let ((x, rest), d, e1) =
                    bind-eq-ok (decode_uvarint buf) _
                      (rw (decode_entry, q1, q2, q3, q4, q5, q6) at e) in
                  stored h e1
              | inr q6 ↦ left (rw (decode_entry, q1, q2, q3, q4, q5, q6) at e)
            ]
          ]
        ]
      ]
    ]
  ]

  decode_entries-kept :
      (n : ℕ) (r : TypeRegistry) (buf : Bytes) {r' : TypeRegistry}
      → P r
      → decode_entries n r buf ≡ ok r'
      → P r'
  unfolding decode_entries
  decode_entries-kept zero r buf {r'} h e = let same : r ≡ r' = cc e in rw same at h
  decode_entries-kept (suc n) r [] h e = absurd (cc e)
  decode_entries-kept (suc n) r (tag ∷ buf) {r'} h e =
      let ((next, rest), d, e1) = bind-eq-ok (decode_entry tag r buf) _ e in
      behind next rest (decode_entry-Next tag r buf h d) e1
        (λ q x e2. decode_entries-kept n q rest x e2)
    where
      behind :
          (next : Option TypeRegistry) (rest : Bytes)
          → Next (next, rest)
          → elim next [ none ↦ ok r | some q ↦ decode_entries n q rest ] ≡ ok r'
          → ((q : TypeRegistry) → P q → decode_entries n q rest ≡ ok r' → P r')
          → P r'
      behind none rest x e1 more = let same : r ≡ r' = cc e1 in rw same at h
      behind (some q) rest x e1 more = more q x e1

  pub read_block-kept :
      (c : Compression) (flags : ℕ) (payload : Bytes) (r : TypeRegistry) {r' : TypeRegistry}
      → P r
      → read_block c flags payload r ≡ ok r'
      → P r'
  unfolding read_block decode_payload
  read_block-kept c flags payload r h e =
      let (raw, d, e1) = bind-eq-ok (decompress_payload c flags payload) _ e in
      let ((count, rest), f, e2) = bind-eq-ok (decode_uvarint raw) _ e1 in
      decode_entries-kept count r rest h e2

-- Under an id that has no schema yet a new one is stored, and under one that has, nothing.
store_txn_schema-get :
    (i : ℕ) {schema : TxnSchemaEntry} (r : TypeRegistry) {r' : TypeRegistry} (e : TxnSchemaEntry)
    → get_txn_schema r i ≡ some schema
    → store_txn_schema e r ≡ ok r'
    → get_txn_schema r' i ≡ some schema
unfolding get_txn_schema store_txn_schema
store_txn_schema-get i {schema} r {r'} e g s =
    elim (Option-cases (get r.txn_schemas e.txn_type_id)) [
      | inr (old, q) ↦ absurd (cc (rw (store_txn_schema, q) at s))
      | inl q ↦
          let same : record r { txn_schemas = put r.txn_schemas e.txn_type_id e } ≡ r' =
            cc (rw (store_txn_schema, q) at s) in
          let kept : get (put r.txn_schemas e.txn_type_id e) i ≡ some schema =
            get-put_ne r.txn_schemas e.txn_type_id i e (other q) ∙ g in
          ap (λ (x : TypeRegistry). get x.txn_schemas i) (sym same) ∙ kept
    ]
  where
    other : get r.txn_schemas e.txn_type_id ≡ none → e.txn_type_id ≢ i
    other q same =
        let found : get r.txn_schemas e.txn_type_id ≡ some schema = rw same g in
        absurd (cc (sym q ∙ found))

-- No method, the reading of a block included, changes a transaction schema or takes it away, in a
-- registry whose entries stand under their own ids, each once and below the next id: an id that has
-- a schema keeps it, so the records written under it stay readable.
pub Method-get_txn_schema :
    {c : Compression} {r r' : TypeRegistry} (i : ℕ) {schema : TxnSchemaEntry}
    → IsValid r
    → get_txn_schema r i ≡ some schema
    → Method c r r'
    → get_txn_schema r' i ≡ some schema
Method-get_txn_schema i h g (builds s) = Step-get_txn_schema i h g s
Method-get_txn_schema {c} {r} i {schema} h g (reads flags payload e) =
    read_block-kept (λ (x : TypeRegistry). get_txn_schema x i ≡ some schema)
      (λ x y p. unfold get_txn_schema in (unfold get_txn_schema in p))
      (λ x x' y p s. store_txn_schema-get i x y p s)
      (λ x y p. unfold get_txn_schema in (unfold get_txn_schema in p))
      (λ x y p. unfold get_txn_schema store_stream_decl in (unfold get_txn_schema in p)) c flags
      payload r g e
