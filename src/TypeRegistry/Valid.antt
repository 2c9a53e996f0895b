-- ===== src/TypeRegistry/Valid.antt =====
-- python/src/trlog/_type_registry.py: ids and entries under the methods of TypeRegistry.
use trlog.Prelude.{
  ℕ, ◌+◌, ◌<◌, ◌≤◌, ◌≡◌, ◌≢◌, refl, sym, ◌∙◌, List, [], ◌∷◌, ◌++◌, true, false, ◌==◌, none, some,
  Option-cases, Bool-cases, ap, inl, inr, arith,
}
use trlog.Prelude.Dict.{Dict, get, put, nat_eq, get-put_ne}
use trlog.Wire.{Bytes, ok}
use trlog.Types.{SignalEncoding, Radix}
use trlog.Metadata.{TypedAttr}
use trlog.TypeRegistry.Entries.{SignalTypeEntry, TxnSchemaEntry, EnumTypeEntry, FieldDef, EnumValue}
use trlog.TypeRegistry.Stream.{StreamDeclEntry}
use trlog.TypeRegistry.{
  TypeRegistry, empty, add_signal_type, add_txn_schema, add_enum_type, add_stream_decl,
  change_stream, set_stream_codec, add_stream_metadata, set_stream_dependencies, get_txn_schema,
}

module _ {ℓ} {V : Type ℓ} (id_of : V → ℕ) where
  -- Keys are below `n`, each is the id of its entry, and each comes once.
  abbrev pub Keyed : ℕ → Dict ℕ V → Type ℓ
  Keyed n [] = Unit
  Keyed n ((k, v) ∷ d) = (k < n) × (id_of v ≡ k) × (get d k ≡ none) × Keyed n d

  pub put-Keyed :
      (n : ℕ) (d : Dict ℕ V) (k : ℕ) (v : V) → Keyed n d → k < n → id_of v ≡ k → Keyed n (put d k v)
  unfolding put get
  put-Keyed n [] k v h below e = (below, e, refl, tt)
  put-Keyed n ((j, w) ∷ d) k v (jb, je, jd, h) below e = elim (Bool-cases (j == k)) [
    | inl same ↦ rw same (jb, e ∙ sym (j_is same), jd, h)
    | inr other ↦
        rw other (jb, je, get-put_ne d k j v (differ other) ∙ jd, put-Keyed n d k v h below e)
  ]
    where
      j_is : (j == k) ≡ true → j ≡ k
      j_is t = ground arith

      differ : (j == k) ≡ false → k ≢ j
      differ t same = ground (arith, t, same)

  pub Keyed-mono : (n m : ℕ) (d : Dict ℕ V) → Keyed n d → n ≤ m → Keyed m d
  Keyed-mono n m [] h l = tt
  Keyed-mono n m ((k, v) ∷ d) (b, e, f, h) l = (omega arith, e, f, Keyed-mono n m d h l)

  Keyed-next : (n : ℕ) (d : Dict ℕ V) → Keyed n d → get d n ≡ none
  unfolding get
  Keyed-next n [] h = refl
  Keyed-next n ((k, v) ∷ d) (b, e, f, h) = ground (arith, Keyed-next n d h)

  pub get-Keyed :
      (n : ℕ) (d : Dict ℕ V) (k : ℕ) {v : V}
      → Keyed n d
      → get d k ≡ some v
      → (k < n) × (id_of v ≡ k)
  unfolding get
  get-Keyed n [] k h g = absurd (cc g)
  get-Keyed n ((j, w) ∷ d) k {v} (b, e, f, h) g = elim (Bool-cases (j == k)) [
    | inl same ↦ (ground arith, ap id_of (sym (found same)) ∙ (e ∙ ground (arith, same)))
    | inr other ↦ get-Keyed n d k h (rw other at g)
  ]
    where
      found : (j == k) ≡ true → w ≡ v
      found t = ground (arith, g, t)

  pub put_next :
      (n : ℕ) (d : Dict ℕ V) (v : V) → Keyed n d → id_of v ≡ n → Keyed (n + 1) (put d n v)
  put_next n d v h e =
      put-Keyed (n + 1) d n v (Keyed-mono n (n + 1) d h (omega arith)) (omega arith) e

  get-append_self :
      (before : Dict ℕ V) (k : ℕ) (v : V) (behind : Dict ℕ V)
      → get (before ++ ((k, v) ∷ behind)) k ≢ none
  unfolding get
  get-append_self [] k v behind e = ground (arith, e)
  get-append_self ((j, w) ∷ before) k v behind e =
      ground (arith, e, get-append_self before k v behind)

  -- A key is not found before its only place.
  pub Keyed-front :
      (n : ℕ) (before : Dict ℕ V) (k : ℕ) (v : V) (behind : Dict ℕ V)
      → Keyed n (before ++ ((k, v) ∷ behind))
      → get before k ≡ none
  unfolding get
  Keyed-front n [] k v behind h = refl
  Keyed-front n ((j, w) ∷ before) k v behind (b, e, f, h) =
      ground (arith, f, get-append_self before k v behind, Keyed-front n before k v behind h)

  pub Keyed-own :
      (n : ℕ) (before : Dict ℕ V) (k : ℕ) (v : V) (behind : Dict ℕ V)
      → Keyed n (before ++ ((k, v) ∷ behind))
      → id_of v ≡ k
  Keyed-own n [] k v behind (b, e, f, h) = e
  Keyed-own n (x ∷ before) k v behind (b, e, f, h) = Keyed-own n before k v behind h

pub record IsValid (r : TypeRegistry) : Type 0 where
  pub signal_types_keyed :
      Keyed (λ (e : SignalTypeEntry). e.sig_type_id) r.next_sig_id r.signal_types
  pub txn_schemas_keyed : Keyed (λ (e : TxnSchemaEntry). e.txn_type_id) r.next_txn_id r.txn_schemas
  pub enum_types_keyed : Keyed (λ (e : EnumTypeEntry). e.enum_type_id) r.next_enum_id r.enum_types
  pub stream_decls_keyed :
      Keyed (λ (e : StreamDeclEntry). e.stream_id) r.next_stream_id r.stream_decls

pub empty-IsValid : IsValid empty
unfolding empty
empty-IsValid = record {
  signal_types_keyed = tt;
  txn_schemas_keyed = tt;
  enum_types_keyed = tt;
  stream_decls_keyed = tt;
}

-- One call of a method that changes the registry, other than `read_block`; Method has that too.
pub data Step : TypeRegistry → TypeRegistry → Type 0 where
  by_signal_type :
      {r : TypeRegistry} (encoding : SignalEncoding) (bit_width : ℕ) (radix : Radix)
      → Step r (add_signal_type encoding bit_width radix r).0
  by_txn_schema :
      {r : TypeRegistry} (name : ℕ) (fields : List FieldDef)
      → Step r (add_txn_schema name fields r).0
  by_enum_type :
      {r : TypeRegistry} (name : ℕ) (values : List EnumValue)
      → Step r (add_enum_type name values r).0
  by_stream_decl :
      {r : TypeRegistry} (name kind txn codec version : ℕ) (params : Bytes)
      → Step r (add_stream_decl name kind txn codec version params r).0
  by_codec :
      {r r' : TypeRegistry} (i codec version : ℕ) (params : Bytes)
      → set_stream_codec i codec version params r ≡ ok r'
      → Step r r'
  by_metadata :
      {r r' : TypeRegistry} (i : ℕ) (attr : TypedAttr)
      → add_stream_metadata i attr r ≡ ok r'
      → Step r r'
  by_dependencies :
      {r r' : TypeRegistry} (i : ℕ) (inputs : List ℕ)
      → set_stream_dependencies i inputs r ≡ ok r'
      → Step r r'

-- An id that is given out was free, and every id is below the next one.
add_signal_type-IsValid :
    (encoding : SignalEncoding) (w : ℕ) (radix : Radix) (r : TypeRegistry)
    → IsValid r
    → IsValid (add_signal_type encoding w radix r).0
unfolding add_signal_type
add_signal_type-IsValid encoding w radix r h = record {
  signal_types_keyed = put_next _ r.next_sig_id r.signal_types _ h.signal_types_keyed refl;
  txn_schemas_keyed = h.txn_schemas_keyed;
  enum_types_keyed = h.enum_types_keyed;
  stream_decls_keyed = h.stream_decls_keyed;
}

add_txn_schema-IsValid :
    (name : ℕ) (fields : List FieldDef) (r : TypeRegistry)
    → IsValid r
    → IsValid (add_txn_schema name fields r).0
unfolding add_txn_schema
add_txn_schema-IsValid name fields r h = record {
  signal_types_keyed = h.signal_types_keyed;
  txn_schemas_keyed = put_next _ r.next_txn_id r.txn_schemas _ h.txn_schemas_keyed refl;
  enum_types_keyed = h.enum_types_keyed;
  stream_decls_keyed = h.stream_decls_keyed;
}

add_enum_type-IsValid :
    (name : ℕ) (values : List EnumValue) (r : TypeRegistry)
    → IsValid r
    → IsValid (add_enum_type name values r).0
unfolding add_enum_type
add_enum_type-IsValid name values r h = record {
  signal_types_keyed = h.signal_types_keyed;
  txn_schemas_keyed = h.txn_schemas_keyed;
  enum_types_keyed = put_next _ r.next_enum_id r.enum_types _ h.enum_types_keyed refl;
  stream_decls_keyed = h.stream_decls_keyed;
}

add_stream_decl-IsValid :
    (name kind txn codec version : ℕ) (params : Bytes) (r : TypeRegistry)
    → IsValid r
    → IsValid (add_stream_decl name kind txn codec version params r).0
unfolding add_stream_decl
add_stream_decl-IsValid name kind txn codec version params r h = record {
  signal_types_keyed = h.signal_types_keyed;
  txn_schemas_keyed = h.txn_schemas_keyed;
  enum_types_keyed = h.enum_types_keyed;
  stream_decls_keyed = put_next _ r.next_stream_id r.stream_decls _ h.stream_decls_keyed refl;
}

-- A change of an entry that keeps its id.
change_stream-IsValid :
    (f : StreamDeclEntry → StreamDeclEntry) (i : ℕ) (r : TypeRegistry) {r' : TypeRegistry}
    → ((e : StreamDeclEntry) → (f e).stream_id ≡ e.stream_id)
    → IsValid r
    → change_stream f i r ≡ ok r'
    → IsValid r'
unfolding change_stream
change_stream-IsValid f i r {r'} same h e = elim (Option-cases (get r.stream_decls i)) [
  | inl n ↦ absurd (cc (rw (n, change_stream) at e))
  | inr (d, n) ↦ rw (← changed d n) (record {
    signal_types_keyed = h.signal_types_keyed;
    txn_schemas_keyed = h.txn_schemas_keyed;
    enum_types_keyed = h.enum_types_keyed;
    stream_decls_keyed = kept d n;
  })
]
  where
    changed :
        (d : StreamDeclEntry)
        → get r.stream_decls i ≡ some d
        → record r { stream_decls = put r.stream_decls i (f d) } ≡ r'
    changed d n = cc (rw (n, change_stream) at e)

    kept :
        (d : StreamDeclEntry)
        → get r.stream_decls i ≡ some d
        → Keyed (λ (x : StreamDeclEntry). x.stream_id) r.next_stream_id (put r.stream_decls i (f d))
    kept d n =
        let (below, its) =
          get-Keyed (λ (x : StreamDeclEntry). x.stream_id) r.next_stream_id r.stream_decls i
            h.stream_decls_keyed n in
        put-Keyed _ r.next_stream_id r.stream_decls i (f d) h.stream_decls_keyed below
          (same d ∙ its)

-- Every method that changes the registry but `read_block`, which takes over the ids that it reads
-- and leaves the next ones alone, keeps the dictionaries keyed by the entries' own ids, each id once
-- and below the next one to be given out.
pub Step-IsValid : {r r' : TypeRegistry} → IsValid r → Step r r' → IsValid r'
unfolding set_stream_codec add_stream_metadata set_stream_dependencies
Step-IsValid {r} h (by_signal_type encoding w radix) = add_signal_type-IsValid encoding w radix r h
Step-IsValid {r} h (by_txn_schema name fields) = add_txn_schema-IsValid name fields r h
Step-IsValid {r} h (by_enum_type name values) = add_enum_type-IsValid name values r h
Step-IsValid {r} h (by_stream_decl name kind txn codec version params) =
    add_stream_decl-IsValid name kind txn codec version params r h
Step-IsValid {r} h (by_codec i codec version params e) = change_stream-IsValid _ i r (λ d. refl) h e
Step-IsValid {r} h (by_metadata i attr e) = change_stream-IsValid _ i r (λ d. refl) h e
Step-IsValid {r} h (by_dependencies i inputs e) = change_stream-IsValid _ i r (λ d. refl) h e

change_stream-txn_schemas :
    (f : StreamDeclEntry → StreamDeclEntry) (i : ℕ) (r : TypeRegistry) {r' : TypeRegistry}
    → change_stream f i r ≡ ok r'
    → r'.txn_schemas ≡ r.txn_schemas
unfolding change_stream
change_stream-txn_schemas f i r {r'} e = elim (Option-cases (get r.stream_decls i)) [
  | inl n ↦ absurd (cc (rw (n, change_stream) at e))
  | inr (d, n) ↦ ap schemas (changed d n)
]
  where
    schemas : TypeRegistry → Dict ℕ TxnSchemaEntry
    schemas x = x.txn_schemas

    changed :
        (d : StreamDeclEntry)
        → get r.stream_decls i ≡ some d
        → r' ≡ record r { stream_decls = put r.stream_decls i (f d) }
    changed d n = cc (rw (n, change_stream) at e)

-- An id that has a schema keeps it.
pub Step-get_txn_schema :
    {r r' : TypeRegistry} (i : ℕ) {schema : TxnSchemaEntry}
    → IsValid r
    → get_txn_schema r i ≡ some schema
    → Step r r'
    → get_txn_schema r' i ≡ some schema
unfolding get_txn_schema set_stream_codec add_stream_metadata set_stream_dependencies
Step-get_txn_schema {r} i h g (by_signal_type encoding w radix) = unfold add_signal_type in g
Step-get_txn_schema {r} i h g (by_txn_schema name fields) =
    unfold add_txn_schema in get-put_ne r.txn_schemas r.next_txn_id i _ other ∙ g
  where
    other : r.next_txn_id ≢ i
    other e = omega (
      arith,
      e,
      (get-Keyed (λ (x : TxnSchemaEntry). x.txn_type_id) r.next_txn_id r.txn_schemas i
          h.txn_schemas_keyed g).0,
    )
Step-get_txn_schema {r} i h g (by_enum_type name values) = unfold add_enum_type in g
Step-get_txn_schema {r} i h g (by_stream_decl name kind txn codec version params) =
    unfold add_stream_decl in g
Step-get_txn_schema {r} i h g (by_codec j codec version params e) =
    rw (change_stream-txn_schemas _ j r e) g
Step-get_txn_schema {r} i h g (by_metadata j attr e) = rw (change_stream-txn_schemas _ j r e) g
Step-get_txn_schema {r} i h g (by_dependencies j inputs e) =
    rw (change_stream-txn_schemas _ j r e) g
