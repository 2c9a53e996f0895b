-- ===== src/TypeRegistry/Owned.antt =====
-- python/src/trlog/_type_registry.py: the dictionaries hold each entry under its own id, also those
-- that a block was read into.
use trlog.Prelude.{ℕ, ◌+◌, ◌≡◌, refl, ◌∙◌, some, none, Option-cases, inl, inr, arith}
use trlog.Prelude.Dict.{Dict, get, put, nat_eq}
use trlog.Wire.{ok}
use trlog.Compression.{Compression}
use trlog.TypeRegistry.Entries.{SignalTypeEntry, TxnSchemaEntry, EnumTypeEntry}
use trlog.TypeRegistry.Stream.{StreamDeclEntry}
use trlog.TypeRegistry.{
  TypeRegistry, store_txn_schema, store_stream_decl, add_signal_type, add_txn_schema, add_enum_type,
  add_stream_decl, change_stream, set_stream_codec, add_stream_metadata, set_stream_dependencies,
}
use trlog.TypeRegistry.Valid.{
  Keyed, put-Keyed, Keyed-mono, get-Keyed, Step, by_signal_type, by_txn_schema, by_enum_type,
  by_stream_decl, by_codec, by_metadata, by_dependencies,
}
use trlog.TypeRegistry.Method.{Method, builds, reads, read_block-kept}

module _ {ℓ} {V : Type ℓ} (id_of : V → ℕ) where
  -- Each key is the id of its entry and comes once.
  abbrev pub Owned : Dict ℕ V → Type ℓ
  Owned d = (n : ℕ) × Keyed id_of n d

  put-Owned : (d : Dict ℕ V) (k : ℕ) (v : V) → Owned d → id_of v ≡ k → Owned (put d k v)
  put-Owned d k v (n, h) e = (
    n + (k + 1),
    put-Keyed id_of (n + (k + 1)) d k v (Keyed-mono id_of n (n + (k + 1)) d h (omega arith))
        (omega arith) e,
  )

pub record IsOwned (r : TypeRegistry) : Type 0 where
  pub signal_types_owned : Owned (λ (e : SignalTypeEntry). e.sig_type_id) r.signal_types
  pub txn_schemas_owned : Owned (λ (e : TxnSchemaEntry). e.txn_type_id) r.txn_schemas
  pub enum_types_owned : Owned (λ (e : EnumTypeEntry). e.enum_type_id) r.enum_types
  pub stream_decls_owned : Owned (λ (e : StreamDeclEntry). e.stream_id) r.stream_decls

store_txn_schema-IsOwned :
    (r r' : TypeRegistry) (e : TxnSchemaEntry)
    → IsOwned r
    → store_txn_schema e r ≡ ok r'
    → IsOwned r'
unfolding store_txn_schema
store_txn_schema-IsOwned r r' e h s = elim (Option-cases (get r.txn_schemas e.txn_type_id)) [
  | inr (old, q) ↦ absurd (cc (rw (store_txn_schema, q) at s))
  | inl q ↦ rw (← stored q) (record {
    signal_types_owned = h.signal_types_owned;
    txn_schemas_owned = put-Owned _ r.txn_schemas e.txn_type_id e h.txn_schemas_owned refl;
    enum_types_owned = h.enum_types_owned;
    stream_decls_owned = h.stream_decls_owned;
  })
]
  where
    stored :
        get r.txn_schemas e.txn_type_id ≡ none
        → record r { txn_schemas = put r.txn_schemas e.txn_type_id e } ≡ r'
    stored q = cc (rw (store_txn_schema, q) at s)

change_stream-IsOwned :
    (f : StreamDeclEntry → StreamDeclEntry) (i : ℕ) (r : TypeRegistry) {r' : TypeRegistry}
    → ((e : StreamDeclEntry) → (f e).stream_id ≡ e.stream_id)
    → IsOwned r
    → change_stream f i r ≡ ok r'
    → IsOwned r'
unfolding change_stream
change_stream-IsOwned f i r {r'} same h e = elim (Option-cases (get r.stream_decls i)) [
  | inl n ↦ absurd (cc (rw (n, change_stream) at e))
  | inr (d, n) ↦ rw (← changed d n) (record {
    signal_types_owned = h.signal_types_owned;
    txn_schemas_owned = h.txn_schemas_owned;
    enum_types_owned = h.enum_types_owned;
    stream_decls_owned = put-Owned _ r.stream_decls i (f d) h.stream_decls_owned (same d ∙ its d n);
  })
]
  where
    changed :
        (d : StreamDeclEntry)
        → get r.stream_decls i ≡ some d
        → record r { stream_decls = put r.stream_decls i (f d) } ≡ r'
    changed d n = cc (rw (n, change_stream) at e)

    its : (d : StreamDeclEntry) → get r.stream_decls i ≡ some d → d.stream_id ≡ i
    its d n =
        (get-Keyed (λ (x : StreamDeclEntry). x.stream_id) h.stream_decls_owned.0 r.stream_decls i
          h.stream_decls_owned.1 n).1

Step-IsOwned : {r r' : TypeRegistry} → IsOwned r → Step r r' → IsOwned r'
unfolding set_stream_codec add_stream_metadata set_stream_dependencies
Step-IsOwned {r} h (by_signal_type encoding w radix) =
    unfold add_signal_type in
    record {
      signal_types_owned = put-Owned _ r.signal_types r.next_sig_id _ h.signal_types_owned refl;
      txn_schemas_owned = h.txn_schemas_owned;
      enum_types_owned = h.enum_types_owned;
      stream_decls_owned = h.stream_decls_owned;
    }
Step-IsOwned {r} h (by_txn_schema name fields) =
    unfold add_txn_schema in
    record {
      signal_types_owned = h.signal_types_owned;
      txn_schemas_owned = put-Owned _ r.txn_schemas r.next_txn_id _ h.txn_schemas_owned refl;
      enum_types_owned = h.enum_types_owned;
      stream_decls_owned = h.stream_decls_owned;
    }
Step-IsOwned {r} h (by_enum_type name values) =
    unfold add_enum_type in
    record {
      signal_types_owned = h.signal_types_owned;
      txn_schemas_owned = h.txn_schemas_owned;
      enum_types_owned = put-Owned _ r.enum_types r.next_enum_id _ h.enum_types_owned refl;
      stream_decls_owned = h.stream_decls_owned;
    }
Step-IsOwned {r} h (by_stream_decl name kind txn codec version params) =
    unfold add_stream_decl in
    record {
      signal_types_owned = h.signal_types_owned;
      txn_schemas_owned = h.txn_schemas_owned;
      enum_types_owned = h.enum_types_owned;
      stream_decls_owned = put-Owned _ r.stream_decls r.next_stream_id _ h.stream_decls_owned refl;
    }
Step-IsOwned {r} h (by_codec i codec version params e) = change_stream-IsOwned _ i r (λ d. refl) h e
Step-IsOwned {r} h (by_metadata i attr e) = change_stream-IsOwned _ i r (λ d. refl) h e
Step-IsOwned {r} h (by_dependencies i inputs e) = change_stream-IsOwned _ i r (λ d. refl) h e

-- Every method that changes the registry, the reading of a block included, keeps the dictionaries
-- keyed by the entries' own ids, each id once.
pub Method-IsOwned :
    {c : Compression} {r r' : TypeRegistry} → IsOwned r → Method c r r' → IsOwned r'
Method-IsOwned h (builds s) = Step-IsOwned h s
Method-IsOwned {c} {r} h (reads flags payload e) =
    read_block-kept IsOwned
      (λ x y p. record {
        signal_types_owned = put-Owned _ x.signal_types y.sig_type_id y p.signal_types_owned refl;
        txn_schemas_owned = p.txn_schemas_owned;
        enum_types_owned = p.enum_types_owned;
        stream_decls_owned = p.stream_decls_owned;
      })
      store_txn_schema-IsOwned
      (λ x y p. record {
        signal_types_owned = p.signal_types_owned;
        txn_schemas_owned = p.txn_schemas_owned;
        enum_types_owned = put-Owned _ x.enum_types y.enum_type_id y p.enum_types_owned refl;
        stream_decls_owned = p.stream_decls_owned;
      })
      (λ x y p.
        unfold store_stream_decl in
        record {
          signal_types_owned = p.signal_types_owned;
          txn_schemas_owned = p.txn_schemas_owned;
          enum_types_owned = p.enum_types_owned;
          stream_decls_owned = put-Owned _ x.stream_decls y.stream_id y p.stream_decls_owned refl;
        })
      c flags payload r h e
