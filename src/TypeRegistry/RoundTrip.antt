-- ===== src/TypeRegistry/RoundTrip.antt =====
-- python/src/trlog/_type_registry.py: the round trip of the BLK_TYPE_REG block.
use trlog.Prelude.{
  ℕ, suc, ◌+◌, ◌<◌, ◌≡◌, refl, ap, ◌∙◌, [], ◌∷◌, ◌++◌, append_assoc, append-nil, Bool, length,
  arith, none, some, Bool-cases, ◌==◌, lt→ltb, inl, inr,
}
use trlog.Prelude.Int.{pos}
use trlog.Prelude.Dict.{Dict, get, put, nat_eq}
use trlog.Wire.{Bytes, Result, ok, bind, Result-cases, ◌+++◌, concat_map, append_byte}
use trlog.Wire.Reads.{Codes, All}
use trlog.Types.{type_reg}
use trlog.Codec.{encode_uvarint}
use trlog.Codec.Uvarint.{Codes-uvarint}
use trlog.Compression.{Compression, IsSound}
use trlog.Block.{read_one_block}
use trlog.Block.Packed.{packed_block-Unpacks}
use trlog.Floats.{Floats}
use trlog.TypeRegistry.Entries.{
  SignalTypeEntry, TxnSchemaEntry, EnumTypeEntry, IsSignalType, IsTxnSchema, IsEnumType,
  encode_signal_type, encode_txn_schema, encode_enum_type, Codes-signal_type, Codes-txn_schema,
  Codes-enum_type, IsUvarint,
}
use trlog.TypeRegistry.Stream.RoundTrip.{Codes-legacy, Codes-v2}
use trlog.TypeRegistry.Stream.{
  StreamDeclEntry, IsStreamDecl, needs_v2, encode_stream_decl, encode_stream_decl_v2,
  encode_v2_body,
}
use trlog.TypeRegistry.{
  TypeRegistry, empty, values, entry_count, encode_all, encode_payload, decode_entry,
  decode_entries, decode_payload, encode_block, read_block, store_txn_schema, store_stream_decl,
}
use trlog.TypeRegistry.Valid.{IsValid, Keyed, Keyed-front, Keyed-own}

-- Bytes that take the loop from one registry to another, in `m` rounds.
record Takes (e : Result Bytes) (m : ℕ) (r r' : TypeRegistry) : Type 0 where
  bytes : Bytes
  encoded : e ≡ ok bytes
  taken :
      (k n : ℕ) (rest : Bytes)
      → k ≡ m + n
      → decode_entries k r (bytes ++ rest) ≡ decode_entries n r' rest

Takes-nil : (r : TypeRegistry) → Takes (ok []) 0 r r
Takes-nil r = record {
  bytes = [];
  encoded = refl;
  taken = λ k n rest e. ap (λ (x : ℕ). decode_entries x r rest) (omega (arith, e));
}

Takes-append :
    {e f : Result Bytes} (m l : ℕ) {r s t : TypeRegistry}
    → Takes e m r s
    → Takes f l s t
    → Takes (e +++ f) (m + l) r t
unfolding ◌+++◌
Takes-append m l a b = record {
  bytes = a.bytes ++ b.bytes;
  encoded = rw (a.encoded, b.encoded);
  taken = λ k n rest e.
      rw append_assoc
        (a.taken k (l + n) (b.bytes ++ rest) (omega (arith, e)) ∙ b.taken (l + n) n rest refl);
}

Takes-count :
    {e : Result Bytes} {m m' : ℕ} {r r' : TypeRegistry} → m ≡ m' → Takes e m r r' → Takes e m' r r'
Takes-count q t = rw (← q) t

-- One entry behind its tag.
Takes-entry :
    {V : Type 0} {e : Result Bytes} (tag : ℕ) {p : Bytes → Result (V × Bytes)} {v : V}
    (r r' : TypeRegistry)
    → tag < 256
    → Codes e p v
    → ((buf rest : Bytes) → p buf ≡ ok (v, rest) → decode_entry tag r buf ≡ ok (some r', rest))
    → Takes (append_byte tag +++ e) 1 r r'
unfolding append_byte ◌+++◌ decode_entries
Takes-entry tag r r' small c step = record {
  bytes = tag ∷ c.bytes;
  encoded = rw (lt→ltb tag 256 small, c.encoded);
  taken = λ k n rest e. rw (one_more k n e, step (c.bytes ++ rest) rest (c.decoded rest));
}
  where
    one_more : (k n : ℕ) → k ≡ 1 + n → k ≡ suc n
    one_more k n e = omega (arith, e)

put_absent {ℓ} :
    {V : Type ℓ} (d : Dict ℕ V) (k : ℕ) (v : V) → get d k ≡ none → put d k v ≡ d ++ ((k, v) ∷ [])
unfolding get put
put_absent [] k v h = refl
put_absent ((j, w) ∷ d) k v h = elim (Bool-cases (j == k)) [
  | inl same ↦ absurd (cc (rw same at h))
  | inr other ↦ rw (other, put_absent d k v (rw other at h))
]

-- All the entries of one dictionary; `registry d` is the registry where that dictionary is `d`.
module _ {V : Type 0} (id_of : V → ℕ) (registry : Dict ℕ V → TypeRegistry)
    (encode : V → Result Bytes) (P : V → Type 0)
    (each : (d : Dict ℕ V) (v : V)
      → P v
      → get d (id_of v) ≡ none
      → Takes (encode v) 1 (registry d) (registry (put d (id_of v) v))) where
  Takes-one :
      (n : ℕ) (before : Dict ℕ V) (k : ℕ) (v : V) (d : Dict ℕ V)
      → Keyed id_of n (before ++ ((k, v) ∷ d))
      → P v
      → Takes (encode v) 1 (registry before) (registry (before ++ ((k, v) ∷ [])))
  Takes-one n before k v d h pv =
      let free = Keyed-front id_of n before k v d h in
      let own = Keyed-own id_of n before k v d h in
      let step = each before v pv (rw own free) in rw (own, put_absent before k v free) at step

  Takes-values :
      (n : ℕ) (before d : Dict ℕ V)
      → Keyed id_of n (before ++ d)
      → All P (values d)
      → Takes
          (concat_map encode (values d))
          (length (values d))
          (registry before)
          (registry (before ++ d))
  unfolding concat_map
  Takes-values n before [] h p = rw append-nil (Takes-nil (registry before))
  Takes-values n before ((k, v) ∷ d) h (pv, p) =
      let first = Takes-one n before k v d h pv in
      let rest = Takes-values n (before ++ ((k, v) ∷ [])) d (rw append_assoc h) p in
      Takes-count (omega arith) (Takes-append 1 (length (values d)) first (rw append_assoc at rest))

-- What the four encoders write is readable.
pub record IsEncodable (fl : Floats) (r : TypeRegistry) : Type 0 where
  pub signal_types_fit : All IsSignalType (values r.signal_types)
  pub txn_schemas_fit : All IsTxnSchema (values r.txn_schemas)
  pub enum_types_fit : All IsEnumType (values r.enum_types)
  pub stream_decls_fit : All (IsStreamDecl fl) (values r.stream_decls)
  pub few : IsUvarint (entry_count r)

Takes-signal_type :
    (r : TypeRegistry) (d : Dict ℕ SignalTypeEntry) (e : SignalTypeEntry)
    → IsSignalType e
    → get d e.sig_type_id ≡ none
    → Takes
        (encode_signal_type e)
        1
        (record r { signal_types = d })
        (record r { signal_types = put d e.sig_type_id e })
unfolding encode_signal_type decode_entry
Takes-signal_type r d e h free =
    Takes-entry 0x01 _ _ (omega arith) (Codes-signal_type e h) (λ buf rest q. rw q)

Takes-txn_schema :
    (r : TypeRegistry) (d : Dict ℕ TxnSchemaEntry) (e : TxnSchemaEntry)
    → IsTxnSchema e
    → get d e.txn_type_id ≡ none
    → Takes
        (encode_txn_schema e)
        1
        (record r { txn_schemas = d })
        (record r { txn_schemas = put d e.txn_type_id e })
unfolding encode_txn_schema decode_entry store_txn_schema
Takes-txn_schema r d e h free =
    Takes-entry 0x02 _ _ (omega arith) (Codes-txn_schema e h)
      (λ buf rest q. rw q (rw (free, store_txn_schema) refl))

Takes-enum_type :
    (r : TypeRegistry) (d : Dict ℕ EnumTypeEntry) (e : EnumTypeEntry)
    → IsEnumType e
    → get d e.enum_type_id ≡ none
    → Takes
        (encode_enum_type e)
        1
        (record r { enum_types = d })
        (record r { enum_types = put d e.enum_type_id e })
unfolding encode_enum_type decode_entry
Takes-enum_type r d e h free =
    Takes-entry 0x03 _ _ (omega arith) (Codes-enum_type e h) (λ buf rest q. rw q)

stream_decl_v2-tag :
    (fl : Floats) (e : StreamDeclEntry)
    → encode_stream_decl_v2 fl e
      ≡ append_byte 0x05
        +++ bind (encode_v2_body fl e) (λ body. encode_uvarint (pos (length body)) +++ ok body)
unfolding encode_stream_decl_v2 append_byte ◌+++◌
stream_decl_v2-tag fl e = elim (Result-cases (encode_v2_body fl e)) [
  | inl (body, q) ↦ rw q
  | inr (x, q) ↦ rw q
]

Takes-stream_decl :
    (fl : Floats) (r : TypeRegistry) (d : Dict ℕ StreamDeclEntry) (e : StreamDeclEntry)
    → IsStreamDecl fl e
    → get d e.stream_id ≡ none
    → Takes
        (encode_stream_decl fl e)
        1
        (record r { stream_decls = d })
        (record r { stream_decls = put d e.stream_id e })
unfolding encode_stream_decl decode_entry store_stream_decl
Takes-stream_decl fl r d e h free = elim (Bool-cases (needs_v2 e)) [
  | inl v2 ↦
      rw (v2, stream_decl_v2-tag)
        (Takes-entry 0x05 _ _ (omega arith) (Codes-v2 fl e h) (λ buf rest q. rw q))
  | inr plain ↦
      rw plain (Takes-entry 0x04 _ _ (omega arith) (Codes-legacy fl e h plain) (λ buf rest q. rw q))
]

-- The registry that a reader of the block builds: the entries, with the counters at their start.
abbrev pub read_back : TypeRegistry → TypeRegistry
read_back r = record r { next_sig_id = 1; next_txn_id = 1; next_enum_id = 1; next_stream_id = 1 }

Takes-all :
    (fl : Floats) (r : TypeRegistry)
    → IsValid r
    → IsEncodable fl r
    → Takes (encode_all fl r) (entry_count r) empty (read_back r)
unfolding empty
Takes-all fl r v h =
    let s =
      Takes-values (λ (e : SignalTypeEntry). e.sig_type_id) (λ d. record empty { signal_types = d })
        _ _ (Takes-signal_type empty) r.next_sig_id [] r.signal_types v.signal_types_keyed
        h.signal_types_fit in
    let with_s : TypeRegistry = record empty { signal_types = r.signal_types } in
    let t =
      Takes-values (λ (e : TxnSchemaEntry). e.txn_type_id) (λ d. record with_s { txn_schemas = d })
        _ _ (Takes-txn_schema with_s) r.next_txn_id [] r.txn_schemas v.txn_schemas_keyed
        h.txn_schemas_fit in
    let with_t : TypeRegistry = record with_s { txn_schemas = r.txn_schemas } in
    let u =
      Takes-values (λ (e : EnumTypeEntry). e.enum_type_id) (λ d. record with_t { enum_types = d }) _
        _ (Takes-enum_type with_t) r.next_enum_id [] r.enum_types v.enum_types_keyed
        h.enum_types_fit in
    let with_u : TypeRegistry = record with_t { enum_types = r.enum_types } in
    let w =
      Takes-values (λ (e : StreamDeclEntry). e.stream_id) (λ d. record with_u { stream_decls = d })
        _ _ (Takes-stream_decl fl with_u) r.next_stream_id [] r.stream_decls v.stream_decls_keyed
        h.stream_decls_fit in
    Takes-append _ _ s (Takes-append _ _ t (Takes-append _ _ u w))

decode-encode_payload :
    (fl : Floats) (r : TypeRegistry)
    → IsValid r
    → IsEncodable fl r
    → (payload : Bytes) × (encode_payload fl r ≡ ok payload)
      × (decode_payload payload empty ≡ ok (read_back r))
unfolding encode_payload decode_payload ◌+++◌ decode_entries
decode-encode_payload fl r v h =
    let n = Codes-uvarint h.few in (n.bytes ++ a.bytes, rw (n.encoded, a.encoded), rw n.decoded all)
  where
    a : Takes (encode_all fl r) (entry_count r) empty (read_back r)
    a = Takes-all fl r v h

    all : decode_entries (entry_count r) empty a.bytes ≡ ok (read_back r)
    all = rw append-nil at (a.taken (entry_count r) 0 [] (omega arith))

-- A registry that is valid and whose entries fit the format is written as a BLK_TYPE_REG block,
-- compressed or not, that is read back from the file, whatever follows, as the same entries under
-- the same ids.
pub read-encode_block_registry :
    (c : Compression) (fl : Floats) (compress use_zstd : Bool) (r : TypeRegistry) (rest : Bytes)
    {block : Bytes}
    → IsSound c
    → IsValid r
    → IsEncodable fl r
    → encode_block c fl compress use_zstd r ≡ ok block
    → (flags : ℕ) × (payload : Bytes) × (read_one_block (block ++ rest)
        ≡ ok (type_reg, flags, payload))
      × (read_block c flags payload empty ≡ ok (read_back r))
unfolding encode_block read_block
read-encode_block_registry c fl compress use_zstd r rest s v h e =
    let (payload, written, back) = decode-encode_payload fl r v h in
    let u = packed_block-Unpacks c compress use_zstd type_reg payload rest s (rw written at e) in
    (u.flags, u.packed, u.block_read, rw u.unpacked back)
