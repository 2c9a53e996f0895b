-- ===== src/TypeRegistry.antt =====
-- python/src/trlog/_type_registry.py: the class TypeRegistry, with its four dictionaries, and the
-- BLK_TYPE_REG block.
pub mod Entries
pub mod Stream
pub mod Valid
pub mod Method
pub mod Owned
pub mod RoundTrip
mod Tests
use trlog.Prelude.{
  ℕ, zero, suc, ◌+◌, List, [], ◌∷◌, ◌++◌, map, Option, none, some, Bool, ◌==◌, if◌then◌else◌, leb,
  length, drop,
}
use trlog.Prelude.Int.{pos}
use trlog.Prelude.Dict.{Dict, get, put, nat_eq}
use trlog.Wire.{
  Bytes, Result, ok, err, bind, ◌+++◌, concat_map, Decoder, pure, ◌>>=◌, key_error, format_error,
}
use trlog.Types.{SignalEncoding, Radix, type_reg}
use trlog.Codec.{encode_uvarint, decode_uvarint}
use trlog.Compression.{Compression, decompress_payload}
use trlog.Block.Packed.{packed_block}
use trlog.Floats.{Floats}
use trlog.Metadata.{TypedAttr}
use trlog.TypeRegistry.Entries.{
  SignalTypeEntry, TxnSchemaEntry, EnumTypeEntry, FieldDef, EnumValue, encode_signal_type,
  decode_signal_type, encode_txn_schema, decode_txn_schema, encode_enum_type, decode_enum_type,
}
use trlog.TypeRegistry.Stream.{
  StreamDeclEntry, is_empty, encode_stream_decl, decode_stream_decl, decode_stream_decl_v2,
}

pub record TypeRegistry : Type 0 where
  pub signal_types : Dict ℕ SignalTypeEntry
  pub txn_schemas : Dict ℕ TxnSchemaEntry
  pub enum_types : Dict ℕ EnumTypeEntry
  pub stream_decls : Dict ℕ StreamDeclEntry
  pub next_sig_id : ℕ
  pub next_txn_id : ℕ
  pub next_enum_id : ℕ
  pub next_stream_id : ℕ

-- `__init__`
unfoldable pub empty : TypeRegistry
empty = record {
  signal_types = [];
  txn_schemas = [];
  enum_types = [];
  stream_decls = [];
  next_sig_id = 1;
  next_txn_id = 1;
  next_enum_id = 1;
  next_stream_id = 1;
}

unfoldable pub get_signal_type : TypeRegistry → ℕ → Option SignalTypeEntry
get_signal_type r sig_type_id = get r.signal_types sig_type_id

unfoldable pub get_txn_schema : TypeRegistry → ℕ → Option TxnSchemaEntry
get_txn_schema r txn_type_id = get r.txn_schemas txn_type_id

unfoldable pub get_enum_type : TypeRegistry → ℕ → Option EnumTypeEntry
get_enum_type r enum_type_id = get r.enum_types enum_type_id

unfoldable pub get_stream_decl : TypeRegistry → ℕ → Option StreamDeclEntry
get_stream_decl r stream_id = get r.stream_decls stream_id

unfoldable pub add_signal_type : SignalEncoding → ℕ → Radix → TypeRegistry → TypeRegistry × ℕ
add_signal_type encoding bit_width display_radix r =
    let sig_id = r.next_sig_id in
    let entry : SignalTypeEntry = record {
      sig_type_id = sig_id;
      encoding = encoding;
      bit_width = bit_width;
      display_radix = display_radix;
    } in
    (record r { signal_types = put r.signal_types sig_id entry; next_sig_id = sig_id + 1 }, sig_id)

unfoldable pub add_txn_schema : ℕ → List FieldDef → TypeRegistry → TypeRegistry × ℕ
add_txn_schema name_str_id fields r =
    let txn_id = r.next_txn_id in
    let entry : TxnSchemaEntry = record {
      txn_type_id = txn_id;
      name_str_id = name_str_id;
      fields = fields;
    } in
    (record r { txn_schemas = put r.txn_schemas txn_id entry; next_txn_id = txn_id + 1 }, txn_id)

unfoldable pub add_enum_type : ℕ → List EnumValue → TypeRegistry → TypeRegistry × ℕ
add_enum_type name_str_id values r =
    let enum_id = r.next_enum_id in
    let entry : EnumTypeEntry = record {
      enum_type_id = enum_id;
      name_str_id = name_str_id;
      values = values;
    } in
    (record r { enum_types = put r.enum_types enum_id entry; next_enum_id = enum_id + 1 }, enum_id)

unfoldable pub add_stream_decl : ℕ → ℕ → ℕ → ℕ → ℕ → Bytes → TypeRegistry → TypeRegistry × ℕ
add_stream_decl name_str_id kind_str_id default_txn_type codec_id_str codec_version params r =
    let stream_id = r.next_stream_id in
    let entry : StreamDeclEntry = record {
      stream_id = stream_id;
      name_str_id = name_str_id;
      kind_str_id = kind_str_id;
      default_txn_type = default_txn_type;
      codec_id_str = codec_id_str;
      codec_version = codec_version;
      params = params;
      metadata = [];
      input_streams = [];
    } in
    (
      record r {
        stream_decls = put r.stream_decls stream_id entry;
        next_stream_id = stream_id + 1;
      },
      stream_id,
    )

-- `entry = self._stream_decls[stream_id]`, changed in place: a missing id is a KeyError.
unfoldable pub change_stream :
    (StreamDeclEntry → StreamDeclEntry) → ℕ → TypeRegistry → Result TypeRegistry
change_stream f stream_id r = elim (get r.stream_decls stream_id) [
  | none ↦ err key_error
  | some entry ↦ ok (record r { stream_decls = put r.stream_decls stream_id (f entry) })
]

unfoldable pub set_stream_codec : ℕ → ℕ → ℕ → Bytes → TypeRegistry → Result TypeRegistry
unfolding change_stream
set_stream_codec stream_id codec_id_str codec_version params =
    change_stream
      (λ e. record e {
        codec_id_str = codec_id_str;
        codec_version = codec_version;
        params = params;
      })
      stream_id

unfoldable pub add_stream_metadata : ℕ → TypedAttr → TypeRegistry → Result TypeRegistry
unfolding change_stream
add_stream_metadata stream_id attr =
    change_stream (λ e. record e { metadata = e.metadata ++ (attr ∷ []) }) stream_id

unfoldable pub set_stream_dependencies : ℕ → List ℕ → TypeRegistry → Result TypeRegistry
unfolding change_stream
set_stream_dependencies stream_id input_stream_ids =
    change_stream (λ e. record e { input_streams = input_stream_ids }) stream_id

abbrev catalog_of : Dict ℕ StreamDeclEntry → Dict ℕ (List ℕ)
catalog_of [] = []
catalog_of ((sid, d) ∷ decls) =
    if is_empty d.input_streams then catalog_of decls else (sid, d.input_streams) ∷ catalog_of decls

unfoldable pub dependency_catalog : TypeRegistry → Dict ℕ (List ℕ)
dependency_catalog r = catalog_of r.stream_decls

abbrev pub values {ℓ} : {V : Type ℓ} → Dict ℕ V → List V
values d = map (λ p. p.1) d

-- `entries`, the four lists in this order: its length, and the loop over it.
abbrev pub entry_count : TypeRegistry → ℕ
entry_count r =
    length (values r.signal_types)
    + (length (values r.txn_schemas)
        + (length (values r.enum_types) + length (values r.stream_decls)))

abbrev pub encode_all : Floats → TypeRegistry → Result Bytes
encode_all fl r =
    concat_map encode_signal_type (values r.signal_types)
    +++ concat_map encode_txn_schema (values r.txn_schemas)
    +++ concat_map encode_enum_type (values r.enum_types)
    +++ concat_map (encode_stream_decl fl) (values r.stream_decls)

unfoldable pub encode_payload : Floats → TypeRegistry → Result Bytes
encode_payload fl r = encode_uvarint (pos (entry_count r)) +++ encode_all fl r

-- A schema's id may not come twice; any other entry replaces an earlier one.
unfoldable pub store_txn_schema : TxnSchemaEntry → TypeRegistry → Result TypeRegistry
store_txn_schema e r = elim (get r.txn_schemas e.txn_type_id) [
  | none ↦ ok (record r { txn_schemas = put r.txn_schemas e.txn_type_id e })
  | some old ↦ err format_error
]

unfoldable pub store_stream_decl : StreamDeclEntry → TypeRegistry → TypeRegistry
store_stream_decl e r = record r { stream_decls = put r.stream_decls e.stream_id e }

-- One entry behind its tag; `none` where the source leaves the loop.
unfoldable pub decode_entry : ℕ → TypeRegistry → Bytes → Result (Option TypeRegistry × Bytes)
decode_entry tag r buf =
    if tag == 0x01
    then bind (decode_signal_type buf) (λ (e, rest).
      ok (some (record r { signal_types = put r.signal_types e.sig_type_id e }), rest))
    else if tag == 0x02
    then bind (decode_txn_schema buf)
        (λ (e, rest). bind (store_txn_schema e r) λ r'. ok (some r', rest))
    else if tag == 0x03
    then bind (decode_enum_type buf)
        (λ (e, rest). ok (some (record r { enum_types = put r.enum_types e.enum_type_id e }), rest))
    else if tag == 0x04
    then bind (decode_stream_decl buf) (λ (e, rest). ok (some (store_stream_decl e r), rest))
    else if tag == 0x05
    then bind (decode_stream_decl_v2 buf) (λ (e, rest). ok (some (store_stream_decl e r), rest))
    else if leb 0x05 tag
    then bind (decode_uvarint buf) (λ (entry_len, rest). ok (some r, drop entry_len rest))
    else ok (none, buf)

unfoldable pub decode_entries : ℕ → TypeRegistry → Bytes → Result TypeRegistry
decode_entries zero r buf = ok r
decode_entries (suc n) r [] = err format_error
decode_entries (suc n) r (tag ∷ buf) =
    bind (decode_entry tag r buf)
      λ (next, rest). elim next [ none ↦ ok r | some r' ↦ decode_entries n r' rest ]

unfoldable pub decode_payload : Bytes → TypeRegistry → Result TypeRegistry
decode_payload payload r =
    bind (decode_uvarint payload) λ (count, rest). decode_entries count r rest

unfoldable pub encode_block : Compression → Floats → Bool → Bool → TypeRegistry → Result Bytes
encode_block c fl compress use_zstd r =
    bind (encode_payload fl r) λ payload. packed_block c compress use_zstd type_reg payload

unfoldable pub read_block : Compression → ℕ → Bytes → TypeRegistry → Result TypeRegistry
read_block c flags payload r = bind (decompress_payload c flags payload) λ raw. decode_payload raw r
