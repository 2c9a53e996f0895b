-- ===== src/TypeRegistry/Tests.antt =====
-- Runs of the type registry at concrete inputs.
use trlog.Prelude.{
  ℕ, ◌+◌, ◌<◌, ◌≤◌, ◌^◌, ◌≡◌, refl, List, [], ◌∷◌, ◌++◌, arith, true, false, length, some, none,
}
use trlog.Prelude.Int.{pos, negsuc}
use trlog.Wire.{Bytes, ok}
use trlog.Types.{type_reg, four_state, hex, dec, u32}
use trlog.Compression.Samples.{marked, marked-IsSound, zero_floats}
use trlog.Block.{read_one_block}
use trlog.TypeRegistry.Entries.{SignalTypeEntry, TxnSchemaEntry, EnumTypeEntry, IsUvarint}
use trlog.TypeRegistry.Stream.{StreamDeclEntry, IsStreamDecl, encode_v2_body}
use trlog.TypeRegistry.{
  TypeRegistry, empty, add_txn_schema, get_txn_schema, encode_block, read_block,
}
use trlog.TypeRegistry.Valid.{IsValid, by_txn_schema, Step-IsValid}
use trlog.TypeRegistry.Method.{reads, Method-get_txn_schema}
use trlog.TypeRegistry.Owned.{IsOwned, Method-IsOwned}
use trlog.TypeRegistry.RoundTrip.{IsEncodable, read_back, read-encode_block_registry}

abbrev a_schema : TxnSchemaEntry
a_schema = record {
  txn_type_id = 1;
  name_str_id = 5;
  fields = record { name_str_id = 6; field_type = u32; display_hint = dec; enum_type_id = 0 } ∷ [];
}

-- a stream with a codec and an input, and a plain one
abbrev coded : StreamDeclEntry
coded = record {
  stream_id = 1;
  name_str_id = 10;
  kind_str_id = 0;
  default_txn_type = 1;
  codec_id_str = 11;
  codec_version = 2;
  params = 255 ∷ [];
  metadata = [];
  input_streams = 4 ∷ [];
}

abbrev plain : StreamDeclEntry
plain = record {
  stream_id = 2;
  name_str_id = 12;
  kind_str_id = 0;
  default_txn_type = 1;
  codec_id_str = 0;
  codec_version = 0;
  params = [];
  metadata = [];
  input_streams = [];
}

abbrev small : TypeRegistry
small = record {
  signal_types =
      (1, record { sig_type_id = 1; encoding = four_state; bit_width = 8; display_radix = hex })
      ∷ [];
  txn_schemas = (1, a_schema) ∷ [];
  enum_types =
      (
        1,
        record {
          enum_type_id = 1;
          name_str_id = 7;
          values =
              record { integer_value = pos 0; label_str_id = 8 }
              ∷ record { integer_value = negsuc 1; label_str_id = 9 }
              ∷ [];
        },
      )
      ∷ [];
  stream_decls = (1, coded) ∷ (2, plain) ∷ [];
  next_sig_id = 2;
  next_txn_id = 2;
  next_enum_id = 2;
  next_stream_id = 3;
}

small-IsValid : IsValid small
unfolding trlog.Prelude.Dict.get
small-IsValid = record {
  signal_types_keyed = (omega arith, refl, refl, tt);
  txn_schemas_keyed = (omega arith, refl, refl, tt);
  enum_types_keyed = (omega arith, refl, refl, tt);
  stream_decls_keyed = (omega arith, refl, refl, (omega arith, refl, refl, tt));
}

Step-IsValid_example : IsValid (add_txn_schema 3 [] small).0
Step-IsValid_example = Step-IsValid small-IsValid (by_txn_schema 3 [])

get_small : get_txn_schema small 1 ≡ some a_schema
unfolding get_txn_schema trlog.Prelude.Dict.get
get_small = refl

-- A block with one more schema, as it is read into the registry.
abbrev other_schema : TxnSchemaEntry
other_schema = record { txn_type_id = 7; name_str_id = 5; fields = [] }

abbrev larger : TypeRegistry
larger = record small { txn_schemas = (1, a_schema) ∷ (7, other_schema) ∷ [] }

read_larger : read_block marked 0 (1 ∷ 2 ∷ 7 ∷ 5 ∷ 0 ∷ []) small ≡ ok larger
unfolding read_block trlog.Compression.decompress_payload trlog.TypeRegistry.decode_payload
    trlog.TypeRegistry.decode_entries trlog.TypeRegistry.decode_entry
    trlog.TypeRegistry.Entries.decode_txn_schema trlog.TypeRegistry.store_txn_schema
    trlog.Codec.decode_uvarint trlog.Codec.decode_uvarint_loop trlog.Wire.repeat
    trlog.Prelude.Dict.get trlog.Prelude.Dict.put trlog.Wire.◌>>=◌ trlog.Wire.pure
read_larger = refl

Method-get_txn_schema_example : get_txn_schema larger 1 ≡ some a_schema
Method-get_txn_schema_example =
    Method-get_txn_schema 1 small-IsValid get_small (reads 0 (1 ∷ 2 ∷ 7 ∷ 5 ∷ 0 ∷ []) read_larger)

small-IsOwned : IsOwned small
small-IsOwned = record {
  signal_types_owned = (2, small-IsValid.signal_types_keyed);
  txn_schemas_owned = (2, small-IsValid.txn_schemas_keyed);
  enum_types_owned = (2, small-IsValid.enum_types_keyed);
  stream_decls_owned = (3, small-IsValid.stream_decls_keyed);
}

Method-IsOwned_example : IsOwned larger
Method-IsOwned_example = Method-IsOwned small-IsOwned (reads 0 (1 ∷ 2 ∷ 7 ∷ 5 ∷ 0 ∷ []) read_larger)

-- The block that was read leaves the next id at 1, so a schema that is added then replaces the one
-- that was read.
replaced :
    get_txn_schema (add_txn_schema 9 [] (record empty { txn_schemas = (1, a_schema) ∷ [] })).0 1
    ≡ some (record { txn_type_id = 1; name_str_id = 9; fields = [] })
unfolding get_txn_schema add_txn_schema empty trlog.Prelude.Dict.get trlog.Prelude.Dict.put
replaced = refl

coded_body :
    encode_v2_body zero_floats coded ≡ ok (1 ∷ 10 ∷ 0 ∷ 1 ∷ 11 ∷ 2 ∷ 1 ∷ 255 ∷ 0 ∷ 1 ∷ 4 ∷ [])
unfolding encode_v2_body trlog.TypeRegistry.Stream.encode_stream_numbers
    trlog.TypeRegistry.Stream.encode_dependencies trlog.Metadata.encode_typed_attr_list
    trlog.Wire.◌+++◌ trlog.Wire.concat_map trlog.Codec.encode_uvarint trlog.Codec.uvarint
    trlog.Codec.uvarint_loop
coded_body = refl

plain_body : encode_v2_body zero_floats plain ≡ ok (2 ∷ 12 ∷ 0 ∷ 1 ∷ 0 ∷ 0 ∷ 0 ∷ 0 ∷ 0 ∷ [])
unfolding encode_v2_body trlog.TypeRegistry.Stream.encode_stream_numbers
    trlog.TypeRegistry.Stream.encode_dependencies trlog.Metadata.encode_typed_attr_list
    trlog.Wire.◌+++◌ trlog.Wire.concat_map trlog.Codec.encode_uvarint trlog.Codec.uvarint
    trlog.Codec.uvarint_loop
plain_body = refl

ok-eq : (xs ys : Bytes) → ok xs ≡ ok ys → xs ≡ ys
ok-eq xs ys e = cc e

coded-IsStreamDecl : IsStreamDecl zero_floats coded
unfolding trlog.TypeRegistry.Stream.needs_v2 trlog.TypeRegistry.Stream.has_codec
coded-IsStreamDecl = record {
  id_fits = omega arith;
  name_fits = omega arith;
  kind_fits = omega arith;
  txn_fits = omega arith;
  codec_fits = omega arith;
  version_fits = omega arith;
  params_fit = omega arith;
  attrs = tt;
  few_attrs = omega arith;
  deps = (omega arith, tt);
  few_deps = omega arith;
  body_fits = λ body e. rw (← ok-eq _ body (rw coded_body at e)) (omega arith);
  plain = λ e. absurd (cc e);
}

plain-IsStreamDecl : IsStreamDecl zero_floats plain
plain-IsStreamDecl = record {
  id_fits = omega arith;
  name_fits = omega arith;
  kind_fits = omega arith;
  txn_fits = omega arith;
  codec_fits = omega arith;
  version_fits = omega arith;
  params_fit = omega arith;
  attrs = tt;
  few_attrs = omega arith;
  deps = tt;
  few_deps = omega arith;
  body_fits = λ body e. rw (← ok-eq _ body (rw plain_body at e)) (omega arith);
  plain = λ e. (refl, refl);
}

small-IsEncodable : IsEncodable zero_floats small
small-IsEncodable = record {
  signal_types_fit = (record { id_fits = omega arith; width_fits = omega arith }, tt);
  txn_schemas_fit = (
    record {
      id_fits = omega arith;
      name_fits = omega arith;
      fields_fit = (record { name_fits = omega arith; enum_fits = omega arith }, tt);
      few = omega arith;
    },
    tt,
  );
  enum_types_fit = (
    record {
      id_fits = omega arith;
      name_fits = omega arith;
      values_fit = (
        record { value_fits = omega arith; label_fits = omega arith },
        (record { value_fits = omega arith; label_fits = omega arith }, tt),
      );
      few = omega arith;
    },
    tt,
  );
  stream_decls_fit = (coded-IsStreamDecl, (plain-IsStreamDecl, tt));
  few = omega arith;
}

abbrev small_block : Bytes
small_block =
    2 ∷ 1 ∷ 51 ∷ 0 ∷ 0 ∷ 0 ∷ 0 ∷ 0 ∷ 0 ∷ 0 ∷ 120 ∷ 5 ∷ 1 ∷ 1 ∷ 1 ∷ 8 ∷ 0 ∷ 2 ∷ 1 ∷ 5 ∷ 1 ∷ 6 ∷ 2 ∷ 1
    ∷ 0 ∷ 3 ∷ 1 ∷ 7 ∷ 2 ∷ 0 ∷ 8 ∷ 3 ∷ 9 ∷ 5 ∷ 11 ∷ 1 ∷ 10 ∷ 0 ∷ 1 ∷ 11 ∷ 2 ∷ 1 ∷ 255 ∷ 0 ∷ 1 ∷ 4 ∷ 4
    ∷ 2 ∷ 12 ∷ 0 ∷ 1 ∷ []

encode-small_block : encode_block marked zero_floats true false small ≡ ok small_block
unfolding encode_block trlog.TypeRegistry.encode_payload
    trlog.TypeRegistry.Entries.encode_signal_type trlog.TypeRegistry.Entries.encode_txn_schema
    trlog.TypeRegistry.Entries.encode_enum_type trlog.TypeRegistry.Stream.encode_stream_decl
    trlog.TypeRegistry.Stream.needs_v2 trlog.TypeRegistry.Stream.encode_legacy_body
    trlog.TypeRegistry.Stream.encode_stream_decl_v2 trlog.TypeRegistry.Stream.encode_v2_body
    trlog.TypeRegistry.Stream.encode_stream_numbers trlog.TypeRegistry.Stream.encode_dependencies
    trlog.TypeRegistry.Entries.encode_signal_type_body
    trlog.TypeRegistry.Entries.encode_txn_schema_body trlog.TypeRegistry.Entries.encode_field_def
    trlog.TypeRegistry.Entries.encode_enum_type_body trlog.TypeRegistry.Entries.encode_enum_value
    trlog.Codec.encode_svarint trlog.Prelude.Int.Bits.◌&ℤ◌ trlog.Prelude.Int.Bits.◌^ℤ◌
    trlog.Prelude.Int.Bits.◌<<◌ trlog.Prelude.Int.Bits.◌>>ℤ◌ trlog.Metadata.encode_typed_attr_list
    trlog.Wire.◌+++◌ trlog.Wire.concat_map trlog.Wire.append_byte trlog.Wire.pack
    trlog.Wire.le_bytes trlog.Codec.encode_uvarint trlog.Codec.uvarint trlog.Codec.uvarint_loop
    trlog.Block.Packed.packed_block trlog.Block.make_block trlog.Compression.compress_payload
    trlog.Types.block_type_code trlog.Types.signal_encoding_code trlog.Types.radix_code
    trlog.Types.field_type_code
encode-small_block = refl

read-encode_block_registry_example :
    (flags : ℕ) × (payload : Bytes) × (read_one_block (small_block ++ (7 ∷ []))
      ≡ ok (type_reg, flags, payload))
    × (read_block marked flags payload empty ≡ ok (read_back small))
read-encode_block_registry_example =
    read-encode_block_registry marked zero_floats true false small (7 ∷ []) marked-IsSound
      small-IsValid small-IsEncodable encode-small_block
