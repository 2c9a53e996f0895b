-- ===== src/TypeRegistry/Stream.antt =====
-- python/src/trlog/_type_registry.py: stream declarations, in the fixed layout and in the
-- length-prefixed one, with the dataclass of _types.py.
pub mod RoundTrip
use trlog.Prelude.{
  ℕ, ◌+◌, ◌-◌, ◌<◌, ◌≤◌, ◌≡◌, refl, List, [], ◌∷◌, ◌++◌, append_assoc, Bool, true, false, not, ◌||◌,
  ◌==◌, if◌then◌else◌, ltb, length, length-append, take, drop, arith,
}
use trlog.Prelude.Int.{pos}
use trlog.Wire.{
  Bytes, Result, ok, err, bind, ◌+++◌, concat, concat_map, Decoder, pure, ◌>>=◌, repeat,
  append_byte, truncated_uvarint,
}
use trlog.Wire.Reads.{Codes, Codes-bind, Codes-pure, Codes-repeat, All, take_front, drop_front}
use trlog.Codec.{encode_uvarint, decode_uvarint, decode_uvarint_loop}
use trlog.Codec.Uvarint.{Codes-uvarint}
use trlog.Floats.{Floats}
use trlog.Metadata.{TypedAttr, encode_typed_attr_list, decode_typed_attr_list}
use trlog.Metadata.RoundTrip.{IsTypedAttr, Codes-typed_attr_list}
use trlog.TypeRegistry.Entries.{IsUvarint}

pub record StreamDeclEntry : Type 0 where
  pub stream_id : ℕ
  pub name_str_id : ℕ
  pub kind_str_id : ℕ
  pub default_txn_type : ℕ
  pub codec_id_str : ℕ
  pub codec_version : ℕ
  pub params : Bytes
  pub metadata : List TypedAttr
  pub input_streams : List ℕ

abbrev pub is_empty {ℓ} : {A : Type ℓ} → List A → Bool
is_empty xs = length xs == 0

unfoldable pub has_codec : StreamDeclEntry → Bool
has_codec e = not (e.codec_id_str == 0)

unfoldable pub needs_v2 : StreamDeclEntry → Bool
unfolding has_codec
needs_v2 e = has_codec e || not (is_empty e.metadata) || not (is_empty e.input_streams)

unfoldable pub encode_legacy_body : StreamDeclEntry → Result Bytes
encode_legacy_body e = concat (
    encode_uvarint (pos e.stream_id)
    ∷ encode_uvarint (pos e.name_str_id)
    ∷ encode_uvarint (pos e.kind_str_id)
    ∷ encode_uvarint (pos e.default_txn_type)
    ∷ [])

unfoldable pub decode_stream_decl : Decoder StreamDeclEntry
decode_stream_decl = do
  stream_id ← decode_uvarint
  name_str_id ← decode_uvarint
  kind_str_id ← decode_uvarint
  default_txn_type ← decode_uvarint
  pure (record {
    stream_id = stream_id;
    name_str_id = name_str_id;
    kind_str_id = kind_str_id;
    default_txn_type = default_txn_type;
    codec_id_str = 0;
    codec_version = 0;
    params = [];
    metadata = [];
    input_streams = [];
  })

-- The numbers before `params`, the last of them its length.
unfoldable pub encode_stream_numbers : StreamDeclEntry → Result Bytes
encode_stream_numbers e = concat (
    encode_uvarint (pos e.stream_id)
    ∷ encode_uvarint (pos e.name_str_id)
    ∷ encode_uvarint (pos e.kind_str_id)
    ∷ encode_uvarint (pos e.default_txn_type)
    ∷ encode_uvarint (pos e.codec_id_str)
    ∷ encode_uvarint (pos e.codec_version)
    ∷ encode_uvarint (pos (length e.params))
    ∷ [])

abbrev pub Numbers : Type 0
Numbers = ℕ × ℕ × ℕ × ℕ × ℕ × ℕ × ℕ

unfoldable pub decode_stream_numbers : Decoder Numbers
decode_stream_numbers = do
  stream_id ← decode_uvarint
  name_str_id ← decode_uvarint
  kind_str_id ← decode_uvarint
  default_txn_type ← decode_uvarint
  codec_id_str ← decode_uvarint
  codec_version ← decode_uvarint
  param_len ← decode_uvarint
  pure (
    stream_id, name_str_id, kind_str_id, default_txn_type, codec_id_str, codec_version, param_len,
  )

unfoldable pub encode_dependencies : List ℕ → Result Bytes
encode_dependencies deps =
    encode_uvarint (pos (length deps)) +++ concat_map (λ dep. encode_uvarint (pos dep)) deps

unfoldable pub decode_dependencies : Decoder (List ℕ)
decode_dependencies = do dep_count ← decode_uvarint; repeat dep_count decode_uvarint

unfoldable pub encode_v2_body : Floats → StreamDeclEntry → Result Bytes
unfolding encode_stream_numbers encode_dependencies
encode_v2_body fl e =
    encode_stream_numbers e
    +++ ok e.params
    +++ encode_typed_attr_list fl e.metadata
    +++ encode_dependencies e.input_streams

unfoldable pub encode_stream_decl_v2 : Floats → StreamDeclEntry → Result Bytes
unfolding encode_v2_body
encode_stream_decl_v2 fl e =
    bind (encode_v2_body fl e)
      λ body. append_byte 0x05 +++ encode_uvarint (pos (length body)) +++ ok body

unfoldable pub encode_stream_decl : Floats → StreamDeclEntry → Result Bytes
unfolding needs_v2 encode_legacy_body encode_stream_decl_v2
encode_stream_decl fl e =
    if needs_v2 e then encode_stream_decl_v2 fl e else append_byte 0x04 +++ encode_legacy_body e

-- `if offset < end: xs, offset = p(buf, offset)`, with `xs = []` before it. The offsets count from
-- the body's first byte.
unfoldable pub before_end {ℓ} : {A : Type ℓ} → ℕ → ℕ → Decoder (List A) → Decoder (List A)
before_end offset body_end p buf = if ltb offset body_end then p buf else ok ([], buf)

-- What follows the numbers, at the offset `offset`.
unfoldable pub decode_v2_lists : ℕ → ℕ → Numbers → Bytes → Result (StreamDeclEntry × Bytes)
decode_v2_lists offset body_len (i, name, kind, txn, codec, version, param_len) b =
    let c = drop param_len b in
    bind (before_end (offset + param_len) body_len decode_typed_attr_list c) λ (metadata, d).
      bind (before_end (offset + param_len + (length c - length d)) body_len decode_dependencies d)
        λ (deps, more). ok (
          record {
            stream_id = i;
            name_str_id = name;
            kind_str_id = kind;
            default_txn_type = txn;
            codec_id_str = codec;
            codec_version = version;
            params = take param_len b;
            metadata = metadata;
            input_streams = deps;
          },
          more,
        )

-- The entry ends where its length says, wherever its last field ended.
unfoldable pub decode_v2_body : ℕ → Bytes → Result (StreamDeclEntry × Bytes)
decode_v2_body body_len body = bind (decode_stream_numbers body) λ (numbers, b).
    bind (decode_v2_lists (length body - length b) body_len numbers b)
      λ (e, _). ok (e, drop body_len body)

unfoldable pub decode_stream_decl_v2 : Decoder StreamDeclEntry
unfolding decode_v2_body
decode_stream_decl_v2 = do body_len ← decode_uvarint; decode_v2_body body_len

pub record IsStreamDecl (fl : Floats) (e : StreamDeclEntry) : Type 0 where
  pub id_fits : IsUvarint e.stream_id
  pub name_fits : IsUvarint e.name_str_id
  pub kind_fits : IsUvarint e.kind_str_id
  pub txn_fits : IsUvarint e.default_txn_type
  pub codec_fits : IsUvarint e.codec_id_str
  pub version_fits : IsUvarint e.codec_version
  pub params_fit : IsUvarint (length e.params)
  pub attrs : All IsTypedAttr e.metadata
  pub few_attrs : IsUvarint (length e.metadata)
  pub deps : All IsUvarint e.input_streams
  pub few_deps : IsUvarint (length e.input_streams)
  pub body_fits : (body : Bytes) → encode_v2_body fl e ≡ ok body → IsUvarint (length body)
  -- the fixed layout has no place for these
  pub plain : needs_v2 e ≡ false → (e.codec_version ≡ 0) × (e.params ≡ [])
