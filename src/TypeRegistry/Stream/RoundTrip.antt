-- ===== src/TypeRegistry/Stream/RoundTrip.antt =====
-- python/src/trlog/_type_registry.py: the round trips of stream declarations in both layouts.
use trlog.Prelude.{
  ℕ, ◌+◌, ◌-◌, ◌<◌, ◌≤◌, ◌≡◌, refl, List, [], ◌∷◌, ◌++◌, append_assoc, true, false, length,
  length-append, arith,
}
use trlog.Prelude.Int.{pos}
use trlog.Wire.{Bytes, Result, ok, err, bind, ◌+++◌, Decoder, pure, ◌>>=◌, truncated_uvarint}
use trlog.Wire.Reads.{Codes, Codes-bind, Codes-pure, Codes-repeat, All, take_front, drop_front}
use trlog.Codec.{encode_uvarint, decode_uvarint, decode_uvarint_loop}
use trlog.Codec.Uvarint.{Codes-uvarint}
use trlog.Floats.{Floats}
use trlog.Metadata.{encode_typed_attr_list, decode_typed_attr_list}
use trlog.Metadata.RoundTrip.{Codes-typed_attr_list}
use trlog.TypeRegistry.Entries.{IsUvarint}
use trlog.TypeRegistry.Stream.{
  StreamDeclEntry, is_empty, has_codec, needs_v2, encode_legacy_body, decode_stream_decl,
  encode_stream_numbers, decode_stream_numbers, encode_dependencies, decode_dependencies,
  encode_v2_body, before_end, decode_v2_lists, decode_v2_body, decode_stream_decl_v2, IsStreamDecl,
}

is_empty-nil {ℓ} : {A : Type ℓ} (xs : List A) → is_empty xs ≡ true → xs ≡ []
is_empty-nil [] h = refl
is_empty-nil (x ∷ xs) h = absurd (ground arith)

-- What the fixed layout does not write has its default.
plain_fields :
    (e : StreamDeclEntry)
    → needs_v2 e ≡ false
    → (e.codec_id_str ≡ 0) × (e.metadata ≡ []) × (e.input_streams ≡ [])
unfolding needs_v2 has_codec
plain_fields e n = (
  ground (arith, n),
  is_empty-nil e.metadata (ground (arith, n)),
  is_empty-nil e.input_streams (ground (arith, n)),
)

plain-eq :
    (fl : Floats) (e : StreamDeclEntry)
    → IsStreamDecl fl e
    → needs_v2 e ≡ false
    → record e {
      codec_id_str = 0;
      codec_version = 0;
      params = [];
      metadata = [];
      input_streams = [];
    }
      ≡ e
plain-eq fl e h n =
    let (no_codec, no_metadata, no_deps) = plain_fields e n in
    let (no_version, no_params) = h.plain n in
    cc (no_codec, no_metadata, no_deps, no_version, no_params)

pub Codes-legacy :
    (fl : Floats) (e : StreamDeclEntry)
    → IsStreamDecl fl e
    → needs_v2 e ≡ false
    → Codes (encode_legacy_body e) decode_stream_decl e
unfolding encode_legacy_body decode_stream_decl
Codes-legacy fl e h n = Codes-bind _ (Codes-uvarint h.id_fits) (
    Codes-bind _ (Codes-uvarint h.name_fits) (
      Codes-bind _ (Codes-uvarint h.kind_fits)
        (Codes-bind _ (Codes-uvarint h.txn_fits) (ap_codes (plain-eq fl e h n)))))
  where
    ap_codes : {x : StreamDeclEntry} → x ≡ e → Codes (ok []) (pure x) e
    ap_codes p = rw p (Codes-pure e)

Codes-stream_numbers :
    (fl : Floats) (e : StreamDeclEntry)
    → IsStreamDecl fl e
    → Codes (encode_stream_numbers e) decode_stream_numbers (
      e.stream_id,
      e.name_str_id,
      e.kind_str_id,
      e.default_txn_type,
      e.codec_id_str,
      e.codec_version,
      length e.params,
    )
unfolding encode_stream_numbers decode_stream_numbers
Codes-stream_numbers fl e h = Codes-bind _ (Codes-uvarint h.id_fits) (
    Codes-bind _ (Codes-uvarint h.name_fits) (
      Codes-bind _ (Codes-uvarint h.kind_fits) (
        Codes-bind _ (Codes-uvarint h.txn_fits) (
          Codes-bind _ (Codes-uvarint h.codec_fits) (
            Codes-bind _ (Codes-uvarint h.version_fits)
              (Codes-bind _ (Codes-uvarint h.params_fit) (Codes-pure _)))))))

Codes-dependencies :
    (deps : List ℕ)
    → All IsUvarint deps
    → IsUvarint (length deps)
    → Codes (encode_dependencies deps) decode_dependencies deps
unfolding encode_dependencies decode_dependencies
Codes-dependencies deps h few =
    Codes-bind _ (Codes-uvarint few)
      (Codes-repeat IsUvarint _ _ (λ dep fits. Codes-uvarint fits) deps h)

-- What a decoder refuses on no bytes is encoded by one byte at least.
reads_some_byte {ℓ} :
    {A : Type ℓ} (p : Decoder A) {a : A} (bs : Bytes)
    → p (bs ++ []) ≡ ok (a, [])
    → p [] ≡ err truncated_uvarint
    → 1 ≤ length bs
reads_some_byte p [] e h = absurd (cc (e, h))
reads_some_byte p (b ∷ bs) e h = omega arith

some_byte {ℓ} :
    {A : Type ℓ} {p : Decoder A} {r : Result Bytes} {a : A} (c : Codes r p a)
    → p [] ≡ err truncated_uvarint
    → 1 ≤ length c.bytes
some_byte {p = p} c h = reads_some_byte p c.bytes (c.decoded []) h

-- A list before the entry's end is read.
before_end-Reads {ℓ} :
    {A : Type ℓ} {r : Result Bytes} {p : Decoder (List A)} {xs : List A} (c : Codes r p xs)
    → (offset body_end : ℕ) (rest : Bytes) → offset < body_end
    → before_end offset body_end p (c.bytes ++ rest) ≡ ok (xs, rest)
unfolding before_end
before_end-Reads c offset body_end rest h = ground (arith, c.decoded rest)

refused_attributes : decode_typed_attr_list [] ≡ err truncated_uvarint
unfolding decode_typed_attr_list ◌>>=◌ decode_uvarint decode_uvarint_loop
refused_attributes = refl

refused_dependencies : decode_dependencies [] ≡ err truncated_uvarint
unfolding decode_dependencies ◌>>=◌ decode_uvarint decode_uvarint_loop
refused_dependencies = refl

module _ (fl : Floats) (e : StreamDeclEntry) (h : IsStreamDecl fl e) where
  abbrev numbers : Codes (encode_stream_numbers e) decode_stream_numbers (
    e.stream_id,
    e.name_str_id,
    e.kind_str_id,
    e.default_txn_type,
    e.codec_id_str,
    e.codec_version,
    length e.params,
  )
  numbers = Codes-stream_numbers fl e h

  abbrev attributes : Codes (encode_typed_attr_list fl e.metadata) decode_typed_attr_list e.metadata
  attributes = Codes-typed_attr_list fl e.metadata h.attrs h.few_attrs

  abbrev dependencies :
      Codes (encode_dependencies e.input_streams) decode_dependencies e.input_streams
  dependencies = Codes-dependencies e.input_streams h.deps h.few_deps

  abbrev v2_body : Bytes
  v2_body = numbers.bytes ++ (e.params ++ (attributes.bytes ++ dependencies.bytes))

  encode-v2_body : encode_v2_body fl e ≡ ok v2_body
  unfolding encode_v2_body ◌+++◌
  encode-v2_body = rw (numbers.encoded, attributes.encoded, dependencies.encoded)

  offset_of : (xs ys : Bytes) → length (xs ++ ys) - length ys ≡ length xs
  offset_of xs ys = omega (arith, length-append xs ys)

  room :
      length v2_body
      ≡ length numbers.bytes + length e.params + length attributes.bytes + length dependencies.bytes
  room = omega (
    arith,
    length-append numbers.bytes (e.params ++ (attributes.bytes ++ dependencies.bytes)),
    length-append e.params (attributes.bytes ++ dependencies.bytes),
    length-append attributes.bytes dependencies.bytes,
  )

  attributes-Reads :
      (rest : Bytes)
      → before_end
          (length numbers.bytes + length e.params)
          (length v2_body)
          decode_typed_attr_list
          (attributes.bytes ++ rest)
        ≡ ok (e.metadata, rest)
  attributes-Reads rest =
      before_end-Reads attributes (length numbers.bytes + length e.params) (length v2_body) rest
        (omega (arith, room, some_byte attributes refused_attributes))

  dependencies-Reads :
      (rest : Bytes)
      → before_end
          (length numbers.bytes + length e.params + length attributes.bytes)
          (length v2_body)
          decode_dependencies
          (dependencies.bytes ++ rest)
        ≡ ok (e.input_streams, rest)
  dependencies-Reads rest =
      before_end-Reads dependencies
        (length numbers.bytes + length e.params + length attributes.bytes) (length v2_body) rest
        (omega (arith, room, some_byte dependencies refused_dependencies))

  decode-v2_lists :
      (rest : Bytes)
      → decode_v2_lists
          (length numbers.bytes)
          (length v2_body)
          (
            e.stream_id,
            e.name_str_id,
            e.kind_str_id,
            e.default_txn_type,
            e.codec_id_str,
            e.codec_version,
            length e.params,
          )
          (e.params ++ (attributes.bytes ++ (dependencies.bytes ++ rest)))
        ≡ ok (e, rest)
  unfolding decode_v2_lists
  decode-v2_lists rest =
      rw drop_front
        (rw attributes-Reads (rw offset_of (rw dependencies-Reads (rw take_front refl))))

  decode-v2_body : (rest : Bytes) → decode_v2_body (length v2_body) (v2_body ++ rest) ≡ ok (e, rest)
  unfolding decode_v2_body
  decode-v2_body rest = rw (drop_front v2_body rest) (
      rw append_assoc
        (rw numbers.decoded (rw offset_of (rw (append_assoc, append_assoc, decode-v2_lists) refl))))

  -- The length-prefixed layout, behind its tag.
  pub Codes-v2 :
      Codes
        (bind (encode_v2_body fl e) λ body. encode_uvarint (pos (length body)) +++ ok body)
        decode_stream_decl_v2
        e
  unfolding decode_stream_decl_v2
  Codes-v2 = rw encode-v2_body (
      Codes-bind _ (Codes-uvarint (h.body_fits v2_body encode-v2_body))
        (record { bytes = v2_body; encoded = refl; decoded = decode-v2_body }))
