-- ===== src/Bytesplit/Stream.antt =====
-- The bytes of a value-change block of python/src/trlog/_bytesplit.py, and the changes that they
-- are read back as.
use trlog.Prelude.{
  ℕ, zero, suc, ◌+◌, ◌*◌, List, [], ◌∷◌, ◌++◌, length, take, drop, Bool, ◌==◌, if◌then◌else◌, ◌&&◌,
  not, Option, none, some,
}
use trlog.Prelude.Int.{pos, ◌-ℤ◌}
use trlog.Prelude.Dict.{Dict, get, nat_eq, sorted}
use trlog.Wire.{
  Bytes, Result, ok, err, bind, Decoder, ◌>>=◌, pure, lift, read_byte, read_slice, key_error,
}
use trlog.Types.{SignalEncoding, vc_data}
use trlog.Codec.{uvarint, encode_uvarint, decode_uvarint}
use trlog.Compression.{Zip, has_flag}
use trlog.Block.{make_block}
use trlog.Floats.{Floats}
use trlog.Metadata.{Scalar}
use trlog.Bytesplit.{
  BytesplitBlock, byte_split, byte_unsplit, value_width, encode_value, decode_value, flag_zlib,
  flag_struct_codec,
}

-- The time deltas and the values of the changes of one variable.
unfoldable pub encode_changes : Floats → ℕ → ℕ → ℕ → List (ℕ × Scalar) → Result (Bytes × Bytes)
encode_changes fl kind width prev [] = ok ([], [])
encode_changes fl kind width prev ((t, v) ∷ cs) = bind (encode_uvarint (pos t -ℤ pos prev)) λ delta.
    bind (encode_value fl kind width v) λ value.
      bind (encode_changes fl kind width t cs) λ (deltas, raw). ok (delta ++ deltas, value ++ raw)

abbrev or_key_error : Option (SignalEncoding × ℕ) → Result (SignalEncoding × ℕ)
or_key_error none = err key_error
or_key_error (some t) = ok t

unfoldable pub encode_var :
    Floats → Dict ℕ (SignalEncoding × ℕ) → ℕ → List (ℕ × Scalar) → Result Bytes
unfolding encode_changes
encode_var fl sig_types var_id cs = bind (or_key_error (get sig_types var_id)) λ (enc, bw).
    bind (value_width enc bw) λ (kind, width).
      bind (encode_changes fl kind width 0 cs) λ (deltas, raw).
        bind (byte_split raw width) λ planes. ok (
          uvarint var_id ++ (kind ∷ []) ++ uvarint width ++ uvarint (length cs) ++ deltas ++ planes)

unfoldable pub encode_vars :
    Floats → Dict ℕ (SignalEncoding × ℕ) → List (ℕ × List (ℕ × Scalar)) → Result Bytes
unfolding encode_var
encode_vars fl sig_types [] = ok []
encode_vars fl sig_types ((var_id, cs) ∷ vars) =
    bind (encode_var fl sig_types var_id cs)
      λ out. bind (encode_vars fl sig_types vars) λ behind. ok (out ++ behind)

-- The internal flags and the body, compressed as asked.
unfoldable pub packed_body : Zip → Bool → Bytes → ℕ × Bytes
packed_body zlib compress body =
    if compress && not (length body == 0) then (flag_zlib, zlib.compress body) else (0, body)

unfoldable pub encode_block : Zip → Floats → ℕ → BytesplitBlock → Result Bytes
unfolding sorted encode_vars packed_body
encode_block zlib fl codec_id_str b = bind (encode_vars fl b.sig_types (sorted b.changes)) λ vars.
    let body = uvarint b.start_time ++ uvarint (length b.changes) ++ vars in
    let (internal_flags, packed) = packed_body zlib b.compress body in
    make_block vc_data flag_struct_codec (uvarint codec_id_str ++ uvarint internal_flags ++ packed)

-- The times that the deltas lead to.
unfoldable pub decode_times : ℕ → ℕ → Decoder (List ℕ)
decode_times zero prev = pure []
decode_times (suc count) prev = do
  d ← decode_uvarint
  ts ← decode_times count (prev + d)
  pure ((prev + d) ∷ ts)

-- The changes of one variable from the bytes of its values.
unfoldable pub decode_values : ℕ → ℕ → ℕ → List ℕ → Bytes → Result (List (ℕ × ℕ × Scalar))
decode_values var_id kind width [] raw = ok []
decode_values var_id kind width (t ∷ ts) raw =
    bind (decode_value kind width (take width raw))
      λ v. bind (decode_values var_id kind width ts (drop width raw)) λ cs. ok ((var_id, t, v) ∷ cs)

unfoldable pub decode_var : Decoder (List (ℕ × ℕ × Scalar))
unfolding decode_times decode_values
decode_var = do
  var_id ← decode_uvarint
  kind ← read_byte
  width ← decode_uvarint
  count ← decode_uvarint
  times ← decode_times count 0
  split ← read_slice (count * width)
  raw ← lift (byte_unsplit split width)
  lift (decode_values var_id kind width times raw)

unfoldable pub decode_vars : ℕ → Decoder (List (ℕ × ℕ × Scalar))
unfolding decode_var
decode_vars zero = pure []
decode_vars (suc n) = do cs ← decode_var; ds ← decode_vars n; pure (cs ++ ds)

unfoldable pub decode_body : Decoder (List (ℕ × ℕ × Scalar))
unfolding decode_vars
decode_body = do start_time ← decode_uvarint; n_vars ← decode_uvarint; decode_vars n_vars

-- What is emitted, in order, from the payload of a block.
unfoldable pub decode_changes : Zip → Bytes → Result (List (ℕ × ℕ × Scalar))
unfolding decode_body
decode_changes zlib payload = bind (decode_uvarint payload) λ (codec_id_str, at_flags).
    bind (decode_uvarint at_flags) λ (internal_flags, packed).
      bind (if has_flag internal_flags flag_zlib then zlib.decompress packed else ok packed)
        λ body. bind (decode_body body) λ (cs, rest). ok cs
