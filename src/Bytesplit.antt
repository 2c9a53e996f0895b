-- ===== src/Bytesplit.antt =====
-- python/src/trlog/_bytesplit.py: bytes scattered into planes, and the value-change blocks of
-- core.bytesplit. A time, an id and a width are ℕ; a change that is emitted is a triple.
pub mod Stream
mod Tests
use trlog.Prelude.{
  ℕ, zero, suc, ◌+◌, ◌*◌, ◌/◌, ◌%◌, ◌^◌, max, List, [], ◌∷◌, ◌++◌, length, take, drop, get_or, set,
  replicate, Option, none, some, Bool, true, false, ◌==◌, ltb, leb, if◌then◌else◌, ◌&&◌, not,
  bit_or,
}
use trlog.Prelude.Int.{ℤ, pos, negsuc, ◌-ℤ◌}
use trlog.Prelude.Dict.{Dict, get, put, nat_eq}
use trlog.Wire.{
  Bytes, Result, ok, err, bind, Decoder, ◌>>=◌, ◌>>◌, pure, lift, read_byte, read_slice, repeat,
  concat, ◌+++◌, pack, from_le, append_byte, value_error, key_error, struct_error, overflow_error,
}
use trlog.Types.{SignalEncoding, two_state, four_state, nine_state, real, string, bitvec, analog}
use trlog.Types.{vc_data}
use trlog.Codec.{uvarint, encode_uvarint, decode_uvarint}
use trlog.Compression.{Zip, has_flag}
use trlog.Block.{make_block}
use trlog.Floats.{Floats}
use trlog.Metadata.{Scalar, int, float, to_int, to_float}

-- `for i in range(n): out[dst] = raw[src]`, with the steps of both indices. No index is out of
-- range where the length is a multiple of the width.
unfoldable pub copy_plane : ℕ → Bytes → ℕ × ℕ → ℕ × ℕ → Bytes → Bytes
copy_plane zero raw (dst, dst_step) (src, src_step) out = out
copy_plane (suc n) raw (dst, dst_step) (src, src_step) out =
    copy_plane n raw (dst + dst_step, dst_step) (src + src_step, src_step)
      (set out dst (get_or raw src 0))

-- `for plane in range(width)`, the planes from `plane` on
unfoldable pub split_planes : ℕ → ℕ → ℕ → ℕ → Bytes → Bytes → Bytes
split_planes zero plane width n raw out = out
split_planes (suc planes) plane width n raw out =
    split_planes planes (suc plane) width n raw (copy_plane n raw (plane * n, 1) (plane, width) out)

unfoldable pub byte_split : Bytes → ℕ → Result Bytes
byte_split raw width =
    if leb width 1
    then ok raw
    else if not (length raw % width == 0)
    then err value_error
    else ok (split_planes width 0 width (length raw / width) raw (replicate (length raw) 0))

unfoldable pub unsplit_planes : ℕ → ℕ → ℕ → ℕ → Bytes → Bytes → Bytes
unsplit_planes zero plane width n data' out = out
unsplit_planes (suc planes) plane width n data' out =
    unsplit_planes planes (suc plane) width n data'
      (copy_plane n data' (plane, width) (plane * n, 1) out)

unfoldable pub byte_unsplit : Bytes → ℕ → Result Bytes
byte_unsplit data' width =
    if leb width 1
    then ok data'
    else if not (length data' % width == 0)
    then err value_error
    else ok (unsplit_planes width 0 width (length data' / width) data' (replicate (length data') 0))

abbrev kind_uint : ℕ
kind_uint = 0

abbrev kind_real : ℕ
kind_real = 1

-- The kind of the values of a signal type and their width in bytes.
unfoldable pub value_width : SignalEncoding → ℕ → Result (ℕ × ℕ)
value_width real bit_width = ok (kind_real, 8)
value_width two_state bit_width = ok (kind_uint, (max 1 bit_width + 7) / 8)
value_width four_state bit_width = err value_error
value_width nine_state bit_width = err value_error
value_width string bit_width = err value_error
value_width bitvec bit_width = err value_error
value_width analog bit_width = err value_error

-- `int.to_bytes(width, 'little')`
unfoldable pub to_bytes_little : ℕ → ℤ → Result Bytes
to_bytes_little width (negsuc n) = err overflow_error
to_bytes_little width (pos n) = if ltb n (256 ^ width) then pack width n else err overflow_error

unfoldable pub encode_value : Floats → ℕ → ℕ → Scalar → Result Bytes
encode_value fl kind width value =
    if kind == kind_real
    then bind (to_float fl value) (pack 8)
    else bind (to_int fl value) (to_bytes_little width)

-- `struct.unpack` wants the eight bytes of a double exactly.
unfoldable pub decode_value : ℕ → ℕ → Bytes → Result Scalar
decode_value kind width raw =
    if kind == kind_real
    then (if length raw == 8 then ok (float (from_le raw)) else err struct_error)
    else ok (int (pos (from_le raw)))

abbrev pub flag_zlib : ℕ
flag_zlib = 0x01

abbrev pub flag_struct_codec : ℕ
flag_struct_codec = 0x80

pub record BytesplitBlock : Type 0 where
  pub start_time : ℕ
  pub end_time : ℕ
  pub sig_types : Dict ℕ (SignalEncoding × ℕ)
  pub compress : Bool
  pub changes : Dict ℕ (List (ℕ × Scalar))

unfoldable pub bytesplit_block : ℕ → Dict ℕ (SignalEncoding × ℕ) → Bool → BytesplitBlock
bytesplit_block start_time sig_types compress = record {
  start_time = start_time;
  end_time = start_time;
  sig_types = sig_types;
  compress = compress;
  changes = [];
}

-- `self._changes.setdefault(var_id, [])`
abbrev or_empty : Option (List (ℕ × Scalar)) → List (ℕ × Scalar)
or_empty none = []
or_empty (some cs) = cs

abbrev changes_of : BytesplitBlock → ℕ → List (ℕ × Scalar)
changes_of b var_id = or_empty (get b.changes var_id)

abbrev with_changes : BytesplitBlock → ℕ → ℕ → List (ℕ × Scalar) → BytesplitBlock
with_changes b end_time var_id cs = record {
  start_time = b.start_time;
  end_time = end_time;
  sig_types = b.sig_types;
  compress = b.compress;
  changes = put b.changes var_id cs;
}

unfoldable pub add_change : ℕ → ℕ → Scalar → BytesplitBlock → BytesplitBlock
add_change var_id time value b =
    with_changes b (if ltb b.end_time time then time else b.end_time) var_id
      (changes_of b var_id ++ ((time, value) ∷ []))

unfoldable pub set_initial : ℕ → Scalar → BytesplitBlock → BytesplitBlock
set_initial var_id value b =
    with_changes b b.end_time var_id ((b.start_time, value) ∷ changes_of b var_id)
