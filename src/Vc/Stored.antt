-- ===== src/Vc/Stored.antt =====
-- python/src/trlog/_vc_data.py: a wave as it is stored, compressed where that is shorter, and the
-- table of the waves, in which equal ones are stored once. lz4 and md5 are no code of the repository.
pub mod RoundTrip
pub mod Distinct
pub mod Place
use trlog.Prelude.{
  ℕ, ◌+◌, List, [], ◌∷◌, ◌++◌, length, Bool, ◌==◌, ◌||◌, ltb, if◌then◌else◌, Option, none, some,
}
use trlog.Prelude.Dict.{Dict, get, put, list_eq}
use trlog.Prelude.Int.{pos}
use trlog.Wire.{
  Bytes, Result, ok, err, bind, ◌+++◌, Decoder, read_byte, read_slice, ◌>>=◌, lift, import_error,
  format_error,
}
use trlog.Types.{SignalEncoding}
use trlog.Codec.{encode_uvarint, decode_uvarint}
use trlog.Compression.{Compression}
use trlog.Vc.{Sample, Interp}
use trlog.Vc.Wave.{decode_raw}

-- `lz4.block`, which is told the size of what it decompresses.
pub record Lz4 : Type 0 where
  pub compress : Bytes → Bytes
  pub decompress : Bytes → ℕ → Result Bytes

-- `lz4` is `none` where its import raises ImportError; `md5` is the hexdigest.
pub record Tools : Type 0 where
  pub compression : Compression
  pub lz4 : Option Lz4
  pub md5 : Bytes → List ℕ
  pub interp : Interp

-- The argument compress_waves_alg: any other than "zlib" stands for lz4.
pub data WaveAlg : Type 0 where
  by_zlib by_lz4 : WaveAlg

abbrev shorter : Bytes → Bytes → Result Bytes
shorter raw compressed =
    if ltb (length compressed + 2) (length raw)
    then ok (0x01 ∷ [])
      +++ encode_uvarint (pos (length raw))
      +++ encode_uvarint (pos (length compressed))
      +++ ok compressed
    else ok (0x00 ∷ raw)

unfoldable pub compress_wave_entry : Tools → WaveAlg → Bytes → Result Bytes
compress_wave_entry k by_zlib raw = shorter raw (k.compression.zlib.compress raw)
compress_wave_entry k by_lz4 raw = elim k.lz4 [
  | none ↦ ok (0x00 ∷ raw)
  | some z ↦ shorter raw (z.compress raw)
]

-- The bytes of the wave where they are stored.
abbrev expand : Tools → Bool → ℕ → Bytes → Result Bytes
expand k wave_zlib orig_size compressed =
    if wave_zlib
    then k.compression.zlib.decompress compressed
    else elim k.lz4 [ none ↦ err import_error | some z ↦ z.decompress compressed orig_size ]

abbrev sized : ℕ → Bytes → Result Bytes
sized orig_size raw = if length raw == orig_size then ok raw else err format_error

-- What stands behind the flag byte.
unfoldable pub unpack_wave : Tools → Bool → ℕ → Decoder Bytes
unpack_wave k wave_zlib flag buf =
    if flag == 0x01
    then (do
      orig_size ← decode_uvarint
      compressed_len ← decode_uvarint
      compressed ← read_slice compressed_len
      lift (bind (expand k wave_zlib orig_size compressed) (sized orig_size)))
        buf
    else ok (buf, [])

abbrev only_changes : Result (List (ℕ × Sample) × Bytes) → Result (List (ℕ × Sample))
only_changes r = bind r λ (changes, rest). ok changes

-- The changes of the wave at the front of the bytes.
unfoldable pub decode_wave :
    Tools → SignalEncoding → ℕ → Bool → Bool → Bool → Bytes → Result (List (ℕ × Sample))
unfolding unpack_wave
decode_wave k enc bit_width wave_lz4 wave_xor_delta wave_zlib buf =
    if wave_lz4 || wave_zlib
    then bind (read_byte buf) (λ (flag, behind).
      bind (unpack_wave k wave_zlib flag behind)
        (λ (raw, rest). only_changes (decode_raw wave_xor_delta enc bit_width raw)))
    else only_changes (decode_raw wave_xor_delta enc bit_width buf)

abbrev pub stored_entry : Tools → Option WaveAlg → Bytes → Result Bytes
stored_entry k alg raw = elim alg [ none ↦ ok raw | some a ↦ compress_wave_entry k a raw ]

-- The positions of the waves, and the bytes of all: `offsets` has the hashes of those stored so far.
unfoldable pub place_waves :
    Tools → Option WaveAlg → List Bytes → Dict (List ℕ) ℕ → Bytes → Result (List ℕ × Bytes)
unfolding compress_wave_entry
place_waves k alg [] offsets wave_data = ok ([], wave_data)
place_waves k alg ([] ∷ raws) offsets wave_data =
    bind (place_waves k alg raws offsets wave_data) λ (positions, whole). ok (0 ∷ positions, whole)
place_waves k alg ((b ∷ bs) ∷ raws) offsets wave_data =
    let h = k.md5 (b ∷ bs) in
    let again : ℕ → Result (List ℕ × Bytes) = λ offset.
      bind (place_waves k alg raws offsets wave_data)
        λ (positions, whole). ok (offset ∷ positions, whole) in
    let anew : Bytes → Result (List ℕ × Bytes) = λ stored.
      bind (place_waves k alg raws (put offsets h (length wave_data)) (wave_data ++ stored))
        λ (positions, whole). ok (length wave_data ∷ positions, whole) in
    elim (get offsets h) [
      | some offset ↦ again offset
      | none ↦ bind (stored_entry k alg (b ∷ bs)) anew
    ]
