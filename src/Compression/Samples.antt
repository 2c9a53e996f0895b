-- ===== src/Compression/Samples.antt =====
-- A compressor that frames the bytes with a marker, and the interpreter's float conversions cut to
-- zero: concrete functions for the tests of the modules that take these as parameters.
use trlog.Prelude.{ℕ, [], ◌∷◌, ◌≡◌, refl, some}
use trlog.Wire.{Bytes, Result, ok, err, value_error}
use trlog.Compression.{Zip, Compression, IsSound, IsLossless}
use trlog.Floats.{Floats}
use trlog.Prelude.Int.{pos}

abbrev pub unmark : Bytes → Result Bytes
unmark [] = err value_error
unmark (b ∷ bs) = ok bs

abbrev pub marking : ℕ → Zip
marking marker = record { compress = λ bs. marker ∷ bs; decompress = unmark }

abbrev pub marked : Compression
marked = record { zlib = marking 0x78; zstd = some (marking 0x28) }

marking-IsLossless : (marker : ℕ) → IsLossless (marking marker)
marking-IsLossless marker bs = refl

pub marked-IsSound : IsSound marked
marked-IsSound = record {
  zlib_lossless = marking-IsLossless 0x78;
  zstd_lossless = λ z e. lossless z e;
}
  where
    same : (z : Zip) → marked.zstd ≡ some z → marking 0x28 ≡ z
    same z e = cc e

    lossless : (z : Zip) → marked.zstd ≡ some z → IsLossless z
    lossless z e bs = rw (← same z e) refl

abbrev pub zero_floats : Floats
zero_floats = record { from_int = λ n. ok 0; truncate = λ x. ok (pos 0) }
