-- ===== src/Vc/Stored/RoundTrip.antt =====
-- python/src/trlog/_vc_data.py: a wave is found where the table of the waves says, and read back from
-- how it is stored.
use trlog.Prelude.{
  ℕ, ◌+◌, ◌^◌, ◌<◌, ◌≡◌, refl, sym, ap, ◌∙◌, List, [], ◌∷◌, ◌++◌, append_assoc, append-nil, length,
  drop, Bool, true, false, ltb, Bool-cases, Option, none, some, Option-cases, inl, inr, arith,
}
use trlog.Prelude.Dict.{list_eq}
use trlog.Prelude.Int.{pos}
use trlog.Wire.{Bytes, ok, ◌+++◌, read_byte}
use trlog.Wire.Reads.{Codes, Codes-bind, Codes-lift, Codes-slice, Reads, drop_front}
use trlog.Types.{SignalEncoding}
use trlog.Codec.{encode_uvarint}
use trlog.Codec.Uvarint.{Codes-uvarint}
use trlog.Compression.{IsSound}
use trlog.Vc.{Sample}
use trlog.Vc.Wave.{decode_raw}
use trlog.Vc.Stored.{
  Lz4, Tools, WaveAlg, by_zlib, by_lz4, shorter, compress_wave_entry, expand, sized, unpack_wave,
  decode_wave, stored_entry,
}

-- What lz4 compressed, it decompresses to as many bytes as there were.
pub record IsSoundTools (k : Tools) : Type 0 where
  pub compression_sound : IsSound k.compression
  pub lz4_lossless :
      (z : Lz4) → k.lz4 ≡ some z → (bs : Bytes) → z.decompress (z.compress bs) (length bs) ≡ ok bs

abbrev pub uses_lz4 : Option WaveAlg → Bool
uses_lz4 (some by_lz4) = true
uses_lz4 alg = false

abbrev pub uses_zlib : Option WaveAlg → Bool
uses_zlib (some by_zlib) = true
uses_zlib alg = false

sized-ok : (bs : Bytes) → sized (length bs) bs ≡ ok bs
sized-ok bs = ground arith

module _ (k : Tools) (s : IsSoundTools k) where
  -- The flag byte and what stands behind it give the wave's bytes, and perhaps others behind them.
  record Unpacks (wave_zlib : Bool) (stored raw : Bytes) : Type 0 where
    pub flag : ℕ
    pub behind : Bytes
    pub stored_as : stored ≡ flag ∷ behind
    pub unpacked :
        (rest : Bytes)
        → (more : Bytes) × (left : Bytes) × (unpack_wave k wave_zlib flag (behind ++ rest)
            ≡ ok (raw ++ more, left))

  Unpacks-plain : (wave_zlib : Bool) (raw : Bytes) → Unpacks wave_zlib (0x00 ∷ raw) raw
  unfolding unpack_wave
  Unpacks-plain wave_zlib raw = record {
    flag = 0;
    behind = raw;
    stored_as = refl;
    unpacked = λ rest. (rest, [], refl);
  }

  Codes-packed :
      (wave_zlib : Bool) (raw compressed : Bytes)
      → expand k wave_zlib (length raw) compressed ≡ ok raw
      → length raw < 2 ^ 70
      → length compressed < 2 ^ 70
      → Codes
          (encode_uvarint (pos (length raw))
            +++ encode_uvarint (pos (length compressed))
            +++ ok compressed)
          (unpack_wave k wave_zlib 0x01)
          raw
  unfolding unpack_wave
  Codes-packed wave_zlib raw compressed e hr hc = Codes-bind _ (Codes-uvarint hr) (
      Codes-bind _ (Codes-uvarint hc) (Codes-lift _ (rw e (sized-ok raw)) (Codes-slice compressed)))

  Unpacks-packed :
      (wave_zlib : Bool) (raw compressed : Bytes) {stored : Bytes}
      → expand k wave_zlib (length raw) compressed ≡ ok raw
      → length raw < 2 ^ 70
      → length compressed < 2 ^ 70
      → ok (0x01 ∷ [])
          +++ encode_uvarint (pos (length raw))
          +++ encode_uvarint (pos (length compressed))
          +++ ok compressed
        ≡ ok stored
      → Unpacks wave_zlib stored raw
  unfolding ◌+++◌
  Unpacks-packed wave_zlib raw compressed {stored} e hr hc h =
      let c = Codes-packed wave_zlib raw compressed e hr hc in
      let whole : 0x01 ∷ c.bytes ≡ stored = cc (rw c.encoded at h) in
      record {
        flag = 1;
        behind = c.bytes;
        stored_as = sym whole;
        unpacked = λ rest. ([], rest, rw (append-nil raw) (c.decoded rest));
      }

  Unpacks-shorter :
      (wave_zlib : Bool) (raw compressed : Bytes) {stored : Bytes}
      → expand k wave_zlib (length raw) compressed ≡ ok raw
      → length raw < 2 ^ 70
      → shorter raw compressed ≡ ok stored
      → Unpacks wave_zlib stored raw
  Unpacks-shorter wave_zlib raw compressed {stored} e hr h =
      elim (Bool-cases (ltb (length compressed + 2) (length raw))) [
        | inl q ↦ Unpacks-packed wave_zlib raw compressed e hr (ground (arith, q, hr)) (rw q at h)
        | inr q ↦ plain (rw q at h)
      ]
    where
      plain : ok (0x00 ∷ raw) ≡ ok stored → Unpacks wave_zlib stored raw
      plain h' = let same : 0x00 ∷ raw ≡ stored = cc h' in rw same at (Unpacks-plain wave_zlib raw)

  abbrev is_zlib : WaveAlg → Bool
  is_zlib by_zlib = true
  is_zlib by_lz4 = false

  Unpacks-entry :
      (alg : WaveAlg) (raw : Bytes) {stored : Bytes}
      → length raw < 2 ^ 70
      → compress_wave_entry k alg raw ≡ ok stored
      → Unpacks (is_zlib alg) stored raw
  unfolding compress_wave_entry
  Unpacks-entry by_zlib raw hr h =
      Unpacks-shorter true raw (k.compression.zlib.compress raw)
        (s.compression_sound.zlib_lossless raw) hr h
  Unpacks-entry by_lz4 raw {stored} hr h = elim (Option-cases k.lz4) [
    | inl e ↦ plain (rw e at h)
    | inr (z, e) ↦
        Unpacks-shorter false raw (z.compress raw) (rw e (s.lz4_lossless z e raw)) hr (rw e at h)
  ]
    where
      plain : ok (0x00 ∷ raw) ≡ ok stored → Unpacks false stored raw
      plain h' = let same : 0x00 ∷ raw ≡ stored = cc h' in rw same at (Unpacks-plain false raw)

  decode_wave-Unpacks :
      (alg : WaveAlg) (enc : SignalEncoding) (bit_width : ℕ) (raw : Bytes) {stored : Bytes}
      (cs : List (ℕ × Sample)) (rest : Bytes)
      → Reads (decode_raw true enc bit_width) raw cs
      → Unpacks (is_zlib alg) stored raw
      → decode_wave k enc bit_width
          (uses_lz4 (some alg))
          true
          (uses_zlib (some alg))
          (stored ++ rest)
        ≡ ok cs
  unfolding decode_wave read_byte
  decode_wave-Unpacks by_zlib enc bit_width raw cs rest r u =
      let (more, left, e) = u.unpacked rest in rw (u.stored_as, e, r more) refl
  decode_wave-Unpacks by_lz4 enc bit_width raw cs rest r u =
      let (more, left, e) = u.unpacked rest in rw (u.stored_as, e, r more) refl

  decode_wave-stored :
      (alg : Option WaveAlg) (enc : SignalEncoding) (bit_width : ℕ) (raw : Bytes) {stored : Bytes}
      (cs : List (ℕ × Sample)) (rest : Bytes)
      → Reads (decode_raw true enc bit_width) raw cs
      → length raw < 2 ^ 70
      → stored_entry k alg raw ≡ ok stored
      → decode_wave k enc bit_width (uses_lz4 alg) true (uses_zlib alg) (stored ++ rest) ≡ ok cs
  unfolding decode_wave
  decode_wave-stored none enc bit_width raw {stored} cs rest r hr h =
      let same : raw ≡ stored = cc h in rw (← same, r rest) refl
  decode_wave-stored (some alg) enc bit_width raw cs rest r hr h =
      decode_wave-Unpacks alg enc bit_width raw cs rest r (Unpacks-entry alg raw hr h)

  -- A wave stands at a position of the bytes of all.
  pub record Located (alg : Option WaveAlg) (raw : Bytes) (position : ℕ) (whole : Bytes)
      : Type 0 where
    pub front : Bytes
    pub stored : Bytes
    pub rest : Bytes
    pub entry : stored_entry k alg raw ≡ ok stored
    pub split : whole ≡ front ++ (stored ++ rest)
    pub there : length front ≡ position

  pub Located-append :
      (alg : Option WaveAlg) (raw : Bytes) (position : ℕ) (whole more : Bytes)
      → Located alg raw position whole
      → Located alg raw position (whole ++ more)
  Located-append alg raw position whole more l = record {
    front = l.front;
    stored = l.stored;
    rest = l.rest ++ more;
    entry = l.entry;
    split = rw l.split (
        append_assoc l.front (l.stored ++ l.rest) more
        ∙ ap (λ (bs : Bytes). l.front ++ bs) (append_assoc l.stored l.rest more));
    there = l.there;
  }

  pub Located-drop :
      (alg : Option WaveAlg) (raw : Bytes) (position : ℕ) (whole : Bytes) (enc : SignalEncoding)
      (bit_width : ℕ) (cs : List (ℕ × Sample))
      → Located alg raw position whole
      → length raw < 2 ^ 70
      → Reads (decode_raw true enc bit_width) raw cs
      → decode_wave k enc bit_width (uses_lz4 alg) true (uses_zlib alg) (drop position whole)
        ≡ ok cs
  Located-drop alg raw position whole enc bit_width cs l hr r =
      rw (l.split, ← l.there, drop_front l.front (l.stored ++ l.rest))
        (decode_wave-stored alg enc bit_width raw cs l.rest r hr l.entry)
