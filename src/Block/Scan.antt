-- ===== src/Block/Scan.antt =====
-- `_iter_raw_blocks` of python/src/trlog/_reader.py, and what it finds in a file of whole blocks.
use trlog.Prelude.{
  ℕ, zero, suc, ◌+◌, ◌-◌, ◌^◌, ◌<◌, ◌≤◌, ◌≡◌, refl, List, [], ◌∷◌, ◌++◌, ltb, leb, if◌then◌else◌,
  length, take, drop, Bool, Option, none, some, arith,
}
use trlog.Wire.{pack}
use trlog.Wire.Reads.{pack-fits, +++-eq-ok}
use trlog.Wire.Reads.{unpack-le_bytes, pack-le_bytes, length-le_bytes, take_front, drop_front, All}
use trlog.Wire.{◌+++◌, le_bytes, ◌>>=◌, pure}
use trlog.Prelude.{append-nil, append_assoc, length-append, true, false, lt→ltb}
use trlog.Prelude.{inl, inr, ◌∙◌, ap}
use trlog.Wire.{Result-cases}
use trlog.Wire.{Bytes, Result, ok, err}
use trlog.Types.{BlockType, block_type_code, to_block_type}
use trlog.Block.{
  RawBlock, block_header_size, make_block, unpack_header, read_one_block, read_payload,
}
use trlog.Types.Codes.{to_block_type-code, block_type_code-lt}

-- What one round of the loop finds at the start of `file`: the block with its payload's length, or
-- the end (a short header, or a length below the header's).
unfoldable pub next_header : Bytes → Option (ℕ × ℕ × ℕ × Bytes)
unfolding unpack_header
next_header file = if ltb (length file) block_header_size then none else elim (unpack_header file) [
  | err e ↦ none
  | ok ((block_type_byte, flags, block_length), rest) ↦
      if leb block_header_size block_length
      then some (block_type_byte, flags, block_length - block_header_size, rest)
      else none
]

-- The rest of the round, with what the later rounds yield: a block of unknown type is passed over,
-- and a payload that the file cuts short ends the loop.
unfoldable pub yield_block :
    (BlockType → Bool) → ℕ → ℕ → ℕ → ℕ → Bytes → List RawBlock → List RawBlock
yield_block skip offset byte flags payload_length rest next = elim (to_block_type byte) [
  | err e ↦ next
  | ok block_type ↦
      if skip block_type
      then record { block_type = block_type; flags = flags; payload = none; file_offset = offset }
        ∷ next
      else if ltb (length rest) payload_length
      then []
      else record {
        block_type = block_type;
        flags = flags;
        payload = some (take payload_length rest);
        file_offset = offset;
      }
        ∷ next
]

-- Each round takes the ten bytes of a header, so `length file` rounds are enough.
unfoldable pub iter_raw_blocks_loop : ℕ → (BlockType → Bool) → ℕ → Bytes → List RawBlock
iter_raw_blocks_loop zero skip offset file = []
iter_raw_blocks_loop (suc fuel) skip offset file = elim (next_header file) [
  | none ↦ []
  | some (byte, flags, payload_length, rest) ↦
      yield_block skip offset byte flags payload_length rest (
        iter_raw_blocks_loop fuel skip (offset + block_header_size + payload_length)
          (drop payload_length rest))
]

unfoldable pub iter_raw_blocks : (BlockType → Bool) → Bytes → List RawBlock
iter_raw_blocks skip file = iter_raw_blocks_loop (length file) skip 0 file

-- A block of any type byte, as it stands in a file.
pub record Framed : Type 0 where
  pub byte : ℕ
  pub flags : ℕ
  pub payload : Bytes

abbrev pub framed_size : Framed → ℕ
framed_size b = block_header_size + length b.payload

pub record IsFramed (b : Framed) : Type 0 where
  pub byte_fits : b.byte < 256
  pub flags_fit : b.flags < 256
  pub length_fits : framed_size b < 2 ^ 64

abbrev pub framed : Framed → Bytes
framed b = le_bytes 1 b.byte ++ (le_bytes 1 b.flags ++ (le_bytes 8 (framed_size b) ++ b.payload))

abbrev pub framed_all : List Framed → Bytes → Bytes
framed_all [] tail = tail
framed_all (b ∷ bs) tail = framed b ++ framed_all bs tail

pub make_block-framed :
    (t : BlockType) (flags : ℕ) (payload : Bytes)
    → IsFramed (record { byte = block_type_code t; flags = flags; payload = payload })
    → make_block t flags payload
      ≡ ok (framed (record { byte = block_type_code t; flags = flags; payload = payload }))
unfolding make_block ◌+++◌
make_block-framed t flags payload h = rw (
  pack-le_bytes 1 (block_type_code t) h.byte_fits,
  pack-le_bytes 1 flags h.flags_fit,
  pack-le_bytes 8 (block_header_size + length payload) h.length_fits,
  append-nil,
)

length-framed : (b : Framed) → length (framed b) ≡ framed_size b
length-framed b = omega (
  arith,
  length-append (le_bytes 1 b.byte)
      (le_bytes 1 b.flags ++ (le_bytes 8 (framed_size b) ++ b.payload)),
  length-append (le_bytes 1 b.flags) (le_bytes 8 (framed_size b) ++ b.payload),
  length-append (le_bytes 8 (framed_size b)) b.payload,
  length-le_bytes 1 b.byte,
  length-le_bytes 1 b.flags,
  length-le_bytes 8 (framed_size b),
)

unpack_header-framed :
    (b : Framed) (rest : Bytes)
    → IsFramed b
    → unpack_header (framed b ++ rest) ≡ ok ((b.byte, b.flags, framed_size b), b.payload ++ rest)
unfolding unpack_header ◌>>=◌ pure
unpack_header-framed b rest h = rw (
  append_assoc,
  append_assoc,
  append_assoc,
  unpack-le_bytes 1 b.byte h.byte_fits,
  unpack-le_bytes 1 b.flags h.flags_fit,
  unpack-le_bytes 8 (framed_size b) h.length_fits,
)

next_header-framed :
    (b : Framed) (rest : Bytes)
    → IsFramed b
    → next_header (framed b ++ rest) ≡ some (b.byte, b.flags, length b.payload, b.payload ++ rest)
unfolding next_header
next_header-framed b rest h =
    rw (long_enough, next_header, unpack_header-framed b rest h, header_fits, no_less)
  where
    long_enough : ltb (length (framed b ++ rest)) block_header_size ≡ false
    long_enough = ground (arith, length-append (framed b) rest, length-framed b)

    header_fits : leb block_header_size (framed_size b) ≡ true
    header_fits = ground arith

    no_less : framed_size b - block_header_size ≡ length b.payload
    no_less = omega arith

-- What the scan is to hand on of the blocks `bs`, which begin at `offset`: a block of unknown type
-- is passed over, and a block that is to be skipped comes without its payload.
abbrev pub handed_on : (BlockType → Bool) → ℕ → Framed → Result BlockType → List RawBlock
handed_on skip offset b (err e) = []
handed_on skip offset b (ok block_type) =
    record {
      block_type = block_type;
      flags = b.flags;
      payload = if skip block_type then none else some b.payload;
      file_offset = offset;
    }
    ∷ []

abbrev pub scanned : (BlockType → Bool) → ℕ → List Framed → List RawBlock
scanned skip offset [] = []
scanned skip offset (b ∷ bs) =
    handed_on skip offset b (to_block_type b.byte)
    ++ scanned skip (offset + block_header_size + length b.payload) bs

yield_block-framed :
    (skip : BlockType → Bool) (offset : ℕ) (b : Framed) (rest : Bytes) (next : List RawBlock)
    → yield_block skip offset b.byte b.flags (length b.payload) (b.payload ++ rest) next
      ≡ handed_on skip offset b (to_block_type b.byte) ++ next
unfolding yield_block
yield_block-framed skip offset b rest next = elim (Result-cases (to_block_type b.byte)) [
  | inl (t, e) ↦ rw (e, yield_block, take_front b.payload rest, long_enough) (ground arith)
  | inr (x, e) ↦ rw (e, yield_block)
]
  where
    long_enough : ltb (length (b.payload ++ rest)) (length b.payload) ≡ false
    long_enough = ground (arith, length-append b.payload rest)

next_header-short : (tail : Bytes) → length tail < block_header_size → next_header tail ≡ none
unfolding next_header
next_header-short tail h = rw (lt→ltb _ _ h)

iter_raw_blocks_loop-framed :
    (skip : BlockType → Bool) (bs : List Framed) (tail : Bytes) (fuel offset : ℕ)
    → All IsFramed bs
    → length tail < block_header_size
    → length (framed_all bs tail) ≤ fuel
    → iter_raw_blocks_loop fuel skip offset (framed_all bs tail) ≡ scanned skip offset bs
unfolding iter_raw_blocks_loop
iter_raw_blocks_loop-framed skip [] tail zero offset h ht hf = refl
iter_raw_blocks_loop-framed skip [] tail (suc fuel) offset h ht hf =
    rw (next_header-short tail ht, iter_raw_blocks_loop)
iter_raw_blocks_loop-framed skip (b ∷ bs) tail zero offset h ht hf =
    absurd (omega (arith, length-append (framed b) (framed_all bs tail), length-framed b))
iter_raw_blocks_loop-framed skip (b ∷ bs) tail (suc fuel) offset h ht hf =
    rw
      (
        next_header-framed b (framed_all bs tail) h.0,
        iter_raw_blocks_loop,
        drop_front b.payload (framed_all bs tail),
      )
      (yield_block-framed skip offset b _ _
        ∙ ap (λ next. handed_on skip offset b (to_block_type b.byte) ++ next)
            (iter_raw_blocks_loop-framed skip bs tail fuel _ h.1 ht
              (omega (arith, length-append (framed b) (framed_all bs tail), length-framed b))))

-- A scan of a file of whole blocks, behind which a torn header may stand, hands on the blocks in
-- file order, each with its flags, its payload and its offset: those of an unknown type are passed
-- over, and those that are to be skipped come without a payload.
pub iter_raw_blocks-framed :
    (skip : BlockType → Bool) (bs : List Framed) (tail : Bytes)
    → All IsFramed bs
    → length tail < block_header_size
    → iter_raw_blocks skip (framed_all bs tail) ≡ scanned skip 0 bs
unfolding iter_raw_blocks
iter_raw_blocks-framed skip bs tail h ht =
    iter_raw_blocks_loop-framed skip bs tail _ 0 h ht (omega arith)

read_payload-framed :
    (b : Framed) (rest : Bytes) → read_payload (framed_size b) (b.payload ++ rest) ≡ ok b.payload
unfolding read_payload
read_payload-framed b rest = rw (header_fits, no_less, take_front b.payload rest)
  where
    header_fits : leb block_header_size (framed_size b) ≡ true
    header_fits = ground arith

    no_less : framed_size b - block_header_size ≡ length b.payload
    no_less = omega arith

-- `_read_one_block` at the start of a block returns the type, the flags and the payload that the
-- block was made with, whatever follows.
pub read_one_block-make_block :
    (t : BlockType) (flags : ℕ) (payload rest : Bytes)
    → flags < 256
    → block_header_size + length payload < 2 ^ 64
    → (bs : Bytes) × (make_block t flags payload ≡ ok bs)
      × (read_one_block (bs ++ rest) ≡ ok (t, flags, payload))
read_one_block-make_block t flags payload rest hf hl = (
  framed b,
  make_block-framed t flags payload fits,
  unfold read_one_block in
      rw (
        long_enough,
        unpack_header-framed b rest fits,
        read_payload-framed b rest,
        to_block_type-code t,
      ),
)
  where
    b : Framed
    b = record { byte = block_type_code t; flags = flags; payload = payload }

    fits : IsFramed b
    fits = record { byte_fits = block_type_code-lt t; flags_fit = hf; length_fits = hl }

    long_enough : ltb (length (framed b ++ rest)) block_header_size ≡ false
    long_enough = ground (arith, length-append (framed b) rest, length-framed b)

make_block-eq-ok :
    (t : BlockType) (flags : ℕ) (payload : Bytes) {bs : Bytes}
    → make_block t flags payload ≡ ok bs
    → (flags < 256) × (block_header_size + length payload < 2 ^ 64)
unfolding make_block
make_block-eq-ok t flags payload e =
    let (a, b, ea, eb) = +++-eq-ok (pack 1 (block_type_code t)) _ e in
    let (a', b', fa, fb) = +++-eq-ok (pack 1 flags) _ eb in
    let (a'', b'', ga, gb) = +++-eq-ok (pack 8 (block_header_size + length payload)) _ fb in
    (pack-fits 1 flags fa, pack-fits 8 (block_header_size + length payload) ga)

-- Whatever block was made, its type, flags and payload are read back.
pub make_block-Reads :
    (t : BlockType) (flags : ℕ) (payload rest : Bytes) {bs : Bytes}
    → make_block t flags payload ≡ ok bs
    → read_one_block (bs ++ rest) ≡ ok (t, flags, payload)
make_block-Reads t flags payload rest {bs} e =
    let (hf, hl) = make_block-eq-ok t flags payload e in
    let (bs', e', r) = read_one_block-make_block t flags payload rest hf hl in
    let same : bs ≡ bs' = cc (e, e') in rw same r
