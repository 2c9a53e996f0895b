-- ===== src/StringTable/Tests.antt =====
-- Runs of the string table at concrete inputs.
use trlog.Prelude.{ℕ, ◌≤◌, ◌<◌, ◌≡◌, refl, [], ◌∷◌, ◌++◌, arith, true, false, length, ◌^◌}
use trlog.Prelude.Int.{pos}
use trlog.Prelude.Dict.{get}
use trlog.Wire.{Bytes, ok, ◌+++◌, concat_map, pack, le_bytes}
use trlog.Wire.Reads.{All}
use trlog.Text.{Str, encode_utf8, encode_char}
use trlog.Types.{str_table, block_type_code}
use trlog.Codec.{encode_uvarint, uvarint, uvarint_loop}
use trlog.Codec.Framed.{IsText, encode_text}
use trlog.Compression.{compress_payload}
use trlog.Compression.Samples.{marked, marked-IsSound}
use trlog.Block.{make_block, read_one_block}
use trlog.StringTable.{
  StringTable, empty, append_str, intern, lookup, entries, encode_block, read_block, encode_entries,
}
use trlog.StringTable.Intern.{IsValid, empty-IsValid, intern-IsValid, intern_lem, lookup-intern_old}
use trlog.StringTable.RoundTrip.{IsBuilt, empty-IsBuilt, intern-IsBuilt, read-encode_block}

abbrev hi : Str
hi = 104 ∷ 105 ∷ []

abbrev one_string : StringTable
one_string = append_str hi empty

one_string-intern : (intern hi empty).1 ≡ one_string
unfolding intern empty get
one_string-intern = refl

one_string-IsValid : IsValid one_string
one_string-IsValid = rw (← one_string-intern) (intern-IsValid hi empty empty-IsValid)

one_string-IsBuilt : IsBuilt one_string
one_string-IsBuilt = rw (← one_string-intern) (intern-IsBuilt hi empty empty-IsBuilt)

intern-IsValid_example : IsValid (intern (33 ∷ []) one_string).1
intern-IsValid_example = intern-IsValid (33 ∷ []) one_string one_string-IsValid

intern_lem_example :
    (1 ≤ (intern hi one_string).0)
    × (lookup (intern hi one_string).1 (pos (intern hi one_string).0) ≡ ok hi)
    × (intern hi (intern hi one_string).1 ≡ intern hi one_string)
intern_lem_example = intern_lem hi one_string one_string-IsValid

lookup-hi : lookup one_string (pos 1) ≡ ok hi
unfolding lookup append_str empty
lookup-hi = refl

lookup-intern_old_example : lookup (intern (33 ∷ []) one_string).1 (pos 1) ≡ ok hi
lookup-intern_old_example = lookup-intern_old (33 ∷ []) hi one_string (pos 1) lookup-hi

hi-IsText : IsText hi
hi-IsText = record { scalars = (refl, (refl, tt)); fits = omega arith }

one_string-texts : All IsText (entries one_string)
unfolding append_str empty
one_string-texts = (hi-IsText, tt)

one_string-few : length (entries one_string) < 2 ^ 70
unfolding append_str empty
one_string-few = omega arith

abbrev hi_block : Bytes
hi_block = 0x01 ∷ 0x01 ∷ 15 ∷ 0 ∷ 0 ∷ 0 ∷ 0 ∷ 0 ∷ 0 ∷ 0 ∷ 0x78 ∷ 1 ∷ 2 ∷ 104 ∷ 105 ∷ []

encode-hi_block : encode_block marked true false one_string ≡ ok hi_block
unfolding encode_block encode_entries append_str empty encode_uvarint uvarint uvarint_loop
    concat_map encode_text encode_utf8 encode_char ◌+++◌ compress_payload make_block pack
    block_type_code le_bytes
encode-hi_block = refl

read-encode_block_example :
    (flags : ℕ) × (payload : Bytes) × (read_one_block (hi_block ++ (7 ∷ []))
      ≡ ok (str_table, flags, payload))
    × (read_block marked flags payload empty ≡ ok one_string)
read-encode_block_example =
    read-encode_block marked true false one_string (7 ∷ []) marked-IsSound one_string-IsBuilt
      one_string-texts one_string-few encode-hi_block
