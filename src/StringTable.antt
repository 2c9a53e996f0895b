-- ===== src/StringTable.antt =====
-- python/src/trlog/_string_table.py: strings and the ids that they are given, in both directions,
-- and the BLK_STR_TABLE block.
pub mod Intern
pub mod RoundTrip
mod Tests
use trlog.Prelude.{
  ℕ, zero, suc, ◌+◌, List, [], ◌∷◌, ◌++◌, Option, none, some, Bool, if◌then◌else◌, length,
  get_elem?, tail,
}
use trlog.Prelude.Int.{ℤ, pos, negsuc}
use trlog.Prelude.Dict.{Dict, get, put, list_eq, list_beq}
use trlog.Wire.{
  Bytes, Result, ok, err, bind, ◌+++◌, concat_map, Decoder, ◌>>=◌, pure, lift, key_error,
}
use trlog.Text.{Str}
use trlog.Types.{str_table}
use trlog.Codec.{encode_uvarint, decode_uvarint}
use trlog.Codec.Framed.{encode_text, decode_text}
use trlog.Compression.{Compression, decompress_payload}
use trlog.Block.Packed.{packed_block}

pub record StringTable : Type 0 where
  pub str_to_id : Dict Str ℕ
  pub id_to_str : List Str

-- `__init__`: the id 0 is reserved.
unfoldable pub empty : StringTable
empty = record { str_to_id = []; id_to_str = [] ∷ [] }

-- `str_to_id[s] = len(id_to_str); id_to_str.append(s)`
unfoldable pub append_str : Str → StringTable → StringTable
append_str s t = record {
  str_to_id = put t.str_to_id s (length t.id_to_str);
  id_to_str = t.id_to_str ++ (s ∷ []);
}

unfoldable pub intern : Str → StringTable → ℕ × StringTable
unfolding append_str
intern s t = elim (get t.str_to_id s) [
  | some str_id ↦ (str_id, t)
  | none ↦ (length t.id_to_str, append_str s t)
]

unfoldable pub lookup : StringTable → ℤ → Result Str
lookup t (negsuc n) = err key_error
lookup t (pos str_id) = elim (get_elem? t.id_to_str str_id) [ none ↦ err key_error | some s ↦ ok s ]

unfoldable pub encode_entries : List Str → Result Bytes
encode_entries entries = encode_uvarint (pos (length entries)) +++ concat_map encode_text entries

unfoldable pub decode_entries_loop : ℕ → StringTable → Decoder StringTable
unfolding append_str
decode_entries_loop zero t = pure t
decode_entries_loop (suc count) t = do s ← decode_text; decode_entries_loop count (append_str s t)

unfoldable pub decode_entries : StringTable → Decoder StringTable
decode_entries t = do count ← decode_uvarint; decode_entries_loop count t

-- `self._id_to_str[1:]`
abbrev pub entries : StringTable → List Str
entries t = tail t.id_to_str

unfoldable pub encode_block : Compression → Bool → Bool → StringTable → Result Bytes
unfolding packed_block
encode_block c compress use_zstd t =
    bind (encode_entries (entries t)) (packed_block c compress use_zstd str_table)

-- A block that raises leaves the reader without a file, so its partial effect is not modelled.
unfoldable pub read_block : Compression → ℕ → Bytes → StringTable → Result StringTable
read_block c flags payload t =
    bind (decompress_payload c flags payload) λ raw. bind (decode_entries t raw) λ (t', _). ok t'
