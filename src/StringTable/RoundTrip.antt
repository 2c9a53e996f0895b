-- ===== src/StringTable/RoundTrip.antt =====
-- python/src/trlog/_string_table.py: the round trip of the BLK_STR_TABLE block.
use trlog.Prelude.{
  ℕ, ◌^◌, ◌<◌, ◌≡◌, refl, sym, ap, ◌∙◌, List, [], ◌∷◌, ◌++◌, append_assoc, append-nil, length, Bool,
  tail, Option-cases, inl, inr,
}
use trlog.Prelude.Dict.{get, list_eq}
use trlog.Wire.{Bytes, ok, concat_map}
use trlog.Wire.Reads.{Codes, Codes-bind, Codes-pure, All}
use trlog.Text.{Str}
use trlog.Codec.Uvarint.{Codes-uvarint}
use trlog.Codec.Framed.{encode_text, IsText, Codes-text}
use trlog.Compression.{Compression, IsSound}
use trlog.Types.{str_table}
use trlog.Block.{read_one_block}
use trlog.Block.Packed.{packed_block-Unpacks}
use trlog.StringTable.{
  StringTable, empty, append_str, intern, entries, encode_entries, decode_entries_loop,
  decode_entries, encode_block, read_block,
}

abbrev pub append_all : List Str → StringTable → StringTable
append_all [] t = t
append_all (s ∷ ss) t = append_all ss (append_str s t)

-- Tables that `__init__` and `intern` make: the entries, appended in order, give the table.
abbrev pub IsBuilt : StringTable → Type 0
IsBuilt t = (ss : List Str) × (append_all ss empty ≡ t)

append_all-append :
    (ss : List Str) (s : Str) (t : StringTable)
    → append_all (ss ++ (s ∷ [])) t ≡ append_str s (append_all ss t)
append_all-append [] s t = refl
append_all-append (u ∷ ss) s t = append_all-append ss s (append_str u t)

pub empty-IsBuilt : IsBuilt empty
empty-IsBuilt = ([], refl)

pub intern-IsBuilt : (s : Str) (t : StringTable) → IsBuilt t → IsBuilt (intern s t).1
unfolding intern
intern-IsBuilt s t (ss, e) = elim (Option-cases (get t.str_to_id s)) [
  | inl n ↦ rw (n, intern) (ss ++ (s ∷ []), append_all-append ss s empty ∙ ap (append_str s) e)
  | inr (i, n) ↦ rw (n, intern) (ss, e)
]

id_to_str-append_all :
    (ss : List Str) (t : StringTable) → (append_all ss t).id_to_str ≡ t.id_to_str ++ ss
unfolding append_str
id_to_str-append_all [] t = sym (append-nil t.id_to_str)
id_to_str-append_all (s ∷ ss) t =
    id_to_str-append_all ss (append_str s t) ∙ append_assoc t.id_to_str (s ∷ []) ss

entries-append_all : (ss : List Str) → entries (append_all ss empty) ≡ ss
unfolding empty
entries-append_all ss = ap tail (id_to_str-append_all ss empty)

Codes-entries_loop :
    (ss : List Str) (t : StringTable)
    → All IsText ss
    → Codes (concat_map encode_text ss) (decode_entries_loop (length ss) t) (append_all ss t)
unfolding concat_map decode_entries_loop
Codes-entries_loop [] t h = Codes-pure t
Codes-entries_loop (s ∷ ss) t h =
    Codes-bind _ (Codes-text h.0) (Codes-entries_loop ss (append_str s t) h.1)

Codes-entries :
    (ss : List Str) (t : StringTable)
    → All IsText ss
    → length ss < 2 ^ 70
    → Codes (encode_entries ss) (decode_entries t) (append_all ss t)
unfolding encode_entries decode_entries
Codes-entries ss t h k = Codes-bind _ (Codes-uvarint k) (Codes-entries_loop ss t h)

-- A table that was built by interning comes back the same, ids included, from any block that
-- `encode_block` returns for it, compressed or not, whatever follows the block in the file.
pub read-encode_block :
    (c : Compression) (compress use_zstd : Bool) (t : StringTable) (rest : Bytes) {block : Bytes}
    → IsSound c
    → IsBuilt t
    → All IsText (entries t)
    → length (entries t) < 2 ^ 70
    → encode_block c compress use_zstd t ≡ ok block
    → (flags : ℕ) × (payload : Bytes) × (read_one_block (block ++ rest)
        ≡ ok (str_table, flags, payload))
      × (read_block c flags payload empty ≡ ok t)
unfolding encode_block read_block
read-encode_block c compress use_zstd t rest s (ss, built) texts few e =
    let codes = Codes-entries (entries t) empty texts few in
    let u =
      packed_block-Unpacks c compress use_zstd str_table codes.bytes rest s
        (rw codes.encoded at e) in
    let whole = rw append-nil at (codes.decoded []) in
    (u.flags, u.packed, u.block_read, rw (u.unpacked, whole, same))
  where
    same : append_all (entries t) empty ≡ t
    same = rw (← built) (rw (entries-append_all ss))
