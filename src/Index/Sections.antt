-- ===== src/Index/Sections.antt =====
-- python/src/trlog/_index.py: the entries of the index block and its optional sections.
use trlog.Prelude.{
  ℕ, ◌^◌, ◌<◌, ◌≡◌, refl, ◌∙◌, List, [], ◌∷◌, ◌++◌, length, arith, Bool, true, false, if◌then◌else◌,
}
use trlog.Wire.{Bytes, Result, ok, ◌+++◌, Decoder, pack, unpack}
use trlog.Wire.Reads.{Codes, Codes-bind, Codes-map, Codes-pack, Codes-repeat, All}
use trlog.Codec.Uvarint.{Codes-uvarint}
use trlog.TypeRegistry.Entries.{IsUvarint}
use trlog.Index.{
  VcEntry, TxnEntry, VarRange, KeyEntry, encode_vc, decode_vc, encode_range, decode_range,
  encode_stream_entry, decode_stream_entry, encode_key, decode_key, encode_list, decode_list,
  encode_section, decode_section, encode_offsets, decode_offsets,
}

-- A field of eight bytes.
abbrev pub IsWord : ℕ → Type 0
IsWord n = n < 2 ^ 64

abbrev pub IsVc : VcEntry → Type 0
IsVc (s, e, off) = IsWord s × IsWord e × IsWord off

abbrev pub IsTxn : TxnEntry → Type 0
IsTxn (s, e, off, sid) = IsWord s × IsWord e × IsWord off × IsUvarint sid

abbrev pub IsRange : VarRange → Type 0
IsRange (var_id, first, last) = IsUvarint var_id × IsWord first × IsWord last

abbrev pub IsKey : KeyEntry → Type 0
IsKey (owner, key, ordinal, off, len) =
    IsUvarint owner × IsUvarint key × IsUvarint ordinal × IsWord off × IsWord len

pub Codes-word : (n : ℕ) → IsWord n → Codes (pack 8 n) (unpack 8) n
Codes-word n h = Codes-pack 8 n h

pub Codes-vc : (v : VcEntry) → IsVc v → Codes (encode_vc v) decode_vc v
unfolding encode_vc decode_vc
Codes-vc (s, e, off) (hs, he, ho) =
    Codes-bind _ (Codes-word s hs)
      (Codes-bind _ (Codes-word e he) (Codes-map (λ o. (s, e, o)) (Codes-word off ho)))

pub Codes-range : (v : VarRange) → IsRange v → Codes (encode_range v) decode_range v
unfolding encode_range decode_range
Codes-range (i, f, l) (hi, hf, hl) =
    Codes-bind _ (Codes-uvarint hi)
      (Codes-bind _ (Codes-word f hf) (Codes-map (λ x. (i, f, x)) (Codes-word l hl)))

pub Codes-stream_entry :
    (t : TxnEntry) → IsTxn t → Codes (encode_stream_entry t) decode_stream_entry t
unfolding encode_stream_entry decode_stream_entry
Codes-stream_entry (s, e, off, sid) (hs, he, ho, hi) = Codes-bind _ (Codes-uvarint hi) (
    Codes-bind _ (Codes-word s hs)
      (Codes-bind _ (Codes-word e he) (Codes-map (λ o. (s, e, o, sid)) (Codes-word off ho))))

pub Codes-key : (k : KeyEntry) → IsKey k → Codes (encode_key k) decode_key k
unfolding encode_key decode_key
Codes-key (owner, key, ordinal, off, len) (hw, hk, hr, ho, hl) = Codes-bind _ (Codes-uvarint hw) (
    Codes-bind _ (Codes-uvarint hk) (
      Codes-bind _ (Codes-uvarint hr) (
        Codes-bind _ (Codes-word off ho)
          (Codes-map (λ l. (owner, key, ordinal, off, l)) (Codes-word len hl)))))

pub Codes-list :
    {A : Type 0} (P : A → Type 0) (f : A → Result Bytes) (p : Decoder A) (xs : List A)
    → ((x : A) → P x → Codes (f x) p x)
    → All P xs
    → IsUvarint (length xs)
    → Codes (encode_list f xs) (decode_list p) xs
unfolding encode_list decode_list
Codes-list P f p xs each h few = Codes-bind _ (Codes-uvarint few) (Codes-repeat P f p each xs h)

pub Codes-offsets :
    (strtab typereg : ℕ) (hier : List ℕ)
    → IsWord strtab
    → IsWord typereg
    → All IsWord hier
    → IsUvarint (length hier)
    → Codes (encode_offsets (strtab, typereg, hier)) decode_offsets (strtab, typereg, hier)
unfolding encode_offsets decode_offsets
Codes-offsets strtab typereg hier hs ht hh few = Codes-bind _ (Codes-word strtab hs) (
    Codes-bind _ (Codes-word typereg ht) (
      Codes-map (λ h. (strtab, typereg, h))
        (Codes-list IsWord (pack 8) (unpack 8) hier Codes-word hh few)))

-- Bytes that no section up to `s` starts.
abbrev pub Above : ℕ → Bytes → Type 0
Above s [] = Unit
Above s (b ∷ bs) = s < b

-- An optional section with sections of higher sentinels behind it.
pub record Section {A : Type 0} (s : ℕ) (r : Result Bytes) (p : Decoder A) (v : A) : Type 0 where
  pub bytes : Bytes
  pub encoded : r ≡ ok bytes
  pub decoded : (tail : Bytes) → Above s tail → p (bytes ++ tail) ≡ ok (v, tail)
  pub front : (tail : Bytes) → Above s tail → (j : ℕ) → j < s → Above j (bytes ++ tail)

section_absent :
    {A : Type 0} (s : ℕ) (d : A) (p : Decoder A) (tail : Bytes)
    → Above s tail
    → decode_section s d p tail ≡ ok (d, tail)
unfolding decode_section
section_absent s d p [] h = refl
section_absent s d p (b ∷ bs) h = ground arith

section_present :
    {A : Type 0} (s : ℕ) (d : A) (p : Decoder A) (tail : Bytes)
    → decode_section s d p (s ∷ tail) ≡ p tail
unfolding decode_section
section_present s d p tail = ground arith

Above-lower : (j s : ℕ) (tail : Bytes) → j < s → Above s tail → Above j tail
Above-lower j s [] h a = tt
Above-lower j s (b ∷ bs) h a = omega arith

pub Section-optional :
    {A : Type 0} (s : ℕ) (present : Bool) {r : Result Bytes} {p : Decoder A} (d : A) {v : A}
    → Codes r p v
    → Section s (encode_section s present r) (decode_section s d p) (if present then v else d)
unfolding encode_section ◌+++◌
Section-optional s true {p = p} d c = record {
  bytes = s ∷ c.bytes;
  encoded = rw c.encoded;
  decoded = λ tail a. section_present s d p (c.bytes ++ tail) ∙ c.decoded tail;
  front = λ tail a j h. h;
}
Section-optional s false {p = p} d c = record {
  bytes = [];
  encoded = refl;
  decoded = λ tail a. section_absent s d p tail a;
  front = λ tail a j h. Above-lower j s tail h a;
}
