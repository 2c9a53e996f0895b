-- ===== src/Vc/Wave/RoundTrip.antt =====
-- python/src/trlog/_vc_data.py: a wave that was encoded is read back, in every encoding.
use trlog.Prelude.{
  ℕ, suc, ◌+◌, ◌-◌, ◌^◌, ◌<◌, ◌≤◌, ◌≡◌, refl, ap, ◌∙◌, List, [], ◌∷◌, map, length, length-map,
  bit_xor, Bool, true, false, Option, none, some, arith,
}
use trlog.Prelude.Bits.{bit_xor-lt, bit_xor_cancel}
use trlog.Prelude.Dict.{get, nat_eq}
use trlog.Prelude.Int.{ℤ, pos, negsuc, sub_ℕ}
use trlog.Prelude.Int.Bits.{◌^ℤ◌}
use trlog.Wire.{Result, ok, err, key_error, bind, ◌+++◌}
use trlog.Wire.Reads.{Codes, Codes-bind, Codes-bind_last, Codes-map, Codes-pure, All}
use trlog.Types.{SignalEncoding}
use trlog.Codec.Uvarint.{Codes-uvarint}
use trlog.Vc.{Sample, int, float, str, cells, Interp, to_int}
use trlog.Vc.Wave.{
  TimeIndex, index_of, encode_entries, encode_entry, decode_entries, flips, encode_runs,
  encode_wave, decode_groups, repeated, state_after, decode_raw, has_runs,
}
use trlog.Vc.Wave.Entries.{Fits, Codes-entry}
use trlog.Vc.Wave.Runs.{signed_pair, applied, FitsPair, Codes-groups, groups_few}

-- A change with its time, the index of the time, and the value.
pub record Change : Type 0 where
  pub time : ℕ
  pub index : ℕ
  pub value : Sample

abbrev pub written : Change → ℕ × Sample
written c = (c.time, c.value)

abbrev pub indexed : Change → ℕ × Sample
indexed c = (c.index, c.value)

-- The indexes are those of the table, and they go up.
abbrev pub Placed : TimeIndex → ℕ → List Change → Type 0
Placed idx due [] = Unit
Placed idx due (c ∷ cs) =
    (get idx c.time ≡ some c.index)
    × (due ≤ c.index)
    × (c.index < 2 ^ 60)
    × Placed idx (suc c.index) cs

-- A value of a run is a number that a varint has room for.
abbrev pub FitsRun : Sample → Type 0
FitsRun (int (pos n)) = n < 2 ^ 70
FitsRun v = ⊥

abbrev pub FitsIn : Bool → SignalEncoding → ℕ → Change → Type 0
FitsIn true enc bit_width c = FitsRun c.value
FitsIn false enc bit_width c = Fits enc bit_width c.value

difference : (i due : ℕ) → due ≤ i → sub_ℕ i due ≡ pos (i - due)
difference i due h = ground (arith, h)

index_of-found : (idx : TimeIndex) (t : ℕ) {i : ℕ} → get idx t ≡ some i → index_of idx t ≡ ok i
index_of-found idx t e = ap (λ (o : Option ℕ). elim o [ none ↦ err key_error | some j ↦ ok j ]) e

module _ (py : Interp) (idx : TimeIndex) where
  entries_step :
      (enc : SignalEncoding) (bit_width due t i : ℕ) (v : Sample) (changes : List (ℕ × Sample))
      → get idx t ≡ some i
      → encode_entries py enc bit_width idx due ((t, v) ∷ changes)
        ≡ encode_entry py enc bit_width (sub_ℕ i due) v
          +++ encode_entries py enc bit_width idx (suc i) changes
  unfolding encode_entries
  entries_step enc bit_width due t i v changes e =
      ap
        (λ (r : Result ℕ). bind r (λ j.
          encode_entry py enc bit_width (sub_ℕ j due) v
          +++ encode_entries py enc bit_width idx (suc j) changes))
        (index_of-found idx t e)

  flips_step :
      (due t i n : ℕ) (prev : ℤ) (changes : List (ℕ × Sample))
      → get idx t ≡ some i
      → flips py idx due prev ((t, int (pos n)) ∷ changes)
        ≡ bind (flips py idx (suc i) (pos n) changes) (λ ps. ok ((sub_ℕ i due, pos n ^ℤ prev) ∷ ps))
  unfolding flips to_int
  flips_step due t i n prev changes e =
      ap
        (λ (r : Result ℕ). bind r (λ j.
          bind (flips py idx (suc j) (pos n) changes)
            (λ ps. ok ((sub_ℕ j due, pos n ^ℤ prev) ∷ ps))))
        (index_of-found idx t e)

  Codes-entries :
      (enc : SignalEncoding) (bit_width due : ℕ) (cs : List Change)
      → Placed idx due cs
      → All (FitsIn false enc bit_width) cs
      → Codes
          (encode_entries py enc bit_width idx due (map written cs))
          (decode_entries enc bit_width (length cs) due)
          (map indexed cs)
  unfolding encode_entries decode_entries
  Codes-entries enc bit_width due [] p h = Codes-pure []
  Codes-entries enc bit_width due (c ∷ cs) (found, above, few, p) (h, hs) =
      let there : due + (c.index - due) ≡ c.index = omega arith in
      rw
        (
          entries_step enc bit_width due c.time c.index c.value (map written cs) found,
          difference c.index due above,
        )
        (Codes-bind _ (Codes-entry py enc bit_width (c.index - due) c.value (omega arith) h) (
          rw there (
            Codes-map (λ rest. indexed c ∷ rest)
              (Codes-entries enc bit_width (suc c.index) cs p hs))))

  -- The pairs of a wave of numbers.
  abbrev number_of : Sample → ℕ
  number_of (int (pos n)) = n
  number_of v = 0

  abbrev pairs : ℕ → ℕ → List Change → List (ℕ × ℕ)
  pairs due prev [] = []
  pairs due prev (c ∷ cs) =
      (c.index - due, bit_xor (number_of c.value) prev) ∷ pairs (suc c.index) (number_of c.value) cs

  is_number : (v : Sample) → FitsRun v → v ≡ int (pos (number_of v))
  is_number (int (pos n)) h = refl
  is_number (int (negsuc n)) h = absurd h
  is_number (float x) h = absurd h
  is_number (str s) h = absurd h
  is_number (cells cs) h = absurd h

  number-lt : (v : Sample) → FitsRun v → number_of v < 2 ^ 70
  number-lt (int (pos n)) h = h
  number-lt (int (negsuc n)) h = absurd h
  number-lt (float x) h = absurd h
  number-lt (str s) h = absurd h
  number-lt (cells cs) h = absurd h

  flips-pairs :
      (due prev : ℕ) (cs : List Change) (enc : SignalEncoding) (bit_width : ℕ)
      → Placed idx due cs
      → All (FitsIn true enc bit_width) cs
      → flips py idx due (pos prev) (map written cs) ≡ ok (map signed_pair (pairs due prev cs))
  unfolding flips to_int ◌^ℤ◌
  flips-pairs due prev [] enc bit_width p h = refl
  flips-pairs due prev (c ∷ cs) enc bit_width (found, above, few, p) (h, hs) =
      ap (λ (v : Sample). flips py idx due (pos prev) ((c.time, v) ∷ map written cs))
        (is_number c.value h)
      ∙ flips_step due c.time c.index (number_of c.value) (pos prev) (map written cs) found
      ∙ rw
          (
            flips-pairs (suc c.index) (number_of c.value) cs enc bit_width p hs,
            difference c.index due above,
          )
          refl

  applied-pairs :
      (due prev : ℕ) (cs : List Change) (enc : SignalEncoding) (bit_width : ℕ)
      → Placed idx due cs
      → All (FitsIn true enc bit_width) cs
      → applied due prev (pairs due prev cs) ≡ map indexed cs
  applied-pairs due prev [] enc bit_width p h = refl
  applied-pairs due prev (c ∷ cs) enc bit_width (found, above, few, p) (h, hs) =
      let there : due + (c.index - due) ≡ c.index = omega arith in
      rw
        (
          there,
          bit_xor_cancel (number_of c.value) prev,
          applied-pairs (suc c.index) (number_of c.value) cs enc bit_width p hs,
          ← is_number c.value h,
        )
        refl

  pairs-FitsPair :
      (due prev : ℕ) (cs : List Change) (enc : SignalEncoding) (bit_width : ℕ)
      → prev < 2 ^ 70
      → Placed idx due cs
      → All (FitsIn true enc bit_width) cs
      → All FitsPair (pairs due prev cs)
  pairs-FitsPair due prev [] enc bit_width hv p h = tt
  pairs-FitsPair due prev (c ∷ cs) enc bit_width hv (found, above, few, p) (h, hs) = (
    (omega arith, bit_xor-lt 70 (number_of c.value) prev (number-lt c.value h) hv),
    pairs-FitsPair (suc c.index) (number_of c.value) cs enc bit_width (number-lt c.value h) p hs,
  )

  length-pairs : (due prev : ℕ) (cs : List Change) → length (pairs due prev cs) ≡ length cs
  length-pairs due prev [] = refl
  length-pairs due prev (c ∷ cs) = ap suc (length-pairs (suc c.index) (number_of c.value) cs)

  Codes-raw_in :
      (enc : SignalEncoding) (bit_width : ℕ) (runs : Bool) (cs : List Change)
      → has_runs enc bit_width ≡ runs
      → Placed idx 0 cs
      → All (FitsIn runs enc bit_width) cs
      → length cs < 2 ^ 60
      → Codes
          (encode_wave py (map written cs) enc bit_width idx)
          (decode_raw true enc bit_width)
          (map indexed cs)
  unfolding encode_wave decode_raw encode_runs repeated state_after
  Codes-raw_in enc bit_width true [] q p h few =
      Codes-bind_last _ (Codes-uvarint {n = 0} (omega arith))
        (rw q (unfold decode_groups in Codes-pure []))
  Codes-raw_in enc bit_width false [] q p h few =
      Codes-bind_last _ (Codes-uvarint {n = 0} (omega arith))
        (rw q (unfold decode_entries in Codes-pure []))
  Codes-raw_in enc bit_width false (c ∷ cs) q p h few = rw q (
      Codes-bind _ (Codes-uvarint (omega (arith, few, length-map cs written)))
        (rw (length-map cs written) (Codes-entries enc bit_width 0 (c ∷ cs) p h)))
  Codes-raw_in enc bit_width true (c ∷ cs) q p h few =
      let ps = pairs (suc c.index) (number_of c.value) cs in
      let first : ℕ × ℕ = (c.index - 0, bit_xor (number_of c.value) 0) in
      let fit = pairs-FitsPair 0 0 (c ∷ cs) enc bit_width (omega arith) p h in
      let short : length ps < 2 ^ 60 =
        omega (arith, few, length-pairs (suc c.index) (number_of c.value) cs) in
      rw (q, flips-pairs 0 0 (c ∷ cs) enc bit_width p h)
        (Codes-bind _
          (Codes-uvarint (
            omega (
              arith,
              short,
              length-map ps signed_pair,
              groups_few (map signed_pair ps)
                  (signed_pair (c.index - 0, bit_xor (number_of c.value) 0)) 1,
            )))
          (rw (applied-pairs 0 0 (c ∷ cs) enc bit_width p h) at
            (Codes-groups ps first.0 first.1 0 0 0 fit.0 fit.1 (omega (arith, short)))))

  -- A wave of fewer than 2^60 changes in order of their times is read back as the time indexes and
  -- the values, in every encoding, whatever follows, where each value is one of those in `Fits`,
  -- among them no list of states, or in runs a number below 2^70.
  pub Codes-wave :
      (enc : SignalEncoding) (bit_width : ℕ) (cs : List Change)
      → Placed idx 0 cs
      → All (FitsIn (has_runs enc bit_width) enc bit_width) cs
      → length cs < 2 ^ 60
      → Codes
          (encode_wave py (map written cs) enc bit_width idx)
          (decode_raw true enc bit_width)
          (map indexed cs)
  Codes-wave enc bit_width cs p h few = Codes-raw_in enc bit_width _ cs refl p h few
