-- ===== src/Vc/Wave/Runs.antt =====
-- python/src/trlog/_vc_data.py: the runs of a wave that were encoded are read back whatever follows.
use trlog.Prelude.{
  ℕ, zero, suc, ◌+◌, ◌*◌, ◌/◌, ◌^◌, ◌<◌, ◌≤◌, ◌≡◌, refl, ap, List, [], ◌∷◌, ◌++◌, map, length,
  bit_xor, Bool, true, false, ◌&&◌, ◌⊎◌, inl, inr, arith,
}
use trlog.Prelude.Bits.{bit_or_above}
use trlog.Prelude.Int.{ℤ, pos, sub_ℕ}
use trlog.Prelude.Int.Bits.{◌<<◌, ◌|ℤ◌}
use trlog.Wire.{Bytes, Result, ◌+++◌, concat_map}
use trlog.Wire.Reads.{Codes, Codes-bind, Codes-map, Codes-pure, All, +++_assoc}
use trlog.Codec.{encode_uvarint}
use trlog.Codec.Uvarint.{Codes-uvarint}
use trlog.Vc.{Sample, int}
use trlog.Vc.Wave.{groups, encode_group, same_ℤ, repeated, state_after, decode_groups}

-- A pair as the encoder has it.
abbrev pub signed_pair : ℕ × ℕ → ℤ × ℤ
signed_pair (a, b) = (pos a, pos b)

-- The changes that pairs make one after the other.
abbrev pub applied : ℕ → ℕ → List (ℕ × ℕ) → List (ℕ × Sample)
applied due val [] = []
applied due val ((a, b) ∷ ps) =
    (due + a, int (pos (bit_xor val b))) ∷ applied (suc (due + a)) (bit_xor val b) ps

run_on :
    (k a b due val : ℕ) (ps : List (ℕ × ℕ))
    → repeated (suc k) a b due val
        ++ applied (state_after (suc k) a b due val).0 (state_after (suc k) a b due val).1 ps
      ≡ repeated k a b due val
        ++ applied (state_after k a b due val).0 (state_after k a b due val).1 ((a, b) ∷ ps)
unfolding repeated state_after
run_on zero a b due val ps = refl
run_on (suc k) a b due val ps =
    ap (λ cs. (due + a, int (pos (bit_xor val b))) ∷ cs)
      (run_on k a b (suc (due + a)) (bit_xor val b) ps)

abbrev pub FitsPair : ℕ × ℕ → Type 0
FitsPair (a, b) = (a < 2 ^ 60) × (b < 2 ^ 70)

run_head : (a : ℕ) → (pos a << 1) |ℤ pos 1 ≡ pos (a * 2 + 1)
unfolding ◌<<◌ ◌|ℤ◌
run_head a = ap pos (bit_or_above 1 1 a (omega arith))

less_one : (k : ℕ) → sub_ℕ (suc k) 1 ≡ pos k
less_one k = ground arith

half_head : (a : ℕ) → (a * 2 + 1) / 2 ≡ a
half_head a = omega arith

Codes-group :
    (a b k : ℕ) (n due val : ℕ) {r : Result Bytes} {rest : List (ℕ × Sample)}
    → FitsPair (a, b)
    → k < 2 ^ 60
    → Codes r
        (decode_groups n (state_after (suc k) a b due val).0 (state_after (suc k) a b due val).1)
        rest
    → Codes
        (encode_group ((pos a, pos b), suc k) +++ r)
        (decode_groups (suc n) due val)
        (repeated (suc k) a b due val ++ rest)
unfolding encode_group decode_groups
Codes-group a b k n due val {r} {rest} (ha, hb) hk c =
    rw
      (
        run_head a,
        less_one k,
        +++_assoc (encode_uvarint (pos (a * 2 + 1)))
            (encode_uvarint (pos b) +++ encode_uvarint (pos k)) r,
        +++_assoc (encode_uvarint (pos b)) (encode_uvarint (pos k)) r,
      )
      (Codes-bind _ (Codes-uvarint (omega arith)) (
        Codes-bind _ (Codes-uvarint hb) (
          Codes-bind _ (Codes-uvarint (omega arith))
            (rw (half_head a) (Codes-map (λ cs. repeated (suc k) a b due val ++ cs) c)))))

Bool-cases : (b : Bool) → (b ≡ true) ⊎ (b ≡ false)
Bool-cases true = inl refl
Bool-cases false = inr refl

same-eq :
    (x y a b : ℕ) → (same_ℤ (pos x) (pos a) && same_ℤ (pos y) (pos b)) ≡ true → (x ≡ a) × (y ≡ b)
same-eq x y a b h = (ground (arith, h), ground (arith, h))

-- `suc k` of the first pair are counted.
pub Codes-groups :
    (ps : List (ℕ × ℕ)) (a b k due val : ℕ)
    → FitsPair (a, b)
    → All FitsPair ps
    → k + length ps < 2 ^ 60
    → Codes
        (concat_map encode_group (groups (pos a, pos b) (suc k) (map signed_pair ps)))
        (decode_groups (length (groups (pos a, pos b) (suc k) (map signed_pair ps))) due val)
        (repeated (suc k) a b due val
          ++ applied (state_after (suc k) a b due val).0 (state_after (suc k) a b due val).1 ps)
unfolding groups concat_map repeated state_after
Codes-groups [] a b k due val h hs few =
    Codes-group a b k 0 due val h (omega arith) (unfold decode_groups in Codes-pure [])
Codes-groups ((x, y) ∷ ps) a b k due val h (hp, hs) few =
    elim (Bool-cases (same_ℤ (pos x) (pos a) && same_ℤ (pos y) (pos b))) [
      | inl e ↦
          let (ex, ey) = same-eq x y a b e in
          rw e (
            rw (ex, ey)
              (rw (run_on (suc k) a b due val ps) at
                (Codes-groups ps a b (suc k) due val h hs (omega arith))))
      | inr e ↦ rw e (
          Codes-group a b k _ due val h (omega arith)
            (Codes-groups ps x y 0 _ _ hp hs (omega arith)))
    ]

pub groups_few :
    (ps : List (ℤ × ℤ)) (run : ℤ × ℤ) (count : ℕ) → length (groups run count ps) ≤ suc (length ps)
unfolding groups
groups_few [] run count = omega arith
groups_few (p ∷ ps) run count = ground (arith, groups_few ps run (suc count), groups_few ps p 1)
