-- ===== src/Vc/Stored/Distinct.antt =====
-- python/src/trlog/_vc_data.py: what the table of the waves of a block stores, each wave once.
use trlog.Prelude.{
  ℕ, ◌≡◌, refl, sym, ◌∙◌, ap, List, [], ◌∷◌, ◌++◌, append_assoc, append-nil, length, true, false,
  Bool, ◌||◌, if◌then◌else◌, Bool-cases, Option, some, none, Option-cases, inl, inr,
}
use trlog.Prelude.Dict.{Dict, get, put, list_beq, list_beq_iff, list_eq, get-put}
use trlog.Wire.{Bytes, Result, ok, ◌+++◌, concat_map, bind-eq-ok}
use trlog.Wire.Reads.{All}
use trlog.Vc.Stored.{Tools, WaveAlg, stored_entry, place_waves}

abbrev pub member : Bytes → List Bytes → Bool
member raw [] = false
member raw (r ∷ seen) = list_beq r raw || member raw seen

-- The waves in order of their first places, each once, without those that were seen.
abbrev pub distinct : List Bytes → List Bytes → List Bytes
distinct seen [] = []
distinct seen (r ∷ raws) =
    let old = distinct seen raws in
    let new = distinct (r ∷ seen) raws in if member r seen then old else r ∷ new

abbrev is_some : Option ℕ → Bool
is_some none = false
is_some (some n) = true

module _ (k : Tools) (alg : Option WaveAlg) (Known : Bytes → Type 0)
    (told_apart : (a b : Bytes) → Known a → Known b → k.md5 a ≡ k.md5 b → a ≡ b) where
  -- The table knows the hashes of the waves that were seen.
  abbrev Seen : Dict (List ℕ) ℕ → List Bytes → Type 0
  Seen offsets seen =
      (raw : Bytes) → Known raw → is_some (get offsets (k.md5 raw)) ≡ member raw seen

  Seen-put :
      (offsets : Dict (List ℕ) ℕ) (seen : List Bytes) (r : Bytes) (n : ℕ)
      → Known r
      → Seen offsets seen
      → Seen (put offsets (k.md5 r) n) (r ∷ seen)
  Seen-put offsets seen r n kn h raw kn' = elim (Bool-cases (list_beq (k.md5 r) (k.md5 raw))) [
    | inl q ↦ rw (get-put offsets (k.md5 r) (k.md5 raw) n, q, same q) refl
    | inr q ↦ rw (get-put offsets (k.md5 r) (k.md5 raw) n, q, other q) (h raw kn')
  ]
    where
      same : list_beq (k.md5 r) (k.md5 raw) ≡ true → list_beq r raw ≡ true
      same q =
          (list_beq_iff r raw).1
            (told_apart r raw kn kn' ((list_beq_iff (k.md5 r) (k.md5 raw)).0 q))

      other : list_beq (k.md5 r) (k.md5 raw) ≡ false → list_beq r raw ≡ false
      other q = elim (Bool-cases (list_beq r raw)) [
        | inr differs ↦ differs
        | inl one ↦
            let again : list_beq (k.md5 r) (k.md5 raw) ≡ true =
              (list_beq_iff (k.md5 r) (k.md5 raw)).1 (ap k.md5 ((list_beq_iff r raw).0 one)) in
            absurd (cc (sym again ∙ q))
      ]

  -- What is behind the data so far.
  abbrev Fresh : List Bytes → Bytes → Bytes → Type 0
  Fresh raws wave_data whole =
      (fresh : Bytes) × (concat_map (stored_entry k alg) raws ≡ ok fresh)
      × (whole ≡ wave_data ++ fresh)

  Fresh-cons :
      (r : Bytes) (raws : List Bytes) (wave_data stored whole : Bytes)
      → stored_entry k alg r ≡ ok stored
      → Fresh raws (wave_data ++ stored) whole
      → Fresh (r ∷ raws) wave_data whole
  unfolding concat_map ◌+++◌
  Fresh-cons r raws wave_data stored whole e (fresh, f, w) =
      (stored ++ fresh, rw (e, f) refl, w ∙ append_assoc wave_data stored fresh)

  Fresh-moved :
      (raws : List Bytes) (wave_data : Bytes) {ps positions : List ℕ} {w whole : Bytes}
      → Fresh raws wave_data w
      → ◌≡◌ {A = Result (List ℕ × Bytes)} (ok (ps, w)) (ok (positions, whole))
      → Fresh raws wave_data whole
  Fresh-moved raws wave_data {ps} {positions} {w} {whole} f e =
      let same_whole : w ≡ whole = cc e in rw same_whole at f

  pub place_waves-Fresh :
      (Known [] → ⊥)
      → (raws : List Bytes) (offsets : Dict (List ℕ) ℕ) (seen : List Bytes) (wave_data : Bytes)
        {positions : List ℕ} {whole : Bytes}
      → All Known raws
      → Seen offsets seen
      → place_waves k alg raws offsets wave_data ≡ ok (positions, whole)
      → Fresh (distinct seen raws) wave_data whole
  unfolding place_waves concat_map
  place_waves-Fresh not_empty [] offsets seen wave_data kn s e =
      Fresh-moved [] wave_data ([], refl, rw (append-nil wave_data) refl) e
  place_waves-Fresh not_empty ([] ∷ raws) offsets seen wave_data (kn, kns) s e =
      absurd (not_empty kn)
  place_waves-Fresh not_empty ((b ∷ bs) ∷ raws) offsets seen wave_data {positions} {whole} (kn, kns)
        s e =
      elim (Option-cases (get offsets (k.md5 (b ∷ bs)))) [
        | inr (p, q) ↦
            let ((ps, w), d, e1) =
              bind-eq-ok (place_waves k alg raws offsets wave_data) _ (rw (place_waves, q) at e) in
            let known : member (b ∷ bs) seen ≡ true = sym (s (b ∷ bs) kn) ∙ ap is_some q in
            rw known (
              Fresh-moved (distinct seen raws) wave_data
                (place_waves-Fresh not_empty raws offsets seen wave_data kns s d) e1)
        | inl q ↦
            let (stored, f, e1) =
              bind-eq-ok (stored_entry k alg (b ∷ bs)) _ (rw (place_waves, q) at e) in
            let ((ps, w), d, e2) =
              bind-eq-ok
                (place_waves k alg raws (put offsets (k.md5 (b ∷ bs)) (length wave_data))
                  (wave_data ++ stored))
                _ e1 in
            let new : member (b ∷ bs) seen ≡ false = sym (s (b ∷ bs) kn) ∙ ap is_some q in
            rw new (
              Fresh-moved ((b ∷ bs) ∷ distinct ((b ∷ bs) ∷ seen) raws) wave_data
                (Fresh-cons (b ∷ bs) (distinct ((b ∷ bs) ∷ seen) raws) wave_data stored w f (
                  place_waves-Fresh not_empty raws (put offsets (k.md5 (b ∷ bs)) (length wave_data))
                    ((b ∷ bs) ∷ seen) (wave_data ++ stored) kns
                    (Seen-put offsets seen (b ∷ bs) _ kn s) d))
                e2)
      ]
