-- ===== src/Vc/Stored/Place.antt =====
-- python/src/trlog/_vc_data.py: the table of the waves of a block, in which equal waves share a place.
use trlog.Prelude.{
  ℕ, ◌^◌, ◌<◌, ◌≡◌, refl, sym, ◌∙◌, map, List, [], ◌∷◌, ◌++◌, append_assoc, append-nil, length,
  drop, true, if◌then◌else◌, Bool-cases, Option, some, Option-cases, inl, inr,
}
use trlog.Prelude.Dict.{Dict, get, put, list_beq, list_beq_iff, list_eq, get-put}
use trlog.Wire.{Bytes, Result, ok, concat_map, bind-eq-ok}
use trlog.Wire.Reads.{Reads, All}
use trlog.Types.{SignalEncoding}
use trlog.Vc.{Sample}
use trlog.Vc.Wave.{decode_raw}
use trlog.Vc.Stored.{Tools, WaveAlg, decode_wave, stored_entry, place_waves}
use trlog.Vc.Stored.Distinct.{distinct, place_waves-Fresh}
use trlog.Vc.Stored.RoundTrip.{
  IsSoundTools, Located, Located-append, Located-drop, uses_lz4, uses_zlib,
}

-- `Known` holds of the waves of the block, none of which is empty, and among which the hash tells
-- apart any two that differ.
module _ (k : Tools) (s : IsSoundTools k) (alg : Option WaveAlg) (Known : Bytes → Type 0)
    (told_apart : (a b : Bytes) → Known a → Known b → k.md5 a ≡ k.md5 b → a ≡ b) where
  abbrev IsTable : Dict (List ℕ) ℕ → Bytes → Type 0
  IsTable offsets wave_data =
      (raw : Bytes) (position : ℕ)
      → Known raw
      → get offsets (k.md5 raw) ≡ some position
      → Located k s alg raw position wave_data

  IsTable-append :
      (offsets : Dict (List ℕ) ℕ) (wave_data more : Bytes)
      → IsTable offsets wave_data
      → IsTable offsets (wave_data ++ more)
  IsTable-append offsets wave_data more h raw position kn e =
      Located-append k s alg raw position wave_data more (h raw position kn e)

  placed_last :
      (raw wave_data : Bytes) {stored : Bytes}
      → stored_entry k alg raw ≡ ok stored
      → Located k s alg raw (length wave_data) (wave_data ++ stored)
  placed_last raw wave_data {stored} e = record {
    front = wave_data;
    stored = stored;
    rest = [];
    entry = e;
    split = rw (append-nil stored) refl;
    there = refl;
  }

  IsTable-put :
      (offsets : Dict (List ℕ) ℕ) (wave_data raw : Bytes) {stored : Bytes}
      → Known raw
      → stored_entry k alg raw ≡ ok stored
      → IsTable offsets wave_data
      → IsTable (put offsets (k.md5 raw) (length wave_data)) (wave_data ++ stored)
  IsTable-put offsets wave_data raw {stored} kn e h other position kn' found =
      let now : (if list_beq (k.md5 raw) (k.md5 other)
            then some (length wave_data)
            else get offsets (k.md5 other))
          ≡ some position =
        sym (get-put offsets (k.md5 raw) (k.md5 other) (length wave_data)) ∙ found in
      elim (Bool-cases (list_beq (k.md5 raw) (k.md5 other))) [
        | inl q ↦
            let one : raw ≡ other =
              told_apart raw other kn kn' ((list_beq_iff (k.md5 raw) (k.md5 other)).0 q) in
            let here : length wave_data ≡ position = cc (rw q at now) in
            rw (← here, ← one) (placed_last raw wave_data e)
        | inr q ↦ IsTable-append offsets wave_data stored h other position kn' (rw q at now)
      ]

  -- Each wave stands at its position.
  abbrev AllLocated : List Bytes → List ℕ → Bytes → Type 0
  AllLocated [] [] whole = Unit
  AllLocated [] (p ∷ ps) whole = ⊥
  AllLocated (r ∷ rs) [] whole = ⊥
  AllLocated (r ∷ rs) (p ∷ ps) whole = Located k s alg r p whole × AllLocated rs ps whole

  record Placed (raws : List Bytes) (wave_data : Bytes) (positions : List ℕ) (whole : Bytes)
      : Type 0 where
    pub more : Bytes
    pub longer : whole ≡ wave_data ++ more
    pub located : AllLocated raws positions whole

  Placed-cons :
      (raw : Bytes) (raws : List Bytes) (wave_data next : Bytes) (position : ℕ) (positions : List ℕ)
      (whole : Bytes)
      → Located k s alg raw position (wave_data ++ next)
      → Placed raws (wave_data ++ next) positions whole
      → Placed (raw ∷ raws) wave_data (position ∷ positions) whole
  Placed-cons raw raws wave_data next position positions whole l p = record {
    more = next ++ p.more;
    longer = p.longer ∙ append_assoc wave_data next p.more;
    located = (
      rw (← p.longer) at (Located-append k s alg raw position (wave_data ++ next) p.more l),
      p.located,
    );
  }

  Placed-moved :
      (raws : List Bytes) (wave_data : Bytes) {ps positions : List ℕ} {w whole : Bytes}
      → Placed raws wave_data ps w
      → ◌≡◌ {A = Result (List ℕ × Bytes)} (ok (ps, w)) (ok (positions, whole))
      → Placed raws wave_data positions whole
  Placed-moved raws wave_data {ps} {positions} {w} {whole} p e =
      let same_positions : ps ≡ positions = cc e in
      let same_whole : w ≡ whole = cc e in rw (same_positions, same_whole) at p

  place_waves-Placed :
      (Known [] → ⊥)
      → (raws : List Bytes) (offsets : Dict (List ℕ) ℕ) (wave_data : Bytes) {positions : List ℕ}
        {whole : Bytes}
      → All Known raws
      → IsTable offsets wave_data
      → place_waves k alg raws offsets wave_data ≡ ok (positions, whole)
      → Placed raws wave_data positions whole
  unfolding place_waves
  place_waves-Placed not_empty [] offsets wave_data kn t e =
      Placed-moved [] wave_data
        (record { more = []; longer = rw (append-nil wave_data) refl; located = tt }) e
  place_waves-Placed not_empty ([] ∷ raws) offsets wave_data (kn, kns) t e = absurd (not_empty kn)
  place_waves-Placed not_empty ((b ∷ bs) ∷ raws) offsets wave_data (kn, kns) t e =
      elim (Option-cases (get offsets (k.md5 (b ∷ bs)))) [
        | inr (p, q) ↦
            let ((ps, w), d, e1) =
              bind-eq-ok (place_waves k alg raws offsets wave_data) _ (rw (place_waves, q) at e) in
            Placed-moved ((b ∷ bs) ∷ raws) wave_data
              (Placed-cons (b ∷ bs) raws wave_data [] p ps w
                (rw (append-nil wave_data) (t (b ∷ bs) p kn q))
                (rw (append-nil wave_data)
                  (place_waves-Placed not_empty raws offsets wave_data kns t d)))
              e1
        | inl q ↦
            let (stored, f, e1) =
              bind-eq-ok (stored_entry k alg (b ∷ bs)) _ (rw (place_waves, q) at e) in
            let ((ps, w), d, e2) =
              bind-eq-ok
                (place_waves k alg raws (put offsets (k.md5 (b ∷ bs)) (length wave_data))
                  (wave_data ++ stored))
                _ e1 in
            Placed-moved ((b ∷ bs) ∷ raws) wave_data
              (Placed-cons (b ∷ bs) raws wave_data stored (length wave_data) ps w
                (placed_last (b ∷ bs) wave_data f)
                (place_waves-Placed not_empty raws _ (wave_data ++ stored) kns
                  (IsTable-put offsets wave_data (b ∷ bs) kn f t) d))
              e2
      ]

-- A wave as its bytes, with the encoding of its signal and the changes that they stand for.
pub record Wave : Type 0 where
  pub raw : Bytes
  pub enc : SignalEncoding
  pub bit_width : ℕ
  pub changes : List (ℕ × Sample)

abbrev pub raw_of : Wave → Bytes
raw_of w = w.raw

abbrev IsWave : (Bytes → Type 0) → Wave → Type 0
IsWave Known w =
    Known w.raw
    × (length w.raw < 2 ^ 70)
    × Reads (decode_raw true w.enc w.bit_width) w.raw w.changes

-- Read from its position, each wave gives its changes.
abbrev pub AllFound : Tools → Option WaveAlg → List Wave → List ℕ → Bytes → Type 0
AllFound k alg [] [] wave_data = Unit
AllFound k alg [] (p ∷ ps) wave_data = ⊥
AllFound k alg (w ∷ ws) [] wave_data = ⊥
AllFound k alg (w ∷ ws) (p ∷ ps) wave_data =
    (decode_wave k w.enc w.bit_width (uses_lz4 alg) true (uses_zlib alg) (drop p wave_data)
      ≡ ok w.changes)
    × AllFound k alg ws ps wave_data

module _ (k : Tools) (s : IsSoundTools k) (alg : Option WaveAlg) (Known : Bytes → Type 0)
    (told_apart : (a b : Bytes) → Known a → Known b → k.md5 a ≡ k.md5 b → a ≡ b) where
  all_known : (ws : List Wave) → All (IsWave Known) ws → All Known (map raw_of ws)
  all_known [] h = tt
  all_known (w ∷ ws) ((kn, few, r), hs) = (kn, all_known ws hs)

  all_found :
      (ws : List Wave) (positions : List ℕ) (whole : Bytes)
      → All (IsWave Known) ws
      → AllLocated k s alg Known told_apart (map raw_of ws) positions whole
      → AllFound k alg ws positions whole
  all_found [] [] whole h l = tt
  all_found [] (p ∷ ps) whole h l = absurd l
  all_found (w ∷ ws) [] whole h l = absurd l
  all_found (w ∷ ws) (p ∷ ps) whole ((kn, few, r), hs) (l, ls) = (
    Located-drop k s alg w.raw p whole w.enc w.bit_width w.changes l few r,
    all_found ws ps whole hs ls,
  )

  -- The waves of a block, none of which is empty, are found at the positions that the table gives
  -- them, and each is read from there as its changes; and what is stored is each of them once, however
  -- many are equal, in the order of their first places. So it is whichever way the waves are
  -- compressed, provided that the hash tells apart those that differ.
  pub place_waves-found :
      (Known [] → ⊥)
      → (ws : List Wave) {positions : List ℕ} {whole : Bytes} → All (IsWave Known) ws
      → place_waves k alg (map raw_of ws) [] [] ≡ ok (positions, whole)
      → AllFound k alg ws positions whole
        × (concat_map (stored_entry k alg) (distinct [] (map raw_of ws)) ≡ ok whole)
  unfolding get
  place_waves-found not_empty ws {positions} {whole} h e = (
    all_found ws positions whole h
        (place_waves-Placed k s alg Known told_apart not_empty (map raw_of ws) [] []
          (all_known ws h) (λ raw position kn q. absurd (cc q)) e).located,
    (let (fresh, f, w) =
          place_waves-Fresh k alg Known told_apart not_empty (map raw_of ws) [] [] []
            (all_known ws h) (λ raw kn. refl) e in
        rw w f),
  )
