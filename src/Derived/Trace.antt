-- ===== src/Derived/Trace.antt =====
-- python/src/trlog/_derived.py: `evaluate_changes`, what the list of the derived signal's changes is.
use trlog.Prelude.{
  ℕ, ◌<◌, ◌≡◌, ◌≢◌, refl, sym, ◌∙◌, ap, List, [], ◌∷◌, map, arith, true, false, if◌then◌else◌, leb,
  Option, none, some, Bool-cases, ◌⊎◌, inl, inr,
}
use trlog.Prelude.Int.{ℤ, pos, negsuc}
use trlog.Wire.{Result, ok, err, bind, bind-eq-ok}
use trlog.Wire.Reads.{All}
use trlog.Derived.{DerivedDef, eval_bytecode, eq_ℤ}
use trlog.Derived.Changes.{
  Changes, Cursor, union_times, evaluate_changes, is_last, start, value_at, sampled, Ascending,
  Sorted, union_times-Ascending, evaluate_changes-sampled,
}
use trlog.Derived.Times.{
  IsChangeTime, AtTimes, All-map, change_times, union_times-split, union_times-holds,
}

-- The expression over the values that the inputs have at the time, 0 before their first changes.
abbrev pub value_then : DerivedDef → List Changes → ℕ → Result ℤ
value_then defn input_changes t =
    eval_bytecode defn.bytecode (map (λ changes. value_at t (pos 0, changes)) input_changes)
      defn.bit_width

-- The value of the last change up to a time.
abbrev pub held : ℕ → Option ℤ → Changes → Option ℤ
held t last [] = last
held t last ((u, v) ∷ out) =
    let taken = held t (some v) out in let left = held t last out in if leb u t then taken else left

-- Each value differs from the one before.
abbrev pub Differs : Option ℤ → ℤ → Type 0
Differs none v = Unit
Differs (some last) v = v ≢ last

abbrev pub Alternating : Option ℤ → Changes → Type 0
Alternating last [] = Unit
Alternating last ((t, v) ∷ out) = Differs last v × Alternating (some v) out

abbrev pub Rising : Changes → Type 0
Rising [] = Unit
Rising ((t, v) ∷ out) = All (λ (p : ℕ × ℤ). t < p.0) out × Rising out

-- The change list `out` has at the time the value that the evaluation gives.
abbrev pub Shows : (ℕ → Result ℤ) → Option ℤ → Changes → ℕ → Type 0
Shows eval last out t = (v : ℤ) × (eval t ≡ ok v) × (held t last out ≡ some v)

abbrev pub Trace : DerivedDef → List Changes → Result Changes → Type 0
Trace defn input_changes (ok out) =
    Rising out
    × Alternating none out
    × All (λ (p : ℕ × ℤ). IsChangeTime input_changes p.0) out
    × All
        (λ changes. All (λ (p : ℕ × ℤ). Shows (value_then defn input_changes) none out p.0) changes)
        input_changes
Trace defn input_changes (err e) =
    (t : ℕ) × IsChangeTime input_changes t × (value_then defn input_changes t ≡ err e)

held-before :
    (t : ℕ) (last : Option ℤ) (out : Changes)
    → All (λ (p : ℕ × ℤ). t < p.0) out
    → held t last out ≡ last
held-before t last [] h = refl
held-before t last ((u, v) ∷ out) (l, h) = ground (arith, l, held-before t last out h)

differs : (last : Option ℤ) (v : ℤ) → is_last last v ≡ false → Differs last v
unfolding eq_ℤ
differs none v q = tt
differs (some last) (pos a) q = λ same. apart last same q
  where
    apart : (w : ℤ) → pos a ≡ w → eq_ℤ (pos a) w ≡ false → ⊥
    apart w e f = ground (arith, rw (← e) at f)
differs (some last) (negsuc a) q = λ same. apart last same q
  where
    apart : (w : ℤ) → negsuc a ≡ w → eq_ℤ (negsuc a) w ≡ false → ⊥
    apart w e f = ground (arith, rw (← e) at f)

equal_ℤ : (v w : ℤ) → eq_ℤ v w ≡ true → w ≡ v
unfolding eq_ℤ
equal_ℤ (pos a) (pos b) q = ground (arith, q)
equal_ℤ (pos a) (negsuc b) q = absurd (cc q)
equal_ℤ (negsuc a) (pos b) q = absurd (cc q)
equal_ℤ (negsuc a) (negsuc b) q = ground (arith, q)

unchanged : (last : Option ℤ) (v : ℤ) → is_last last v ≡ true → last ≡ some v
unchanged none v q = absurd (cc q)
unchanged (some last) v q = ap some (equal_ℤ v last q)

bind-eq-err {ℓ κ} :
    {A : Type ℓ} {B : Type κ} (r : Result A) (f : A → Result B) {e : _}
    → bind r f ≡ err e
    → (r ≡ err e) ⊎ ((a : A) × (r ≡ ok a) × (f a ≡ err e))
bind-eq-err (ok a) f h = inr (a, refl, h)
bind-eq-err (err x) f h = inl (cc h)

module _ (defn : DerivedDef) (cursors : List Cursor) where
  abbrev eval_at : ℕ → Result ℤ
  eval_at t = eval_bytecode defn.bytecode (map (value_at t) cursors) defn.bit_width

  record IsTrace (times : List ℕ) (last : Option ℤ) (out : Changes) : Type 0 where
    pub rising : Rising out
    pub alternating : Alternating last out
    pub shows : All (Shows eval_at last out) times

  sampled-among :
      (P : ℕ → Type 0) (times : List ℕ) (last : Option ℤ) {out : Changes}
      → All P times
      → sampled defn times cursors last ≡ ok out
      → AtTimes P out
  unfolding sampled
  sampled-among P [] last {out} h e = let same : [] ≡ out = cc e in rw (← same) tt
  sampled-among P (t ∷ times) last {out} (p, h) e =
      let (val, d, e1) = bind-eq-ok (eval_at t) _ e in
      let (behind, f, e2) = bind-eq-ok (sampled defn times cursors (some val)) _ e1 in
      let rest = sampled-among P times (some val) h f in
      elim (Bool-cases (is_last last val)) [
        | inl q ↦ let same : behind ≡ out = cc (rw q at e2) in rw (← same) rest
        | inr q ↦ let same : (t, val) ∷ behind ≡ out = cc (rw q at e2) in rw (← same) (p, rest)
      ]

  later-Shows :
      (t u : ℕ) (last : Option ℤ) (val : ℤ) (out : Changes)
      → t < u
      → Shows eval_at (some val) out u
      → Shows eval_at last ((t, val) ∷ out) u
  later-Shows t u last val out l (v, d, h) = (v, d, ground (arith, l, h))

  All-later :
      (t : ℕ) (last : Option ℤ) (val : ℤ) (out : Changes) (times : List ℕ)
      → All (λ u. t < u) times
      → All (Shows eval_at (some val) out) times
      → All (Shows eval_at last ((t, val) ∷ out)) times
  All-later t last val out [] l h = tt
  All-later t last val out (u ∷ times) (l, ls) (h, hs) =
      (later-Shows t u last val out l h, All-later t last val out times ls hs)

  IsTrace-kept :
      (t : ℕ) (times : List ℕ) (last : Option ℤ) (val : ℤ) (out : Changes)
      → eval_at t ≡ ok val
      → last ≡ some val
      → All (λ (p : ℕ × ℤ). t < p.0) out
      → IsTrace times (some val) out
      → IsTrace (t ∷ times) last out
  IsTrace-kept t times last val out d same below h = rw same (record {
    rising = h.rising;
    alternating = h.alternating;
    shows = ((val, d, held-before t (some val) out below), h.shows);
  })

  IsTrace-changed :
      (t : ℕ) (times : List ℕ) (last : Option ℤ) (val : ℤ) (out : Changes)
      → eval_at t ≡ ok val
      → is_last last val ≡ false
      → All (λ u. t < u) times
      → All (λ (p : ℕ × ℤ). t < p.0) out
      → IsTrace times (some val) out
      → IsTrace (t ∷ times) last ((t, val) ∷ out)
  IsTrace-changed t times last val out d new l below h = record {
    rising = (below, h.rising);
    alternating = (differs last val new, h.alternating);
    shows = (
      (val, d, ground (arith, held-before t (some val) out below)),
      All-later t last val out times l h.shows,
    );
  }

  sampled-IsTrace :
      (times : List ℕ) (last : Option ℤ) {out : Changes}
      → Ascending times
      → sampled defn times cursors last ≡ ok out
      → IsTrace times last out
  unfolding sampled
  sampled-IsTrace [] last {out} a e =
      let same : [] ≡ out = cc e in
      rw (← same) (record { rising = tt; alternating = tt; shows = tt })
  sampled-IsTrace (t ∷ times) last {out} (l, a) e =
      let (val, d, e1) = bind-eq-ok (eval_at t) _ e in
      let (behind, f, e2) = bind-eq-ok (sampled defn times cursors (some val)) _ e1 in
      let below = sampled-among (λ u. t < u) times (some val) l f in
      let rest = sampled-IsTrace times (some val) a f in
      elim (Bool-cases (is_last last val)) [
        | inl q ↦
            let same : behind ≡ out = cc (rw q at e2) in
            rw (← same) (IsTrace-kept t times last val behind d (unchanged last val q) below rest)
        | inr q ↦
            let same : (t, val) ∷ behind ≡ out = cc (rw q at e2) in
            rw (← same) (IsTrace-changed t times last val behind d q l below rest)
      ]

  sampled-fails :
      (P : ℕ → Type 0) (times : List ℕ) (last : Option ℤ) {e : _}
      → All P times
      → sampled defn times cursors last ≡ err e
      → (t : ℕ) × P t × (eval_at t ≡ err e)
  unfolding sampled
  sampled-fails P [] last h e = absurd (cc e)
  sampled-fails P (t ∷ times) last (p, h) e = elim (bind-eq-err (eval_at t) _ e) [
    | inl here ↦ (t, p, here)
    | inr (val, d, e1) ↦ elim (bind-eq-err (sampled defn times cursors (some val)) _ e1) [
      | inl later ↦ sampled-fails P times (some val) h later
      | inr (out, f, e2) ↦ absurd (cc e2)
    ]
  ]

started :
    (t : ℕ) (input_changes : List Changes)
    → map (value_at t) (map start input_changes)
      ≡ map (λ changes. value_at t (pos 0, changes)) input_changes
started t [] = refl
started t (changes ∷ input_changes) = rw (started t input_changes) refl

module _ (defn : DerivedDef) (input_changes : List Changes) where
  evaluated : (t : ℕ) → value_then defn input_changes t ≡ eval_at defn (map start input_changes) t
  evaluated t = rw (started t input_changes) refl

  sampled-Trace :
      (r : Result Changes)
      → sampled defn (union_times input_changes) (map start input_changes) none ≡ r
      → Trace defn input_changes r
  sampled-Trace (ok out) e =
      let trace =
        sampled-IsTrace defn (map start input_changes) (union_times input_changes) none
          (union_times-Ascending input_changes) e in
      (
        trace.rising,
        trace.alternating,
        sampled-among defn (map start input_changes) (IsChangeTime input_changes)
            (union_times input_changes) none
            (union_times-holds (IsChangeTime input_changes) input_changes
              (change_times input_changes))
            e,
        union_times-split (Shows (value_then defn input_changes) none out) input_changes (
            All-map _ _ (λ t (v, d, h). (v, evaluated t ∙ d, h)) (union_times input_changes)
              trace.shows),
      )
  sampled-Trace (err x) e =
      let (t, p, d) =
        sampled-fails defn (map start input_changes) (IsChangeTime input_changes)
          (union_times input_changes) none
          (union_times-holds (IsChangeTime input_changes) input_changes
            (change_times input_changes))
          e in
      (t, p, evaluated t ∙ d)

-- On inputs whose changes are in order of time, the result is a list of changes at rising times, each
-- a change time of an input and each with a value other than the one before, such that at every
-- change time of an input the last change of the list up to it has the value of the expression over
-- the inputs' values at that time, 0 before an input's first change; or the error is one that the
-- expression gives at a change time.
pub evaluate_changes_lem :
    (defn : DerivedDef) (input_changes : List Changes)
    → All Sorted input_changes
    → Trace defn input_changes (evaluate_changes defn input_changes)
evaluate_changes_lem defn input_changes h =
    sampled-Trace defn input_changes (evaluate_changes defn input_changes)
      (sym (evaluate_changes-sampled defn input_changes h))
