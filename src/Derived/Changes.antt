-- ===== src/Derived/Changes.antt =====
-- python/src/trlog/_derived.py: `evaluate_changes`, the derived signal's changes at the union of
-- the inputs' change times.
use trlog.Prelude.{
  ℕ, ◌<◌, ◌≤◌, ◌≡◌, refl, sym, List, [], ◌∷◌, map, arith, Bool, false, ◌==◌, if◌then◌else◌, ltb,
  leb, Option, none, some, Bool-cases, inl, inr,
}
use trlog.Prelude.Int.{ℤ, pos}
use trlog.Wire.{Result, ok, bind}
use trlog.Wire.Reads.{All}
use trlog.Derived.Opcodes.{bind_cong}
use trlog.Derived.{DerivedDef, eval_bytecode, eq_ℤ}

abbrev pub Changes : Type 0
Changes = List (ℕ × ℤ)

-- `sorted({t for changes in input_changes for t, _ in changes})`
unfoldable pub insert_time : ℕ → List ℕ → List ℕ
insert_time t [] = t ∷ []
insert_time t (u ∷ us) =
    if t == u then u ∷ us else if ltb t u then t ∷ u ∷ us else u ∷ insert_time t us

unfoldable pub times_of : Changes → List ℕ → List ℕ
unfolding insert_time
times_of [] us = us
times_of ((t, v) ∷ changes) us = insert_time t (times_of changes us)

unfoldable pub union_times : List Changes → List ℕ
unfolding times_of
union_times [] = []
union_times (changes ∷ input_changes) = times_of changes (union_times input_changes)

-- An input's current value, and the changes from its cursor on.
abbrev pub Cursor : Type 0
Cursor = ℤ × Changes

-- `while c < len(changes) and changes[c][0] <= t`
unfoldable pub advance : ℕ → Cursor → Cursor
advance t (cur, []) = (cur, [])
advance t (cur, (u, v) ∷ changes) =
    let more = advance t (v, changes) in if leb u t then more else (cur, (u, v) ∷ changes)

abbrev pub is_last : Option ℤ → ℤ → Bool
is_last none val = false
is_last (some last) val = eq_ℤ val last

unfoldable pub sweep : DerivedDef → List ℕ → List Cursor → Option ℤ → Result Changes
unfolding advance
sweep defn [] cursors last = ok []
sweep defn (t ∷ times) cursors last =
    let moved = map (advance t) cursors in
    bind (eval_bytecode defn.bytecode (map (λ c. c.0) moved) defn.bit_width) λ val.
      bind (sweep defn times moved (some val))
        λ out. ok (if is_last last val then out else (t, val) ∷ out)

abbrev pub start : Changes → Cursor
start changes = (pos 0, changes)

unfoldable pub evaluate_changes : DerivedDef → List Changes → Result Changes
unfolding sweep union_times
evaluate_changes defn input_changes =
    sweep defn (union_times input_changes) (map start input_changes) none

-- The value that a change list gives at a time: that of the last change up to it, of any order.
pub value_at : ℕ → Cursor → ℤ
value_at t (cur, []) = cur
value_at t (cur, (u, v) ∷ changes) =
    let taken = value_at t (v, changes) in
    let left = value_at t (cur, changes) in if leb u t then taken else left

-- The changes without cursors: at each time the expression over the inputs' values then.
unfoldable pub sampled : DerivedDef → List ℕ → List Cursor → Option ℤ → Result Changes
sampled defn [] inputs last = ok []
sampled defn (t ∷ times) inputs last =
    bind (eval_bytecode defn.bytecode (map (value_at t) inputs) defn.bit_width) λ val.
      bind (sampled defn times inputs (some val))
        λ out. ok (if is_last last val then out else (t, val) ∷ out)

abbrev pub Sorted : Changes → Type 0
Sorted [] = Unit
Sorted ((u, v) ∷ changes) = All (λ (p : ℕ × ℤ). u ≤ p.0) changes × Sorted changes

abbrev pub Ascending : List ℕ → Type 0
Ascending [] = Unit
Ascending (t ∷ ts) = All (λ u. t < u) ts × Ascending ts

value_at-before :
    (t u : ℕ) (cur : ℤ) (changes : Changes)
    → t < u
    → All (λ (p : ℕ × ℤ). u ≤ p.0) changes
    → value_at t (cur, changes) ≡ cur
unfolding value_at
value_at-before t u cur [] h a = refl
value_at-before t u cur ((w, v) ∷ changes) h (l, a) =
    ground (arith, value_at-before t u cur changes h a)

advance_value :
    (t : ℕ) (cur : ℤ) (changes : Changes)
    → Sorted changes
    → (advance t (cur, changes)).0 ≡ value_at t (cur, changes)
unfolding value_at advance
advance_value t cur [] s = refl
advance_value t cur ((u, v) ∷ changes) (a, s) = elim (Bool-cases (leb u t)) [
  | inl taken ↦ rw taken (advance_value t v changes s)
  | inr left ↦ rw left (sym (value_at-before t u cur changes (ground (arith, left)) a))
]

advance_later :
    (t later : ℕ) (cur : ℤ) (changes : Changes)
    → t ≤ later
    → value_at later (advance t (cur, changes)) ≡ value_at later (cur, changes)
unfolding value_at advance
advance_later t later cur [] h = refl
advance_later t later cur ((u, v) ∷ changes) h = ground (arith, advance_later t later v changes h)

advance-Sorted :
    (t : ℕ) (cur : ℤ) (changes : Changes) → Sorted changes → Sorted (advance t (cur, changes)).1
unfolding advance
advance-Sorted t cur [] s = s
advance-Sorted t cur ((u, v) ∷ changes) (a, s) = elim (Bool-cases (leb u t)) [
  | inl taken ↦ rw taken (advance-Sorted t v changes s)
  | inr left ↦ rw left (a, s)
]

values_now :
    (t : ℕ) (cursors : List Cursor)
    → All (λ (c : Cursor). Sorted c.1) cursors
    → map (λ (c : Cursor). c.0) (map (advance t) cursors) ≡ map (value_at t) cursors
values_now t [] h = refl
values_now t ((cur, changes) ∷ cursors) (s, h) =
    rw (advance_value t cur changes s, values_now t cursors h)

map-advance-Sorted :
    (t : ℕ) (cursors : List Cursor)
    → All (λ (c : Cursor). Sorted c.1) cursors
    → All (λ (c : Cursor). Sorted c.1) (map (advance t) cursors)
map-advance-Sorted t [] h = tt
map-advance-Sorted t ((cur, changes) ∷ cursors) (s, h) =
    (advance-Sorted t cur changes s, map-advance-Sorted t cursors h)

values_later :
    (t later : ℕ) (cursors : List Cursor)
    → t ≤ later
    → map (value_at later) (map (advance t) cursors) ≡ map (value_at later) cursors
values_later t later [] h = refl
values_later t later ((cur, changes) ∷ cursors) h =
    rw (advance_later t later cur changes h, values_later t later cursors h)

-- Moved cursors give the same samples from their time on.
sampled-advance :
    (defn : DerivedDef) (t : ℕ) (times : List ℕ) (cursors : List Cursor) (last : Option ℤ)
    → All (λ u. t < u) times
    → sampled defn times (map (advance t) cursors) last ≡ sampled defn times cursors last
unfolding sampled
sampled-advance defn t [] cursors last h = refl
sampled-advance defn t (u ∷ times) cursors last (l, h) =
    rw (values_later t u cursors (omega arith)) (
      bind_cong (eval_bytecode defn.bytecode (map (value_at u) cursors) defn.bit_width)
        (λ val. rw (sampled-advance defn t times cursors (some val) h)))

sweep-sampled :
    (defn : DerivedDef) (times : List ℕ) (cursors : List Cursor) (last : Option ℤ)
    → Ascending times
    → All (λ (c : Cursor). Sorted c.1) cursors
    → sweep defn times cursors last ≡ sampled defn times cursors last
unfolding sweep sampled
sweep-sampled defn [] cursors last a h = refl
sweep-sampled defn (t ∷ times) cursors last (l, a) h = rw (values_now t cursors h) (
    bind_cong (eval_bytecode defn.bytecode (map (value_at t) cursors) defn.bit_width) (λ val. rw (
      sweep-sampled defn times (map (advance t) cursors) (some val) a
          (map-advance-Sorted t cursors h),
      sampled-advance defn t times cursors (some val) l,
    )))

insert_time-All :
    (t x : ℕ) (us : List ℕ) → x < t → All (λ u. x < u) us → All (λ u. x < u) (insert_time t us)
unfolding insert_time
insert_time-All t x [] h a = (h, tt)
insert_time-All t x (u ∷ us) h (l, a) = elim (Bool-cases (t == u)) [
  | inl same ↦ rw same (l, a)
  | inr other ↦ elim (Bool-cases (ltb t u)) [
    | inl before ↦ rw (other, before) (h, (l, a))
    | inr behind ↦ rw (other, behind) (l, insert_time-All t x us h a)
  ]
]

All-below : (t u : ℕ) (us : List ℕ) → t < u → All (λ x. u < x) us → All (λ x. t < x) us
All-below t u [] h a = tt
All-below t u (x ∷ us) h (l, a) = (omega arith, All-below t u us h a)

insert_time-Ascending : (t : ℕ) (us : List ℕ) → Ascending us → Ascending (insert_time t us)
unfolding insert_time
insert_time-Ascending t [] a = (tt, tt)
insert_time-Ascending t (u ∷ us) (l, a) = elim (Bool-cases (t == u)) [
  | inl same ↦ rw same (l, a)
  | inr other ↦ elim (Bool-cases (ltb t u)) [
    | inl before ↦
        rw (other, before)
          ((ground (arith, before), All-below t u us (ground (arith, before)) l), (l, a))
    | inr behind ↦
        rw (other, behind)
          (insert_time-All t u us (ground (arith, other, behind)) l, insert_time-Ascending t us a)
  ]
]

times_of-Ascending :
    (changes : Changes) (us : List ℕ) → Ascending us → Ascending (times_of changes us)
unfolding times_of
times_of-Ascending [] us a = a
times_of-Ascending ((t, v) ∷ changes) us a =
    insert_time-Ascending t _ (times_of-Ascending changes us a)

pub union_times-Ascending : (input_changes : List Changes) → Ascending (union_times input_changes)
unfolding union_times
union_times-Ascending [] = tt
union_times-Ascending (changes ∷ input_changes) =
    times_of-Ascending changes _ (union_times-Ascending input_changes)

start-Sorted :
    (input_changes : List Changes)
    → All Sorted input_changes
    → All (λ (c : Cursor). Sorted c.1) (map start input_changes)
start-Sorted [] h = tt
start-Sorted (changes ∷ input_changes) (s, h) = (s, start-Sorted input_changes h)

-- The sweep with cursors and the evaluation at each time are the same.
pub evaluate_changes-sampled :
    (defn : DerivedDef) (input_changes : List Changes)
    → All Sorted input_changes
    → evaluate_changes defn input_changes
      ≡ sampled defn (union_times input_changes) (map start input_changes) none
unfolding evaluate_changes
evaluate_changes-sampled defn input_changes h =
    sweep-sampled defn (union_times input_changes) (map start input_changes) none
      (union_times-Ascending input_changes) (start-Sorted input_changes h)
