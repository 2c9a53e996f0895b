-- ===== src/Vc/Valid.antt =====
-- python/src/trlog/_vc_data.py: what holds of a VcDataBlock as its changes are collected.
use trlog.Prelude.{
  ℕ, ◌≤◌, ◌≡◌, refl, sym, ap, ◌∙◌, List, [], ◌∷◌, ◌++◌, Bool, ltb, ◌==◌, ==_iff, if◌then◌else◌,
  Bool-cases, Option, none, some, Option-cases, ◌⊎◌, inl, inr, arith,
}
use trlog.Prelude.Dict.{Dict, get, put, nat_eq, get-put, get-put_self}
use trlog.Wire.Reads.{All}
use trlog.Vc.{Sample}
use trlog.Vc.Stored.{WaveAlg}
use trlog.Vc.Payload.{SigTypes, ChangeMap}
use trlog.Vc.Block.{VcDataBlock, vc_data_block, set_initial, add_change, changes_at, with_first}

abbrev NotAfter : ℕ → ℕ × Sample → Type 0
NotAfter end_time c = c.0 ≤ end_time

pub record IsValid (b : VcDataBlock) : Type 0 where
  pub starts : b.start_time ≤ b.end_time
  pub bounded :
      (var_id : ℕ) (cs : List (ℕ × Sample))
      → get b.changes var_id ≡ some cs
      → All (NotAfter b.end_time) cs
  pub initial :
      (var_id : ℕ) (cs : List (ℕ × Sample))
      → get b.changes var_id ≡ some cs
      → (v : Sample) × (get b.init_values var_id ≡ some v)

All-later : (m n : ℕ) (cs : List (ℕ × Sample)) → m ≤ n → All (NotAfter m) cs → All (NotAfter n) cs
All-later m n [] h a = tt
All-later m n (c ∷ cs) h (a, rest) = (omega arith, All-later m n cs h rest)

All-last :
    (n : ℕ) (cs : List (ℕ × Sample)) (c : ℕ × Sample)
    → All (NotAfter n) cs
    → c.0 ≤ n
    → All (NotAfter n) (cs ++ (c ∷ []))
All-last n [] c a h = (h, tt)
All-last n (d ∷ cs) c (a, rest) h = (a, All-last n cs c rest h)

-- An entry after another was put in.
put-cases :
    {A : Type 0} (d : Dict ℕ A) (k j : ℕ) (v w : A)
    → get (put d k v) j ≡ some w
    → ((k ≡ j) × (v ≡ w)) ⊎ (get d j ≡ some w)
put-cases d k j v w e =
    let now : (if k == j then some v else get d j) ≡ some w = sym (get-put d k j v) ∙ e in
    elim (Bool-cases (k == j)) [
      | inl q ↦ inl ((==_iff k j).0 q, cc (rw q at now))
      | inr q ↦ inr (rw q at now)
    ]

put-found :
    {A : Type 0} (d : Dict ℕ A) (k j : ℕ) (v w : A)
    → get d j ≡ some w
    → (u : A) × (get (put d k v) j ≡ some u)
put-found d k j v w e = elim (Bool-cases (k == j)) [
  | inl q ↦ (v, get-put d k j v ∙ rw q refl)
  | inr q ↦ (w, get-put d k j v ∙ rw (q, e) refl)
]

with_first-none :
    (d : Dict ℕ Sample) (k : ℕ) (v : Sample) → get d k ≡ none → with_first d k v ≡ put d k v
with_first-none d k v q = ap (λ (o : Option Sample). elim o [ none ↦ put d k v | some u ↦ d ]) q

with_first-some :
    (d : Dict ℕ Sample) (k : ℕ) (v : Sample) {u : Sample} → get d k ≡ some u → with_first d k v ≡ d
with_first-some d k v q = ap (λ (o : Option Sample). elim o [ none ↦ put d k v | some u ↦ d ]) q

changes_at-none : (d : ChangeMap) (k : ℕ) → get d k ≡ none → changes_at d k ≡ []
changes_at-none d k q =
    ap (λ (o : Option (List (ℕ × Sample))). elim o [ none ↦ [] | some cs ↦ cs ]) q

changes_at-some :
    (d : ChangeMap) (k : ℕ) {cs : List (ℕ × Sample)} → get d k ≡ some cs → changes_at d k ≡ cs
changes_at-some d k q =
    ap (λ (o : Option (List (ℕ × Sample))). elim o [ none ↦ [] | some cs ↦ cs ]) q

with_first-kept :
    (d : Dict ℕ Sample) (k j : ℕ) (v w : Sample)
    → get d j ≡ some w
    → (u : Sample) × (get (with_first d k v) j ≡ some u)
with_first-kept d k j v w e = elim (Option-cases (get d k)) [
  | inl q ↦ (let (u, found) = put-found d k j v w e in (u, rw (with_first-none d k v q) found))
  | inr (x, q) ↦ (w, rw (with_first-some d k v q) e)
]

with_first_self :
    (d : Dict ℕ Sample) (k : ℕ) (v : Sample) → (u : Sample) × (get (with_first d k v) k ≡ some u)
with_first_self d k v = elim (Option-cases (get d k)) [
  | inl q ↦ (v, rw (with_first-none d k v q) (get-put_self d k v))
  | inr (x, q) ↦ (x, rw (with_first-some d k v q) q)
]

changes_at-bounded :
    (b : VcDataBlock) (var_id n : ℕ)
    → IsValid b
    → b.end_time ≤ n
    → All (NotAfter n) (changes_at b.changes var_id)
changes_at-bounded b var_id n v h = elim (Option-cases (get b.changes var_id)) [
  | inl q ↦ rw (changes_at-none b.changes var_id q) tt
  | inr (cs, q) ↦
      rw (changes_at-some b.changes var_id q) (All-later b.end_time n cs h (v.bounded var_id cs q))
]

vc_data_block-IsValid :
    (start_time : ℕ) (sig_types : SigTypes) (compress use_zstd time_table waves : Bool)
    (alg : WaveAlg) (seekable : Bool)
    → IsValid (vc_data_block start_time sig_types compress use_zstd time_table waves alg seekable)
unfolding vc_data_block get
vc_data_block-IsValid start_time sig_types compress use_zstd time_table waves alg seekable =
    record {
      starts = omega arith;
      bounded = λ var_id cs e. absurd (cc e);
      initial = λ var_id cs e. absurd (cc e);
    }

set_initial-IsValid :
    (k : ℕ) (v : Sample) (b : VcDataBlock) → IsValid b → IsValid (set_initial k v b)
unfolding set_initial
set_initial-IsValid k v b h = record {
  starts = h.starts;
  bounded = h.bounded;
  initial = λ var_id cs e.
      let (w, found) = h.initial var_id cs e in put-found b.init_values k var_id v w found;
}

later : (a b : ℕ) → (a ≤ (if ltb a b then b else a)) × (b ≤ (if ltb a b then b else a))
later a b = (ground arith, ground arith)

add_change-IsValid :
    (k time : ℕ) (v : Sample) (b : VcDataBlock) → IsValid b → IsValid (add_change k time v b)
unfolding add_change
add_change-IsValid k time v b h =
    let (kept, reached) = later b.end_time time in
    record {
      starts = omega (arith, h.starts, kept);
      bounded = λ var_id cs e.
          elim (put-cases b.changes k var_id (changes_at b.changes k ++ ((time, v) ∷ [])) cs e) [
            | inl (same, new) ↦ rw new at (
                All-last _ (changes_at b.changes k) (time, v) (changes_at-bounded b k _ h kept)
                  reached)
            | inr old ↦ All-later b.end_time _ cs kept (h.bounded var_id cs old)
          ];
      initial = λ var_id cs e.
          elim (put-cases b.changes k var_id (changes_at b.changes k ++ ((time, v) ∷ [])) cs e) [
            | inl (same, new) ↦ rw (← same) (with_first_self b.init_values k v)
            | inr old ↦
                let (w, found) = h.initial var_id cs old in
                with_first-kept b.init_values k var_id v w found
          ];
    }

-- A call of a method that collects.
pub data Step : VcDataBlock → VcDataBlock → Type 0 where
  sets : (var_id : ℕ) (v : Sample) (b : VcDataBlock) → Step b (set_initial var_id v b)
  adds : (var_id time : ℕ) (v : Sample) (b : VcDataBlock) → Step b (add_change var_id time v b)

pub data Collected : VcDataBlock → Type 0 where
  new :
      (start_time : ℕ) (sig_types : SigTypes) (compress use_zstd time_table waves : Bool)
      (alg : WaveAlg) (seekable : Bool)
      → Collected
          (vc_data_block start_time sig_types compress use_zstd time_table waves alg seekable)
  next : (b b' : VcDataBlock) → Collected b → Step b b' → Collected b'

Step-IsValid : (b b' : VcDataBlock) → Step b b' → IsValid b → IsValid b'
Step-IsValid b _ (sets var_id v _) h = set_initial-IsValid var_id v b h
Step-IsValid b _ (adds var_id time v _) h = add_change-IsValid var_id time v b h

-- However its changes were collected, a block ends no earlier than it starts and no earlier than any
-- change in it, and every variable that changes has an initial value.
pub Collected-IsValid : (b : VcDataBlock) → Collected b → IsValid b
Collected-IsValid _ (new start_time sig_types compress use_zstd time_table waves alg seekable) =
    vc_data_block-IsValid start_time sig_types compress use_zstd time_table waves alg seekable
Collected-IsValid b (next before _ c s) = Step-IsValid before b s (Collected-IsValid before c)
