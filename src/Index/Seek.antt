-- ===== src/Index/Seek.antt =====
-- python/src/trlog/_index.py: `seek_vc` against the entries in any order.
use trlog.Prelude.{
  ℕ, ◌<◌, ◌≤◌, ◌≡◌, refl, ◌⊎◌, inl, inr, List, [], ◌∷◌, arith, true, false, leb, Option, Bool-cases,
}
use trlog.Wire.Reads.{All}
use trlog.Index.{VcEntry, IndexBlock}
use trlog.Index.Find.{
  Any, Sought, found, missing, tuple_leb, insert_tuple, sort_tuples, first_from, seek_vc,
}

module _ (P : VcEntry → Type 0) where
  insert-All : (x : VcEntry) (ys : List VcEntry) → P x → All P ys → All P (insert_tuple x ys)
  unfolding insert_tuple
  insert-All x [] p a = (p, tt)
  insert-All x (y ∷ ys) p (q, a) = elim (Bool-cases (tuple_leb x y)) [
    | inl t ↦ rw t (p, (q, a))
    | inr t ↦ rw t (q, insert-All x ys p a)
  ]

  All-insert : (x : VcEntry) (ys : List VcEntry) → All P (insert_tuple x ys) → P x × All P ys
  unfolding insert_tuple
  All-insert x [] a = a
  All-insert x (y ∷ ys) a = elim (Bool-cases (tuple_leb x y)) [
    | inl t ↦ rw t at a
    | inr t ↦ later (All-insert x ys) (rw t at a)
  ]
    where
      later :
          (All P (insert_tuple x ys) → P x × All P ys)
          → P y × All P (insert_tuple x ys)
          → P x × All P (y ∷ ys)
      later f (q, b) = ((f b).0, (q, (f b).1))

  sort-All : (xs : List VcEntry) → All P xs → All P (sort_tuples xs)
  unfolding sort_tuples
  sort-All [] a = tt
  sort-All (x ∷ xs) (p, a) = insert-All x (sort_tuples xs) p (sort-All xs a)

  All-sort : (xs : List VcEntry) → All P (sort_tuples xs) → All P xs
  unfolding sort_tuples
  All-sort [] a = tt
  All-sort (x ∷ xs) a = let (p, b) = All-insert x (sort_tuples xs) a in (p, All-sort xs b)

  Any-insert : (x : VcEntry) (ys : List VcEntry) → Any P (insert_tuple x ys) → P x ⊎ Any P ys
  unfolding insert_tuple
  Any-insert x [] a = a
  Any-insert x (y ∷ ys) a = elim (Bool-cases (tuple_leb x y)) [
    | inl t ↦ rw t at a
    | inr t ↦ later (Any-insert x ys) (rw t at a)
  ]
    where
      later :
          (Any P (insert_tuple x ys) → P x ⊎ Any P ys)
          → P y ⊎ Any P (insert_tuple x ys)
          → P x ⊎ Any P (y ∷ ys)
      later f (inl q) = inr (inl q)
      later f (inr b) = elim (f b) [ inl p ↦ inl p | inr c ↦ inr (inr c) ]

  Any-sort : (xs : List VcEntry) → Any P (sort_tuples xs) → Any P xs
  unfolding sort_tuples
  Any-sort [] a = a
  Any-sort (x ∷ xs) a = elim (Any-insert x (sort_tuples xs) a) [
    | inl p ↦ inl p
    | inr b ↦ inr (Any-sort xs b)
  ]

-- In the order of the starts.
abbrev Ordered : List VcEntry → Type 0
Ordered [] = Unit
Ordered (x ∷ xs) = All (λ (y : VcEntry). x.0 ≤ y.0) xs × Ordered xs

tuple_leb-le : (x y : VcEntry) → tuple_leb x y ≡ true → x.0 ≤ y.0
tuple_leb-le (a, b, c) (a', b', c') t = ground (arith, t)

tuple_leb-ge : (x y : VcEntry) → tuple_leb x y ≡ false → y.0 ≤ x.0
tuple_leb-ge (a, b, c) (a', b', c') t = ground (arith, t)

All-from :
    (x y : VcEntry) (ys : List VcEntry)
    → x.0 ≤ y.0
    → All (λ (z : VcEntry). y.0 ≤ z.0) ys
    → All (λ (z : VcEntry). x.0 ≤ z.0) ys
All-from x y [] h a = tt
All-from x y (z ∷ ys) h (l, a) = (omega arith, All-from x y ys h a)

insert-Ordered : (x : VcEntry) (ys : List VcEntry) → Ordered ys → Ordered (insert_tuple x ys)
unfolding insert_tuple
insert-Ordered x [] o = (tt, tt)
insert-Ordered x (y ∷ ys) (l, o) = elim (Bool-cases (tuple_leb x y)) [
  | inl t ↦ rw t ((tuple_leb-le x y t, All-from x y ys (tuple_leb-le x y t) l), (l, o))
  | inr t ↦
      rw t
        (insert-All (λ (z : VcEntry). y.0 ≤ z.0) x ys (tuple_leb-ge x y t) l, insert-Ordered x ys o)
]

sort-Ordered : (xs : List VcEntry) → Ordered (sort_tuples xs)
unfolding sort_tuples
sort-Ordered [] = tt
sort-Ordered (x ∷ xs) = insert-Ordered x (sort_tuples xs) (sort-Ordered xs)

All-least :
    (time : ℕ) (x : VcEntry) (ys : List VcEntry)
    → All (λ (y : VcEntry). x.0 ≤ y.0) ys
    → All (λ (y : VcEntry). time ≤ y.0 → x.0 ≤ y.0) ys
All-least time x [] a = tt
All-least time x (y ∷ ys) (l, a) = (λ h. l, All-least time x ys a)

first_from-Sought :
    (time : ℕ) (xs : List VcEntry) → Ordered xs → Sought time xs (first_from time xs)
unfolding first_from
first_from-Sought time [] o = missing tt
first_from-Sought time ((s, e, off) ∷ xs) (l, o) = elim (Bool-cases (leb time s)) [
  | inl t ↦ rw t (
      found (s, e, off) (ground (arith, t)) (inl refl)
        (λ h. omega arith, All-least time (s, e, off) xs l))
  | inr t ↦ rw t (further (ground (arith, t)) (first_from-Sought time xs o))
]
  where
    further : {o : Option ℕ} → s < time → Sought time xs o → Sought time ((s, e, off) ∷ xs) o
    further h (found x at_time here least) =
        found x at_time (inr here) (λ k. absurd (omega (arith, h, k)), least)
    further h (missing a) = missing (h, a)

-- Whatever the order of the entries, `seek_vc` returns the offset of an entry of the index whose
-- start is the least of those from `time` on, and nothing exactly where every block starts before.
pub seek_vc_lem : (time : ℕ) (b : IndexBlock) → Sought time b.vc_entries (seek_vc time b)
unfolding seek_vc
seek_vc_lem time b =
    back (first_from-Sought time (sort_tuples b.vc_entries) (sort-Ordered b.vc_entries))
  where
    back : {o : Option ℕ} → Sought time (sort_tuples b.vc_entries) o → Sought time b.vc_entries o
    back (found x at_time here least) =
        found x at_time (Any-sort _ b.vc_entries here) (All-sort _ b.vc_entries least)
    back (missing a) = missing (All-sort _ b.vc_entries a)
