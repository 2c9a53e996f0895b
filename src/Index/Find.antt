-- ===== src/Index/Find.antt =====
-- python/src/trlog/_index.py: the look-ups in the index block.
use trlog.Prelude.{
  ℕ, ◌<◌, ◌≤◌, ◌≡◌, ◌⊎◌, inl, inr, List, [], ◌∷◌, arith, Bool, true, false, not, ◌&&◌, ◌||◌, ◌==◌,
  if◌then◌else◌, ltb, leb, Option, none, some, Bool-cases, max,
}
use trlog.Wire.Reads.{All}
use trlog.Index.{VcEntry, TxnEntry, KeyEntry, IndexBlock, has_stream_ids}

module _ {ℓ} {A : Type ℓ} where
  -- `[f(x) for x in xs if p(x)]`
  abbrev pub collect : (A → Bool) → (A → ℕ) → List A → List ℕ
  collect p f [] = []
  collect p f (x ∷ xs) = if p x then f x ∷ collect p f xs else collect p f xs

unfoldable pub find_vc_blocks : ℕ → ℕ → IndexBlock → List ℕ
find_vc_blocks start end b =
    collect (λ ((s, e, off) : VcEntry). leb start e && leb s end) (λ ((s, e, off) : VcEntry). off)
      b.vc_entries

unfoldable pub find_txn_blocks : ℕ → ℕ → IndexBlock → List ℕ
find_txn_blocks start end b =
    collect (λ ((s, e, off, sid) : TxnEntry). leb start e && leb s end)
      (λ ((s, e, off, sid) : TxnEntry). off) b.txn_entries

-- `start is not None and e < start`, and the same for the end
abbrev pub ends_before : Option ℕ → ℕ → Bool
ends_before none e = false
ends_before (some start) e = ltb e start

abbrev pub starts_after : Option ℕ → ℕ → Bool
starts_after none s = false
starts_after (some end) s = ltb end s

-- `all_unknown` is the negation of `has_stream_ids`.
unfoldable pub in_stream : Bool → ℕ → Option ℕ → Option ℕ → TxnEntry → Bool
in_stream all_unknown stream_inst_id start end (s, e, off, sid) =
    if not all_unknown && not (sid == stream_inst_id)
    then false
    else if ends_before start e
    then false
    else not (starts_after end s)

unfoldable pub find_txn_blocks_for_stream : ℕ → Option ℕ → Option ℕ → IndexBlock → List ℕ
unfolding in_stream
find_txn_blocks_for_stream stream_inst_id start end b =
    collect (in_stream (not (has_stream_ids b.txn_entries)) stream_inst_id start end)
      (λ ((s, e, off, sid) : TxnEntry). off) b.txn_entries

-- `sorted` of tuples of three numbers
abbrev pub tuple_leb : ℕ × ℕ × ℕ → ℕ × ℕ × ℕ → Bool
tuple_leb (a, b, c) (a', b', c') = ltb a a' || (a == a' && (ltb b b' || (b == b' && leb c c')))

unfoldable pub insert_tuple : ℕ × ℕ × ℕ → List (ℕ × ℕ × ℕ) → List (ℕ × ℕ × ℕ)
insert_tuple x [] = x ∷ []
insert_tuple x (y ∷ ys) =
    let behind = insert_tuple x ys in if tuple_leb x y then x ∷ y ∷ ys else y ∷ behind

unfoldable pub sort_tuples : List (ℕ × ℕ × ℕ) → List (ℕ × ℕ × ℕ)
unfolding insert_tuple
sort_tuples [] = []
sort_tuples (x ∷ xs) = insert_tuple x (sort_tuples xs)

unfoldable pub first_from : ℕ → List VcEntry → Option ℕ
first_from time [] = none
first_from time ((s, e, off) ∷ entries) = if leb time s then some off else first_from time entries

unfoldable pub seek_vc : ℕ → IndexBlock → Option ℕ
unfolding sort_tuples first_from
seek_vc time b = first_from time (sort_tuples b.vc_entries)

abbrev pub aux_of : ℕ → ℕ → List KeyEntry → List (ℕ × ℕ × ℕ)
aux_of owner key [] = []
aux_of owner key ((own, k, o, off, ln) ∷ entries) =
    if own == owner && k == key
    then (o, off, ln) ∷ aux_of owner key entries
    else aux_of owner key entries

unfoldable pub find_aux : ℕ → ℕ → IndexBlock → List (ℕ × ℕ × ℕ)
unfolding sort_tuples
find_aux owner_stream_id key b = sort_tuples (aux_of owner_stream_id key b.key_entries)

unfoldable pub owned : Option ℕ → List KeyEntry → List KeyEntry
owned none entries = entries
owned (some owner) [] = []
owned (some owner) ((own, k, o, off, ln) ∷ entries) =
    let others = owned (some owner) entries in
    if own == owner then (own, k, o, off, ln) ∷ others else others

unfoldable pub aux_entries : Option ℕ → IndexBlock → List KeyEntry
unfolding owned
aux_entries owner_stream_id b = owned owner_stream_id b.key_entries

-- An element of a list with a property.
abbrev pub Any {ℓ} : {A : Type ℓ} → (A → Type 0) → List A → Type 0
Any P [] = ⊥
Any P (x ∷ xs) = P x ⊎ Any P xs

module _ {ℓ} {A : Type ℓ} (p : A → Bool) (f : A → ℕ) where
  pub collect_sound :
      (n : ℕ) (xs : List A)
      → Any (λ m. m ≡ n) (collect p f xs)
      → Any (λ x. (p x ≡ true) × (f x ≡ n)) xs
  collect_sound n [] h = elim h [ ]
  collect_sound n (x ∷ xs) h = elim (Bool-cases (p x)) [
    | inl t ↦ here t (collect_sound n xs) (rw t at h)
    | inr t ↦ inr (collect_sound n xs (rw t at h))
  ]
    where
      here :
          p x ≡ true
          → (Any (λ m. m ≡ n) (collect p f xs) → Any (λ y. (p y ≡ true) × (f y ≡ n)) xs)
          → (f x ≡ n) ⊎ Any (λ m. m ≡ n) (collect p f xs)
          → Any (λ y. (p y ≡ true) × (f y ≡ n)) (x ∷ xs)
      here t behind (inl e) = inl (t, e)
      here t behind (inr l) = inr (behind l)

  pub collect_complete :
      (n : ℕ) (xs : List A)
      → Any (λ x. (p x ≡ true) × (f x ≡ n)) xs
      → Any (λ m. m ≡ n) (collect p f xs)
  collect_complete n [] h = elim h [ ]
  collect_complete n (x ∷ xs) (inl (t, e)) = rw t (inl e)
  collect_complete n (x ∷ xs) (inr l) = elim (Bool-cases (p x)) [
    | inl t ↦ rw t (inr (collect_complete n xs l))
    | inr t ↦ rw t (collect_complete n xs l)
  ]

pub Any-map {ℓ} :
    {A : Type ℓ} {P Q : A → Type 0} (G : A → Type 0) (xs : List A)
    → All G xs
    → ((x : A) → G x → P x → Q x)
    → Any P xs
    → Any Q xs
Any-map G [] g f h = elim h [ ]
Any-map G (x ∷ xs) (gx, g) f (inl h) = inl (f x gx h)
Any-map G (x ∷ xs) (gx, g) f (inr h) = inr (Any-map G xs g f h)

-- A block's time range is not empty.
abbrev pub IsRange : VcEntry → Type 0
IsRange (s, e, off) = s ≤ e

-- The block has an instant of the window.
abbrev pub Meets : ℕ → ℕ → ℕ → VcEntry → Type 0
Meets start end n (s, e, off) = (t : ℕ) × (s ≤ t) × (t ≤ e) × (start ≤ t) × (t ≤ end) × (off ≡ n)

meeting_at :
    (start end s e off n : ℕ)
    → start ≤ end
    → s ≤ e
    → (leb start e && leb s end) ≡ true
    → off ≡ n
    → Meets start end n (s, e, off)
meeting_at start end s e off n h r q o =
    let before : start ≤ e = ground (arith, q) in
    let behind : s ≤ end = ground (arith, q) in
    (max s start, omega arith, omega arith, omega arith, omega arith, o)

-- In a window that is not empty, over blocks whose ranges are not empty, an offset is found exactly
-- where a block at that offset has an instant of the window.
pub find_vc_blocks_lem :
    (start end n : ℕ) (b : IndexBlock)
    → start ≤ end
    → All IsRange b.vc_entries
    → (Any (λ m. m ≡ n) (find_vc_blocks start end b) → Any (Meets start end n) b.vc_entries)
      × (Any (Meets start end n) b.vc_entries → Any (λ m. m ≡ n) (find_vc_blocks start end b))
unfolding find_vc_blocks
find_vc_blocks_lem start end n b h ranges = (
  λ found.
      Any-map IsRange b.vc_entries ranges
        (λ (s, e, off) r (q, o). meeting_at start end s e off n h r q o)
        (collect_sound _ _ n b.vc_entries found),
  λ meets. collect_complete _ _ n b.vc_entries (
      Any-map IsRange b.vc_entries ranges
        (λ (s, e, off) r (t, st, te, at_start, at_end, o). (ground arith, o)) meets),
)

-- The least start among the entries from `time` on.
pub data Sought (time : ℕ) (entries : List VcEntry) : Option ℕ → Type 0 where
  found :
      (x : VcEntry)
      → time ≤ x.0
      → Any (λ y. y ≡ x) entries
      → All (λ (y : VcEntry). time ≤ y.0 → x.0 ≤ y.0) entries
      → Sought time entries (some x.2)
  missing : All (λ (y : VcEntry). y.0 < time) entries → Sought time entries none
