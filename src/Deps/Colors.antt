-- ===== src/Deps/Colors.antt =====
-- The colours of the search, and how many nodes are still white.
use trlog.Prelude.{
  ℕ, ◌+◌, ◌<◌, ◌≤◌, ◌≡◌, ◌≢◌, refl, ◌⊎◌, inl, inr, List, [], ◌∷◌, arith, false, ◌==◌, Bool-cases,
  length,
}
use trlog.Prelude.Dict.{put, nat_eq, get-put_self, get-put_ne}
use trlog.Deps.{Color, white, gray, black, Search, color_of}
use trlog.Deps.Lists.{In}

pub Color-cases : (c : Color) → (c ≡ white) ⊎ ((c ≡ gray) ⊎ (c ≡ black))
Color-cases white = inl refl
Color-cases gray = inr (inl refl)
Color-cases black = inr (inr refl)

abbrev pub one_if_white : Color → ℕ
one_if_white white = 1
one_if_white gray = 0
one_if_white black = 0

-- The nodes of a list that are still white.
pub whites : Search → List ℕ → ℕ
whites s [] = 0
whites s (n ∷ ns) = one_if_white (color_of s n) + whites s ns

abbrev pub painted : ℕ → Color → Search → List ℕ → Search
painted n c s p = record { color = put s.color n c; path = p }

pub color_of-painted_self :
    (n : ℕ) (c : Color) (s : Search) (p : List ℕ) → color_of (painted n c s p) n ≡ c
unfolding color_of
color_of-painted_self n c s p = rw (get-put_self s.color n c)

pub color_of-painted_ne :
    (n m : ℕ) (c : Color) (s : Search) (p : List ℕ)
    → n ≢ m
    → color_of (painted n c s p) m ≡ color_of s m
unfolding color_of
color_of-painted_ne n m c s p h = rw (get-put_ne s.color n m c h)

-- A coat of gray or black makes no node white.
one_if_white-painted :
    (n m : ℕ) (c : Color) (s : Search) (p : List ℕ)
    → one_if_white c ≡ 0
    → one_if_white (color_of (painted n c s p) m) ≤ one_if_white (color_of s m)
one_if_white-painted n m c s p h = elim (Bool-cases (n == m)) [
  | inl same ↦ rw (this (ground (arith, same)), h) (omega arith)
  | inr other ↦ rw (color_of-painted_ne n m c s p (differ other)) (omega arith)
]
  where
    differ : (n == m) ≡ false → n ≢ m
    differ t e = ground (arith, t, e)

    this : n ≡ m → color_of (painted n c s p) m ≡ c
    this e = rw e (color_of-painted_self m c s p)

pub whites-painted :
    (n : ℕ) (c : Color) (s : Search) (p ns : List ℕ)
    → one_if_white c ≡ 0
    → whites (painted n c s p) ns ≤ whites s ns
unfolding whites
whites-painted n c s p [] h = omega arith
whites-painted n c s p (m ∷ ns) h =
    omega (arith, one_if_white-painted n m c s p h, whites-painted n c s p ns h)

pub whites-fewer :
    (n : ℕ) (c : Color) (s : Search) (p ns : List ℕ)
    → one_if_white c ≡ 0
    → color_of s n ≡ white
    → In n ns
    → whites (painted n c s p) ns < whites s ns
unfolding whites
whites-fewer n c s p [] h w i = elim i [ ]
whites-fewer n c s p (m ∷ ns) h w (inl e) = omega (arith, was, is, whites-painted n c s p ns h)
  where
    was : one_if_white (color_of s m) ≡ 1
    was = rw (e, w)

    is : one_if_white (color_of (painted n c s p) m) ≡ 0
    is = rw (e, color_of-painted_self n c s p, h)
whites-fewer n c s p (m ∷ ns) h w (inr i) =
    omega (arith, one_if_white-painted n m c s p h, whites-fewer n c s p ns h w i)

pub whites-le : (s : Search) (ns : List ℕ) → whites s ns ≤ length ns
unfolding whites
whites-le s [] = omega arith
whites-le s (n ∷ ns) = omega (arith, at_most_one (color_of s n), whites-le s ns)
  where
    at_most_one : (c : Color) → one_if_white c ≤ 1
    at_most_one white = omega arith
    at_most_one gray = omega arith
    at_most_one black = omega arith
