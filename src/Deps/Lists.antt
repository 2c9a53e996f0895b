-- ===== src/Deps/Lists.antt =====
-- Members of lists, the nodes of a graph, and edges along a path, for _deps.py.
use trlog.Prelude.{
  ℕ, ◌≡◌, ◌≢◌, refl, ap, ◌⊎◌, inl, inr, List, [], ◌∷◌, ◌++◌, arith, true, false, ◌==◌, ltb,
  Bool-cases,
}
use trlog.Prelude.Dict.{get, nat_eq}
use trlog.Wire.{ok}
use trlog.Deps.{Graph, inputs, insert_node, insert_nodes, nodes, from_index, drop_last}

abbrev pub In : ℕ → List ℕ → Type 0
In n [] = ⊥
In n (m ∷ ms) = (m ≡ n) ⊎ In n ms

pub In-front : (n : ℕ) (xs ys : List ℕ) → In n xs → In n (xs ++ ys)
In-front n [] ys h = elim h [ ]
In-front n (x ∷ xs) ys (inl e) = inl e
In-front n (x ∷ xs) ys (inr h) = inr (In-front n xs ys h)

pub In-last : (n : ℕ) (xs : List ℕ) → In n (xs ++ (n ∷ []))
In-last n [] = inl refl
In-last n (x ∷ xs) = inr (In-last n xs)

pub In-init : (n m : ℕ) (xs : List ℕ) → n ≢ m → In m (xs ++ (n ∷ [])) → In m xs
In-init n m [] other (inl e) = absurd (other e)
In-init n m [] other (inr h) = elim h [ ]
In-init n m (x ∷ xs) other (inl e) = inl e
In-init n m (x ∷ xs) other (inr h) = inr (In-init n m xs other h)

insert_node_self : (n : ℕ) (ms : List ℕ) → In n (insert_node n ms)
unfolding insert_node
insert_node_self n [] = inl refl
insert_node_self n (m ∷ ms) = elim (Bool-cases (n == m)) [
  | inl same ↦ rw same (inl (ground (arith, same)))
  | inr other ↦ elim (Bool-cases (ltb n m)) [
    | inl before ↦ rw (other, before) (inl refl)
    | inr behind ↦ rw (other, behind) (inr (insert_node_self n ms))
  ]
]

insert_node-kept : (n x : ℕ) (ms : List ℕ) → In x ms → In x (insert_node n ms)
unfolding insert_node
insert_node-kept n x [] h = elim h [ ]
insert_node-kept n x (m ∷ ms) h = elim (Bool-cases (n == m)) [
  | inl same ↦ rw same h
  | inr other ↦ elim (Bool-cases (ltb n m)) [
    | inl before ↦ rw (other, before) (inr h)
    | inr behind ↦ rw (other, behind) (further (insert_node-kept n x ms) h)
  ]
]
  where
    further : (In x ms → In x (insert_node n ms)) → In x (m ∷ ms) → In x (m ∷ insert_node n ms)
    further f (inl e) = inl e
    further f (inr k) = inr (f k)

insert_nodes-new : (ns ms : List ℕ) (x : ℕ) → In x ns → In x (insert_nodes ns ms)
unfolding insert_nodes
insert_nodes-new [] ms x h = elim h [ ]
insert_nodes-new (n ∷ ns) ms x (inl e) = rw e (insert_node_self x (insert_nodes ns ms))
insert_nodes-new (n ∷ ns) ms x (inr h) = insert_node-kept n x _ (insert_nodes-new ns ms x h)

insert_nodes-kept : (ns ms : List ℕ) (x : ℕ) → In x ms → In x (insert_nodes ns ms)
unfolding insert_nodes
insert_nodes-kept [] ms x h = h
insert_nodes-kept (n ∷ ns) ms x h = insert_node-kept n x _ (insert_nodes-kept ns ms x h)

-- Every input is a node.
pub inputs-nodes : (g : Graph) (n m : ℕ) → In m (inputs g n) → In m (nodes g)
unfolding inputs get nodes
inputs-nodes [] n m h = elim h [ ]
inputs-nodes ((k, ins) ∷ g) n m h = elim (Bool-cases (k == n)) [
  | inl same ↦ insert_nodes-new (k ∷ ins) (nodes g) m (inr (rw same at h))
  | inr other ↦ insert_nodes-kept (k ∷ ins) (nodes g) m (inputs-nodes g n m (rw other at h))
]

-- Each node of a path is an input of the one before it.
abbrev pub IsLinked : Graph → List ℕ → Type 0
IsLinked g [] = Unit
IsLinked g (n ∷ []) = Unit
IsLinked g (n ∷ m ∷ path) = In m (inputs g n) × IsLinked g (m ∷ path)

pub IsLinked-snoc :
    (g : Graph) (p : List ℕ) (n m : ℕ)
    → IsLinked g (p ++ (n ∷ []))
    → In m (inputs g n)
    → IsLinked g ((p ++ (n ∷ [])) ++ (m ∷ []))
IsLinked-snoc g [] n m h e = (e, tt)
IsLinked-snoc g (a ∷ []) n m (h, t) e = (h, (e, tt))
IsLinked-snoc g (a ∷ b ∷ p) n m (h, t) e = (h, IsLinked-snoc g (b ∷ p) n m t e)

-- A path of at least one edge that ends where it starts.
pub record IsCycle (g : Graph) (c : List ℕ) : Type 0 where
  pub node : ℕ
  pub inner : List ℕ
  pub closed : c ≡ (node ∷ inner) ++ (node ∷ [])
  pub linked : IsLinked g c

IsLinked-tail : (g : Graph) (n : ℕ) (l : List ℕ) → IsLinked g (n ∷ l) → IsLinked g l
IsLinked-tail g n [] h = tt
IsLinked-tail g n (m ∷ l) (h, t) = t

In-tail : (n m : ℕ) (l : List ℕ) → (n == m) ≡ false → In m (n ∷ l) → In m l
In-tail n m l other (inl e) = absurd (ground (arith, other, e))
In-tail n m l other (inr h) = h

-- The end of a path from a node on it, closed by that node.
pub from_index-IsCycle :
    (g : Graph) (m : ℕ) (path : List ℕ)
    → In m path
    → IsLinked g (path ++ (m ∷ []))
    → (c : List ℕ) × (from_index m path ≡ ok c) × IsCycle g (c ++ (m ∷ []))
unfolding from_index
from_index-IsCycle g m [] h p = elim h [ ]
from_index-IsCycle g m (n ∷ path) h p = elim (Bool-cases (n == m)) [
  | inl same ↦ (
    n ∷ path,
    rw same refl,
    record {
      node = n;
      inner = path;
      closed = ap (λ (x : ℕ). n ∷ (path ++ (x ∷ []))) (is_n same);
      linked = p;
    },
  )
  | inr other ↦ rw other (
      from_index-IsCycle g m path (In-tail n m path other h)
        (IsLinked-tail g n (path ++ (m ∷ [])) p))
]
  where
    is_n : (n == m) ≡ true → m ≡ n
    is_n same = ground (arith, same)

pub drop_last-snoc : (p : List ℕ) (n : ℕ) → drop_last (p ++ (n ∷ [])) ≡ p
unfolding drop_last
drop_last-snoc [] n = refl
drop_last-snoc (a ∷ []) n = refl
drop_last-snoc (a ∷ b ∷ p) n = rw (drop_last-snoc (b ∷ p) n)
