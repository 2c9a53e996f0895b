-- ===== src/Deps/Order.antt =====
-- The orders of python/src/trlog/_deps.py in which streams are read and closed, and its memoized
-- materialization.
use trlog.Prelude.{
  ℕ, zero, suc, List, [], ◌∷◌, ◌++◌, length, reverse, Bool, true, false, ◌==◌, ◌||◌, if◌then◌else◌,
  none, some,
}
use trlog.Prelude.Dict.{Dict, get, put, nat_eq}
use trlog.Wire.{Result, ok, err, bind, out_of_fuel, dependency_error}
use trlog.Deps.{Graph, add, inputs, nodes, validate_acyclic}

-- `for sid, inputs in catalog.items(): g.add(sid, inputs)`
unfoldable pub add_all : Dict ℕ (List ℕ) → Graph → Graph
add_all [] g = g
add_all ((sid, ins) ∷ catalog) g = add_all catalog (add sid ins g)

unfoldable pub from_catalog : Dict ℕ (List ℕ) → Graph
unfolding add_all
from_catalog catalog = add_all catalog []

-- `n in seen`
unfoldable pub is_member : ℕ → List ℕ → Bool
is_member n [] = false
is_member n (m ∷ ms) = n == m || is_member n ms

pub record Ordering : Type 0 where
  pub order : List ℕ
  pub seen : List ℕ

abbrev pub Ordered : Type 0
Ordered = Ordering → Result Ordering

unfoldable pub order_all : (ℕ → Ordered) → List ℕ → Ordered
order_all visit [] s = ok s
order_all visit (n ∷ ns) s = bind (visit n s) (order_all visit ns)

-- `seen.add(n)`
abbrev see : ℕ → Ordering → Ordering
see n s = record { order = s.order; seen = n ∷ s.seen }

-- `order.append(n)`
abbrev append_node : ℕ → Ordering → Ordering
append_node n s = record { order = s.order ++ (n ∷ []); seen = s.seen }

-- A visit that goes deeper sees a node that was not seen, so one round more than there are nodes
-- is deep enough.
unfoldable pub order_node : Graph → ℕ → ℕ → Ordered
unfolding is_member order_all
order_node g zero n s = err out_of_fuel
order_node g (suc fuel) n s =
    let deeper =
      bind (order_all (order_node g fuel) (inputs g n) (see n s)) (λ s'. ok (append_node n s')) in
    if is_member n s.seen then ok s else deeper

unfoldable pub topo_order : Graph → Result (List ℕ)
unfolding order_node
topo_order g = bind (validate_acyclic g) λ valid.
    bind
      (order_all (order_node g (suc (length (nodes g)))) (nodes g)
        (record { order = []; seen = [] }))
      λ s. ok s.order

unfoldable pub finalize_order : Graph → Result (List ℕ)
unfolding topo_order
finalize_order g = bind (topo_order g) λ order. ok (reverse order)

-- What a derived stream is computed by: `compute` of the caller.
abbrev pub Compute : Type 0 → Type 0
Compute A = ℕ → Dict ℕ A → Result A

pub record Materializer (A : Type 0) : Type 0 where
  pub cache : Dict ℕ A
  pub in_progress : List ℕ

-- `self._in_progress.discard(n)`
unfoldable pub discard : ℕ → List ℕ → List ℕ
discard n [] = []
discard n (k ∷ ks) = let behind = discard n ks in if n == k then behind else k ∷ behind

module _ {A : Type 0} where
  -- `{i: self.materialize(i) for i in inputs}`
  unfoldable pub materialize_all :
      (ℕ → Materializer A → Result (A × Materializer A))
      → List ℕ
      → Dict ℕ A
      → Materializer A
      → Result (Dict ℕ A × Materializer A)
  materialize_all go [] d m = ok (d, m)
  materialize_all go (i ∷ is) d m = bind (go i m) λ (a, m'). materialize_all go is (put d i a) m'

  abbrev pub begun : ℕ → Materializer A → Materializer A
  begun n m = record { cache = m.cache; in_progress = n ∷ m.in_progress }

  abbrev pub done : ℕ → A → Materializer A → Materializer A
  done n a m = record { cache = put m.cache n a; in_progress = discard n m.in_progress }

  -- The inputs, then the stream itself.
  unfoldable pub materialize_fresh :
      (ℕ → Materializer A → Result (A × Materializer A))
      → Graph
      → Compute A
      → ℕ
      → Materializer A
      → Result (A × Materializer A)
  unfolding materialize_all discard
  materialize_fresh go g compute n m =
      bind (materialize_all go (inputs g n) [] (begun n m))
        λ (ins, m'). bind (compute n ins) λ a. ok (a, done n a m')

  -- Each level puts a stream of the graph in progress that was not, or ends.
  unfoldable pub materialize :
      Graph → Compute A → ℕ → ℕ → Materializer A → Result (A × Materializer A)
  unfolding materialize_fresh is_member
  materialize g compute zero n m = err out_of_fuel
  materialize g compute (suc fuel) n m =
      let fresh = materialize_fresh (materialize g compute fuel) g compute n m in
      elim (get m.cache n) [
        | some a ↦ ok (a, m)
        | none ↦ if is_member n m.in_progress then err dependency_error else fresh
      ]

  unfoldable pub is_materialized : Materializer A → ℕ → Bool
  is_materialized m n = elim (get m.cache n) [ some a ↦ true | none ↦ false ]
