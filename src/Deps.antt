-- ===== src/Deps.antt =====
-- python/src/trlog/_deps.py: the graph of stream dependencies and its search for a cycle.
pub mod Lists
pub mod Colors
pub mod Cycle
pub mod Order
pub mod Memo
mod Tests
use trlog.Prelude.{
  ℕ, zero, suc, ◌+◌, List, [], ◌∷◌, ◌++◌, length, Option, none, some, Bool, true, false, ◌==◌,
  if◌then◌else◌, ltb,
}
use trlog.Prelude.Dict.{Dict, get, put, nat_eq}
use trlog.Wire.{Result, ok, err, bind, out_of_fuel, value_error, dependency_error}

-- `self._deps`
abbrev pub Graph : Type 0
Graph = Dict ℕ (List ℕ)

unfoldable pub add : ℕ → List ℕ → Graph → Graph
add stream_id inputs g = put g stream_id inputs

abbrev or_empty : Option (List ℕ) → List ℕ
or_empty none = []
or_empty (some ms) = ms

unfoldable pub inputs : Graph → ℕ → List ℕ
inputs g stream_id = or_empty (get g stream_id)

-- `sorted` of a set: a number that is there already is not put in again.
unfoldable pub insert_node : ℕ → List ℕ → List ℕ
insert_node n [] = n ∷ []
insert_node n (m ∷ ms) =
    let behind = insert_node n ms in
    if n == m then m ∷ ms else if ltb n m then n ∷ m ∷ ms else m ∷ behind

unfoldable pub insert_nodes : List ℕ → List ℕ → List ℕ
unfolding insert_node
insert_nodes [] ms = ms
insert_nodes (n ∷ ns) ms = insert_node n (insert_nodes ns ms)

unfoldable pub nodes : Graph → List ℕ
unfolding insert_nodes
nodes [] = []
nodes ((n, ins) ∷ g) = insert_nodes (n ∷ ins) (nodes g)

pub data Color : Type 0 where
  white gray black : Color

pub record Search : Type 0 where
  pub color : Dict ℕ Color
  pub path : List ℕ

abbrev or_white : Option Color → Color
or_white none = white
or_white (some c) = c

-- `color.get(n, WHITE)`
unfoldable pub color_of : Search → ℕ → Color
color_of s n = or_white (get s.color n)

-- `path[path.index(m):]`
unfoldable pub from_index : ℕ → List ℕ → Result (List ℕ)
from_index m [] = err value_error
from_index m (n ∷ path) = let behind = from_index m path in if n == m then ok (n ∷ path) else behind

-- `path.pop()`
unfoldable pub drop_last : List ℕ → List ℕ
drop_last [] = []
drop_last (n ∷ []) = []
drop_last (n ∷ m ∷ path) = n ∷ drop_last (m ∷ path)

abbrev pub Visited : Type 0
Visited = Option (List ℕ) × Search

abbrev pub Visit : Type 0
Visit = ℕ → Search → Result Visited

-- A search that found a cycle ends; otherwise it goes on.
abbrev pub unless_found : Result Visited → (Search → Result Visited) → Result Visited
unless_found r next = bind r λ (found, s). elim found [ some c ↦ ok (some c, s) | none ↦ next s ]

unfoldable pub visit_inputs : Visit → List ℕ → Search → Result Visited
visit_inputs visit [] s = ok (none, s)
visit_inputs visit (m ∷ ms) s = elim (color_of s m) [
  | gray ↦ bind (from_index m s.path) λ c. ok (some (c ++ (m ∷ [])), s)
  | white ↦ unless_found (visit m s) (visit_inputs visit ms)
  | black ↦ visit_inputs visit ms s
]

abbrev pub enter : ℕ → Search → Search
enter n s = record { color = put s.color n gray; path = s.path ++ (n ∷ []) }

abbrev pub leave : ℕ → Search → Search
leave n s = record { color = put s.color n black; path = drop_last s.path }

-- A visit paints a white node, so the number of nodes is deep enough.
unfoldable pub visit : Graph → ℕ → Visit
visit g zero n s = err out_of_fuel
visit g (suc fuel) n s =
    unless_found (visit_inputs (visit g fuel) (inputs g n) (enter n s)) λ s'. ok (none, leave n s')

unfoldable pub visit_roots : Visit → List ℕ → Search → Result Visited
visit_roots visit [] s = ok (none, s)
visit_roots visit (n ∷ ns) s = elim (color_of s n) [
  | white ↦ unless_found (visit n s) (visit_roots visit ns)
  | gray ↦ visit_roots visit ns s
  | black ↦ visit_roots visit ns s
]

unfoldable pub find_cycle : Graph → Result (Option (List ℕ))
find_cycle g =
    bind (visit_roots (visit g (length (nodes g))) (nodes g) (record { color = []; path = [] }))
      λ (found, s). ok found

unfoldable pub validate_acyclic : Graph → Result {0} Unit
validate_acyclic g =
    bind (find_cycle g) λ found. elim found [ none ↦ ok tt | some cycle ↦ err dependency_error ]
