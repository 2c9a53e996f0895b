-- ===== src/Deps/Tests.antt =====
-- Runs of the search for a cycle at concrete graphs.
use trlog.Prelude.{ℕ, zero, suc, ◌+◌, length, ◌≡◌, refl, ◌⊎◌, List, [], ◌∷◌, none, some}
use trlog.Wire.{ok}
use trlog.Deps.{Graph, find_cycle}
use trlog.Deps.Lists.{IsCycle}
use trlog.Deps.Order.{Compute, Materializer, materialize, topo_order}
use trlog.Deps.Memo.{materialize-materialize}
use trlog.Deps.Cycle.{find_cycle_lem}

-- 1 needs 2, 2 needs 3, 3 needs 2
abbrev looped : Graph
looped = (1, 2 ∷ []) ∷ (2, 3 ∷ []) ∷ (3, 2 ∷ []) ∷ []

find_looped : find_cycle looped ≡ ok (some (2 ∷ 3 ∷ 2 ∷ []))
unfolding find_cycle trlog.Deps.visit_roots trlog.Deps.nodes trlog.Deps.color_of
    trlog.Prelude.Dict.get trlog.Deps.visit trlog.Deps.visit_inputs trlog.Deps.inputs
    trlog.Prelude.Dict.put trlog.Deps.from_index
find_looped = refl

-- 1 needs 2 and 3, 2 needs 3
find_none : find_cycle ((1, 2 ∷ 3 ∷ []) ∷ (2, 3 ∷ []) ∷ []) ≡ ok none
unfolding find_cycle trlog.Deps.visit_roots trlog.Deps.nodes trlog.Deps.color_of
    trlog.Prelude.Dict.get trlog.Deps.visit trlog.Deps.visit_inputs trlog.Deps.inputs
    trlog.Prelude.Dict.put
find_none = refl

find_cycle_lem_example :
    (find_cycle looped ≡ ok none)
    ⊎ ((c : List ℕ) × (find_cycle looped ≡ ok (some c)) × IsCycle looped c)
find_cycle_lem_example = find_cycle_lem looped

-- 3 needs 2 and 1, 2 needs 1
abbrev chained : Graph
chained = (3, 2 ∷ 1 ∷ []) ∷ (2, 1 ∷ []) ∷ []

topo_chained : topo_order chained ≡ ok (1 ∷ 2 ∷ 3 ∷ [])
unfolding topo_order trlog.Deps.validate_acyclic find_cycle trlog.Deps.visit_roots trlog.Deps.nodes
    trlog.Deps.color_of trlog.Prelude.Dict.get trlog.Deps.visit trlog.Deps.visit_inputs
    trlog.Deps.inputs trlog.Prelude.Dict.put
topo_chained = refl

-- the stream's number and how many inputs it had
abbrev counted : Compute ℕ
counted n ins = ok (n + length ins)

abbrev at_first : Materializer ℕ
at_first = record { cache = []; in_progress = [] }

abbrev afterwards : Materializer ℕ
afterwards = record { cache = (1, 1) ∷ (2, 3) ∷ (3, 5) ∷ []; in_progress = [] }

materialize-chained : materialize chained counted 3 3 at_first ≡ ok (5, afterwards)
unfolding materialize trlog.Prelude.Dict.get trlog.Prelude.Dict.put trlog.Deps.inputs
materialize-chained = refl

materialize-materialize_example :
    materialize chained (λ n ins. ok 0) 1 3 afterwards ≡ ok (5, afterwards)
materialize-materialize_example =
    materialize-materialize chained counted (λ n ins. ok 0) 3 0 3 at_first afterwards
      materialize-chained
