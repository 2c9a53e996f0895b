-- ===== src/Hierarchy/Grown.antt =====
-- python/src/trlog/_hierarchy.py: the tree that the loop over the tags has after the nodes read so far.
use trlog.Prelude.{ℕ, ◌≡◌, refl, ap, ◌∙◌, List, [], ◌∷◌}
use trlog.Prelude.Dict.{Dict, put, nat_eq}
use trlog.Wire.{ok}
use trlog.Hierarchy.{
  HScope, HVar, HStream, Node, Nodes, scope, var, stream, nil, cons, rev_append, Frame, Tree,
  append_in, open_scope, close_in, close_scope,
}

-- The flat maps after the nodes of a tree, in order.
abbrev pub Maps : Type 0
Maps = Dict ℕ HVar × Dict ℕ HStream

unfoldable mutual
  pub declared : Node → Maps → Maps
  declared (scope s ns) m = declared_all ns m
  declared (var v) m = (put m.0 v.var_id v, m.1)
  declared (stream s) m = (m.0, put m.1 s.stream_inst_id s)

  pub declared_all : Nodes → Maps → Maps
  declared_all nil m = m
  declared_all (cons n ns) m = declared_all ns (declared n m)

abbrev pub with_maps : Maps → Tree → Tree
with_maps m t = record t { vars = m.0; streams = m.1 }

-- The tree with a node more, and with several.
abbrev pub grown : Node → Tree → Tree
grown n t = append_in n t.scope_stack (with_maps (declared n (t.vars, t.streams)) t)

unfoldable pub grown_all : Nodes → Tree → Tree
grown_all nil t = t
grown_all (cons n ns) t = grown_all ns (grown n t)

grown_all-frame :
    (ns : Nodes) (s : HScope) (acc : Nodes) (stack : List Frame) (root : Nodes) (m : Maps)
    → grown_all ns (record {
      scope_stack = record { scope = s; children = acc } ∷ stack;
      root = root;
      vars = m.0;
      streams = m.1;
    })
      ≡ record {
        scope_stack = record { scope = s; children = rev_append ns acc } ∷ stack;
        root = root;
        vars = (declared_all ns m).0;
        streams = (declared_all ns m).1;
      }
unfolding grown_all declared rev_append append_in
grown_all-frame nil s acc stack root m = refl
grown_all-frame (cons n ns) s acc stack root m =
    grown_all-frame ns s (cons n acc) stack root (declared n m)

pub grown_all-root :
    (ns acc : Nodes) (m : Maps)
    → grown_all ns (record { scope_stack = []; root = acc; vars = m.0; streams = m.1 }) ≡ record {
      scope_stack = [];
      root = rev_append ns acc;
      vars = (declared_all ns m).0;
      streams = (declared_all ns m).1;
    }
unfolding grown_all declared rev_append append_in
grown_all-root nil acc m = refl
grown_all-root (cons n ns) acc m = grown_all-root ns (cons n acc) (declared n m)

-- To turn the children round twice leaves them as they were.
append : Nodes → Nodes → Nodes
append nil ms = ms
append (cons n ns) ms = cons n (append ns ms)

append-nil_nodes : (ns : Nodes) → append ns nil ≡ ns
unfolding append
append-nil_nodes nil = refl
append-nil_nodes (cons n ns) = ap (cons n) (append-nil_nodes ns)

rev_append-rev_append :
    (ns acc ms : Nodes) → rev_append (rev_append ns acc) ms ≡ rev_append acc (append ns ms)
unfolding rev_append append
rev_append-rev_append nil acc ms = refl
rev_append-rev_append (cons n ns) acc ms = rev_append-rev_append ns (cons n acc) ms

pub rev_twice : (ns : Nodes) → rev_append (rev_append ns nil) nil ≡ ns
unfolding rev_append
rev_twice ns = rev_append-rev_append ns nil nil ∙ append-nil_nodes ns

pub close-grown :
    (s : HScope) (ns : Nodes) (t : Tree)
    → close_scope (grown_all ns (open_scope s t)) ≡ ok (grown (scope s ns) t)
unfolding open_scope close_in declared
close-grown s ns t =
    rw (grown_all-frame ns s nil t.scope_stack t.root (t.vars, t.streams)) (rw (rev_twice ns) refl)
