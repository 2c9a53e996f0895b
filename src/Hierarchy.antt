-- ===== src/Hierarchy.antt =====
-- python/src/trlog/_hierarchy.py: the tree of scopes, variables and streams, and the methods that
-- build it. An open scope is a frame with its children so far; children in the making are kept last
-- first. An object that is in the tree and in `vars` or `streams` is written in both places.
pub mod Stream
pub mod Block
pub mod Runs
pub mod NodeRuns
pub mod Grown
pub mod RoundTrip
pub mod Consistent
pub mod Reachable
pub mod Tests
use trlog.Prelude.{ℕ, suc, ◌+◌, List, [], ◌∷◌, ◌++◌, Option, none, some}
use trlog.Prelude.Dict.{Dict, put, nat_eq}
use trlog.Wire.{Result, ok, err, bind, format_error}
use trlog.Types.{HierKind, ScopeType, VarDir}
use trlog.Metadata.{TypedAttr}

pub record HierarchyHeader : Type 0 where
  pub hier_id : ℕ
  pub kind : HierKind
  pub name_str_id : ℕ

pub record HAttr : Type 0 where
  pub key_str_id : ℕ
  pub value_str_id : ℕ

-- A scope but for its children.
pub record HScope : Type 0 where
  pub scope_type : ScopeType
  pub name_str_id : ℕ
  pub component_str_id : ℕ
  pub src_file_str_id : ℕ
  pub src_line : ℕ
  pub attrs : List HAttr
  pub typed_attrs : List TypedAttr

pub record HVar : Type 0 where
  pub var_id : ℕ
  pub name_str_id : ℕ
  pub sig_type_id : ℕ
  pub var_dir : VarDir
  pub alias_of_var_id : ℕ
  pub src_file_str_id : ℕ
  pub src_line : ℕ
  pub attrs : List HAttr
  pub typed_attrs : List TypedAttr

pub record HStream : Type 0 where
  pub stream_inst_id : ℕ
  pub stream_type_id : ℕ
  pub name_str_id : ℕ
  pub attrs : List HAttr
  pub typed_attrs : List TypedAttr

mutual
  pub data Node : Type 0 where
    scope : HScope → Nodes → Node
    var : HVar → Node
    stream : HStream → Node

  pub data Nodes : Type 0 where
    nil : Nodes
    cons : Node → Nodes → Nodes

unfoldable pub rev_append : Nodes → Nodes → Nodes
rev_append nil acc = acc
rev_append (cons n ns) acc = rev_append ns (cons n acc)

pub record Frame : Type 0 where
  pub scope : HScope
  pub children : Nodes

-- The open scopes, the innermost first, the children of the root, and the flat maps.
pub record Tree : Type 0 where
  pub scope_stack : List Frame
  pub root : Nodes
  pub vars : Dict ℕ HVar
  pub streams : Dict ℕ HStream

abbrev pub set_stack : List Frame → Tree → Tree
set_stack stack t = record t { scope_stack = stack }

-- `current_children().append(n)`
unfoldable pub append_in : Node → List Frame → Tree → Tree
append_in n [] t = record t { root = cons n t.root }
append_in n (f ∷ stack) t = set_stack (record f { children = cons n f.children } ∷ stack) t

abbrev pub append_child : Node → Tree → Tree
append_child n t = append_in n t.scope_stack t

unfoldable pub open_scope : HScope → Tree → Tree
open_scope s t = set_stack (record { scope = s; children = nil } ∷ t.scope_stack) t

unfoldable pub close_in : List Frame → Tree → Result Tree
unfolding append_in rev_append
close_in [] t = err format_error
close_in (f ∷ stack) t =
    ok (append_in (scope f.scope (rev_append f.children nil)) stack (set_stack stack t))

-- `scope_stack.pop()`
abbrev pub close_scope : Tree → Result Tree
close_scope t = close_in t.scope_stack t

unfoldable pub declare_var : HVar → Tree → Tree
unfolding append_in
declare_var v t = append_child (var v) (record t { vars = put t.vars v.var_id v })

unfoldable pub declare_stream : HStream → Tree → Tree
unfolding append_in
declare_stream s t =
    append_child (stream s) (record t { streams = put t.streams s.stream_inst_id s })

-- A change of a scope, a variable or a stream.
pub record Edit : Type 0 where
  pub on_scope : HScope → HScope
  pub on_var : HVar → HVar
  pub on_stream : HStream → HStream

abbrev pub attr_edit : HAttr → Edit
attr_edit a = record {
  on_scope = λ s. record s { attrs = s.attrs ++ (a ∷ []) };
  on_var = λ v. record v { attrs = v.attrs ++ (a ∷ []) };
  on_stream = λ s. record s { attrs = s.attrs ++ (a ∷ []) };
}

abbrev pub typed_edit : TypedAttr → Edit
typed_edit a = record {
  on_scope = λ s. record s { typed_attrs = s.typed_attrs ++ (a ∷ []) };
  on_var = λ v. record v { typed_attrs = v.typed_attrs ++ (a ∷ []) };
  on_stream = λ s. record s { typed_attrs = s.typed_attrs ++ (a ∷ []) };
}

-- The last child changed, with the entry of the flat map that is the same object.
unfoldable pub edit_child : Edit → Node → Nodes → (Nodes → Tree → Tree) → Tree → Tree
edit_child e (scope s cs) ns replace t = replace (cons (scope (e.on_scope s) cs) ns) t
edit_child e (var v) ns replace t =
    let v' = e.on_var v in replace (cons (var v') ns) (record t { vars = put t.vars v'.var_id v' })
edit_child e (stream s) ns replace t =
    let s' = e.on_stream s in
    replace (cons (stream s') ns) (record t { streams = put t.streams s'.stream_inst_id s' })

abbrev pub replace_root : Nodes → Tree → Tree
replace_root ns t = record t { root = ns }

abbrev pub replace_top : Frame → List Frame → Nodes → Tree → Tree
replace_top f stack ns t = set_stack (record f { children = ns } ∷ stack) t

-- The last child of the innermost scope or of the root; without one, the scope itself.
unfoldable pub edit_in_root : Edit → Nodes → Tree → Result Tree
unfolding edit_child
edit_in_root e nil t = err format_error
edit_in_root e (cons n ns) t = ok (edit_child e n ns replace_root t)

unfoldable pub edit_in_frame : Edit → Frame → Nodes → List Frame → Tree → Tree
unfolding edit_child
edit_in_frame e f nil stack t = set_stack (record f { scope = e.on_scope f.scope } ∷ stack) t
edit_in_frame e f (cons n ns) stack t = edit_child e n ns (replace_top f stack) t

unfoldable pub edit_in : Edit → List Frame → Tree → Result Tree
unfolding edit_in_root edit_in_frame
edit_in e [] t = edit_in_root e t.root t
edit_in e (f ∷ stack) t = ok (edit_in_frame e f f.children stack t)

abbrev pub edit_last : Edit → Tree → Result Tree
edit_last e t = edit_in e t.scope_stack t

-- The children of the root, last first, with the scopes that are still open.
unfoldable pub close_all : List Frame → Nodes → Nodes
unfolding rev_append
close_all [] root = root
close_all (f ∷ []) root = cons (scope f.scope (rev_append f.children nil)) root
close_all (f ∷ g ∷ stack) root =
    close_all
      (record g { children = cons (scope f.scope (rev_append f.children nil)) g.children } ∷ stack)
      root

-- `_root_children`
abbrev pub root_children : Tree → Nodes
root_children t = rev_append (close_all t.scope_stack t.root) nil
