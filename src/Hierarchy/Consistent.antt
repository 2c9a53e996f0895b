-- ===== src/Hierarchy/Consistent.antt =====
-- python/src/trlog/_hierarchy.py: the flat maps `vars` and `streams` hold what stands in the tree.
use trlog.Prelude.{ℕ, ◌≡◌, refl, sym, ap, ◌∙◌, List, [], ◌∷◌}
use trlog.Prelude.Dict.{Dict, put, put-put_eq, nat_eq}
use trlog.Wire.{ok}
use trlog.Hierarchy.{
  HScope, HVar, HStream, Node, Nodes, scope, var, stream, nil, cons, rev_append, Frame, Tree,
  set_stack, append_in, open_scope, close_in, declare_var, declare_stream, Edit, edit_in,
  edit_child, edit_in_root, edit_in_frame, close_all, root_children, replace_top, replace_root,
}
use trlog.Hierarchy.Stream.{settled}
use trlog.Hierarchy.Block.{edit_open}
use trlog.Hierarchy.Grown.{Maps, declared, declared_all}

-- The maps after children that are kept last first, and after the open scopes.
abbrev declared_rev : Nodes → Maps → Maps
declared_rev nil m = m
declared_rev (cons n ns) m = declared n (declared_rev ns m)

abbrev stack_maps : List Frame → Maps → Maps
stack_maps [] m = m
stack_maps (f ∷ stack) m = declared_rev f.children (stack_maps stack m)

abbrev built : List Frame → Nodes → Maps
built stack root = stack_maps stack (declared_rev root ([], []))

-- `vars` and `streams` are what a walk over the tree declares, in order.
abbrev pub IsConsistent : Tree → Type 0
IsConsistent t = (t.vars, t.streams) ≡ declared_all (root_children t) ([], [])

declared_all-rev_append :
    (ns ms : Nodes) (m : Maps)
    → declared_all (rev_append ns ms) m ≡ declared_all ms (declared_rev ns m)
unfolding rev_append declared
declared_all-rev_append nil ms m = refl
declared_all-rev_append (cons n ns) ms m = declared_all-rev_append ns (cons n ms) m

declared_rev-close_all :
    (stack : List Frame) (root : Nodes) (m : Maps)
    → declared_rev (close_all stack root) m ≡ stack_maps stack (declared_rev root m)
unfolding close_all declared
declared_rev-close_all [] root m = refl
declared_rev-close_all (f ∷ []) root m =
    declared_all-rev_append f.children nil (declared_rev root m)
declared_rev-close_all (f ∷ g ∷ stack) root m =
    declared_rev-close_all
      (record g { children = cons (scope f.scope (rev_append f.children nil)) g.children } ∷ stack)
      root m
    ∙ declared_all-rev_append f.children nil
        (declared_rev g.children (stack_maps stack (declared_rev root m)))

children-built : (t : Tree) → declared_all (root_children t) ([], []) ≡ built t.scope_stack t.root
unfolding declared
children-built t =
    declared_all-rev_append (close_all t.scope_stack t.root) nil ([], [])
    ∙ declared_rev-close_all t.scope_stack t.root ([], [])

abbrev IsBuilt : Tree → Type 0
IsBuilt t = (t.vars, t.streams) ≡ built t.scope_stack t.root

moved : {t t' : Tree} → t ≡ t' → IsBuilt t → IsBuilt t'
moved e h = rw e at h

to_built : (t : Tree) → IsConsistent t → IsBuilt t
to_built t h = h ∙ children-built t

from_built : (t : Tree) → IsBuilt t → IsConsistent t
from_built t h = h ∙ sym (children-built t)

append_in-IsBuilt :
    (n : Node) (stack : List Frame) (root : Nodes) (m m' : Maps)
    → m ≡ built stack root
    → m' ≡ declared n m
    → IsBuilt (
        append_in n stack
          (record { scope_stack = stack; root = root; vars = m'.0; streams = m'.1 }))
unfolding append_in
append_in-IsBuilt n [] root m m' h e = e ∙ ap (declared n) h
append_in-IsBuilt n (f ∷ stack) root m m' h e = e ∙ ap (declared n) h

pub open_scope-IsConsistent :
    (s : HScope) (t : Tree) → IsConsistent t → IsConsistent (open_scope s t)
unfolding open_scope
open_scope-IsConsistent s t h = from_built (open_scope s t) (to_built t h)

pub declare_var-IsConsistent :
    (v : HVar) (t : Tree) → IsConsistent t → IsConsistent (declare_var v t)
unfolding declare_var declared
declare_var-IsConsistent v t h =
    from_built (declare_var v t)
      (append_in-IsBuilt (var v) t.scope_stack t.root (t.vars, t.streams) _ (to_built t h) refl)

pub declare_stream-IsConsistent :
    (s : HStream) (t : Tree) → IsConsistent t → IsConsistent (declare_stream s t)
unfolding declare_stream declared
declare_stream-IsConsistent s t h =
    from_built (declare_stream s t)
      (append_in-IsBuilt (stream s) t.scope_stack t.root (t.vars, t.streams) _ (to_built t h) refl)

close_built :
    (f : Frame) (stack : List Frame) (t : Tree)
    → (t.vars, t.streams) ≡ built (f ∷ stack) t.root
    → IsBuilt (append_in (scope f.scope (rev_append f.children nil)) stack (set_stack stack t))
unfolding declared
close_built f stack t h =
    append_in-IsBuilt (scope f.scope (rev_append f.children nil)) stack t.root (built stack t.root)
      (t.vars, t.streams) refl
      (h ∙ sym (declared_all-rev_append f.children nil (built stack t.root)))

close_in-IsBuilt :
    (stack : List Frame) (t : Tree) {t' : Tree}
    → (t.vars, t.streams) ≡ built stack t.root
    → close_in stack t ≡ ok t'
    → IsBuilt t'
unfolding close_in
close_in-IsBuilt [] t h e = absurd (cc e)
close_in-IsBuilt (f ∷ stack) t {t'} h e =
    let same : append_in (scope f.scope (rev_append f.children nil)) stack (set_stack stack t)
        ≡ t' =
      cc e in
    rw same at (close_built f stack t h)

pub close_in-IsConsistent :
    (t : Tree) {t' : Tree} → IsConsistent t → close_in t.scope_stack t ≡ ok t' → IsConsistent t'
close_in-IsConsistent t {t'} h e = from_built t' (close_in-IsBuilt t.scope_stack t (to_built t h) e)

-- A change that leaves the identifiers as they are.
pub record KeepsIds (e : Edit) : Type 0 where
  pub var_kept : (v : HVar) → (e.on_var v).var_id ≡ v.var_id
  pub stream_kept : (s : HStream) → (e.on_stream s).stream_inst_id ≡ s.stream_inst_id

module _ (e : Edit) (k : KeepsIds e) where
  edit_child-IsBuilt :
      (n : Node) (ns : Nodes) (replace : Nodes → Tree → Tree) (t : Tree) (m : Maps)
      → (t.vars, t.streams) ≡ declared n m
      → ((n' : Node) (m' : Maps)
          → m' ≡ declared n' m
          → IsBuilt (replace (cons n' ns) (record t { vars = m'.0; streams = m'.1 })))
      → IsBuilt (edit_child e n ns replace t)
  unfolding edit_child declared
  edit_child-IsBuilt (scope s cs) ns replace t m h rebuilt =
      rebuilt (scope (e.on_scope s) cs) (t.vars, t.streams) h
  edit_child-IsBuilt (var v) ns replace t m h rebuilt =
      let v' = e.on_var v in
      rebuilt (var v') (put t.vars v'.var_id v', t.streams)
        (ap (λ (d : Maps). (put d.0 v'.var_id v', d.1)) h
          ∙ ap (λ (d : Dict ℕ HVar). (d, m.1))
              (put-put_eq m.0 v.var_id v'.var_id v v' (k.var_kept v)))
  edit_child-IsBuilt (stream s) ns replace t m h rebuilt =
      let s' = e.on_stream s in
      rebuilt (stream s') (t.vars, put t.streams s'.stream_inst_id s')
        (ap (λ (d : Maps). (d.0, put d.1 s'.stream_inst_id s')) h
          ∙ ap (λ (d : Dict ℕ HStream). (m.0, d))
              (put-put_eq m.1 s.stream_inst_id s'.stream_inst_id s s' (k.stream_kept s)))

  edit_in_frame-IsBuilt :
      (f : Frame) (children : Nodes) (stack : List Frame) (t : Tree)
      → f.children ≡ children
      → (t.vars, t.streams) ≡ declared_rev children (built stack t.root)
      → IsBuilt (edit_in_frame e f children stack t)
  unfolding edit_in_frame declared
  edit_in_frame-IsBuilt f nil stack t q h = rw q h
  edit_in_frame-IsBuilt f (cons n ns) stack t q h =
      edit_child-IsBuilt n ns (replace_top f stack) t (declared_rev ns (built stack t.root)) h
        (λ n' m' d. d)

  edit_in_root-IsBuilt :
      (root : Nodes) (t : Tree) {t' : Tree}
      → (t.vars, t.streams) ≡ declared_rev root ([], [])
      → t.scope_stack ≡ []
      → edit_in_root e root t ≡ ok t'
      → IsBuilt t'
  unfolding edit_in_root
  edit_in_root-IsBuilt nil t h empty d = absurd (cc d)
  edit_in_root-IsBuilt (cons n ns) t {t'} h empty d =
      let same : edit_child e n ns replace_root t ≡ t' = cc d in
      rw same at (
        edit_child-IsBuilt n ns replace_root t (declared_rev ns ([], [])) h (λ n' m' r. rw empty r))

  edit_in-IsBuilt :
      (stack : List Frame) (t : Tree) {t' : Tree}
      → t.scope_stack ≡ stack
      → IsBuilt t
      → edit_in e stack t ≡ ok t'
      → IsBuilt t'
  unfolding edit_in
  edit_in-IsBuilt [] t q h d = edit_in_root-IsBuilt t.root t (rw q at h) q d
  edit_in-IsBuilt (f ∷ stack) t {t'} q h d =
      let same : edit_in_frame e f f.children stack t ≡ t' = cc d in
      rw same at (edit_in_frame-IsBuilt f f.children stack t refl (rw q at h))

  pub edit_in-IsConsistent :
      (t : Tree) {t' : Tree} → IsConsistent t → edit_in e t.scope_stack t ≡ ok t' → IsConsistent t'
  edit_in-IsConsistent t {t'} h d =
      from_built t' (edit_in-IsBuilt t.scope_stack t refl (to_built t h) d)

  edit_open-IsBuilt :
      (stack : List Frame) (t : Tree) {t' : Tree}
      → (t.vars, t.streams) ≡ built stack t.root
      → edit_open e stack t ≡ ok t'
      → IsBuilt t'
  unfolding edit_open
  edit_open-IsBuilt [] t h d = absurd (cc d)
  edit_open-IsBuilt (f ∷ stack) t {t'} h d =
      let same : set_stack (record f { scope = e.on_scope f.scope } ∷ stack) t ≡ t' = cc d in
      moved same h

  pub edit_open-IsConsistent :
      (t : Tree) {t' : Tree}
      → IsConsistent t
      → edit_open e t.scope_stack t ≡ ok t'
      → IsConsistent t'
  edit_open-IsConsistent t {t'} h d =
      from_built t' (edit_open-IsBuilt t.scope_stack t (to_built t h) d)

pub settled-IsConsistent : (t : Tree) → IsConsistent t → IsConsistent (settled t)
unfolding close_all
settled-IsConsistent t h = h
