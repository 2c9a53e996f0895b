-- ===== src/Hierarchy/Reachable.antt =====
-- python/src/trlog/_hierarchy.py: the states that a HierarchyBlock goes through as its methods are
-- called, and the flat maps in each of them.
use trlog.Prelude.{
  ℕ, suc, zero, ◌≡◌, refl, sym, ◌∙◌, ap, [], ◌∷◌, length, Option, none, some, Option-cases, inl,
  inr, Bool, true, false, if◌then◌else◌,
}
use trlog.Wire.{Bytes, Result, ok, bind, bind-eq-ok, Decoder, ◌>>=◌, pure, lift}
use trlog.Types.{HierKind, VarDir}
use trlog.Compression.{Compression}
use trlog.Metadata.{TypedAttr}
use trlog.Hierarchy.{
  HAttr, HScope, Tree, Edit, attr_edit, typed_edit, close_in, close_all, rev_append,
}
use trlog.Hierarchy.Stream.{
  decode_scope, decode_upscope, decode_var, decode_stream, decode_attr, decode_attr2, decode_tag,
  decode_tags, decode_tag_sequence, decode_header, settled,
}
use trlog.Hierarchy.Block.{
  LastNode, no_node, open_one, last_child, HierarchyBlock, hierarchy_block, begin_scope, end_scope,
  add_var, add_stream, add_attr, add_typed_attr, edit_node, read_block, read_block_v1, decompress,
  decode_inner,
}
use trlog.Hierarchy.Grown.{declared_all}
use trlog.Hierarchy.Consistent.{
  IsConsistent, open_scope-IsConsistent, declare_var-IsConsistent, declare_stream-IsConsistent,
  close_in-IsConsistent, KeepsIds, edit_in-IsConsistent, edit_open-IsConsistent,
  settled-IsConsistent,
}

attr_edit-KeepsIds : (a : HAttr) → KeepsIds (attr_edit a)
attr_edit-KeepsIds a = record { var_kept = λ v. refl; stream_kept = λ s. refl }

typed_edit-KeepsIds : (a : TypedAttr) → KeepsIds (typed_edit a)
typed_edit-KeepsIds a = record { var_kept = λ v. refl; stream_kept = λ s. refl }

carried : {t t' : Tree} → t ≡ t' → IsConsistent t → IsConsistent t'
carried e h = rw e at h

-- Whatever a decoder yields is a consistent tree.
abbrev Yields : Decoder Tree → Type 0
Yields p = (buf : Bytes) (t : Tree) (rest : Bytes) → p buf ≡ ok (t, rest) → IsConsistent t

Yields-bind :
    {A : Type 0} (p : Decoder A) (f : A → Decoder Tree)
    → ((a : A) → Yields (f a))
    → Yields (p >>= f)
unfolding ◌>>=◌
Yields-bind p f h buf t rest e = let ((a, left), k, d) = bind-eq-ok (p buf) _ e in h a left t rest d

Yields-pure : (t : Tree) → IsConsistent t → Yields (pure t)
unfolding pure
Yields-pure t h buf t' rest e = let same : t ≡ t' = cc e in rw same at h

Yields-lift : (r : Result Tree) → ((t : Tree) → r ≡ ok t → IsConsistent t) → Yields (lift r)
unfolding lift
Yields-lift r h buf t rest e =
    let (found, k, d) = bind-eq-ok r _ e in let same : found ≡ t = cc d in rw same at (h found k)

module _ (t : Tree) (h : IsConsistent t) where
  Yields-scope : Yields (decode_scope t)
  unfolding decode_scope
  Yields-scope = Yields-bind _ _ λ code. Yields-bind _ _ λ scope_type. Yields-bind _ _ λ name.
      Yields-bind _ _ λ component.
        Yields-bind _ _
          λ file. Yields-bind _ _ λ line. Yields-pure _ (open_scope-IsConsistent _ t h)

  Yields-upscope : Yields (decode_upscope t)
  unfolding decode_upscope
  Yields-upscope = Yields-lift _ (λ t' e. close_in-IsConsistent t h e)

  Yields-var : Yields (decode_var t)
  unfolding decode_var
  Yields-var = Yields-bind _ _ λ var_id. Yields-bind _ _ λ name. Yields-bind _ _ λ sig_type.
      Yields-bind _ _ λ code. Yields-bind _ _ λ dir. Yields-bind _ _ λ alias.
        Yields-bind _ _
          λ file. Yields-bind _ _ λ line. Yields-pure _ (declare_var-IsConsistent _ t h)

  Yields-stream : Yields (decode_stream t)
  unfolding decode_stream
  Yields-stream = Yields-bind _ _ λ inst.
      Yields-bind _ _
        λ type_id. Yields-bind _ _ λ name. Yields-pure _ (declare_stream-IsConsistent _ t h)

  Yields-attr : Yields (decode_attr t)
  unfolding decode_attr
  Yields-attr = Yields-bind _ _ λ key.
      Yields-bind _ _
        λ value. Yields-lift _ (λ t' e. edit_in-IsConsistent _ (attr_edit-KeepsIds _) t h e)

  Yields-attr2 : Yields (decode_attr2 t)
  unfolding decode_attr2
  Yields-attr2 =
      Yields-bind _ _
        λ a. Yields-lift _ (λ t' e. edit_in-IsConsistent _ (typed_edit-KeepsIds a) t h e)

abbrev Keeps : (Tree → Decoder Tree) → Type 0
Keeps p = (t : Tree) → IsConsistent t → Yields (p t)

chosen-Keeps :
    (b : Bool) (q p : Tree → Decoder Tree) (others : Option (Tree → Decoder Tree))
    → Keeps q
    → (others ≡ some p → Keeps p)
    → (if b then some q else others) ≡ some p
    → Keeps p
chosen-Keeps true q p others k h e = let same : q ≡ p = cc e in rw same at k
chosen-Keeps false q p others k h e = h e

decode_tag-Keeps : (tag : ℕ) (p : Tree → Decoder Tree) → decode_tag tag ≡ some p → Keeps p
unfolding decode_tag
decode_tag-Keeps tag p = chosen-Keeps _ _ p _ Yields-scope (
    chosen-Keeps _ _ p _ Yields-upscope (
      chosen-Keeps _ _ p _ Yields-var (
        chosen-Keeps _ _ p _ Yields-stream (
          chosen-Keeps _ _ p _ Yields-attr
            (chosen-Keeps _ _ p none Yields-attr2 (λ e. absurd (cc e)))))))

decode_tags-IsConsistent :
    (fuel : ℕ) (buf : Bytes) (t : Tree) {t' : Tree}
    → IsConsistent t
    → decode_tags fuel t buf ≡ ok t'
    → IsConsistent t'
unfolding decode_tags
decode_tags-IsConsistent fuel [] t {t'} h e = let same : t ≡ t' = cc e in rw same at h
decode_tags-IsConsistent zero (tag ∷ buf) t h e = absurd (cc e)
decode_tags-IsConsistent (suc fuel) (tag ∷ buf) t {t'} h e = elim (Option-cases (decode_tag tag)) [
  | inl k ↦ (let same : t ≡ t' = cc (rw (k, decode_tags) at e) in rw same at h)
  | inr (p, k) ↦
      let ((next, rest), d, e1) = bind-eq-ok (p t buf) _ (rw (k, decode_tags) at e) in
      decode_tags-IsConsistent fuel rest next (decode_tag-Keeps tag p k t h buf next rest d) e1
]

decode_tag_sequence-IsConsistent :
    (buf : Bytes) (t : Tree) {t' : Tree}
    → IsConsistent t
    → decode_tag_sequence t buf ≡ ok t'
    → IsConsistent t'
unfolding decode_tag_sequence
decode_tag_sequence-IsConsistent buf t {t'} h e =
    let (last, k, d) = bind-eq-ok (decode_tags (length buf) t buf) _ e in
    let same : settled last ≡ t' = cc d in
    carried same (settled-IsConsistent last (decode_tags-IsConsistent (length buf) buf t h k))

edit_node-IsConsistent :
    (e : Edit)
    → KeepsIds e
    → (l : LastNode) (t : Tree) {t' : Tree} → IsConsistent t
    → edit_node e l t ≡ ok t'
    → IsConsistent t'
unfolding edit_node
edit_node-IsConsistent e k no_node t h d = absurd (cc d)
edit_node-IsConsistent e k open_one t h d = edit_open-IsConsistent e k t h d
edit_node-IsConsistent e k last_child t h d = edit_in-IsConsistent e k t h d

-- A call of a method that returns.
pub data Step : HierarchyBlock → HierarchyBlock → Type 0 where
  begins : (s : HScope) (b : HierarchyBlock) → Step b (begin_scope s b)
  ends : (b b' : HierarchyBlock) → end_scope b ≡ ok b' → Step b b'
  adds_var :
      (name sig_type : ℕ) (dir : VarDir) (alias file line : ℕ) (b : HierarchyBlock)
      → Step b (add_var name sig_type dir alias file line b).1
  adds_stream :
      (stream_type name : ℕ) (b : HierarchyBlock) → Step b (add_stream stream_type name b).1
  adds_attr : (key value : ℕ) (b b' : HierarchyBlock) → add_attr key value b ≡ ok b' → Step b b'
  adds_typed_attr : (a : TypedAttr) (b b' : HierarchyBlock) → add_typed_attr a b ≡ ok b' → Step b b'

-- A block is new, or a new one that a payload was read into, and then built further.
pub data Reachable (c : Compression) : HierarchyBlock → Type 0 where
  new : (hier_id : ℕ) (kind : HierKind) (name : ℕ) → Reachable c (hierarchy_block hier_id kind name)
  reads :
      (hier_id : ℕ) (kind : HierKind) (name flags : ℕ) (payload : Bytes) (b : HierarchyBlock)
      → read_block c flags payload (hierarchy_block hier_id kind name) ≡ ok b
      → Reachable c b
  reads_v1 :
      (hier_id : ℕ) (kind : HierKind) (name flags : ℕ) (payload : Bytes) (b : HierarchyBlock)
      → read_block_v1 c flags payload (hierarchy_block hier_id kind name) ≡ ok b
      → Reachable c b
  next : (b b' : HierarchyBlock) → Reachable c b → Step b b' → Reachable c b'

-- The tree of a state that is made from another by a change that may fail.
changed-IsConsistent :
    (r : Result Tree) (made : Tree → HierarchyBlock) {b' : HierarchyBlock}
    → ((t : Tree) → (made t).tree ≡ t)
    → ((t : Tree) → r ≡ ok t → IsConsistent t)
    → bind r (λ t. ok (made t)) ≡ ok b'
    → IsConsistent b'.tree
changed-IsConsistent r made {b'} same h e =
    let (t, k, d) = bind-eq-ok r _ e in
    let found : made t ≡ b' = cc d in
    carried (sym (same t) ∙ ap (λ (b : HierarchyBlock). b.tree) found) (h t k)

new-IsConsistent :
    (hier_id : ℕ) (kind : HierKind) (name : ℕ)
    → IsConsistent (hierarchy_block hier_id kind name).tree
unfolding hierarchy_block close_all rev_append declared_all
new-IsConsistent hier_id kind name = refl

Step-IsConsistent : (b b' : HierarchyBlock) → Step b b' → IsConsistent b.tree → IsConsistent b'.tree
unfolding begin_scope end_scope add_var add_stream add_attr add_typed_attr
Step-IsConsistent b _ (begins s _) h = open_scope-IsConsistent _ b.tree h
Step-IsConsistent b b' (ends _ _ e) h =
    changed-IsConsistent (close_in b.tree.scope_stack b.tree) _ (λ t. refl)
      (λ t k. close_in-IsConsistent b.tree h k) e
Step-IsConsistent b _ (adds_var name sig_type dir alias file line _) h =
    declare_var-IsConsistent _ b.tree h
Step-IsConsistent b _ (adds_stream stream_type name _) h = declare_stream-IsConsistent _ b.tree h
Step-IsConsistent b b' (adds_attr key value _ _ e) h =
    changed-IsConsistent (edit_node _ b.last_node b.tree) _ (λ t. refl)
      (λ t k. edit_node-IsConsistent _ (attr_edit-KeepsIds _) b.last_node b.tree h k) e
Step-IsConsistent b b' (adds_typed_attr a _ _ e) h =
    changed-IsConsistent (edit_node _ b.last_node b.tree) _ (λ t. refl)
      (λ t k. edit_node-IsConsistent _ (typed_edit-KeepsIds a) b.last_node b.tree h k) e

-- In every state that a HierarchyBlock comes to by calls of its methods, read from a payload of
-- either version of the format or built from nothing, the flat maps hold exactly what a walk over the
-- tree declares: each variable and stream under its identifier, with the attributes it has in the
-- tree, the later one where two share an identifier.
pub Reachable-IsConsistent :
    (c : Compression) (b : HierarchyBlock) → Reachable c b → IsConsistent b.tree
unfolding read_block read_block_v1 decode_inner
Reachable-IsConsistent c _ (new hier_id kind name) = new-IsConsistent hier_id kind name
Reachable-IsConsistent c b (reads hier_id kind name flags payload _ e) =
    let (inner, k, e1) = bind-eq-ok (decompress c flags payload) _ e in
    let ((header, rest), d, e2) = bind-eq-ok (decode_header inner) _ e1 in
    changed-IsConsistent (decode_tag_sequence _ rest) _ (λ t. refl)
      (λ t k. decode_tag_sequence-IsConsistent rest _ (new-IsConsistent hier_id kind name) k) e2
Reachable-IsConsistent c b (reads_v1 hier_id kind name flags payload _ e) =
    let (inner, k, e1) = bind-eq-ok (decompress c flags payload) _ e in
    changed-IsConsistent (decode_tag_sequence _ inner) _ (λ t. refl)
      (λ t k. decode_tag_sequence-IsConsistent inner _ (new-IsConsistent hier_id kind name) k) e1
Reachable-IsConsistent c b (next before _ r s) =
    Step-IsConsistent before b s (Reachable-IsConsistent c before r)
