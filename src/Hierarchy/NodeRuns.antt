-- ===== src/Hierarchy/NodeRuns.antt =====
-- python/src/trlog/_hierarchy.py: the loop over the tags, run on what one node is written as.
use trlog.Prelude.{ℕ, ◌<◌, ◌^◌, ◌≡◌, refl, ap, List, [], ◌∷◌, arith}
use trlog.Prelude.Dict.{Dict, nat_eq, put-put_eq}
use trlog.Wire.{Result, ok, ◌+++◌, append_byte}
use trlog.Wire.Reads.{Codes-bind, Codes-pure, Codes-append_byte, Codes-lift_bind, All}
use trlog.Types.{scope_type_code, var_dir_code}
use trlog.Types.Codes.{to_scope_type-code, scope_type_code-lt, to_var_dir-code, var_dir_code-lt}
use trlog.Codec.Uvarint.{Codes-uvarint}
use trlog.Floats.{Floats}
use trlog.Metadata.RoundTrip.{IsTypedAttr}
use trlog.Hierarchy.{
  HScope, HVar, HStream, Node, Nodes, scope, var, stream, nil, cons, Frame, Tree, append_in,
  open_scope, declare_var, declare_stream, Edit, attr_edit, typed_edit, edit_last, edit_in,
}
use trlog.Hierarchy.Stream.{
  encode_scope, encode_attrs, encode_node, decode_scope, decode_var, decode_stream, decode_tag,
  h_scope, h_var, h_stream,
}
use trlog.Hierarchy.Runs.{
  RunCodes, RunCodes-seq, RunCodes-tag, RunCodes-attrs, RunCodes-typed_attrs, IsHAttr,
}

-- A node that was just taken in is the last one.
module _ (e : Edit) where
  pub edit_last-open :
      (s : HScope) (t : Tree) → edit_last e (open_scope s t) ≡ ok (open_scope (e.on_scope s) t)
  unfolding open_scope edit_in
  edit_last-open s t = refl

  pub edit_in-var :
      (v : HVar) (stack : List Frame) (root : Nodes) (vars : Dict ℕ HVar) (streams : Dict ℕ HStream)
      → (e.on_var v).var_id ≡ v.var_id
      → edit_last e (
          declare_var v
            (record { scope_stack = stack; root = root; vars = vars; streams = streams }))
        ≡ ok (
            declare_var
              (e.on_var v)
              (record { scope_stack = stack; root = root; vars = vars; streams = streams }))
  unfolding declare_var edit_in
  edit_in-var v [] root vars streams h =
      let changed : Dict ℕ HVar → Result Tree = λ m. ok (
        append_in (var (e.on_var v)) []
          (record { scope_stack = []; root = root; vars = m; streams = streams })) in
      ap changed (put-put_eq vars v.var_id (e.on_var v).var_id v (e.on_var v) h)
  edit_in-var v (f ∷ stack) root vars streams h =
      let changed : Dict ℕ HVar → Result Tree = λ m. ok (
        append_in (var (e.on_var v)) (f ∷ stack)
          (record { scope_stack = (f ∷ stack); root = root; vars = m; streams = streams })) in
      ap changed (put-put_eq vars v.var_id (e.on_var v).var_id v (e.on_var v) h)

  pub edit_in-stream :
      (s : HStream) (stack : List Frame) (root : Nodes) (vars : Dict ℕ HVar)
      (streams : Dict ℕ HStream)
      → (e.on_stream s).stream_inst_id ≡ s.stream_inst_id
      → edit_last e (
          declare_stream s
            (record { scope_stack = stack; root = root; vars = vars; streams = streams }))
        ≡ ok (
            declare_stream
              (e.on_stream s)
              (record { scope_stack = stack; root = root; vars = vars; streams = streams }))
  unfolding declare_stream edit_in
  edit_in-stream s [] root vars streams h =
      let changed : Dict ℕ HStream → Result Tree = λ m. ok (
        append_in (stream (e.on_stream s)) []
          (record { scope_stack = []; root = root; vars = vars; streams = m })) in
      ap changed
        (put-put_eq streams s.stream_inst_id (e.on_stream s).stream_inst_id s (e.on_stream s) h)
  edit_in-stream s (f ∷ stack) root vars streams h =
      let changed : Dict ℕ HStream → Result Tree = λ m. ok (
        append_in (stream (e.on_stream s)) (f ∷ stack)
          (record { scope_stack = (f ∷ stack); root = root; vars = vars; streams = m })) in
      ap changed
        (put-put_eq streams s.stream_inst_id (e.on_stream s).stream_inst_id s (e.on_stream s) h)

-- Numbers that fit a varint, and attributes that fit theirs.
pub record FitsScope (s : HScope) : Type 0 where
  pub name_fits : s.name_str_id < 2 ^ 70
  pub component_fits : s.component_str_id < 2 ^ 70
  pub file_fits : s.src_file_str_id < 2 ^ 70
  pub line_fits : s.src_line < 2 ^ 70
  pub attrs_fit : All IsHAttr s.attrs
  pub typed_fit : All IsTypedAttr s.typed_attrs

pub record FitsVar (v : HVar) : Type 0 where
  pub id_fits : v.var_id < 2 ^ 70
  pub name_fits : v.name_str_id < 2 ^ 70
  pub type_fits : v.sig_type_id < 2 ^ 70
  pub alias_fits : v.alias_of_var_id < 2 ^ 70
  pub file_fits : v.src_file_str_id < 2 ^ 70
  pub line_fits : v.src_line < 2 ^ 70
  pub attrs_fit : All IsHAttr v.attrs
  pub typed_fit : All IsTypedAttr v.typed_attrs

pub record FitsStream (s : HStream) : Type 0 where
  pub id_fits : s.stream_inst_id < 2 ^ 70
  pub type_fits : s.stream_type_id < 2 ^ 70
  pub name_fits : s.name_str_id < 2 ^ 70
  pub attrs_fit : All IsHAttr s.attrs
  pub typed_fit : All IsTypedAttr s.typed_attrs

module _ (fl : Floats) where
  pub RunCodes-var :
      (v : HVar) (t : Tree) → FitsVar v → RunCodes (encode_node fl (var v)) t (declare_var v t)
  unfolding encode_node decode_var
  RunCodes-var v t h =
      RunCodes-seq
        (RunCodes-tag h_var decode_var (omega arith) (unfold decode_tag in refl) (
          Codes-bind _ (Codes-uvarint h.id_fits) (
            Codes-bind _ (Codes-uvarint h.name_fits) (
              Codes-bind _ (Codes-uvarint h.type_fits) (
                Codes-bind _
                  (Codes-append_byte (var_dir_code v.var_dir) (var_dir_code-lt v.var_dir))
                  (Codes-lift_bind _ (to_var_dir-code v.var_dir) (
                    Codes-bind _ (Codes-uvarint h.alias_fits) (
                      Codes-bind _ (Codes-uvarint h.file_fits)
                        (Codes-bind _ (Codes-uvarint h.line_fits) (Codes-pure _))))))))))
        (RunCodes-seq
          (RunCodes-attrs (λ attrs. declare_var (record v { attrs = attrs; typed_attrs = [] }) t)
            (λ a done.
              edit_in-var (attr_edit a) (record v { attrs = done; typed_attrs = [] }) t.scope_stack
                t.root t.vars t.streams refl)
            [] v.attrs h.attrs_fit)
          (RunCodes-typed_attrs fl (λ attrs. declare_var (record v { typed_attrs = attrs }) t)
            (λ a done.
              edit_in-var (typed_edit a) (record v { typed_attrs = done }) t.scope_stack t.root
                t.vars t.streams refl)
            [] v.typed_attrs h.typed_fit))

  pub RunCodes-stream :
      (s : HStream) (t : Tree)
      → FitsStream s
      → RunCodes (encode_node fl (stream s)) t (declare_stream s t)
  unfolding encode_node decode_stream
  RunCodes-stream s t h =
      RunCodes-seq
        (RunCodes-tag h_stream decode_stream (omega arith) (unfold decode_tag in refl) (
          Codes-bind _ (Codes-uvarint h.id_fits) (
            Codes-bind _ (Codes-uvarint h.type_fits)
              (Codes-bind _ (Codes-uvarint h.name_fits) (Codes-pure _)))))
        (RunCodes-seq
          (RunCodes-attrs (λ attrs. declare_stream (record s { attrs = attrs; typed_attrs = [] }) t)
            (λ a done.
              edit_in-stream (attr_edit a) (record s { attrs = done; typed_attrs = [] })
                t.scope_stack t.root t.vars t.streams refl)
            [] s.attrs h.attrs_fit)
          (RunCodes-typed_attrs fl (λ attrs. declare_stream (record s { typed_attrs = attrs }) t)
            (λ a done.
              edit_in-stream (typed_edit a) (record s { typed_attrs = done }) t.scope_stack t.root
                t.vars t.streams refl)
            [] s.typed_attrs h.typed_fit))

  -- A scope up to its children.
  pub RunCodes-open :
      (s : HScope) (t : Tree)
      → FitsScope s
      → RunCodes
          ((append_byte h_scope +++ encode_scope s) +++ encode_attrs fl s.attrs s.typed_attrs)
          t
          (open_scope s t)
  unfolding encode_scope decode_scope
  RunCodes-open s t h =
      RunCodes-seq
        (RunCodes-tag h_scope decode_scope (omega arith) (unfold decode_tag in refl) (
          Codes-bind _
            (Codes-append_byte (scope_type_code s.scope_type) (scope_type_code-lt s.scope_type))
            (Codes-lift_bind _ (to_scope_type-code s.scope_type) (
              Codes-bind _ (Codes-uvarint h.name_fits) (
                Codes-bind _ (Codes-uvarint h.component_fits) (
                  Codes-bind _ (Codes-uvarint h.file_fits)
                    (Codes-bind _ (Codes-uvarint h.line_fits) (Codes-pure _))))))))
        (RunCodes-seq
          (RunCodes-attrs (λ attrs. open_scope (record s { attrs = attrs; typed_attrs = [] }) t)
            (λ a done. edit_last-open (attr_edit a) (record s { attrs = done; typed_attrs = [] }) t)
            [] s.attrs h.attrs_fit)
          (RunCodes-typed_attrs fl (λ attrs. open_scope (record s { typed_attrs = attrs }) t)
            (λ a done. edit_last-open (typed_edit a) (record s { typed_attrs = done }) t) []
            s.typed_attrs h.typed_fit))

unfoldable mutual
  pub FitsNode : Node → Type 0
  FitsNode (scope s ns) = FitsScope s × FitsNodes ns
  FitsNode (var v) = FitsVar v
  FitsNode (stream s) = FitsStream s

  pub FitsNodes : Nodes → Type 0
  FitsNodes nil = Unit
  FitsNodes (cons n ns) = FitsNode n × FitsNodes ns
