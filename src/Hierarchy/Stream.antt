-- ===== src/Hierarchy/Stream.antt =====
-- python/src/trlog/_hierarchy.py: the sequence of tags that a tree is written as, and the loop that
-- reads it. A round of the loop takes a byte, so there are as many as bytes.
use trlog.Prelude.{ℕ, zero, suc, List, [], ◌∷◌, length, Option, none, some, ◌==◌, if◌then◌else◌}
use trlog.Prelude.Int.{pos}
use trlog.Wire.{
  Bytes, Result, ok, err, bind, ◌+++◌, concat, concat_map, Decoder, ◌>>=◌, pure, lift, append_byte,
  read_byte, out_of_fuel,
}
use trlog.Types.{
  scope_type_code, to_scope_type, var_dir_code, to_var_dir, hier_kind_code, to_hier_kind,
}
use trlog.Codec.{encode_uvarint, decode_uvarint}
use trlog.Floats.{Floats}
use trlog.Metadata.{TypedAttr, encode_typed_attr, decode_typed_attr}
use trlog.Hierarchy.{
  HierarchyHeader, HAttr, HScope, HVar, HStream, Node, Nodes, scope, var, stream, nil, cons, Tree,
  open_scope, close_scope, declare_var, declare_stream, attr_edit, typed_edit, edit_last, close_all,
}

-- HierTag
abbrev pub h_scope : ℕ
h_scope = 0x01

abbrev pub h_upscope : ℕ
h_upscope = 0x02

abbrev pub h_var : ℕ
h_var = 0x03

abbrev pub h_stream : ℕ
h_stream = 0x04

abbrev pub h_attr : ℕ
h_attr = 0x05

abbrev pub h_attr2 : ℕ
h_attr2 = 0x06

unfoldable pub encode_scope : HScope → Result Bytes
encode_scope s = concat (
    append_byte (scope_type_code s.scope_type)
    ∷ encode_uvarint (pos s.name_str_id)
    ∷ encode_uvarint (pos s.component_str_id)
    ∷ encode_uvarint (pos s.src_file_str_id)
    ∷ encode_uvarint (pos s.src_line)
    ∷ [])

unfoldable pub encode_var : HVar → Result Bytes
encode_var v = concat (
    encode_uvarint (pos v.var_id)
    ∷ encode_uvarint (pos v.name_str_id)
    ∷ encode_uvarint (pos v.sig_type_id)
    ∷ append_byte (var_dir_code v.var_dir)
    ∷ encode_uvarint (pos v.alias_of_var_id)
    ∷ encode_uvarint (pos v.src_file_str_id)
    ∷ encode_uvarint (pos v.src_line)
    ∷ [])

unfoldable pub encode_stream : HStream → Result Bytes
encode_stream s = concat (
    encode_uvarint (pos s.stream_inst_id)
    ∷ encode_uvarint (pos s.stream_type_id)
    ∷ encode_uvarint (pos s.name_str_id)
    ∷ [])

unfoldable pub encode_attr_body : HAttr → Result Bytes
encode_attr_body a = encode_uvarint (pos a.key_str_id) +++ encode_uvarint (pos a.value_str_id)

unfoldable pub encode_attr : HAttr → Result Bytes
unfolding encode_attr_body
encode_attr a = append_byte h_attr +++ encode_attr_body a

unfoldable pub encode_attr2 : Floats → TypedAttr → Result Bytes
encode_attr2 fl a = append_byte h_attr2 +++ encode_typed_attr fl a

-- The attributes of a node stand behind it and before its children.
abbrev pub encode_attrs : Floats → List HAttr → List TypedAttr → Result Bytes
encode_attrs fl attrs typed_attrs =
    concat_map encode_attr attrs +++ concat_map (encode_attr2 fl) typed_attrs

unfoldable mutual
  unfolding encode_scope encode_var encode_stream encode_attr encode_attr2

  pub encode_node : Floats → Node → Result Bytes
  encode_node fl (scope s children) =
      (append_byte h_scope +++ encode_scope s)
      +++ encode_attrs fl s.attrs s.typed_attrs
      +++ encode_nodes fl children
      +++ append_byte h_upscope
  encode_node fl (var v) =
      (append_byte h_var +++ encode_var v) +++ encode_attrs fl v.attrs v.typed_attrs
  encode_node fl (stream s) =
      (append_byte h_stream +++ encode_stream s) +++ encode_attrs fl s.attrs s.typed_attrs

  pub encode_nodes : Floats → Nodes → Result Bytes
  encode_nodes fl nil = ok []
  encode_nodes fl (cons n ns) = encode_node fl n +++ encode_nodes fl ns

-- Each reads what stands behind the tag and takes it into the tree.
unfoldable pub decode_scope : Tree → Decoder Tree
decode_scope t = do
  code ← read_byte
  scope_type ← lift (to_scope_type code)
  name_sid ← decode_uvarint
  comp_sid ← decode_uvarint
  file_sid ← decode_uvarint
  src_line ← decode_uvarint
  pure (
      open_scope
        (record {
          scope_type = scope_type;
          name_str_id = name_sid;
          component_str_id = comp_sid;
          src_file_str_id = file_sid;
          src_line = src_line;
          attrs = [];
          typed_attrs = [];
        })
        t)

unfoldable pub decode_upscope : Tree → Decoder Tree
decode_upscope t = lift (close_scope t)

unfoldable pub decode_var : Tree → Decoder Tree
decode_var t = do
  var_id ← decode_uvarint
  name_sid ← decode_uvarint
  sig_type_id ← decode_uvarint
  code ← read_byte
  var_dir ← lift (to_var_dir code)
  alias_id ← decode_uvarint
  file_sid ← decode_uvarint
  src_line ← decode_uvarint
  pure (
      declare_var
        (record {
          var_id = var_id;
          name_str_id = name_sid;
          sig_type_id = sig_type_id;
          var_dir = var_dir;
          alias_of_var_id = alias_id;
          src_file_str_id = file_sid;
          src_line = src_line;
          attrs = [];
          typed_attrs = [];
        })
        t)

unfoldable pub decode_stream : Tree → Decoder Tree
decode_stream t = do
  inst_id ← decode_uvarint
  stream_type_id ← decode_uvarint
  name_sid ← decode_uvarint
  pure (
      declare_stream
        (record {
          stream_inst_id = inst_id;
          stream_type_id = stream_type_id;
          name_str_id = name_sid;
          attrs = [];
          typed_attrs = [];
        })
        t)

unfoldable pub decode_attr : Tree → Decoder Tree
decode_attr t = do
  key_sid ← decode_uvarint
  val_sid ← decode_uvarint
  lift (edit_last (attr_edit (record { key_str_id = key_sid; value_str_id = val_sid })) t)

unfoldable pub decode_attr2 : Tree → Decoder Tree
decode_attr2 t = do ta ← decode_typed_attr; lift (edit_last (typed_edit ta) t)

-- What is done on a tag; `none` on an unknown one, at which the loop stops.
unfoldable pub decode_tag : ℕ → Option (Tree → Decoder Tree)
decode_tag tag =
    if tag == h_scope
    then some decode_scope
    else if tag == h_upscope
    then some decode_upscope
    else if tag == h_var
    then some decode_var
    else if tag == h_stream
    then some decode_stream
    else if tag == h_attr
    then some decode_attr
    else if tag == h_attr2
    then some decode_attr2
    else none

unfoldable pub decode_tags : ℕ → Tree → Bytes → Result Tree
unfolding decode_tag
decode_tags fuel t [] = ok t
decode_tags zero t (tag ∷ buf) = err out_of_fuel
decode_tags (suc fuel) t (tag ∷ buf) = elim (decode_tag tag) [
  | none ↦ ok t
  | some p ↦ bind (p t buf) λ (t', rest). decode_tags fuel t' rest
]

-- The stack of scopes is the loop's own: one that is not closed is in the tree all the same.
abbrev pub settled : Tree → Tree
settled t = record t { scope_stack = []; root = close_all t.scope_stack t.root }

unfoldable pub decode_tag_sequence : Tree → Bytes → Result Tree
unfolding decode_tags
decode_tag_sequence t buf = bind (decode_tags (length buf) t buf) λ t'. ok (settled t')

unfoldable pub encode_header : HierarchyHeader → Result Bytes
encode_header h = concat (
    encode_uvarint (pos h.hier_id)
    ∷ append_byte (hier_kind_code h.kind)
    ∷ encode_uvarint (pos h.name_str_id)
    ∷ [])

unfoldable pub decode_header : Decoder HierarchyHeader
decode_header = do
  hier_id ← decode_uvarint
  code ← read_byte
  kind ← lift (to_hier_kind code)
  name_str_id ← decode_uvarint
  pure (record { hier_id = hier_id; kind = kind; name_str_id = name_str_id })
