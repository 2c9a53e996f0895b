-- ===== src/Hierarchy/Block.antt =====
-- python/src/trlog/_hierarchy.py: the class HierarchyBlock. A block is read into before
-- anything is built in it.
pub mod RoundTrip
use trlog.Prelude.{ℕ, suc, List, [], ◌∷◌, ◌++◌, length, drop, Bool, if◌then◌else◌}
use trlog.Prelude.Dict.{Dict, put, nat_eq}
use trlog.Wire.{Bytes, Result, ok, err, bind, ◌+++◌, pack, format_error}
use trlog.Types.{HierKind, VarDir, hierarchy}
use trlog.Compression.{Compression, compress_payload, decompress_payload, has_flag, flag_compressed}
use trlog.Block.{make_block}
use trlog.Floats.{Floats}
use trlog.Metadata.{TypedAttr}
use trlog.Hierarchy.{
  HierarchyHeader, HAttr, HScope, HVar, HStream, Nodes, nil, Frame, Tree, set_stack, open_scope,
  close_scope, close_in, declare_var, declare_stream, Edit, attr_edit, typed_edit, edit_last,
  edit_in, root_children,
}
use trlog.Hierarchy.Stream.{encode_header, decode_header, encode_nodes, decode_tag_sequence}

-- What `_last_node` points to: nothing, the innermost open scope, or the last child in it.
pub data LastNode : Type 0 where
  no_node open_one last_child : LastNode

pub record HierarchyBlock : Type 0 where
  pub header : HierarchyHeader
  pub tree : Tree
  pub next_var_id : ℕ
  pub next_stream_id : ℕ
  pub last_node : LastNode

unfoldable pub hierarchy_block : ℕ → HierKind → ℕ → HierarchyBlock
hierarchy_block hier_id kind name_str_id = record {
  header = record { hier_id = hier_id; kind = kind; name_str_id = name_str_id };
  tree = record { scope_stack = []; root = nil; vars = []; streams = [] };
  next_var_id = 1;
  next_stream_id = 1;
  last_node = no_node;
}

-- The scope comes without attributes.
unfoldable pub begin_scope : HScope → HierarchyBlock → HierarchyBlock
begin_scope s b = record b {
  tree = open_scope (record s { attrs = []; typed_attrs = [] }) b.tree;
  last_node = open_one;
}

abbrev enclosing : List Frame → LastNode
enclosing [] = no_node
enclosing (f ∷ stack) = open_one

unfoldable pub end_scope : HierarchyBlock → Result HierarchyBlock
end_scope b =
    bind (close_scope b.tree) λ t. ok (record b { tree = t; last_node = enclosing t.scope_stack })

unfoldable pub add_var : ℕ → ℕ → VarDir → ℕ → ℕ → ℕ → HierarchyBlock → ℕ × HierarchyBlock
add_var name_str_id sig_type_id var_dir alias_of_var_id src_file_str_id src_line b = (
  b.next_var_id,
  record b {
    tree =
        declare_var
          (record {
            var_id = b.next_var_id;
            name_str_id = name_str_id;
            sig_type_id = sig_type_id;
            var_dir = var_dir;
            alias_of_var_id = alias_of_var_id;
            src_file_str_id = src_file_str_id;
            src_line = src_line;
            attrs = [];
            typed_attrs = [];
          })
          b.tree;
    next_var_id = suc b.next_var_id;
    last_node = last_child;
  },
)

unfoldable pub add_stream : ℕ → ℕ → HierarchyBlock → ℕ × HierarchyBlock
add_stream stream_type_id name_str_id b = (
  b.next_stream_id,
  record b {
    tree =
        declare_stream
          (record {
            stream_inst_id = b.next_stream_id;
            stream_type_id = stream_type_id;
            name_str_id = name_str_id;
            attrs = [];
            typed_attrs = [];
          })
          b.tree;
    next_stream_id = suc b.next_stream_id;
    last_node = last_child;
  },
)

-- The innermost open scope changed.
unfoldable pub edit_open : Edit → List Frame → Tree → Result Tree
edit_open e [] t = err format_error
edit_open e (f ∷ stack) t = ok (set_stack (record f { scope = e.on_scope f.scope } ∷ stack) t)

unfoldable pub edit_node : Edit → LastNode → Tree → Result Tree
unfolding edit_open
edit_node e no_node t = err format_error
edit_node e open_one t = edit_open e t.scope_stack t
edit_node e last_child t = edit_last e t

unfoldable pub add_attr : ℕ → ℕ → HierarchyBlock → Result HierarchyBlock
unfolding edit_node
add_attr key_str_id value_str_id b =
    bind
      (edit_node (attr_edit (record { key_str_id = key_str_id; value_str_id = value_str_id }))
        b.last_node b.tree)
      λ t. ok (record b { tree = t })

unfoldable pub add_typed_attr : TypedAttr → HierarchyBlock → Result HierarchyBlock
unfolding edit_node
add_typed_attr a b =
    bind (edit_node (typed_edit a) b.last_node b.tree) λ t. ok (record b { tree = t })

unfoldable pub encode_inner : Floats → HierarchyBlock → Result Bytes
encode_inner fl b = encode_header b.header +++ encode_nodes fl (root_children b.tree)

-- The uncompressed length stands before the compressed bytes.
unfoldable pub encode_block : Compression → Floats → Bool → Bool → HierarchyBlock → Result Bytes
unfolding encode_inner
encode_block c fl compress use_zstd b = bind (encode_inner fl b) λ inner.
    if compress
    then bind (compress_payload c use_zstd inner) (λ (flags, compressed).
      bind (pack 8 (length inner) +++ ok compressed) (make_block hierarchy flags))
    else make_block hierarchy 0 inner

unfoldable pub decompress : Compression → ℕ → Bytes → Result Bytes
decompress c flags payload =
    if has_flag flags flag_compressed
    then decompress_payload c flags (drop 8 payload)
    else ok payload

unfoldable pub decode_inner : Bytes → HierarchyBlock → Result HierarchyBlock
decode_inner inner b = bind (decode_header inner) λ (header, rest).
    bind (decode_tag_sequence b.tree rest) λ t. ok (record b { header = header; tree = t })

unfoldable pub read_block : Compression → ℕ → Bytes → HierarchyBlock → Result HierarchyBlock
unfolding decompress decode_inner
read_block c flags payload b = bind (decompress c flags payload) λ inner. decode_inner inner b

-- A payload of the first version of the format has no header.
unfoldable pub read_block_v1 : Compression → ℕ → Bytes → HierarchyBlock → Result HierarchyBlock
unfolding decompress
read_block_v1 c flags payload b =
    bind (decompress c flags payload)
      λ inner. bind (decode_tag_sequence b.tree inner) λ t. ok (record b { tree = t })
