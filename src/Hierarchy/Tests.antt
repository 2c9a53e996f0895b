-- ===== src/Hierarchy/Tests.antt =====
-- Runs of the hierarchy block at concrete inputs.
use trlog.Prelude.{ℕ, ◌<◌, ◌^◌, ◌≡◌, refl, List, [], ◌∷◌, Bool, true, false, arith}
use trlog.Prelude.Dict.{Dict}
use trlog.Wire.{Bytes, Result, ok}
use trlog.Types.{HierKind, ScopeType, VarDir}
use trlog.Compression.Samples.{marked, marked-IsSound, zero_floats}
use trlog.Hierarchy.{HAttr, HScope, HVar, Node, Nodes, nil, cons, scope, var, stream, root_children}
use trlog.Hierarchy.Block.{
  HierarchyBlock, hierarchy_block, begin_scope, add_var, add_stream, add_attr, encode_block,
  last_child,
}
use trlog.Hierarchy.Block.RoundTrip.{TreeRead, read-encode_block_hierarchy}
use trlog.Hierarchy.Consistent.{IsConsistent}
use trlog.Hierarchy.NodeRuns.{FitsNodes, FitsScope, FitsStream, FitsVar}
use trlog.Hierarchy.Reachable.{
  begins, adds_var, adds_stream, adds_attr, Reachable, new, next, Reachable-IsConsistent,
}

abbrev top : HScope
top = record {
  scope_type = ScopeType.module_;
  name_str_id = 4;
  component_str_id = 0;
  src_file_str_id = 0;
  src_line = 12;
  attrs = [];
  typed_attrs = [];
}

abbrev in_top : HierarchyBlock
in_top = begin_scope top (hierarchy_block 1 HierKind.design 5)

abbrev with_stream : HierarchyBlock
with_stream = (add_stream 2 6 in_top).1

abbrev with_var : HierarchyBlock
with_var = (add_var 7 3 VarDir.out 0 0 0 with_stream).1

-- `top`, still open, with a stream and a variable that has an attribute.
abbrev clock : HVar
clock = record {
  var_id = 1;
  name_str_id = 7;
  sig_type_id = 3;
  var_dir = VarDir.out;
  alias_of_var_id = 0;
  src_file_str_id = 0;
  src_line = 0;
  attrs = record { key_str_id = 8; value_str_id = 300 } ∷ [];
  typed_attrs = [];
}

abbrev bus : Node
bus = stream (record {
  stream_inst_id = 1;
  stream_type_id = 2;
  name_str_id = 6;
  attrs = [];
  typed_attrs = [];
})

abbrev with_attr : HierarchyBlock
with_attr = record {
  header = record { hier_id = 1; kind = HierKind.design; name_str_id = 5 };
  tree = record {
    scope_stack = record { scope = top; children = cons (var clock) (cons bus nil) } ∷ [];
    root = nil;
    vars = (1, clock) ∷ [];
    streams =
        (
          1,
          record {
            stream_inst_id = 1;
            stream_type_id = 2;
            name_str_id = 6;
            attrs = [];
            typed_attrs = [];
          },
        )
        ∷ [];
  };
  next_var_id = 2;
  next_stream_id = 2;
  last_node = last_child;
}

attr_added : add_attr 8 300 with_var ≡ ok with_attr
unfolding add_attr trlog.Hierarchy.Block.edit_node trlog.Hierarchy.edit_in
    trlog.Hierarchy.edit_in_frame trlog.Hierarchy.edit_child begin_scope add_var add_stream
    hierarchy_block trlog.Hierarchy.open_scope trlog.Hierarchy.declare_var
    trlog.Hierarchy.declare_stream trlog.Hierarchy.append_in trlog.Prelude.Dict.put
attr_added = refl

with_attr-Reachable : Reachable marked with_attr
with_attr-Reachable =
    next with_var with_attr
      (next with_stream with_var
        (next in_top with_stream
          (next (hierarchy_block 1 HierKind.design 5) in_top (new 1 HierKind.design 5)
            (begins top (hierarchy_block 1 HierKind.design 5)))
          (adds_stream 2 6 in_top))
        (adds_var 7 3 VarDir.out 0 0 0 with_stream))
      (adds_attr 8 300 with_var with_attr attr_added)

Reachable-IsConsistent_example : IsConsistent with_attr.tree
Reachable-IsConsistent_example = Reachable-IsConsistent marked with_attr with_attr-Reachable

with_attr-fits : FitsNodes (root_children with_attr.tree)
unfolding FitsNodes trlog.Hierarchy.close_all trlog.Hierarchy.rev_append
with_attr-fits = ((top_fits, (bus_fits, (clock_fits, tt))), tt)
  where
    top_fits : FitsScope top
    top_fits = record {
      name_fits = omega arith;
      component_fits = omega arith;
      file_fits = omega arith;
      line_fits = omega arith;
      attrs_fit = tt;
      typed_fit = tt;
    }

    bus_fits : FitsStream (record {
      stream_inst_id = 1;
      stream_type_id = 2;
      name_str_id = 6;
      attrs = [];
      typed_attrs = [];
    })
    bus_fits = record {
      id_fits = omega arith;
      type_fits = omega arith;
      name_fits = omega arith;
      attrs_fit = tt;
      typed_fit = tt;
    }

    clock_fits : FitsVar clock
    clock_fits = record {
      id_fits = omega arith;
      name_fits = omega arith;
      type_fits = omega arith;
      alias_fits = omega arith;
      file_fits = omega arith;
      line_fits = omega arith;
      attrs_fit = ((omega arith, omega arith), tt);
      typed_fit = tt;
    }

abbrev with_attr_block : Bytes
with_attr_block =
    3 ∷ 1 ∷ 45 ∷ 0 ∷ 0 ∷ 0 ∷ 0 ∷ 0 ∷ 0 ∷ 0 ∷ 26 ∷ 0 ∷ 0 ∷ 0 ∷ 0 ∷ 0 ∷ 0 ∷ 0 ∷ 120 ∷ 1 ∷ 0 ∷ 5 ∷ 1
    ∷ 0 ∷ 4 ∷ 0 ∷ 0 ∷ 12 ∷ 4 ∷ 1 ∷ 2 ∷ 6 ∷ 3 ∷ 1 ∷ 7 ∷ 3 ∷ 2 ∷ 0 ∷ 0 ∷ 0 ∷ 5 ∷ 8 ∷ 172 ∷ 2 ∷ 2 ∷ []

encode-with_attr : encode_block marked zero_floats true false with_attr ≡ ok with_attr_block
unfolding encode_block trlog.Hierarchy.close_all trlog.Hierarchy.rev_append
    trlog.Hierarchy.Stream.encode_header trlog.Hierarchy.Stream.encode_node
    trlog.Hierarchy.Stream.encode_nodes trlog.Codec.encode_uvarint trlog.Codec.uvarint
    trlog.Codec.uvarint_loop trlog.Compression.compress_payload trlog.Block.make_block
    trlog.Wire.append_byte trlog.Wire.pack trlog.Wire.le_bytes trlog.Wire.◌+++◌
    trlog.Wire.concat_map trlog.Types.hier_kind_code trlog.Types.scope_type_code
    trlog.Types.var_dir_code trlog.Types.block_type_code trlog.Prelude.Int.Bits.◌&ℤ◌
    trlog.Prelude.Int.Bits.◌>>ℤ◌
encode-with_attr = refl

read-encode_block_hierarchy_example :
    TreeRead marked with_attr (hierarchy_block 0 HierKind.custom 0) with_attr_block (9 ∷ [])
read-encode_block_hierarchy_example =
    read-encode_block_hierarchy marked zero_floats true false with_attr (9 ∷ []) 0 HierKind.custom 0
      marked-IsSound (omega arith, omega arith) with_attr-fits encode-with_attr
