-- ===== src/Types/Codes.antt =====
-- python/src/trlog/_types.py: codes and members of the enumerations.
use trlog.Prelude.{◌<◌, ◌≡◌, refl, arith}
use trlog.Wire.{ok}
use trlog.Types.{
  BlockType, to_block_type, block_type_code, HierKind, to_hier_kind, hier_kind_code, ScopeType,
  to_scope_type, scope_type_code, VarDir, to_var_dir, var_dir_code, SignalEncoding,
  to_signal_encoding, signal_encoding_code, FieldType, to_field_type, field_type_code, LinkType,
  to_link_type, link_type_code, Radix, to_radix, radix_code,
}

pub to_block_type-code : (e : BlockType) → to_block_type (block_type_code e) ≡ ok e
unfolding to_block_type
to_block_type-code BlockType.file_hdr = refl
to_block_type-code BlockType.str_table = refl
to_block_type-code BlockType.type_reg = refl
to_block_type-code BlockType.hierarchy = refl
to_block_type-code BlockType.meta = refl
to_block_type-code BlockType.vc_data = refl
to_block_type-code BlockType.txn_data = refl
to_block_type-code BlockType.aux = refl
to_block_type-code BlockType.ext = refl
to_block_type-code BlockType.index = refl
to_block_type-code BlockType.skip = refl

pub block_type_code-lt : (e : BlockType) → block_type_code e < 256
unfolding block_type_code
block_type_code-lt BlockType.file_hdr = omega arith
block_type_code-lt _ = omega arith

pub to_hier_kind-code : (e : HierKind) → to_hier_kind (hier_kind_code e) ≡ ok e
unfolding to_hier_kind
to_hier_kind-code HierKind.design = refl
to_hier_kind-code HierKind.behavioral = refl
to_hier_kind-code HierKind.sw = refl
to_hier_kind-code HierKind.custom = refl

pub hier_kind_code-lt : (e : HierKind) → hier_kind_code e < 256
unfolding hier_kind_code
hier_kind_code-lt HierKind.design = omega arith
hier_kind_code-lt _ = omega arith

pub to_scope_type-code : (e : ScopeType) → to_scope_type (scope_type_code e) ≡ ok e
unfolding to_scope_type
to_scope_type-code ScopeType.module_ = refl
to_scope_type-code ScopeType.task = refl
to_scope_type-code ScopeType.function = refl
to_scope_type-code ScopeType.block = refl
to_scope_type-code ScopeType.fork = refl
to_scope_type-code ScopeType.generate = refl
to_scope_type-code ScopeType.struct = refl
to_scope_type-code ScopeType.union = refl
to_scope_type-code ScopeType.interface = refl
to_scope_type-code ScopeType.package_ = refl
to_scope_type-code ScopeType.program = refl
to_scope_type-code ScopeType.vhdl_arch = refl
to_scope_type-code ScopeType.vhdl_proc = refl
to_scope_type-code ScopeType.anonymous = refl

pub scope_type_code-lt : (e : ScopeType) → scope_type_code e < 256
unfolding scope_type_code
scope_type_code-lt ScopeType.module_ = omega arith
scope_type_code-lt _ = omega arith

pub to_var_dir-code : (e : VarDir) → to_var_dir (var_dir_code e) ≡ ok e
unfolding to_var_dir
to_var_dir-code VarDir.none_ = refl
to_var_dir-code VarDir.in_ = refl
to_var_dir-code VarDir.out = refl
to_var_dir-code VarDir.inout = refl
to_var_dir-code VarDir.buffer = refl

pub var_dir_code-lt : (e : VarDir) → var_dir_code e < 256
unfolding var_dir_code
var_dir_code-lt VarDir.none_ = omega arith
var_dir_code-lt _ = omega arith

pub to_signal_encoding-code :
    (e : SignalEncoding) → to_signal_encoding (signal_encoding_code e) ≡ ok e
unfolding to_signal_encoding
to_signal_encoding-code SignalEncoding.two_state = refl
to_signal_encoding-code SignalEncoding.four_state = refl
to_signal_encoding-code SignalEncoding.nine_state = refl
to_signal_encoding-code SignalEncoding.real = refl
to_signal_encoding-code SignalEncoding.string = refl
to_signal_encoding-code SignalEncoding.bitvec = refl
to_signal_encoding-code SignalEncoding.analog = refl

pub signal_encoding_code-lt : (e : SignalEncoding) → signal_encoding_code e < 256
unfolding signal_encoding_code
signal_encoding_code-lt SignalEncoding.two_state = omega arith
signal_encoding_code-lt _ = omega arith

pub to_field_type-code : (e : FieldType) → to_field_type (field_type_code e) ≡ ok e
unfolding to_field_type
to_field_type-code FieldType.u8 = refl
to_field_type-code FieldType.u16 = refl
to_field_type-code FieldType.u32 = refl
to_field_type-code FieldType.u64 = refl
to_field_type-code FieldType.i8 = refl
to_field_type-code FieldType.i16 = refl
to_field_type-code FieldType.i32 = refl
to_field_type-code FieldType.i64 = refl
to_field_type-code FieldType.f32 = refl
to_field_type-code FieldType.f64 = refl
to_field_type-code FieldType.bool = refl
to_field_type-code FieldType.string = refl
to_field_type-code FieldType.bitvec = refl
to_field_type-code FieldType.bytes = refl
to_field_type-code FieldType.time = refl
to_field_type-code FieldType.enum = refl

pub field_type_code-lt : (e : FieldType) → field_type_code e < 256
unfolding field_type_code
field_type_code-lt FieldType.u8 = omega arith
field_type_code-lt _ = omega arith

pub to_link_type-code : (e : LinkType) → to_link_type (link_type_code e) ≡ ok e
unfolding to_link_type
to_link_type-code LinkType.cause_effect = refl
to_link_type-code LinkType.parent_child = refl
to_link_type-code LinkType.related = refl
to_link_type-code LinkType.custom = refl

pub link_type_code-lt : (e : LinkType) → link_type_code e < 256
unfolding link_type_code
link_type_code-lt LinkType.cause_effect = omega arith
link_type_code-lt _ = omega arith

pub to_radix-code : (e : Radix) → to_radix (radix_code e) ≡ ok e
unfolding to_radix
to_radix-code Radix.hex = refl
to_radix-code Radix.dec = refl
to_radix-code Radix.oct = refl
to_radix-code Radix.bin = refl
to_radix-code Radix.udec = refl
to_radix-code Radix.signed = refl
to_radix-code Radix.real = refl
to_radix-code Radix.string = refl
to_radix-code Radix.time = refl

pub radix_code-lt : (e : Radix) → radix_code e < 256
unfolding radix_code
radix_code-lt Radix.hex = omega arith
radix_code-lt _ = omega arith
