-- ===== src/Types.antt =====
-- python/src/trlog/_types.py: the enumerations, each with the codes of its members. `E(b)` on a
-- code that no member has raises ValueError.
pub mod Codes
use trlog.Prelude.{ℕ, List, [], ◌∷◌, ◌==◌, if◌then◌else◌}
use trlog.Wire.{Result, ok, err, value_error}

-- the member of an IntEnum that has the code `b`
unfoldable pub member {ℓ} : {A : Type ℓ} → (A → ℕ) → List A → ℕ → Result A
member code [] b = err value_error
member code (m ∷ ms) b = if code m == b then ok m else member code ms b

pub data BlockType : Type 0 where
  file_hdr str_table type_reg hierarchy meta vc_data txn_data aux ext index skip : BlockType

unfoldable pub block_type_code : BlockType → ℕ
block_type_code file_hdr = 0
block_type_code str_table = 1
block_type_code type_reg = 2
block_type_code hierarchy = 3
block_type_code meta = 4
block_type_code vc_data = 0x10
block_type_code txn_data = 0x11
block_type_code aux = 0x12
block_type_code ext = 0x20
block_type_code index = 0xfe
block_type_code skip = 0xff

abbrev block_type_members : List BlockType
block_type_members =
    file_hdr ∷ str_table ∷ type_reg ∷ hierarchy ∷ meta ∷ vc_data ∷ txn_data ∷ aux ∷ ext ∷ index
    ∷ skip ∷ []

unfoldable pub to_block_type : ℕ → Result BlockType
unfolding member block_type_code
to_block_type = member block_type_code block_type_members

pub data HierKind : Type 0 where
  design behavioral sw custom : HierKind

unfoldable pub hier_kind_code : HierKind → ℕ
hier_kind_code design = 0
hier_kind_code behavioral = 1
hier_kind_code sw = 2
hier_kind_code custom = 0xff

abbrev hier_kind_members : List HierKind
hier_kind_members = design ∷ behavioral ∷ sw ∷ custom ∷ []

unfoldable pub to_hier_kind : ℕ → Result HierKind
unfolding member hier_kind_code
to_hier_kind = member hier_kind_code hier_kind_members

pub data ScopeType : Type 0 where
  module_ task function block fork generate struct union interface package_ program : ScopeType
  vhdl_arch vhdl_proc anonymous : ScopeType

unfoldable pub scope_type_code : ScopeType → ℕ
scope_type_code module_ = 0
scope_type_code task = 1
scope_type_code function = 2
scope_type_code block = 3
scope_type_code fork = 4
scope_type_code generate = 5
scope_type_code struct = 6
scope_type_code union = 7
scope_type_code interface = 8
scope_type_code package_ = 9
scope_type_code program = 0xa
scope_type_code vhdl_arch = 0xb
scope_type_code vhdl_proc = 0xc
scope_type_code anonymous = 0xff

abbrev scope_type_members : List ScopeType
scope_type_members =
    module_ ∷ task ∷ function ∷ block ∷ fork ∷ generate ∷ struct ∷ union ∷ interface ∷ package_
    ∷ program ∷ vhdl_arch ∷ vhdl_proc ∷ anonymous ∷ []

unfoldable pub to_scope_type : ℕ → Result ScopeType
unfolding member scope_type_code
to_scope_type = member scope_type_code scope_type_members

pub data VarDir : Type 0 where
  none_ in_ out inout buffer : VarDir

unfoldable pub var_dir_code : VarDir → ℕ
var_dir_code none_ = 0
var_dir_code in_ = 1
var_dir_code out = 2
var_dir_code inout = 3
var_dir_code buffer = 4

abbrev var_dir_members : List VarDir
var_dir_members = none_ ∷ in_ ∷ out ∷ inout ∷ buffer ∷ []

unfoldable pub to_var_dir : ℕ → Result VarDir
unfolding member var_dir_code
to_var_dir = member var_dir_code var_dir_members

pub data SignalEncoding : Type 0 where
  two_state four_state nine_state real string bitvec analog : SignalEncoding

unfoldable pub signal_encoding_code : SignalEncoding → ℕ
signal_encoding_code two_state = 0
signal_encoding_code four_state = 1
signal_encoding_code nine_state = 2
signal_encoding_code real = 3
signal_encoding_code string = 4
signal_encoding_code bitvec = 5
signal_encoding_code analog = 6

abbrev signal_encoding_members : List SignalEncoding
signal_encoding_members = two_state ∷ four_state ∷ nine_state ∷ real ∷ string ∷ bitvec ∷ analog ∷ []

unfoldable pub to_signal_encoding : ℕ → Result SignalEncoding
unfolding member signal_encoding_code
to_signal_encoding = member signal_encoding_code signal_encoding_members

pub data FieldType : Type 0 where
  u8 u16 u32 u64 i8 i16 i32 i64 f32 f64 bool string bitvec bytes time enum : FieldType

unfoldable pub field_type_code : FieldType → ℕ
field_type_code u8 = 0
field_type_code u16 = 1
field_type_code u32 = 2
field_type_code u64 = 3
field_type_code i8 = 4
field_type_code i16 = 5
field_type_code i32 = 6
field_type_code i64 = 7
field_type_code f32 = 8
field_type_code f64 = 9
field_type_code bool = 0xa
field_type_code string = 0xb
field_type_code bitvec = 0xc
field_type_code bytes = 0xd
field_type_code time = 0xe
field_type_code enum = 0xf

abbrev field_type_members : List FieldType
field_type_members =
    u8 ∷ u16 ∷ u32 ∷ u64 ∷ i8 ∷ i16 ∷ i32 ∷ i64 ∷ f32 ∷ f64 ∷ bool ∷ string ∷ bitvec ∷ bytes ∷ time
    ∷ enum ∷ []

unfoldable pub to_field_type : ℕ → Result FieldType
unfolding member field_type_code
to_field_type = member field_type_code field_type_members

pub data LinkType : Type 0 where
  cause_effect parent_child related custom : LinkType

unfoldable pub link_type_code : LinkType → ℕ
link_type_code cause_effect = 0
link_type_code parent_child = 1
link_type_code related = 2
link_type_code custom = 0xff

abbrev link_type_members : List LinkType
link_type_members = cause_effect ∷ parent_child ∷ related ∷ custom ∷ []

unfoldable pub to_link_type : ℕ → Result LinkType
unfolding member link_type_code
to_link_type = member link_type_code link_type_members

pub data Radix : Type 0 where
  hex dec oct bin udec signed real string time : Radix

unfoldable pub radix_code : Radix → ℕ
radix_code hex = 0
radix_code dec = 1
radix_code oct = 2
radix_code bin = 3
radix_code udec = 4
radix_code signed = 5
radix_code real = 6
radix_code string = 7
radix_code time = 8

abbrev radix_members : List Radix
radix_members = hex ∷ dec ∷ oct ∷ bin ∷ udec ∷ signed ∷ real ∷ string ∷ time ∷ []

unfoldable pub to_radix : ℕ → Result Radix
unfolding member radix_code
to_radix = member radix_code radix_members
