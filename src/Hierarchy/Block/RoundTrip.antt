-- ===== src/Hierarchy/Block/RoundTrip.antt =====
-- python/src/trlog/_hierarchy.py: a BLK_HIERARCHY block is read back as the tree that was written.
use trlog.Prelude.{
  ℕ, ◌<◌, ◌^◌, ◌≡◌, refl, [], ◌++◌, length, Bool, true, false, drop, Option-cases, inl, inr,
  if◌then◌else◌, arith,
}
use trlog.Wire.{Bytes, ok, bind, bind-eq-ok, ◌+++◌, pack, le_bytes}
use trlog.Wire.Reads.{
  Codes, Codes-bind, Codes-pure, Codes-append_byte, Codes-lift_bind, pack-le_bytes, pack-fits,
  length-le_bytes, drop_front, +++-eq-ok,
}
use trlog.Types.{hier_kind_code, HierKind, hierarchy}
use trlog.Types.Codes.{to_hier_kind-code, hier_kind_code-lt}
use trlog.Codec.Uvarint.{Codes-uvarint}
use trlog.Compression.{
  Compression, compress_payload, decompress-compress_payload, IsSound, has_flag, flag_compressed,
}
use trlog.Block.{make_block, read_one_block}
use trlog.Block.Scan.{make_block-Reads}
use trlog.Floats.{Floats}
use trlog.Hierarchy.{HierarchyHeader, Nodes, root_children, close_all}
use trlog.Hierarchy.Stream.{encode_header, decode_header, encode_nodes}
use trlog.Hierarchy.Block.{
  HierarchyBlock, hierarchy_block, encode_inner, encode_block, decompress, decode_inner, read_block,
}
use trlog.Hierarchy.NodeRuns.{FitsNodes}
use trlog.Hierarchy.Grown.{declared_all, rev_twice}
use trlog.Hierarchy.RoundTrip.{decode-encode_nodes, read_tree}

abbrev FitsHeader : HierarchyHeader → Type 0
FitsHeader h = (h.hier_id < 2 ^ 70) × (h.name_str_id < 2 ^ 70)

Codes-header : (h : HierarchyHeader) → FitsHeader h → Codes (encode_header h) decode_header h
unfolding encode_header decode_header
Codes-header h (hi, hn) = Codes-bind _ (Codes-uvarint hi) (
    Codes-bind _ (Codes-append_byte (hier_kind_code h.kind) (hier_kind_code-lt h.kind)) (
      Codes-lift_bind _ (to_hier_kind-code h.kind)
        (Codes-bind _ (Codes-uvarint hn) (Codes-pure _))))

-- A block whose tree is that of `ns`.
abbrev read_as : HierarchyHeader → Nodes → HierarchyBlock → HierarchyBlock
read_as h ns b = record b { header = h; tree = read_tree ns }

decode-encode_inner :
    (fl : Floats) (b : HierarchyBlock) (hier_id : ℕ) (kind : HierKind) (name_str_id : ℕ)
    {inner : Bytes}
    → FitsHeader b.header
    → FitsNodes (root_children b.tree)
    → encode_inner fl b ≡ ok inner
    → decode_inner inner (hierarchy_block hier_id kind name_str_id)
      ≡ ok (read_as b.header (root_children b.tree) (hierarchy_block hier_id kind name_str_id))
unfolding encode_inner decode_inner hierarchy_block ◌+++◌
decode-encode_inner fl b hier_id kind name_str_id {inner} hh hn e =
    let c = Codes-header b.header hh in
    let (head, tags, eh, et) =
      +++-eq-ok (encode_header b.header) (encode_nodes fl (root_children b.tree)) e in
    let same : c.bytes ≡ head = cc (c.encoded, eh) in
    let whole : head ++ tags ≡ inner = cc (rw (eh, et) at e) in
    rw (← whole, ← same, c.decoded tags, decode-encode_nodes fl (root_children b.tree) hn et) refl

compressed_flag :
    (c : Compression) (use_zstd : Bool) (inner : Bytes) {flags : ℕ} {packed : Bytes}
    → compress_payload c use_zstd inner ≡ ok (flags, packed)
    → has_flag flags flag_compressed ≡ true
unfolding compress_payload
compressed_flag c false inner e = ground (arith, e)
compressed_flag c true inner e = elim (Option-cases c.zstd) [
  | inl n ↦ ground (arith, n, e)
  | inr (z, n) ↦ ground (arith, n, e)
]

drop-pack :
    (n : ℕ) (packed : Bytes) {payload : Bytes}
    → pack 8 n +++ ok packed ≡ ok payload
    → drop 8 payload ≡ packed
unfolding ◌+++◌
drop-pack n packed {payload} e =
    let (field, body, ef, eb) = +++-eq-ok (pack 8 n) (ok packed) e in
    let packs = pack-le_bytes 8 n (pack-fits 8 n ef) in
    let whole : le_bytes 8 n ++ packed ≡ payload = cc (rw packs at e) in
    rw (← whole) (rw (length-le_bytes 8 n) at (drop_front (le_bytes 8 n) packed))

-- What stands in a block's payload decompresses to the bytes of the tree.
record Stands (c : Compression) (inner block rest : Bytes) : Type 0 where
  pub flags : ℕ
  pub payload : Bytes
  pub block_read : read_one_block (block ++ rest) ≡ ok (hierarchy, flags, payload)
  pub decompressed : decompress c flags payload ≡ ok inner

Stands-compressed :
    (c : Compression) (use_zstd : Bool) (inner rest : Bytes) {block : Bytes}
    → IsSound c
    → bind (compress_payload c use_zstd inner) (λ (flags, compressed).
      bind (pack 8 (length inner) +++ ok compressed) (make_block hierarchy flags))
      ≡ ok block
    → Stands c inner block rest
unfolding decompress
Stands-compressed c use_zstd inner rest {block} s e =
    let ((flags, packed), k, e1) = bind-eq-ok (compress_payload c use_zstd inner) _ e in
    let (payload, kp, e2) = bind-eq-ok (pack 8 (length inner) +++ ok packed) _ e1 in
    record {
      flags = flags;
      payload = payload;
      block_read = make_block-Reads hierarchy flags payload rest e2;
      decompressed =
          rw (compressed_flag c use_zstd inner k, drop-pack (length inner) packed kp)
            (decompress-compress_payload c use_zstd inner s k);
    }

Stands-block :
    (c : Compression) (compress use_zstd : Bool) (inner rest : Bytes) {block : Bytes}
    → IsSound c
    → (if compress
        then bind (compress_payload c use_zstd inner) (λ (flags, compressed).
          bind (pack 8 (length inner) +++ ok compressed) (make_block hierarchy flags))
        else make_block hierarchy 0 inner)
      ≡ ok block
    → Stands c inner block rest
unfolding decompress
Stands-block c true use_zstd inner rest s e = Stands-compressed c use_zstd inner rest s e
Stands-block c false use_zstd inner rest s e = record {
  flags = 0;
  payload = inner;
  block_read = make_block-Reads hierarchy 0 inner rest e;
  decompressed = refl;
}

-- The block as the reader finds it, and what it reads from it into a new block.
pub record TreeRead (c : Compression) (b fresh : HierarchyBlock) (block rest : Bytes) : Type 0 where
  pub flags : ℕ
  pub payload : Bytes
  pub found : HierarchyBlock
  pub block_read : read_one_block (block ++ rest) ≡ ok (hierarchy, flags, payload)
  pub tree_read : read_block c flags payload fresh ≡ ok found
  pub header_kept : found.header ≡ b.header
  pub children_kept : root_children found.tree ≡ root_children b.tree
  pub maps_declared :
      (found.tree.vars, found.tree.streams) ≡ declared_all (root_children b.tree) ([], [])

-- A BLK_HIERARCHY block whose numbers fit is read back from the file, whatever follows, compressed or
-- not, into a new block: the header is the one written, the children of the root are those written
-- with the scopes, variables and streams in their places and the attributes of each, a scope still
-- open being written as closed, and the flat maps hold the variables and streams of this tree.
pub read-encode_block_hierarchy :
    (c : Compression) (fl : Floats) (compress use_zstd : Bool) (b : HierarchyBlock) (rest : Bytes)
    (hier_id : ℕ) (kind : HierKind) (name_str_id : ℕ) {block : Bytes}
    → IsSound c
    → FitsHeader b.header
    → FitsNodes (root_children b.tree)
    → encode_block c fl compress use_zstd b ≡ ok block
    → TreeRead c b (hierarchy_block hier_id kind name_str_id) block rest
unfolding encode_block read_block close_all
read-encode_block_hierarchy c fl compress use_zstd b rest hier_id kind name_str_id s hh hn e =
    let (inner, k, e1) = bind-eq-ok (encode_inner fl b) _ e in
    let st = Stands-block c compress use_zstd inner rest s e1 in
    let fresh = hierarchy_block hier_id kind name_str_id in
    record {
      flags = st.flags;
      payload = st.payload;
      found = read_as b.header (root_children b.tree) fresh;
      block_read = st.block_read;
      tree_read = rw st.decompressed (decode-encode_inner fl b hier_id kind name_str_id hh hn k);
      header_kept = refl;
      children_kept = rev_twice (root_children b.tree);
      maps_declared = refl;
    }
