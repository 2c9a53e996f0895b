-- ===== src/Hierarchy/RoundTrip.antt =====
-- python/src/trlog/_hierarchy.py: a tree that was written as tags is read back as it was.
use trlog.Prelude.{◌≡◌, refl, sym, [], append-nil, length, arith}
use trlog.Wire.{Bytes, ok, lift, ◌+++◌, append_byte}
use trlog.Wire.Reads.{+++_assoc}
use trlog.Floats.{Floats}
use trlog.Hierarchy.{
  Node, Nodes, scope, var, stream, nil, cons, Tree, open_scope, close_in, declare_var,
  declare_stream, rev_append, close_all,
}
use trlog.Hierarchy.Stream.{
  encode_node, encode_nodes, decode_upscope, decode_tag, decode_tags, h_upscope, h_scope,
  decode_tag_sequence, encode_scope, encode_attrs,
}
use trlog.Hierarchy.Runs.{RunCodes, RunCodes-nil, RunCodes-seq, RunCodes-tag}
use trlog.Hierarchy.NodeRuns.{FitsNode, FitsNodes, RunCodes-var, RunCodes-stream, RunCodes-open}
use trlog.Hierarchy.Grown.{grown, grown_all, declared, close-grown, declared_all, grown_all-root}

module _ (fl : Floats) where
  RunCodes-upscope :
      {t t' : Tree} → close_in t.scope_stack t ≡ ok t' → RunCodes (append_byte h_upscope) t t'
  unfolding ◌+++◌ append_byte decode_upscope lift
  RunCodes-upscope {t} {t'} e =
      RunCodes-tag h_upscope {r = ok []} decode_upscope (omega arith) (unfold decode_tag in refl)
        (record { bytes = []; encoded = refl; decoded = λ rest. rw e refl })

  mutual
    unfolding encode_node encode_nodes grown_all FitsNode declared declare_var declare_stream

    RunCodes-node : (n : Node) (t : Tree) → FitsNode n → RunCodes (encode_node fl n) t (grown n t)
    RunCodes-node (scope s ns) t (hs, hns) =
        rw
          (sym (
            +++_assoc (append_byte h_scope +++ encode_scope s)
              (encode_attrs fl s.attrs s.typed_attrs)
              (encode_nodes fl ns +++ append_byte h_upscope)))
          (RunCodes-seq (RunCodes-open fl s t hs) (
            RunCodes-seq (RunCodes-nodes ns (open_scope s t) hns)
              (RunCodes-upscope (close-grown s ns t))))
    RunCodes-node (var v) t h = RunCodes-var fl v t h
    RunCodes-node (stream s) t h = RunCodes-stream fl s t h

    pub RunCodes-nodes :
        (ns : Nodes) (t : Tree) → FitsNodes ns → RunCodes (encode_nodes fl ns) t (grown_all ns t)
    RunCodes-nodes nil t h = RunCodes-nil t
    RunCodes-nodes (cons n ns) t (hn, hns) =
        RunCodes-seq (RunCodes-node n t hn) (RunCodes-nodes ns (grown n t) hns)

abbrev pub no_tree : Tree
no_tree = record { scope_stack = []; root = nil; vars = []; streams = [] }

-- Read into no tree at all.
abbrev pub read_tree : Nodes → Tree
read_tree ns = record {
  scope_stack = [];
  root = rev_append ns nil;
  vars = (declared_all ns ([], [])).0;
  streams = (declared_all ns ([], [])).1;
}

pub decode-encode_nodes :
    (fl : Floats) (ns : Nodes) {bytes : Bytes}
    → FitsNodes ns
    → encode_nodes fl ns ≡ ok bytes
    → decode_tag_sequence no_tree bytes ≡ ok (read_tree ns)
unfolding decode_tag_sequence decode_tags rev_append close_all
decode-encode_nodes fl ns {bytes} h e =
    let c = RunCodes-nodes fl ns no_tree h in
    let same : c.bytes ≡ bytes = cc (c.encoded, e) in
    let (left, enough, run) = c.runs (length bytes) [] (rw (append-nil, same) (omega arith)) in
    let ran : decode_tags (length bytes) no_tree bytes
        ≡ decode_tags left (grown_all ns no_tree) [] =
      rw (append-nil, same) at run in
    rw (ran, grown_all-root ns nil ([], [])) refl
