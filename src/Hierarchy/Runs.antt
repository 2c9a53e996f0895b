-- ===== src/Hierarchy/Runs.antt =====
-- python/src/trlog/_hierarchy.py: the loop over the tags, run on the bytes of one tag after the other.
use trlog.Prelude.{
  ℕ, zero, suc, ◌<◌, ◌≤◌, ◌^◌, ◌≡◌, refl, ◌∙◌, List, [], ◌∷◌, ◌++◌, append_assoc, append-nil,
  length, length-append, some, arith,
}
use trlog.Prelude.Dict.{nat_eq}
use trlog.Wire.{Bytes, Result, ok, ◌+++◌, concat_map, Decoder, append_byte}
use trlog.Wire.Reads.{Codes, Codes-bind, Codes-lift, All}
use trlog.Codec.Uvarint.{Codes-uvarint}
use trlog.Floats.{Floats}
use trlog.Metadata.{TypedAttr}
use trlog.Metadata.RoundTrip.{IsTypedAttr, Codes-typed_attr}
use trlog.Hierarchy.{HAttr, Tree, attr_edit, typed_edit, edit_last}
use trlog.Hierarchy.Stream.{
  encode_attr_body, encode_attr, encode_attr2, decode_attr, decode_attr2, decode_tag, decode_tags,
  h_attr, h_attr2,
}

-- The loop goes from one tree to another over these bytes, with rounds left for what follows.
abbrev pub Runs : Bytes → Tree → Tree → Type 0
Runs bs t t' =
    (fuel : ℕ) (rest : Bytes)
    → length (bs ++ rest) ≤ fuel
    → (left : ℕ) × (length rest ≤ left)
      × (decode_tags fuel t (bs ++ rest) ≡ decode_tags left t' rest)

pub record RunCodes (r : Result Bytes) (t t' : Tree) : Type 0 where
  pub bytes : Bytes
  pub encoded : r ≡ ok bytes
  pub runs : Runs bytes t t'

pub RunCodes-nil : (t : Tree) → RunCodes (ok []) t t
RunCodes-nil t = record { bytes = []; encoded = refl; runs = λ fuel rest h. (fuel, h, refl) }

pub RunCodes-seq :
    {r s : Result Bytes} {t u v : Tree} → RunCodes r t u → RunCodes s u v → RunCodes (r +++ s) t v
unfolding ◌+++◌
RunCodes-seq {r} {s} {t} {u} {v} c d = record {
  bytes = c.bytes ++ d.bytes;
  encoded = rw (c.encoded, d.encoded);
  runs = λ fuel rest h.
      let (left, enough, e) =
        c.runs fuel (d.bytes ++ rest) (rw (append_assoc c.bytes d.bytes rest) at h) in
      let (left', enough', e') = d.runs left rest enough in
      (left', enough', rw (append_assoc c.bytes d.bytes rest) (e ∙ e'));
}

-- A tag with what stands behind it.
pub RunCodes-tag :
    (tag : ℕ) {r : Result Bytes} {t t' : Tree} (p : Tree → Decoder Tree)
    → tag < 256
    → decode_tag tag ≡ some p
    → Codes r (p t) t'
    → RunCodes (append_byte tag +++ r) t t'
unfolding ◌+++◌ append_byte decode_tags
RunCodes-tag tag {r} {t} {t'} p h known c = record {
  bytes = tag ∷ c.bytes;
  encoded = ground (arith, h, c.encoded);
  runs = run;
}
  where
    run : Runs (tag ∷ c.bytes) t t'
    run zero rest h = absurd (omega arith)
    run (suc fuel) rest h = (
      fuel,
      omega (arith, length-append c.bytes rest),
      rw (known, decode_tags, c.decoded rest) refl,
    )

abbrev pub IsHAttr : HAttr → Type 0
IsHAttr a = (a.key_str_id < 2 ^ 70) × (a.value_str_id < 2 ^ 70)

-- Attributes join those that the last node has, one after the other.
pub RunCodes-attrs :
    (at : List HAttr → Tree)
    → ((a : HAttr) (done : List HAttr)
        → edit_last (attr_edit a) (at done) ≡ ok (at (done ++ (a ∷ []))))
    → (done attrs : List HAttr) → All IsHAttr attrs
    → RunCodes (concat_map encode_attr attrs) (at done) (at (done ++ attrs))
unfolding concat_map encode_attr encode_attr_body decode_attr
RunCodes-attrs at step done [] h = rw (append-nil done) (RunCodes-nil (at done))
RunCodes-attrs at step done (a ∷ attrs) ((hk, hv), h) =
    RunCodes-seq
      (RunCodes-tag h_attr decode_attr (omega arith) (unfold decode_tag in refl)
        (Codes-bind _ (Codes-uvarint hk) (Codes-lift _ (step a done) (Codes-uvarint hv))))
      (rw (append_assoc done (a ∷ []) attrs) at (RunCodes-attrs at step (done ++ (a ∷ [])) attrs h))

pub RunCodes-typed_attrs :
    (fl : Floats) (at : List TypedAttr → Tree)
    → ((a : TypedAttr) (done : List TypedAttr)
        → edit_last (typed_edit a) (at done) ≡ ok (at (done ++ (a ∷ []))))
    → (done attrs : List TypedAttr) → All IsTypedAttr attrs
    → RunCodes (concat_map (encode_attr2 fl) attrs) (at done) (at (done ++ attrs))
unfolding concat_map encode_attr2 decode_attr2
RunCodes-typed_attrs fl at step done [] h = rw (append-nil done) (RunCodes-nil (at done))
RunCodes-typed_attrs fl at step done (a ∷ attrs) (ha, h) =
    RunCodes-seq
      (RunCodes-tag h_attr2 decode_attr2 (omega arith) (unfold decode_tag in refl)
        (Codes-lift _ (step a done) (Codes-typed_attr fl a ha)))
      (rw (append_assoc done (a ∷ []) attrs) at
        (RunCodes-typed_attrs fl at step (done ++ (a ∷ [])) attrs h))
