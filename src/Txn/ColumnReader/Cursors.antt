-- ===== src/Txn/ColumnReader/Cursors.antt =====
-- python/src/trlog/_txn_data.py: columns whose cursors stand before what is still to be read. What
-- was appended to them in some order is read from them in that order.
use trlog.Prelude.{
  ℕ, ◌<◌, ◌≤◌, ◌≡◌, refl, ap, ◌∙◌, [], ◌∷◌, ◌++◌, append_assoc, some, Bool, true, false, ◌==◌,
  ==_iff, if◌then◌else◌, ◌⊎◌, inl, arith,
}
use trlog.Prelude.Dict.{Dict, get, put, nat_eq, get-put}
use trlog.Wire.{Bytes, Result, ok, err, bind, Error, Decoder}
use trlog.Wire.Reads.{Codes}
use trlog.Txn.Column.{Pushes, push, no_push, col_tag, col_attr_base}
use trlog.Txn.ColumnReader.{Reader, pure, lift, read_column, ◌>>=◌}

-- What is appended to a column, and whether anything is.
unfoldable pub gathered : ℕ → Pushes → Bytes
gathered j [] = []
gathered j ((i, bs) ∷ ps) = if i == j then bs ++ gathered j ps else gathered j ps

unfoldable pub occurs : ℕ → Pushes → Bool
occurs j [] = false
occurs j ((i, bs) ∷ ps) = if i == j then true else occurs j ps

-- The column of the tags has no cursor.
abbrev pub Holds : Dict ℕ Bytes → Pushes → Type 0
Holds cols ps = (j : ℕ) → 0 < j → occurs j ps ≡ true → get cols j ≡ some (gathered j ps)

abbrev pub Filled : Bytes → Type 0
Filled [] = ⊥
Filled (b ∷ bs) = Unit

-- An append to a column with a name, which is not empty, or to one of an attribute.
abbrev pub Named : ℕ × Bytes → Type 0
Named (i, bs) = ((i ≤ 12) × Filled bs) ⊎ (col_attr_base ≤ i)

abbrev pub AllNamed : Pushes → Type 0
AllNamed [] = Unit
AllNamed (p ∷ ps) = Named p × AllNamed ps

pub AllNamed-append : (ps qs : Pushes) → AllNamed ps → AllNamed qs → AllNamed (ps ++ qs)
AllNamed-append [] qs h k = k
AllNamed-append (p ∷ ps) qs h k = (h.0, AllNamed-append ps qs h.1 k)

-- What a reader returns from the columns, with the cursors behind what it has read.
pub record Consumes {ℓ} {A : Type ℓ} (reader : Reader A) (a : A) (cols : Dict ℕ Bytes)
    (more : Pushes) : Type ℓ where
  pub rest : Dict ℕ Bytes
  pub read_as : reader cols ≡ ok (a, rest)
  pub rest_holds : Holds rest more

-- The tags are gathered in `tags`.
pub record ColumnCodes {ℓ} {A : Type ℓ} (r : Result Pushes) (reader : Reader A) (a : A)
    (tags : Bytes) : Type ℓ where
  pub pushes : Pushes
  pub pushed : r ≡ ok pushes
  pub named : AllNamed pushes
  pub tagged : gathered col_tag pushes ≡ tags
  pub read :
      (more : Pushes) (cols : Dict ℕ Bytes)
      → Holds cols (pushes ++ more)
      → Consumes reader a cols more

pub ColumnCodes-pure {ℓ} : {A : Type ℓ} (a : A) → ColumnCodes no_push (pure a) a []
unfolding pure
ColumnCodes-pure a = record {
  pushes = [];
  pushed = refl;
  named = tt;
  tagged = unfold gathered in refl;
  read = λ more cols h. record { rest = cols; read_as = refl; rest_holds = h };
}

Holds-read :
    (cols : Dict ℕ Bytes) (i : ℕ) (bs : Bytes) (ps : Pushes)
    → Holds cols ((i, bs) ∷ ps)
    → Holds (put cols i (gathered i ps)) ps
unfolding gathered occurs
Holds-read cols i bs ps h j above o =
    ground (arith, h j above, get-put cols i j (gathered i ps), ==_iff i j)

Holds-tag :
    (cols : Dict ℕ Bytes) (bs : Bytes) (ps : Pushes)
    → Holds cols ((col_tag, bs) ∷ ps)
    → Holds cols ps
unfolding gathered occurs
Holds-tag cols bs ps h j above o = ground (arith, h j above)

-- The tag is read before, from its own column.
pub ColumnCodes-tag {ℓ} :
    {A : Type ℓ} {r : Result Bytes} {s : Result Pushes} {reader : Reader A} {a : A} {tags : Bytes}
    (b : ℕ)
    → r ≡ ok (b ∷ [])
    → ColumnCodes s reader a tags
    → ColumnCodes (push col_tag r s) reader a (b ∷ tags)
unfolding push
ColumnCodes-tag b e c = record {
  pushes = (col_tag, b ∷ []) ∷ c.pushes;
  pushed = rw (e, c.pushed);
  named = (inl (omega arith, tt), c.named);
  tagged = unfold gathered in ap (λ (bs : Bytes). b ∷ bs) c.tagged;
  read = λ more cols h. c.read more cols (Holds-tag cols (b ∷ []) (c.pushes ++ more) h);
}

pub get-head :
    (cols : Dict ℕ Bytes) (i : ℕ) (bs : Bytes) (ps : Pushes)
    → 0 < i
    → Holds cols ((i, bs) ∷ ps)
    → get cols i ≡ some (bs ++ gathered i ps)
unfolding gathered occurs
get-head cols i bs ps above h = ground (arith, h i above, ==_iff i i)

pub gathered-past :
    (i j : ℕ) (bs : Bytes) (ps : Pushes) → j < i → gathered j ((i, bs) ∷ ps) ≡ gathered j ps
unfolding gathered
gathered-past i j bs ps h = ground arith

gathered-append : (j : ℕ) (ps qs : Pushes) → gathered j (ps ++ qs) ≡ gathered j ps ++ gathered j qs
unfolding gathered
gathered-append j [] qs = refl
gathered-append j ((i, bs) ∷ ps) qs =
    ground (arith, gathered-append j ps qs, append_assoc bs (gathered j ps) (gathered j qs))

filled {ℓ} :
    {A : Type ℓ} (p : Decoder A) {a : A} {e : Error} (bs : Bytes)
    → p [] ≡ err e
    → ((rest : Bytes) → p (bs ++ rest) ≡ ok (a, rest))
    → Filled bs
filled p [] none_there decoded = absurd (cc (none_there, decoded []))
filled p (b ∷ bs) none_there decoded = tt

module _ {ℓ κ} {A : Type ℓ} {B : Type κ} where
  pub read_head :
      (p : Decoder A) {a : A} (f : A → Reader B) {b : B} (cols : Dict ℕ Bytes) (i : ℕ) (bs : Bytes)
      (ps more : Pushes)
      → 0 < i
      → ((rest : Bytes) → p (bs ++ rest) ≡ ok (a, rest))
      → ((more : Pushes) (cols : Dict ℕ Bytes)
          → Holds cols (ps ++ more)
          → Consumes (f a) b cols more)
      → Holds cols ((i, bs) ∷ (ps ++ more))
      → Consumes (read_column i p >>= f) b cols more
  unfolding ◌>>=◌ read_column
  read_head p f cols i bs ps more above decoded next h =
      let r =
        next more (put cols i (gathered i (ps ++ more))) (Holds-read cols i bs (ps ++ more) h) in
      record {
        rest = r.rest;
        read_as =
            rw (get-head cols i bs (ps ++ more) above h, decoded (gathered i (ps ++ more)))
              r.read_as;
        rest_holds = r.rest_holds;
      }

  -- Read from a column that has a name, by a decoder that finds nothing in no bytes.
  pub ColumnCodes-push :
      {r : Result Bytes} {s : Result Pushes} {p : Decoder A} {a : A} (f : A → Reader B) {b : B}
      {e : Error} {tags : Bytes} (i : ℕ)
      → 0 < i
      → i ≤ 12
      → p [] ≡ err e
      → Codes r p a
      → ColumnCodes s (f a) b tags
      → ColumnCodes (push i r s) (read_column i p >>= f) b tags
  unfolding push
  ColumnCodes-push {p = p} f i above below none_there c d = record {
    pushes = (i, c.bytes) ∷ d.pushes;
    pushed = rw (c.encoded, d.pushed);
    named = (inl (below, filled p c.bytes none_there c.decoded), d.named);
    tagged = gathered-past i col_tag c.bytes d.pushes (omega arith) ∙ d.tagged;
    read = λ more cols h. read_head p f cols i c.bytes d.pushes more above c.decoded d.read h;
  }

  pub ColumnCodes-bind :
      {r s : Result Pushes} {reader : Reader A} (f : A → Reader B) {a : A} {b : B}
      {tags tags' : Bytes}
      → ColumnCodes r reader a tags
      → ColumnCodes s (f a) b tags'
      → ColumnCodes (bind r λ ps. bind s λ more. ok (ps ++ more)) (reader >>= f) b (tags ++ tags')
  unfolding ◌>>=◌
  ColumnCodes-bind f c d = record {
    pushes = c.pushes ++ d.pushes;
    pushed = rw (c.pushed, d.pushed);
    named = AllNamed-append c.pushes d.pushes c.named d.named;
    tagged = rw (← c.tagged, ← d.tagged) (gathered-append col_tag c.pushes d.pushes);
    read = λ more cols h.
        let u = c.read (d.pushes ++ more) cols (rw append_assoc at h) in
        let v = d.read more u.rest u.rest_holds in
        record { rest = v.rest; read_as = rw u.read_as v.read_as; rest_holds = v.rest_holds };
  }

  pub ColumnCodes-map :
      {r : Result Pushes} {reader : Reader A} {a : A} {tags : Bytes} (g : A → B)
      → ColumnCodes r reader a tags
      → ColumnCodes r (reader >>= λ x. pure (g x)) (g a) tags
  unfolding ◌>>=◌ pure
  ColumnCodes-map g c = record {
    pushes = c.pushes;
    pushed = c.pushed;
    named = c.named;
    tagged = c.tagged;
    read = λ more cols h.
        let u = c.read more cols h in
        record { rest = u.rest; read_as = rw u.read_as refl; rest_holds = u.rest_holds };
  }

  pub ColumnCodes-lift :
      {r : Result Pushes} {g : Result A} (f : A → Reader B) {a : A} {b : B} {tags : Bytes}
      → g ≡ ok a
      → ColumnCodes r (f a) b tags
      → ColumnCodes r (lift g >>= f) b tags
  unfolding ◌>>=◌ lift
  ColumnCodes-lift f e c = record {
    pushes = c.pushes;
    pushed = c.pushed;
    named = c.named;
    tagged = c.tagged;
    read = λ more cols h.
        let u = c.read more cols h in
        record { rest = u.rest; read_as = rw (e, u.read_as) refl; rest_holds = u.rest_holds };
  }
