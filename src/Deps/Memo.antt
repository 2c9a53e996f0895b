-- ===== src/Deps/Memo.antt =====
-- The cache of the Materializer of python/src/trlog/_deps.py.
use trlog.Prelude.{ℕ, zero, suc, ◌≡◌, refl, [], some, Option-cases, Bool-cases, inl, inr}
use trlog.Prelude.Dict.{get, nat_eq, get-put_self}
use trlog.Wire.{Result, ok, Result-cases}
use trlog.Deps.{Graph, inputs}
use trlog.Deps.Order.{
  Compute, Materializer, materialize, materialize_all, materialize_fresh, is_member, begun, done,
}

module _ {A : Type 0} where
  -- A stream in the cache is returned from it.
  materialize-cached :
      (g : Graph) (compute : Compute A) (fuel n : ℕ) (m : Materializer A) {a : A}
      → get m.cache n ≡ some a
      → materialize g compute (suc fuel) n m ≡ ok (a, m)
  unfolding materialize
  materialize-cached g compute fuel n m e = rw (e, materialize) refl

  cached_here :
      (n : ℕ) (m m' : Materializer A) {a b : A}
      → get m.cache n ≡ some b
      → ◌≡◌ {A = Result (A × Materializer A)} (ok (b, m)) (ok (a, m'))
      → get m'.cache n ≡ some a
  cached_here n m m' h e = cc (h, e)

  cached_computed :
      (g : Graph) (compute : Compute A) (fuel n : ℕ) (m m' : Materializer A) {a : A}
      → materialize_fresh (materialize g compute fuel) g compute n m ≡ ok (a, m')
      → get m'.cache n ≡ some a
  unfolding materialize_fresh
  cached_computed g compute fuel n m m' {a} e =
      elim (Result-cases
        (materialize_all (materialize g compute fuel) (inputs g n) [] (begun n m))) [
          | inl ((ins, m1), d) ↦ elim (Result-cases (compute n ins)) [
            | inl (b, c) ↦
                cached_here n (done n b m1) m' (get-put_self m1.cache n b) (rw c at (rw d at e))
            | inr (x, c) ↦ absurd (cc (rw c at (rw d at e)))
          ]
          | inr (x, d) ↦ absurd (cc (rw d at e))
        ]

  cached :
      (g : Graph) (compute : Compute A) (fuel n : ℕ) (m m' : Materializer A) {a : A}
      → materialize g compute fuel n m ≡ ok (a, m')
      → get m'.cache n ≡ some a
  unfolding materialize
  cached g compute zero n m m' e = absurd (cc e)
  cached g compute (suc fuel) n m m' e = elim (Option-cases (get m.cache n)) [
    | inr (b, c) ↦ cached_here n m m' c (rw (c, materialize) at e)
    | inl c ↦ elim (Bool-cases (is_member n m.in_progress)) [
      | inl busy ↦ absurd (cc (rw busy at (rw (c, materialize) at e)))
      | inr free ↦ cached_computed g compute fuel n m m' (rw free at (rw (c, materialize) at e))
    ]
  ]

  -- A stream that was materialized is returned from the cache when it is asked for again: the same
  -- value, the state unchanged, whatever would be computed then.
  pub materialize-materialize :
      (g : Graph) (compute compute' : Compute A) (fuel fuel' n : ℕ) (m m' : Materializer A) {a : A}
      → materialize g compute fuel n m ≡ ok (a, m')
      → materialize g compute' (suc fuel') n m' ≡ ok (a, m')
  materialize-materialize g compute compute' fuel fuel' n m m' e =
      materialize-cached g compute' fuel' n m' (cached g compute fuel n m m' e)
