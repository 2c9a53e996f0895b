-- ===== src/Derived/Times.antt =====
-- python/src/trlog/_derived.py: `evaluate_changes`, the union of the inputs' change times.
use trlog.Prelude.{ℕ, ◌≡◌, refl, List, [], ◌∷◌, arith, ◌==◌, ltb, Bool-cases, ◌⊎◌, inl, inr}
use trlog.Prelude.Int.{ℤ}
use trlog.Wire.Reads.{All}
use trlog.Derived.Changes.{Changes, insert_time, times_of, union_times}

-- An input changes at the time.
abbrev pub ChangesAt : ℕ → Changes → Type 0
ChangesAt t [] = ⊥
ChangesAt t ((u, v) ∷ changes) = (u ≡ t) ⊎ ChangesAt t changes

abbrev pub IsChangeTime : List Changes → ℕ → Type 0
IsChangeTime [] t = ⊥
IsChangeTime (changes ∷ input_changes) t = ChangesAt t changes ⊎ IsChangeTime input_changes t

-- The union of the times has what each change time has, and conversely.
module _ (P : ℕ → Type 0) where
  insert_time-holds : (t : ℕ) (us : List ℕ) → P t → All P us → All P (insert_time t us)
  unfolding insert_time
  insert_time-holds t [] p ps = (p, tt)
  insert_time-holds t (u ∷ us) p (q, qs) = elim (Bool-cases (t == u)) [
    | inl same ↦ rw same (q, qs)
    | inr other ↦ elim (Bool-cases (ltb t u)) [
      | inl before ↦ rw (other, before) (p, (q, qs))
      | inr behind ↦ rw (other, behind) (q, insert_time-holds t us p qs)
    ]
  ]

  insert_time-split : (t : ℕ) (us : List ℕ) → All P (insert_time t us) → P t × All P us
  unfolding insert_time
  insert_time-split t [] h = h
  insert_time-split t (u ∷ us) h = elim (Bool-cases (t == u)) [
    | inl same ↦
        let e : u ≡ t = ground (arith, same) in
        let all : P u × All P us = rw same at h in (rw e at all.0, all)
    | inr other ↦ elim (Bool-cases (ltb t u)) [
      | inl before ↦ rw (other, before) at h
      | inr behind ↦
          let (p, ps) : P u × All P (insert_time t us) = rw (other, behind) at h in
          let (q, qs) = insert_time-split t us ps in (q, (p, qs))
    ]
  ]

  abbrev pub AtTimes : Changes → Type 0
  AtTimes changes = All (λ (p : ℕ × ℤ). P p.0) changes

  times_of-split :
      (changes : Changes) (us : List ℕ) → All P (times_of changes us) → AtTimes changes × All P us
  unfolding times_of
  times_of-split [] us h = (tt, h)
  times_of-split ((t, v) ∷ changes) us h =
      let (p, ps) = insert_time-split t (times_of changes us) h in
      let (qs, rs) = times_of-split changes us ps in ((p, qs), rs)

  pub union_times-split :
      (input_changes : List Changes) → All P (union_times input_changes) → All AtTimes input_changes
  unfolding union_times
  union_times-split [] h = tt
  union_times-split (changes ∷ input_changes) h =
      let (p, ps) = times_of-split changes (union_times input_changes) h in
      (p, union_times-split input_changes ps)

  times_of-holds :
      (changes : Changes) (us : List ℕ) → AtTimes changes → All P us → All P (times_of changes us)
  unfolding times_of
  times_of-holds [] us h a = a
  times_of-holds ((t, v) ∷ changes) us (p, h) a =
      insert_time-holds t (times_of changes us) p (times_of-holds changes us h a)

  pub union_times-holds :
      (input_changes : List Changes) → All AtTimes input_changes → All P (union_times input_changes)
  unfolding union_times
  union_times-holds [] h = tt
  union_times-holds (changes ∷ input_changes) (p, h) =
      times_of-holds changes (union_times input_changes) p (union_times-holds input_changes h)

pub All-map {ℓ} :
    {A : Type ℓ} (P Q : A → Type 0) → ((x : A) → P x → Q x) → (xs : List A) → All P xs → All Q xs
All-map P Q f [] h = tt
All-map P Q f (x ∷ xs) (p, h) = (f x p, All-map P Q f xs h)

own_times : (changes : Changes) → All (λ (p : ℕ × ℤ). ChangesAt p.0 changes) changes
own_times [] = tt
own_times ((t, v) ∷ changes) =
    (inl refl, All-map _ _ (λ (p : ℕ × ℤ) h. inr h) changes (own_times changes))

pub change_times :
    (input_changes : List Changes)
    → All (λ changes. All (λ (p : ℕ × ℤ). IsChangeTime input_changes p.0) changes) input_changes
change_times [] = tt
change_times (changes ∷ input_changes) = (
  All-map _ _ (λ (p : ℕ × ℤ) h. inl h) changes (own_times changes),
  All-map _ _ (λ cs h. All-map _ _ (λ (p : ℕ × ℤ) q. inr q) cs h) input_changes
      (change_times input_changes),
)
