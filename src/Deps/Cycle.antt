-- ===== src/Deps/Cycle.antt =====
-- python/src/trlog/_deps.py: the search of `find_cycle`.
use trlog.Prelude.{
  ℕ, zero, suc, ◌<◌, ◌≤◌, ◌≡◌, ◌≢◌, refl, sym, ap, ◌∙◌, ◌⊎◌, inl, inr, List, [], ◌∷◌, ◌++◌, arith,
  true, false, ◌==◌, Bool-cases, length, none, some,
}
use trlog.Prelude.Dict.{get, nat_eq}
use trlog.Wire.{Result, ok, bind}
use trlog.Deps.{
  Graph, inputs, nodes, white, gray, black, Search, color_of, from_index, drop_last, Visited, Visit,
  unless_found, visit_inputs, enter, leave, visit, visit_roots, find_cycle,
}
use trlog.Deps.Lists.{
  In, In-front, In-last, In-init, inputs-nodes, IsLinked, IsLinked-snoc, IsCycle,
  from_index-IsCycle, drop_last-snoc,
}
use trlog.Deps.Colors.{
  Color-cases, whites, color_of-painted_self, color_of-painted_ne, whites-painted, whites-fewer,
  whites-le,
}

module _ (g : Graph) where
  -- A gray node is on the path.
  record Tracked (s : Search) : Type 0 where
    on_path : (m : ℕ) → color_of s m ≡ gray → In m s.path

  -- What a visit comes to: a cycle, or the path as it was and no more white nodes than before.
  data Outcome (s : Search) : Result Visited → Type 0 where
    cyclic : (c : List ℕ) (s' : Search) → IsCycle g c → Outcome s (ok (some c, s'))
    done :
        (s' : Search)
        → Tracked s'
        → s'.path ≡ s.path
        → whites s' (nodes g) ≤ whites s (nodes g)
        → Outcome s (ok (none, s'))

  Outcome-from :
      (s s' : Search) {r : Result Visited}
      → s'.path ≡ s.path
      → whites s' (nodes g) ≤ whites s (nodes g)
      → Outcome s' r
      → Outcome s r
  Outcome-from s s' p w (cyclic c t h) = cyclic c t h
  Outcome-from s s' p w (done t k q x) = done t k (q ∙ p) (omega arith)

  Outcome-then :
      (s : Search) {r : Result Visited} (next : Search → Result Visited)
      → Outcome s r
      → ((s' : Search)
          → Tracked s'
          → s'.path ≡ s.path
          → whites s' (nodes g) ≤ whites s (nodes g)
          → Outcome s' (next s'))
      → Outcome s (unless_found r next)
  Outcome-then s next (cyclic c s' h) k = cyclic c s' h
  Outcome-then s next (done s' t p w) k = Outcome-from s s' p w (k s' t p w)

  enter-Tracked : (n : ℕ) (s : Search) → Tracked s → Tracked (enter n s)
  enter-Tracked n s t = record {
    on_path = λ m e. elim (Bool-cases (n == m)) [
      | inl same ↦ rw (is_n m same) (In-last n s.path)
      | inr other ↦ In-front m s.path (n ∷ []) (
          t.on_path m
            (rw (color_of-painted_ne n m gray s (s.path ++ (n ∷ [])) (differ m other)) at e))
    ];
  }
    where
      is_n : (m : ℕ) → (n == m) ≡ true → m ≡ n
      is_n m e = ground (arith, e)

      differ : (m : ℕ) → (n == m) ≡ false → n ≢ m
      differ m t e = ground (arith, t, e)

  leave-Tracked :
      (n : ℕ) (s : Search) (p : List ℕ) → s.path ≡ p ++ (n ∷ []) → Tracked s → Tracked (leave n s)
  leave-Tracked n s p e t = record {
    on_path = λ m q. elim (Bool-cases (n == m)) [
      | inl same ↦ absurd (not_gray m same q)
      | inr other ↦
          rw (e, drop_last-snoc p n)
            (In-init n m p (differ m other) (
              rw e at (
                t.on_path m
                  (rw (color_of-painted_ne n m black s (drop_last s.path) (differ m other)) at q))))
    ];
  }
    where
      black-not_gray : black ≡ gray → ⊥
      black-not_gray q = absurd (cc q)

      is_n : (m : ℕ) → (n == m) ≡ true → m ≡ n
      is_n m e = ground (arith, e)

      differ : (m : ℕ) → (n == m) ≡ false → n ≢ m
      differ m t e = ground (arith, t, e)

      not_gray : (m : ℕ) → (n == m) ≡ true → color_of (leave n s) m ≡ gray → ⊥
      not_gray m same q =
          black-not_gray
            (sym (color_of-painted_self n black s (drop_last s.path)) ∙ rw (is_n m same) at q)

  -- What is asked of a visit with a given depth.
  abbrev Visits : ℕ → Visit → Type 0
  Visits fuel v =
      (n : ℕ) (s : Search)
      → Tracked s
      → color_of s n ≡ white
      → In n (nodes g)
      → IsLinked g (s.path ++ (n ∷ []))
      → whites s (nodes g) ≤ fuel
      → Outcome s (v n s)

  visit_inputs-Outcome :
      (fuel : ℕ) (v : Visit) (n : ℕ) (p ms : List ℕ) (s : Search)
      → Visits fuel v
      → Tracked s
      → s.path ≡ p ++ (n ∷ [])
      → IsLinked g s.path
      → ((m : ℕ) → In m ms → In m (inputs g n))
      → whites s (nodes g) ≤ fuel
      → Outcome s (visit_inputs v ms s)
  unfolding visit_inputs
  visit_inputs-Outcome fuel v n p [] s vs t e l ins w = done s t refl (omega arith)
  visit_inputs-Outcome fuel v n p (m ∷ ms) s vs t e l ins w = elim (Color-cases (color_of s m)) [
    | inl is_white ↦
        rw (is_white, visit_inputs)
          (Outcome-then s (visit_inputs v ms)
            (vs m s t is_white (inputs-nodes g n m (ins m (inl refl))) next_link w)
            (λ s' t' p' w'.
              visit_inputs-Outcome fuel v n p ms s' vs t' (p' ∙ e) (rw p' l) (λ k i. ins k (inr i))
                (omega (arith, w, w'))))
    | inr (inl is_gray) ↦ rw (is_gray, visit_inputs) (closed (t.on_path m is_gray))
    | inr (inr is_black) ↦
        rw (is_black, visit_inputs)
          (visit_inputs-Outcome fuel v n p ms s vs t e l (λ k i. ins k (inr i)) w)
  ]
    where
      next_link : IsLinked g (s.path ++ (m ∷ []))
      next_link = rw e (IsLinked-snoc g p n m (rw e at l) (ins m (inl refl)))

      closed :
          In m s.path → Outcome s (bind (from_index m s.path) λ c. ok (some (c ++ (m ∷ [])), s))
      closed i =
          let (c, found, h) = from_index-IsCycle g m s.path i next_link in
          rw found (cyclic (c ++ (m ∷ [])) s h)

  leave-Outcome :
      (n : ℕ) (s : Search) {r : Result Visited}
      → Outcome (enter n s) r
      → whites (enter n s) (nodes g) ≤ whites s (nodes g)
      → Outcome s (unless_found r (λ s'. ok (none, leave n s')))
  leave-Outcome n s (cyclic c s' h) w = cyclic c s' h
  leave-Outcome n s (done s' t p x) w =
      done (leave n s') (leave-Tracked n s' s.path p t) (ap drop_last p ∙ drop_last-snoc s.path n)
        (omega (arith, w, x, whites-painted n black s' (drop_last s'.path) (nodes g) refl))

  visit-Outcome : (fuel : ℕ) → Visits fuel (visit g fuel)
  unfolding visit
  visit-Outcome zero n s t is_white i l w =
      absurd (omega (arith, w, whites-fewer n gray s [] (nodes g) refl is_white i))
  visit-Outcome (suc fuel) n s t is_white i l w =
      leave-Outcome n s
        (visit_inputs-Outcome fuel (visit g fuel) n s.path (inputs g n) (enter n s)
          (visit-Outcome fuel) (enter-Tracked n s t) refl l (λ m k. k) (omega (arith, w, fewer)))
        (omega (arith, fewer))
    where
      fewer : whites (enter n s) (nodes g) < whites s (nodes g)
      fewer = whites-fewer n gray s (s.path ++ (n ∷ [])) (nodes g) refl is_white i

  visit_roots-Outcome :
      (fuel : ℕ) (v : Visit) (ns : List ℕ) (s : Search)
      → Visits fuel v
      → Tracked s
      → s.path ≡ []
      → ((n : ℕ) → In n ns → In n (nodes g))
      → whites s (nodes g) ≤ fuel
      → Outcome s (visit_roots v ns s)
  unfolding visit_roots
  visit_roots-Outcome fuel v [] s vs t e ins w = done s t refl (omega arith)
  visit_roots-Outcome fuel v (n ∷ ns) s vs t e ins w = elim (Color-cases (color_of s n)) [
    | inl is_white ↦
        rw (is_white, visit_roots)
          (Outcome-then s (visit_roots v ns) (vs n s t is_white (ins n (inl refl)) (rw e tt) w)
            (λ s' t' p' w'.
              visit_roots-Outcome fuel v ns s' vs t' (p' ∙ e) (λ k i. ins k (inr i))
                (omega (arith, w, w'))))
    | inr (inl is_gray) ↦
        rw (is_gray, visit_roots) (visit_roots-Outcome fuel v ns s vs t e (λ k i. ins k (inr i)) w)
    | inr (inr is_black) ↦
        rw (is_black, visit_roots) (visit_roots-Outcome fuel v ns s vs t e (λ k i. ins k (inr i)) w)
  ]

-- On any graph the search ends within the depth that the model gives it and raises nothing: it
-- returns either nothing or a path along dependencies, of one edge at least, that ends at the node
-- where it starts.
pub find_cycle_lem :
    (g : Graph)
    → (find_cycle g ≡ ok none) ⊎ ((c : List ℕ) × (find_cycle g ≡ ok (some c)) × IsCycle g c)
unfolding find_cycle
find_cycle_lem g = answer (
    visit_roots-Outcome g (length (nodes g)) (visit g (length (nodes g))) (nodes g) fresh
      (visit-Outcome g (length (nodes g))) nothing_gray refl (λ n i. i) (whites-le fresh (nodes g)))
  where
    fresh : Search
    fresh = record { color = []; path = [] }

    white-not_gray : white ≡ gray → ⊥
    white-not_gray e = absurd (cc e)

    nothing_gray : Tracked g fresh
    nothing_gray = record { on_path = λ m e. absurd (white-not_gray (unfold color_of get in e)) }

    answer :
        {r : Result Visited}
        → Outcome g fresh r
        → (bind r (λ (found, s). ok found) ≡ ok none)
          ⊎ ((c : List ℕ) × (bind r (λ (found, s). ok found) ≡ ok (some c)) × IsCycle g c)
    answer (cyclic c s h) = inr (c, refl, h)
    answer (done s t p w) = inl refl
