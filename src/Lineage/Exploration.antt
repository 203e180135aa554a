-- ===== src/Lineage/Exploration.antt =====
-- What each part of the search of find_cycles does, when it has fuel for the nodes left.
use mathlib.Core.WellFounded.{Acc}
use event_driven_data_platfo.Base.{
  ℕ, zero, suc, ◌<◌, String, List, [], ◌∷◌, ◌++◌, true, false, contains, ◌≡◌, refl, arith, Option,
  some, inl, inr, Bool-cases, subst, sym, ◌∙◌, eq_iff, ◌>>=◌,
}
use event_driven_data_platfo.Lineage.Search.{
  Search, visit, visit_all, dfs, enter, leave, start_at, start_at_all,
}
use event_driven_data_platfo.Lineage.Walks.{IsWalk, Ends, IsWalk-extend}
use event_driven_data_platfo.Lineage.Invariant.{
  IsSound, After, After-refl, After-trans, enter-IsSound, leave-After, report_cycle-After,
  count_left, count_left_le, count_left-enter,
}

not_less : {n : ℕ} → n < 0 → ⊥
not_less h = omega arith

only_member : (n m : String) → contains (n ∷ []) m ≡ true → n ≡ m
unfolding contains
only_member n m e = (eq_iff n m).0 (ground arith)

module _ (next : String → List String) (nodes : List String) where
  -- A part of the search answers, and leaves no infinite walk from the nodes that it has gone to.
  abbrev pub Goes : List String → Search → Option Search → Type 0
  Goes to s o =
      (t : Search) × (o ≡ some t)
      × After next s t
      × ((n : String) → contains to n ≡ true → contains t.visited n ≡ true)
      × (t.cycles ≡ [] → (n : String) → contains to n ≡ true → Ends next n)

  then-Goes :
      (n : String) (ns : List String) (s : Search) (o : Option Search)
      (later : Search → Option Search)
      → Goes (n ∷ []) s o
      → ((t : Search) → After next s t → Goes ns t (later t))
      → Goes (n ∷ ns) s (o >>= later)
  unfolding contains
  then-Goes n ns s o later (t, went, a, seen, ends) rest =
      let (u, went_on, b, seen_on, ends_on) = rest t a in
      (
        u,
        rw went went_on,
        After-trans next a b,
        λ m k. elim (Bool-cases (contains ns m)) [
          | inl later ↦ seen_on m later
          | inr now ↦ b.grows m (seen m (ground arith))
        ],
        λ e m k. elim (Bool-cases (contains ns m)) [
          | inl later ↦ ends_on e m later
          | inr now ↦ ends (b.no_earlier e) m (ground arith)
        ],
      )

  -- A node that the search has left ends it at once.
  stay-Goes :
      (n : String) (s : Search)
      → IsSound next s
      → contains s.visited n ≡ true
      → contains s.stack n ≡ false
      → Goes (n ∷ []) s (some s)
  stay-Goes n s h old off = (
    s,
    refl,
    After-refl next h,
    λ m k. rw (sym (only_member n m k)) old,
    λ e m k. subst (λ y. Ends next y) (only_member n m k) (h.ended e n old off),
  )

  -- What a recursive call is relied on to do.
  abbrev pub Searches : ℕ → (String → Search → Option Search) → Type 0
  Searches fuel go =
      (n : String) (s : Search)
      → IsSound next s
      → contains s.visited n ≡ false
      → IsWalk next (s.stack ++ (n ∷ []))
      → count_left nodes s < fuel
      → Goes (n ∷ []) s (go n s)

  module _ (fuel : ℕ) (go : String → Search → Option Search) (searches : Searches fuel go) where
    visit-Goes :
        (n : String) (s : Search)
        → IsSound next s
        → IsWalk next (s.stack ++ (n ∷ []))
        → count_left nodes s < fuel
        → Goes (n ∷ []) s (visit go n s)
    unfolding visit contains
    visit-Goes n s h w enough = elim (Bool-cases (contains s.visited n)) [
      | inr new ↦ rw new (searches n s h new w enough)
      | inl old ↦ elim (Bool-cases (contains s.stack n)) [
        | inl on ↦
            let (t, e, a, same, reported) = report_cycle-After next n s h on w in
            (
              t,
              rw (old, h.on_stack_same n, on) e,
              a,
              λ m k. rw (same, sym (only_member n m k)) old,
              λ none_found. absurd (reported none_found),
            )
        | inr off ↦ rw (old, h.on_stack_same n, off) (stay-Goes n s h old off)
      ]
    ]

    visit_all-Goes :
        (ns : List String) (s : Search)
        → IsSound next s
        → ((n : String) → contains ns n ≡ true → IsWalk next (s.stack ++ (n ∷ [])))
        → count_left nodes s < fuel
        → Goes ns s (visit_all go ns s)
    unfolding visit_all contains
    visit_all-Goes [] s h w enough = (s, refl, After-refl next h, λ n e. cc, λ e n k. cc)
    visit_all-Goes (n ∷ ns) s h w enough =
        then-Goes n ns s _ _ (visit-Goes n s h (w n (ground (arith, eq_iff n n))) enough) λ t a.
          visit_all-Goes ns t a.sound (λ m k. rw a.same_stack (w m (ground arith)))
            (omega (arith, count_left_le nodes s t a.grows))

  -- The node that has been entered is left after its neighbours.
  leave-Goes :
      (n : String) (s : Search) (o : Option Search)
      → IsSound next s
      → contains s.visited n ≡ false
      → Goes (next n) (enter n s) o
      → Goes (n ∷ []) s (o >>= λ t. some (leave n t))
  unfolding enter leave contains
  leave-Goes n s o h new (t, e, a, seen, ends) =
      let ends_here : t.cycles ≡ [] → Ends next n = λ k. Acc.intro n (ends k) in
      (
        leave n t,
        rw e refl,
        leave-After next n s t new h a ends_here,
        λ m k. a.grows m (ground arith),
        λ k m only. subst (λ y. Ends next y) (only_member n m only) (ends_here k),
      )

  pub dfs-Searches :
      (fuel : ℕ)
      → ((n : String) → contains nodes n ≡ false → next n ≡ [])
      → Searches fuel (dfs next fuel)
  unfolding dfs
  dfs-Searches zero outside n s h new w enough = absurd (not_less enough)
  dfs-Searches (suc fuel) outside n s h new w enough =
      let sound = enter-IsSound next n s h w in
      leave-Goes n s _ h new (elim (Bool-cases (contains nodes n)) [
        | inl inside ↦
            visit_all-Goes fuel (dfs next fuel) (dfs-Searches fuel outside) (next n) (enter n s)
              sound (λ m e. IsWalk-extend next s.stack n m w e)
              (omega (arith, count_left-enter nodes n s inside new))
        | inr out ↦
            rw (outside n out) (enter n s, refl, After-refl next sound, λ m k. cc, λ e m k. cc)
      ])

  -- The loop over the nodes, between which nothing is on the stack.
  pub start_at_all-Goes :
      (fuel : ℕ) (go : String → Search → Option Search)
      → Searches fuel go
      → (ns : List String) (s : Search) → IsSound next s
      → s.stack ≡ []
      → count_left nodes s < fuel
      → Goes ns s (start_at_all go ns s)
  unfolding start_at_all start_at contains
  start_at_all-Goes fuel go searches [] s h bare enough =
      (s, refl, After-refl next h, λ n e. cc, λ e n k. cc)
  start_at_all-Goes fuel go searches (n ∷ ns) s h bare enough =
      let first : Goes (n ∷ []) s (start_at go n s) = elim (Bool-cases (contains s.visited n)) [
        | inr new ↦ rw new (searches n s h new (rw bare tt) enough)
        | inl old ↦ rw old (stay-Goes n s h old (rw bare refl))
      ] in
      then-Goes n ns s _ _ first λ t a.
        start_at_all-Goes fuel go searches ns t a.sound (a.same_stack ∙ bare)
          (omega (arith, count_left_le nodes s t a.grows))
