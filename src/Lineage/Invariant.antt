-- ===== src/Lineage/Invariant.antt =====
-- The invariant of the search of find_cycles, and what one step of it keeps.
use event_driven_data_platfo.Base.{
  ℕ, ◌<◌, ◌≤◌, String, List, [], ◌∷◌, ◌++◌, true, false, contains, contains-append, ◌≡◌, refl,
  arith, subst, sym, ◌∙◌, ◌==◌, ◌≢◌, ◌||◌, eq_iff, some, difference, contains-difference,
  append_assoc, length, inl, inr, Bool-cases,
}
use event_driven_data_platfo.Lineage.Search.{Search, pop, enter, leave, report_cycle}
use event_driven_data_platfo.Lineage.Walks.{
  IsWalk, IsCycle, Ends, IsWalk-suffix, from_index-suffix, pop-append,
}

-- The nodes that are not visited yet.
abbrev pub count_left : List String → Search → ℕ
count_left nodes s = length (difference nodes s.visited)

pub count_left_le :
    (nodes : List String) (s t : Search)
    → ((x : String) → contains s.visited x ≡ true → contains t.visited x ≡ true)
    → count_left nodes t ≤ count_left nodes s
unfolding difference
count_left_le [] s t h = omega arith
count_left_le (x ∷ nodes) s t h = ground (arith, count_left_le nodes s t h, h x)

pub count_left-enter_le :
    (nodes : List String) (node : String) (s : Search)
    → count_left nodes (enter node s) ≤ count_left nodes s
unfolding enter contains
count_left-enter_le nodes node s = count_left_le nodes s (enter node s) λ x h. ground arith

pub count_left-enter :
    (nodes : List String) (node : String) (s : Search)
    → contains nodes node ≡ true
    → contains s.visited node ≡ false
    → count_left nodes (enter node s) < count_left nodes s
unfolding difference contains enter
count_left-enter [] node s h fresh = ground arith
count_left-enter (x ∷ nodes) node s h fresh = elim (Bool-cases (contains nodes node)) [
  | inl later ↦ ground (arith, count_left-enter nodes node s later fresh)
  | inr now ↦
      let same : x ≡ node = (eq_iff x node).0 (ground arith) in
      let not_yet : contains s.visited x ≡ false = rw same fresh in
      ground (arith, eq_iff node x, same, count_left-enter_le nodes node s)
]

append_one≢nil : (cs : List (List String)) (c : List String) → cs ++ (c ∷ []) ≢ []
append_one≢nil [] c e = cc
append_one≢nil (d ∷ cs) c e = cc

module _ (neighbours : String → List String) where
  abbrev pub AreCycles : List (List String) → Type 0
  AreCycles [] = Unit
  AreCycles (c ∷ cs) = IsCycle neighbours c × AreCycles cs

  pub AreCycles-append :
      (cs : List (List String)) (c : List String)
      → AreCycles cs
      → IsCycle neighbours c
      → AreCycles (cs ++ (c ∷ []))
  AreCycles-append [] c h k = (k, tt)
  AreCycles-append (d ∷ cs) c h k = (h.0, AreCycles-append cs c h.1 k)

  pub record IsSound (s : Search) : Type 0 where
    pub on_stack_same : (x : String) → contains s.on_stack x ≡ contains s.stack x
    pub on_visited : (x : String) → contains s.stack x ≡ true → contains s.visited x ≡ true
    pub path : IsWalk neighbours s.stack
    pub closed : AreCycles s.cycles
    pub ended :
        s.cycles ≡ []
        → (x : String) → contains s.visited x ≡ true
        → contains s.stack x ≡ false
        → Ends neighbours x

  -- What holds between the states before and after a part of the search.
  pub record After (s t : Search) : Type 0 where
    pub sound : IsSound t
    pub same_stack : t.stack ≡ s.stack
    pub grows : (x : String) → contains s.visited x ≡ true → contains t.visited x ≡ true
    pub no_earlier : t.cycles ≡ [] → s.cycles ≡ []

  pub After-refl : {s : Search} → IsSound s → After s s
  After-refl h = record { sound = h; same_stack = refl; grows = λ x v. v; no_earlier = λ e. e }

  pub After-trans : {s t u : Search} → After s t → After t u → After s u
  After-trans a b = record {
    sound = b.sound;
    same_stack = b.same_stack ∙ a.same_stack;
    grows = λ x v. b.grows x (a.grows x v);
    no_earlier = λ e. a.no_earlier (b.no_earlier e);
  }

  pub enter-IsSound :
      (node : String) (s : Search)
      → IsSound s
      → IsWalk neighbours (s.stack ++ (node ∷ []))
      → IsSound (enter node s)
  unfolding enter contains
  enter-IsSound node s h w = record {
    on_stack_same = λ x. ground (arith, contains-append s.stack (node ∷ []) x, h.on_stack_same x);
    on_visited = λ x v. ground (arith, contains-append s.stack (node ∷ []) x, h.on_visited x);
    path = w;
    closed = h.closed;
    ended = λ e x v n.
        h.ended e x (ground (arith, contains-append s.stack (node ∷ []) x))
          (ground (arith, contains-append s.stack (node ∷ []) x));
  }

  contains-stack :
      (node : String) (s t : Search) (x : String)
      → After (enter node s) t
      → contains t.stack x ≡ (contains s.stack x || (node == x))
  unfolding enter contains
  contains-stack node s t x a =
      rw a.same_stack (ground (arith, contains-append s.stack (node ∷ []) x))

  -- Leaving a node that no infinite walk starts from, if the search has found no cycle.
  pub leave-After :
      (node : String) (s t : Search)
      → contains s.visited node ≡ false
      → IsSound s
      → After (enter node s) t
      → (t.cycles ≡ [] → Ends neighbours node)
      → After s (leave node t)
  unfolding enter leave contains
  leave-After node s t fresh h a ends =
      let back : pop t.stack ≡ s.stack = rw a.same_stack (pop-append s.stack node) in
      let new : (x : String) → (node == x) ≡ true → contains s.visited x ≡ false =
        λ x e. subst (λ y. contains s.visited y ≡ false) ((eq_iff node x).0 e) fresh in
      record {
        sound = record {
          on_stack_same = λ x. rw back (
              ground (
                arith,
                contains-difference t.on_stack (node ∷ []) x,
                a.sound.on_stack_same x,
                contains-stack node s t x a,
                h.on_visited x,
                eq_iff node x,
                new x,
              ));
          on_visited = λ x v. a.grows x (ground (arith, h.on_visited x (rw back at v)));
          path = subst (λ st. IsWalk neighbours st) (sym back) h.path;
          closed = a.sound.closed;
          ended = λ e x v off. elim (Bool-cases (node == x)) [
            | inl same ↦ subst (λ y. Ends neighbours y) ((eq_iff node x).0 same) (ends e)
            | inr other ↦
                a.sound.ended e x v (ground (arith, contains-stack node s t x a, rw back at off))
          ];
        };
        same_stack = back;
        grows = λ x v. a.grows x (ground arith);
        no_earlier = a.no_earlier;
      }

  pub report_cycle-After :
      (neighbor : String) (s : Search)
      → IsSound s
      → contains s.stack neighbor ≡ true
      → IsWalk neighbours (s.stack ++ (neighbor ∷ []))
      → (t : Search) × (report_cycle neighbor s ≡ some t)
        × After s t
        × (t.visited ≡ s.visited)
        × (t.cycles ≢ [])
  unfolding report_cycle
  report_cycle-After neighbor s h on w =
      let (prefix, path, found, split) = from_index-suffix neighbor s.stack on in
      let whole : IsWalk neighbours (prefix ++ (neighbor ∷ (path ++ (neighbor ∷ [])))) =
        rw (sym (append_assoc prefix (neighbor ∷ path) (neighbor ∷ [])), sym split) w in
      let c = neighbor ∷ (path ++ (neighbor ∷ [])) in
      let is_cycle : IsCycle neighbours c =
        (neighbor, path, refl, IsWalk-suffix neighbours prefix c whole) in
      let t : Search = record s { cycles = s.cycles ++ (c ∷ []) } in
      let reported : t.cycles ≢ [] = append_one≢nil s.cycles c in
      (
        t,
        rw found refl,
        record {
          sound = record {
            on_stack_same = h.on_stack_same;
            on_visited = h.on_visited;
            path = h.path;
            closed = AreCycles-append s.cycles c h.closed is_cycle;
            ended = λ e x v off. absurd (reported e);
          };
          same_stack = refl;
          grows = λ x v. v;
          no_earlier = λ e. absurd (reported e);
        },
        refl,
        reported,
      )
