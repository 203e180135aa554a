-- ===== src/Lineage/Search.antt =====
-- The depth-first search of find_cycles. Its variables are a state; an exception is `none`, and so is
-- a recursion that is deeper than the fuel.
use event_driven_data_platfo.Base.{
  ℕ, zero, suc, ◌==◌, String, List, [], ◌∷◌, ◌++◌, contains, difference, Option, none, some, ◌>>=◌,
  if◌then◌else◌,
}

pub record Search : Type 0 where
  pub visited : List String
  pub stack : List String
  pub on_stack : List String
  pub cycles : List (List String)

-- `xs[xs.index(x):]`
unfoldable pub from_index : String → List String → Option (List String)
from_index x [] = none
from_index x (y ∷ ys) = let rest = from_index x ys in if y == x then some (y ∷ ys) else rest

-- The list that `xs.pop()` leaves.
unfoldable pub pop : List String → List String
pop [] = []
pop (x ∷ []) = []
pop (x ∷ y ∷ ys) = x ∷ pop (y ∷ ys)

unfoldable pub enter : String → Search → Search
enter node s = record s {
  visited = node ∷ s.visited;
  stack = s.stack ++ (node ∷ []);
  on_stack = node ∷ s.on_stack;
}

unfoldable pub leave : String → Search → Search
unfolding pop difference
leave node s = record s { stack = pop s.stack; on_stack = difference s.on_stack (node ∷ []) }

-- `cycles.append(stack[cycle_start:] + [neighbor])`
unfoldable pub report_cycle : String → Search → Option Search
unfolding from_index
report_cycle neighbor s = do
  path ← from_index neighbor s.stack
  some (record s { cycles = s.cycles ++ ((path ++ (neighbor ∷ [])) ∷ []) })

-- The body of the loop over the neighbours of a node.
unfoldable pub visit : (String → Search → Option Search) → String → Search → Option Search
unfolding contains report_cycle
visit dfs neighbor s =
    if contains s.visited neighbor
    then (if contains s.on_stack neighbor then report_cycle neighbor s else some s)
    else dfs neighbor s

unfoldable pub visit_all : (String → Search → Option Search) → List String → Search → Option Search
unfolding visit
visit_all dfs [] s = some s
visit_all dfs (neighbor ∷ rest) s = do t ← visit dfs neighbor s; visit_all dfs rest t

unfoldable pub dfs : (String → List String) → ℕ → String → Search → Option Search
unfolding enter leave visit_all
dfs neighbours zero node s = none
dfs neighbours (suc fuel) node s = do
  t ← visit_all (dfs neighbours fuel) (neighbours node) (enter node s)
  some (leave node t)

-- The body of the loop over the nodes.
unfoldable pub start_at : (String → Search → Option Search) → String → Search → Option Search
unfolding contains
start_at dfs node s = if contains s.visited node then some s else dfs node s

unfoldable pub start_at_all :
    (String → Search → Option Search) → List String → Search → Option Search
unfolding start_at
start_at_all dfs [] s = some s
start_at_all dfs (node ∷ rest) s = do t ← start_at dfs node s; start_at_all dfs rest t

abbrev pub no_search : Search
no_search = record { visited = []; stack = []; on_stack = []; cycles = [] }
