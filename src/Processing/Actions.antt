-- ===== src/Processing/Actions.antt =====
-- Statements and the steps that are made of them: services/shared/platform_shared/database.py's
-- execute_scoped, and Python's exceptions.
use event_driven_data_platfo.Base.{Option, none, some, List, [], ◌∷◌}
use event_driven_data_platfo.Processing.Tables.{Db}

-- What becomes of one statement, which is a transaction of its own: it may succeed, it may be
-- refused or not reach the database, or it may be carried out and its answer lost.
pub data Fate : Type 0 where
  answered : Fate
  refused : Fate
  unanswered : Fate

-- The database, and the fates of the statements to come; past the end of the list all are answered.
pub record World (F N : Type 0) : Type 0 where
  pub db : Db F N
  pub fates : List Fate

-- What a step returns; `none` is an exception.
abbrev pub Result : Type 0 → Type 0
Result A = Option A

-- A step of the service.
abbrev pub Action : Type 0 → Type 0 → Type 0 → Type 0
Action F N A = World F N → Result A × World F N

module _ {F N : Type 0} where
  abbrev pub return : {A : Type 0} → A → Action F N A
  return a w = (some a, w)

  abbrev pub raise : {A : Type 0} → Action F N A
  raise w = (none, w)

  abbrev pub continue :
      {A B : Type 0} → (A → Action F N B) → Option A × World F N → Option B × World F N
  continue f (none, w) = (none, w)
  continue f (some a, w) = f a w

  infixl 5 ◌>>=◌ ◌>>◌
  abbrev pub ◌>>=◌ : {A B : Type 0} → Action F N A → (A → Action F N B) → Action F N B
  a >>= f = λ w. continue f (a w)

  abbrev pub ◌>>◌ : {A B : Type 0} → Action F N A → Action F N B → Action F N B
  a >> b = a >>= λ _. b

  -- An expression of Python that may raise.
  abbrev pub evaluate : {A : Type 0} → Option A → Action F N A
  evaluate o w = (o, w)

  abbrev pub execute_with :
      {A : Type 0} → (Db F N → A × Db F N) → Db F N → List Fate → Option A × World F N
  execute_with f db [] = let (a, next) = f db in (some a, record { db = next; fates = [] })
  execute_with f db (answered ∷ fates) =
      let (a, next) = f db in (some a, record { db = next; fates = fates })
  execute_with f db (refused ∷ fates) = (none, record { db = db; fates = fates })
  execute_with f db (unanswered ∷ fates) =
      let (a, next) = f db in (none, record { db = next; fates = fates })

  -- `self.postgres.execute_scoped(…)`, with what the statement does
  abbrev pub execute_scoped : {A : Type 0} → (Db F N → A × Db F N) → Action F N A
  execute_scoped f w = execute_with f w.db w.fates

  abbrev pub statement : (Db F N → Db F N) → Action F N Unit
  statement f = execute_scoped λ db. (tt, f db)
