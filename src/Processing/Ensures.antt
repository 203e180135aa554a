-- ===== src/Processing/Ensures.antt =====
-- What holds of the answer and the database after a step, whatever becomes of its statements.
use event_driven_data_platfo.Base.{◌≡◌, refl, Option, none, some, List, [], ◌∷◌}
use event_driven_data_platfo.Processing.Tables.{Db}
use event_driven_data_platfo.Processing.Actions.{
  Fate, answered, refused, unanswered, World, Action, ◌>>=◌, continue, evaluate, execute_scoped,
  execute_with,
}

module _ {F N : Type 0} where
  -- After `a` from `w`, `Q` holds of the result, `none` for an exception, and of the database.
  abbrev pub Ensures :
      {A : Type 0} → (Option A → Db F N → Type 0) → Action F N A → World F N → Type 0
  Ensures Q a w = Q (a w).0 (a w).1.db

  ensures_with :
      {A : Type 0} (Q : Option A → Db F N → Type 0) (f : Db F N → A × Db F N) (db : Db F N)
      (fates : List Fate)
      → Q (some (f db).0) (f db).1
      → Q none db
      → Q none (f db).1
      → Q (execute_with f db fates).0 (execute_with f db fates).1.db
  ensures_with Q f db [] done before after = done
  ensures_with Q f db (answered ∷ _) done before after = done
  ensures_with Q f db (refused ∷ _) done before after = before
  ensures_with Q f db (unanswered ∷ _) done before after = after

  -- A statement is carried out and answered, or not carried out, or carried out and not answered.
  pub Ensures-execute_scoped :
      {A : Type 0} (Q : Option A → Db F N → Type 0) (f : Db F N → A × Db F N) (w : World F N)
      → Q (some (f w.db).0) (f w.db).1
      → Q none w.db
      → Q none (f w.db).1
      → Ensures Q (execute_scoped f) w
  Ensures-execute_scoped Q f w = ensures_with Q f w.db w.fates

  ensures_continue :
      {A B : Type 0} (P : Option A → Db F N → Type 0) (Q : Option B → Db F N → Type 0)
      (f : A → Action F N B) (p : Option A × World F N)
      → P p.0 p.1.db
      → ((x : A) (w : World F N) → P (some x) w.db → Ensures Q (f x) w)
      → ((db : Db F N) → P none db → Q none db)
      → Q (continue f p).0 (continue f p).1.db
  ensures_continue P Q f (none, w) h next fail = fail w.db h
  ensures_continue P Q f (some x, w) h next fail = next x w h

  -- A step that goes on with the answer of another.
  pub Ensures-bind :
      {A B : Type 0} (P : Option A → Db F N → Type 0) (Q : Option B → Db F N → Type 0)
      (a : Action F N A) (f : A → Action F N B) (w : World F N)
      → Ensures P a w
      → ((x : A) (v : World F N) → P (some x) v.db → Ensures Q (f x) v)
      → ((db : Db F N) → P none db → Q none db)
      → Ensures Q (a >>= f) w
  Ensures-bind P Q a f w = ensures_continue P Q f (a w)

  pub Ensures-evaluate :
      {A : Type 0} (Q : Option A → Db F N → Type 0) (o : Option A) (w : World F N)
      → ((x : A) → o ≡ some x → Q (some x) w.db)
      → Q none w.db
      → Ensures Q (evaluate o) w
  Ensures-evaluate Q none w some_case none_case = none_case
  Ensures-evaluate Q (some x) w some_case none_case = some_case x refl

  -- A step that goes on with the value of an expression.
  pub Ensures-bind-evaluate :
      {A B : Type 0} (Q : Option B → Db F N → Type 0) (o : Option A) (f : A → Action F N B)
      (w : World F N)
      → ((x : A) → o ≡ some x → Ensures Q (f x) w)
      → Q none w.db
      → Ensures Q (evaluate o >>= f) w
  Ensures-bind-evaluate Q none f w next fail = fail
  Ensures-bind-evaluate Q (some x) f w next fail = next x refl

  -- What follows from what a step ensures is ensured as well.
  pub Ensures-map :
      {A : Type 0} (P Q : Option A → Db F N → Type 0)
      → ((o : Option A) (db : Db F N) → P o db → Q o db)
      → (a : Action F N A) (w : World F N) → Ensures P a w
      → Ensures Q a w
  Ensures-map P Q f a w h = f (a w).0 (a w).1.db h
