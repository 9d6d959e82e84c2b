-- ===== src/Postgres/Session/Opened.antt =====
-- The prelude of a plan opens a transaction that only the script behind it ends.
use cs_backup_helper.Base.{
  ◌≡◌, ◌≢◌, refl, ap, inl, inr, Bool, true, false, Bool-cases, Option, some, List, [], ◌∷◌, ◌++◌,
  map, All, is_empty,
}
use cs_backup_helper.Base.Text.{Text, codes, text_eq, starts_with}
use cs_backup_helper.Postgres.Objects.{LiveObject, ObjectType, drop_order}
use cs_backup_helper.Postgres.Plan.{Replacement}
use cs_backup_helper.Postgres.Prelude.{
  prelude_lines, drop_statements, drop_statement, drop_schemas, of_type,
}
use cs_backup_helper.Postgres.Session.{
  Command, begin, commit, other, command_of, EndsInCommit, is_setting, execute, idle, stopped,
}

cons-EndsInCommit :
    (c : Command) (cs : List Command) → c ≢ commit → EndsInCommit cs → EndsInCommit (c ∷ cs)
cons-EndsInCommit c [] n e = absurd e
cons-EndsInCommit c (d ∷ cs) n e = (n, e)

append-EndsInCommit :
    (cs ds : List Command) → All (λ c. c ≢ commit) cs → EndsInCommit ds → EndsInCommit (cs ++ ds)
append-EndsInCommit [] ds a e = e
append-EndsInCommit (c ∷ cs) ds (n, a) e =
    cons-EndsInCommit c (cs ++ ds) n (append-EndsInCommit cs ds a e)

drop-IsOther : (s : Text) → command_of (codes "DROP " ++ s) ≢ commit
unfolding text_eq
drop-IsOther s = λ h. cc

statements-IsOther :
    (types : List ObjectType) (objects : List LiveObject)
    → All (λ c. c ≢ commit) (map command_of (drop_statements types objects))
unfolding drop_statements drop_statement
statements-IsOther [] objects = tt
statements-IsOther (t ∷ types) objects =
    let rest = statements-IsOther types objects in
    elim (Bool-cases (is_empty (of_type t objects))) [
      | inl e ↦ rw (drop_statements, e) rest
      | inr e ↦ rw (drop_statements, e) (drop-IsOther _, rest)
    ]

-- What follows BEGIN in a prelude.
abbrev pub dropping : Replacement → List Text
dropping plan =
    drop_statements drop_order (plan.relations ++ plan.others)
    ++ (drop_schemas plan.recreated ++ (codes "SET client_min_messages = error;" ∷ []))

schemas-IsOther :
    (names : List Text)
    → All
        (λ c. c ≢ commit)
        (map command_of (drop_schemas names ++ (codes "SET client_min_messages = error;" ∷ [])))
unfolding drop_schemas text_eq
schemas-IsOther [] = ((λ h. cc), tt)
schemas-IsOther (n ∷ names) = ((λ h. cc), ((λ h. cc), tt))

pub map_command-append :
    (xs ys : List Text) → map command_of (xs ++ ys) ≡ map command_of xs ++ map command_of ys
map_command-append [] ys = refl
map_command-append (x ∷ xs) ys = ap (λ t. command_of x ∷ t) (map_command-append xs ys)

All-append :
    (xs ys : List Command)
    → All (λ c. c ≢ commit) xs
    → All (λ c. c ≢ commit) ys
    → All (λ c. c ≢ commit) (xs ++ ys)
All-append [] ys h k = k
All-append (x ∷ xs) ys (n, h) k = (n, All-append xs ys h k)

dropping-IsOther : (plan : Replacement) → All (λ c. c ≢ commit) (map command_of (dropping plan))
dropping-IsOther plan =
    rw (map_command-append (drop_statements drop_order (plan.relations ++ plan.others))) (
      All-append _ _ (statements-IsOther drop_order (plan.relations ++ plan.others))
        (schemas-IsOther plan.recreated))

abbrev pub parameters : List Text
parameters =
    codes "SET client_min_messages = notice;"
    ∷ codes "SET statement_timeout = 0;"
    ∷ codes "SET lock_timeout = 0;"
    ∷ codes "SET idle_in_transaction_session_timeout = 0;"
    ∷ codes
        "SELECT pg_catalog.set_config('transaction_timeout', '0', false) WHERE pg_catalog.current_setting('server_version_num')::int >= 170000;"
    ∷ []

-- The commands of a prelude: five settings, then a transaction that it does not end.
commands_of-prelude :
    (plan : Replacement)
    → map command_of (prelude_lines plan)
      ≡ map (λ t. other t) parameters ++ (begin ∷ map command_of (dropping plan))
unfolding prelude_lines text_eq
commands_of-prelude plan = refl

parameters-IsSetting : All (λ t. is_setting t ≡ true) parameters
unfolding starts_with
parameters-IsSetting = (refl, (refl, (refl, (refl, (refl, tt)))))

-- A prelude and a script whose last command is its only COMMIT, run in one session: if a statement
-- fails, the database is as it was.
pub prelude-stopped :
    {D : Type 0} (effect : Text → D → Option D) (can_commit : D → Bool)
    (keeps : (t : Text) (d x : D) → is_setting t ≡ true → effect t d ≡ some x → x ≡ d)
    (plan : Replacement) (script : List Command) (d : D)
    → EndsInCommit script
    → (execute effect can_commit
        (map command_of (prelude_lines plan) ++ script)
        (idle effect can_commit d)).0
      ≡ false
    → (execute effect can_commit
        (map command_of (prelude_lines plan) ++ script)
        (idle effect can_commit d)).1
      ≡ d
prelude-stopped effect can_commit keeps plan script d e = rw (commands_of-prelude plan) (
    stopped effect can_commit keeps parameters (map command_of (dropping plan) ++ script) d
      parameters-IsSetting
      (append-EndsInCommit (map command_of (dropping plan)) script (dropping-IsOther plan) e))
