-- ===== src/Postgres/Tests/Box.antt =====
-- Tools over files in memory and a database that is a number. `psql` runs the lines of its files as
-- statements.
use cs_backup_helper.Base.{
  ℕ, Option, none, some, List, [], ◌∷◌, ◌++◌, Bool, true, if◌then◌else◌, drop,
}
use cs_backup_helper.Base.Text.{Text, codes, text_eq, starts_with}
use cs_backup_helper.Base.Dict.{Dict, lookup, insert}
use cs_backup_helper.Base.Result.{Result, ok, raised, os_error}
use cs_backup_helper.Postgres.Session.{is_setting, execute, idle}
use cs_backup_helper.Postgres.Tests.Lines.{parse}
use cs_backup_helper.Tools.{Completed, Tools}

pub record Box : Type 0 where
  pub database : ℕ
  pub files : Dict Text

abbrev completed : ℕ → Completed
completed code = record { returncode = code; stdout = []; stderr = [] }

abbrev first_of : List Text → Text
first_of [] = []
first_of (x ∷ xs) = x

-- The last but one of a list that follows two words.
unfoldable pub last_but_one : Text → Text → List Text → Text
last_but_one a b [] = a
last_but_one a b (x ∷ xs) = last_but_one b x xs

-- A statement that drops empties the database, and any other fails but for the settings.
abbrev pub effect : Text → ℕ → Option ℕ
effect t d = if is_setting t then some d else if starts_with (codes "DROP ") t then some 0 else none

abbrev pub can_commit : ℕ → Bool
can_commit d = true

abbrev exit_code : Bool → ℕ
exit_code b = if b then 0 else 3

abbrev pub ended : Bool × ℕ → Box → Result Completed × Box
ended r w = (ok (completed (exit_code r.0)), record { database = r.1; files = w.files })

abbrev pub ran_psql : Option Text → Option Text → Box → Result Completed × Box
ran_psql none second w = (raised os_error, w)
ran_psql (some one) none w = (raised os_error, w)
ran_psql (some one) (some two) w =
    ended (execute effect can_commit (parse one ++ parse two) (idle effect can_commit w.database)) w

-- What `pg_restore` makes of a dump of one table.
abbrev pub dumped : Text
dumped = codes "BEGIN;\nSET transaction_timeout = 0;\nCREATE TABLE app.t ();\nCOMMIT;\n"

abbrev ran_pg_restore : List Text → Box → Result Completed × Box
ran_pg_restore args w = (
  ok (completed 0),
  record { database = w.database; files = insert (last_but_one [] [] args) dumped w.files },
)

abbrev ran : List Text → Box → Result Completed × Box
ran argv w =
    if text_eq (first_of argv) (codes "psql")
    then ran_psql (lookup (first_of (drop 6 argv)) w.files)
        (lookup (first_of (drop 8 argv)) w.files) w
    else ran_pg_restore argv w

abbrev pub read_or : Option Text → Box → Result Text × Box
read_or none w = (raised os_error, w)
read_or (some t) w = (ok t, w)

abbrev written : Text → Text → Box → Result (Unit {0}) × Box
written path new w = (ok tt, record { database = w.database; files = insert path new w.files })

abbrev pub box : Tools
box = record {
  World = Box;
  run = λ argv env input w. ran argv w;
  decode = λ t. t;
  decode_escaped = λ t. t;
  temporary_directory = λ dir w. (ok (codes "/tmp/x"), w);
  temporary_file = λ w. (ok (codes "/tmp/y"), w);
  remove_directory = λ dir w. w;
  unlink = λ path w. (ok tt, w);
  read = λ path w. read_or (lookup path w.files) w;
  read_gzip = λ path w. read_or (lookup path w.files) w;
  write = written;
  write_gzip = written;
  encode_escaped = λ t. t;
}

abbrev pub content : Text → Box → Option Text
content path w = lookup path w.files
