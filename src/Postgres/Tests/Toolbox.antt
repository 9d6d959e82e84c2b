-- ===== src/Postgres/Tests/Toolbox.antt =====
-- The tools in memory keep what a restore relies on, and a restore with them fails and is undone.
use cs_backup_helper.Base.{
  ℕ, ◌≡◌, ◌≢◌, ◌==◌, refl, Option, none, some, List, [], ◌∷◌, ◌++◌, Bool, true, false, arith, All,
}
use cs_backup_helper.Base.Text.{Text, codes, text_eq, eq_iff, eq_refl}
use cs_backup_helper.Base.Words.{split_at}
use cs_backup_helper.Base.Dict.{Dict, lookup, insert, lookup-insert}
use cs_backup_helper.Base.Result.{Exn, ok, raised, source_error}
use cs_backup_helper.Postgres.{PostgresConfig}
use cs_backup_helper.Postgres.Plan.{Replacement}
use cs_backup_helper.Postgres.Prelude.{prelude_lines}
use cs_backup_helper.Postgres.Session.{EndsInCommit, is_setting, execute, idle}
use cs_backup_helper.Postgres.Tests.Lines.{parse, IsLine, parse-join, parse-commented}
use cs_backup_helper.Tools.{Completed}
use cs_backup_helper.Postgres.Restore.{generate_argv, apply_argv, restore_replacing}
use cs_backup_helper.Postgres.Restore.Server.{Server, IsTransactional, single_transaction}
use cs_backup_helper.Postgres.Restore.Atomic.{restore_replacing_atomic}
use cs_backup_helper.Postgres.Tests.Box.{
  Box, last_but_one, effect, can_commit, ended, ran_psql, dumped, read_or, box, content,
}

read_or_keeps : {A : Type 0} (f : Box → A) (o : Option Text) (w : Box) → f (read_or o w).1 ≡ f w
read_or_keeps f none w = refl
read_or_keeps f (some t) w = refl

lookup_self : (path new : Text) (files : Dict Text) → lookup path (insert path new files) ≡ some new
lookup_self path new files = ground (arith, lookup-insert path path new files, eq_refl path)

lookup_other :
    (path other new : Text) (files : Dict Text)
    → path ≢ other
    → lookup other (insert path new files) ≡ lookup other files
lookup_other path other new files d =
    ground (arith, lookup-insert path other new files, (eq_iff path other).0)

last_but_one-append :
    (a b : Text) (flags : List Text) (p q s d : Text)
    → last_but_one a b (flags ++ (p ∷ q ∷ s ∷ d ∷ [])) ≡ s
unfolding last_but_one
last_but_one-append a b [] p q s d = refl
last_but_one-append a b (x ∷ flags) p q s d = last_but_one-append b x flags p q s d

-- The script that `pg_restore` is told to write.
script_named :
    (flags : List Text) (script dump : Text)
    → last_but_one [] [] (single_transaction flags script dump) ≡ script
unfolding last_but_one
script_named flags script dump = last_but_one-append [] (codes "pg_restore") flags _ _ script dump

dumped-EndsInCommit : EndsInCommit (parse dumped)
unfolding split_at text_eq
dumped-EndsInCommit = ((λ h. cc), ((λ h. cc), ((λ h. cc), refl)))

ended-returncode :
    (r : Bool × ℕ) (c : Completed) (w : Box)
    → (ended r w).0 ≡ ok c
    → ((c.returncode == 0) ≡ r.0) × ((ended r w).1.database ≡ r.1)
ended-returncode (true, d) c w h = (ground (arith, h), refl)
ended-returncode (false, d) c w h = (ground (arith, h), refl)

psql_result :
    (o p : Option Text) (one two : Text) (w : Box) (c : Completed)
    → o ≡ some one
    → p ≡ some two
    → (ran_psql o p w).0 ≡ ok c
    → (let result =
          execute effect can_commit (parse one ++ parse two) (idle effect can_commit w.database) in
        ((c.returncode == 0) ≡ result.0) × ((ran_psql o p w).1.database ≡ result.1))
psql_result o p one two w c e f = rw (e, f) (ended-returncode _ c w)

psql_keeps :
    (o p : Option Text) (w : Box) (e : Exn)
    → (ran_psql o p w).0 ≡ raised e
    → (ran_psql o p w).1.database ≡ w.database
psql_keeps none p w e h = refl
psql_keeps (some one) none w e h = refl
psql_keeps (some one) (some two) w e h = absurd (cc)

read_or_result : (o : Option Text) (t : Text) (w : Box) → (read_or o w).0 ≡ ok t → o ≡ some t
read_or_result none t w h = absurd (cc)
read_or_result (some s) t w h = cc

setting_keeps : (t : Text) (d x : ℕ) → is_setting t ≡ true → effect t d ≡ some x → x ≡ d
setting_keeps t d x h q = ground (arith, h, q)

abbrev server : Server box
server = record {
  Database = ℕ;
  target = λ w. w.database;
  content = content;
  parse = parse;
  IsStatement = IsLine;
  effect = λ w. effect;
  can_commit = λ w. can_commit;
}

box-IsTransactional : IsTransactional box server
unfolding text_eq
box-IsTransactional = record {
  temporary_directory_target = λ dir w. refl;
  remove_directory_target = λ dir w. refl;
  read_target = λ path w. read_or_keeps (λ v. v.database) (lookup path w.files) w;
  read_content = λ path other w. read_or_keeps (content other) (lookup path w.files) w;
  read_result = λ path t w. read_or_result (lookup path w.files) t w;
  write_target = λ path new w. refl;
  write_content = λ path new w u h. lookup_self path new w.files;
  write_content_other = λ path other new w d. lookup_other path other new w.files d;
  generate_target = λ flags script dump env w h. refl;
  generate_content_other = λ flags script dump other env w h d.
      rw (script_named flags script dump) (lookup_other script other dumped w.files d);
  generate_content = λ flags script dump env w c h r z. (
    dumped,
    rw (script_named flags script dump) (lookup_self script dumped w.files),
    dumped-EndsInCommit,
  );
  parse_lines = parse-join;
  parse_commented = parse-commented;
  settings_keep = λ w. setting_keeps;
  psql_runs = λ first second one two env w c.
      psql_result (lookup first w.files) (lookup second w.files) one two w c;
  psql_raises =
      λ first second env w e h n. psql_keeps (lookup first w.files) (lookup second w.files) w e h;
}

abbrev cfg : PostgresConfig
cfg = record {
  host = codes "db";
  port = 5432;
  database = codes "app";
  user = codes "app";
  password = codes "secret";
  ssl_mode = codes "disable";
  dump_format = codes "custom";
  timeout = 60;
  name = [];
  exclude_table_data = [];
  keep_acl = false;
}

-- A server before version 17, so that the script is changed before it runs.
abbrev plan : Replacement
plan = record {
  relations = [];
  others = [];
  schemas = [];
  recreated = codes "app" ∷ [];
  partitioned = [];
  absent = [];
  server_version_num = 160004;
}

abbrev before : Box
before = record { database = 7; files = [] }

abbrev after : Box
unfolding restore_replacing
after = (restore_replacing box cfg (codes "/tmp") (codes "/tmp/app.dump") plan [] before).1

lines_of-plan : All IsLine (prelude_lines plan)
unfolding prelude_lines
lines_of-plan = (
  (refl, refl),
  (
    (refl, refl),
    (
      (refl, refl),
      ((refl, refl), ((refl, refl), ((refl, refl), ((refl, refl), ((refl, refl), tt))))),
    ),
  ),
)

-- The schema was dropped in the transaction, and the table could not be created.
restore_replacing_atomic_example : after.database ≡ 7
unfolding restore_replacing apply_argv generate_argv text_eq lookup split_at execute prelude_lines
    insert last_but_one
restore_replacing_atomic_example =
    restore_replacing_atomic box server box-IsTransactional cfg (codes "/tmp")
      (codes "/tmp/app.dump") plan [] before after source_error lines_of-plan refl (λ h. cc)
