-- ===== src/Postgres/Restore/Server.antt =====
-- What a restore relies on of `pg_restore`, `psql`, the server and the files.
use cs_backup_helper.Base.{
  ◌≡◌, ◌≢◌, ◌==◌, true, Bool, Option, none, some, List, [], ◌∷◌, ◌++◌, map, all, All,
}
use cs_backup_helper.Base.Text.{Text, codes, elem}
use cs_backup_helper.Base.Words.{join}
use cs_backup_helper.Base.Dict.{Dict}
use cs_backup_helper.Base.Result.{Exn, time_out, ok, raised}
use cs_backup_helper.Postgres.Session.{Command, command_of, EndsInCommit, is_setting, execute, idle}
use cs_backup_helper.Postgres.Script.{transaction_timeout}
use cs_backup_helper.Postgres.Script.Exact.{commented_line}
use cs_backup_helper.Tools.{Completed, Tools}

pub record Server (T : Tools) : Type 1 where
  pub Database : Type 0
  pub target : Tools.World T → Database
  -- The content of a file, if it is there.
  pub content : Text → Tools.World T → Option Text
  -- The statements that `psql` finds in the content of a file.
  pub parse : Text → List Command
  -- `psql` reads the line as one whole statement.
  pub IsStatement : Text → Type 0
  -- What a statement does to a database, and whether a COMMIT succeeds. It fails too when the
  -- connection is lost before.
  pub effect : Tools.World T → Text → Database → Option Database
  pub can_commit : Tools.World T → Database → Bool

-- Flags of `pg_restore` that do not name an output.
abbrev pub script_flags : List Text
script_flags = codes "--clean" ∷ codes "--if-exists" ∷ codes "--no-owner" ∷ codes "--no-acl" ∷ []

abbrev pub single_transaction : List Text → Text → Text → List Text
single_transaction flags script dump =
    codes "pg_restore"
    ∷ (flags ++ (codes "--single-transaction" ∷ codes "--file" ∷ script ∷ dump ∷ []))

abbrev pub on_error_stop : Text → Text → List Text
on_error_stop first second =
    codes "psql"
    ∷ codes "--no-psqlrc"
    ∷ codes "--quiet"
    ∷ codes "--set"
    ∷ codes "ON_ERROR_STOP=1"
    ∷ codes "--file"
    ∷ first
    ∷ codes "--file"
    ∷ second
    ∷ []

-- The first group is about files, the second about `pg_restore --single-transaction`, which writes
-- one transaction to its script, and the third about `psql`: it runs the statements of both files in
-- one session and exits with an error when one fails. `subprocess.run` raises when `psql` cannot be
-- started, and when its time is up.
pub record IsTransactional (T : Tools) (S : Server T) : Type 0 where
  pub temporary_directory_target :
      (dir : Text) (w : Tools.World T)
      → Server.target S (Tools.temporary_directory T dir w).1 ≡ Server.target S w
  pub remove_directory_target :
      (dir : Text) (w : Tools.World T)
      → Server.target S (Tools.remove_directory T dir w) ≡ Server.target S w
  pub read_target :
      (path : Text) (w : Tools.World T)
      → Server.target S (Tools.read T path w).1 ≡ Server.target S w
  pub read_content :
      (path other : Text) (w : Tools.World T)
      → Server.content S other (Tools.read T path w).1 ≡ Server.content S other w
  pub read_result :
      (path text : Text) (w : Tools.World T)
      → (Tools.read T path w).0 ≡ ok text
      → Server.content S path w ≡ some text
  pub write_target :
      (path new : Text) (w : Tools.World T)
      → Server.target S (Tools.write T path new w).1 ≡ Server.target S w
  pub write_content :
      (path new : Text) (w : Tools.World T) (u : Unit {0})
      → (Tools.write T path new w).0 ≡ ok u
      → Server.content S path (Tools.write T path new w).1 ≡ some new
  pub write_content_other :
      (path other new : Text) (w : Tools.World T)
      → path ≢ other
      → Server.content S other (Tools.write T path new w).1 ≡ Server.content S other w
  pub generate_target :
      (flags : List Text) (script dump : Text) (env : Dict Text) (w : Tools.World T)
      → all (λ f. elem f script_flags) flags ≡ true
      → Server.target S (Tools.run T (single_transaction flags script dump) env none w).1
        ≡ Server.target S w
  pub generate_content_other :
      (flags : List Text) (script dump other : Text) (env : Dict Text) (w : Tools.World T)
      → all (λ f. elem f script_flags) flags ≡ true
      → script ≢ other
      → Server.content S other (Tools.run T (single_transaction flags script dump) env none w).1
        ≡ Server.content S other w
  pub generate_content :
      (flags : List Text) (script dump : Text) (env : Dict Text) (w : Tools.World T) (c : Completed)
      → all (λ f. elem f script_flags) flags ≡ true
      → (Tools.run T (single_transaction flags script dump) env none w).0 ≡ ok c
      → (c.returncode == 0) ≡ true
      → (text : Text) × (Server.content S script
            (Tools.run T (single_transaction flags script dump) env none w).1
          ≡ some text)
        × EndsInCommit (Server.parse S text)
  pub parse_lines :
      (lines : List Text)
      → All (Server.IsStatement S) lines
      → Server.parse S (Tools.encode_escaped T (join (codes "\n") lines ++ codes "\n"))
        ≡ map command_of lines
  -- A setting that becomes a comment leaves the transaction as it was.
  pub parse_commented :
      (before after : Text)
      → EndsInCommit (Server.parse S (before ++ (10 ∷ (transaction_timeout ++ after))))
      → EndsInCommit
          (Server.parse S (before ++ (10 ∷ (commented_line transaction_timeout ++ after))))
  pub settings_keep :
      (w : Tools.World T) (t : Text) (d x : Server.Database S)
      → is_setting t ≡ true
      → Server.effect S w t d ≡ some x
      → x ≡ d
  pub psql_runs :
      (first second one two : Text) (env : Dict Text) (w : Tools.World T) (c : Completed)
      → Server.content S first w ≡ some one
      → Server.content S second w ≡ some two
      → (Tools.run T (on_error_stop first second) env none w).0 ≡ ok c
      → (let result =
            execute
              (Server.effect S w)
              (Server.can_commit S w)
              (Server.parse S one ++ Server.parse S two)
              (idle (Server.effect S w) (Server.can_commit S w) (Server.target S w)) in
          ((c.returncode == 0) ≡ result.0)
          × (Server.target S (Tools.run T (on_error_stop first second) env none w).1 ≡ result.1))
  pub psql_raises :
      (first second : Text) (env : Dict Text) (w : Tools.World T) (e : Exn)
      → (Tools.run T (on_error_stop first second) env none w).0 ≡ raised e
      → e ≢ time_out
      → Server.target S (Tools.run T (on_error_stop first second) env none w).1 ≡ Server.target S w
