-- ===== src/Runner/Samples.antt =====
-- A small job with a data dir and a bucket, and an engine whose calls all succeed.
use cs_backup_helper.Base.{true, false, none, some, [], ◌∷◌}
use cs_backup_helper.Base.Int.{pos}
use cs_backup_helper.Base.Text.{Text, codes}
use cs_backup_helper.Base.Result.{ok}
use cs_backup_helper.Clock.{DateTime}
use cs_backup_helper.Loader.Tree.{boolean}
use cs_backup_helper.Config.{local, s3, plain, SourceSpec, Job}
use cs_backup_helper.Manifest.{Component, build_manifest, Manifest}
use cs_backup_helper.Storage.{File, bytes, manifest, marker}
use cs_backup_helper.Storage.Memory.{Memory, memory}
use cs_backup_helper.Runner.{Artifact}
use cs_backup_helper.Runner.Engine.{Engine, StagedComponent}
use cs_backup_helper.Runner.Run.{Params}
use cs_backup_helper.Runner.Restore.{Restorer}

abbrev pub noon : DateTime
noon = record { year = 2026; month = 7; day = 5; hour = 12; minute = 0; second = 0; micro = 0 }

abbrev pub database : SourceSpec
database = record {
  type = codes "postgres";
  name = codes "db";
  database = [];
  db = [];
  bucket = [];
  enabled = boolean true;
  settings = 0;
}

abbrev pub job : Job
job = record {
  name = codes "j";
  sources = database ∷ [];
  destinations =
      local ∷ s3 (record { endpoint = []; bucket = codes "b"; prefix = codes "p/" }) ∷ [];
  keep_local = false;
  healthcheck_max_age = none;
  retention = record {
    count = pos 1;
    age_days = 0;
    gfs = record { daily = 0; weekly = 0; monthly = 0 };
    smart_last = true;
  };
  encryption = record { mode = plain; recipient = []; identity_file = [] };
}

abbrev pub sid : Text
sid = codes "s"

abbrev pub archive : File
archive = bytes (codes "data")

abbrev pub dumped : Component
dumped = record {
  name = codes "db";
  kind = codes "postgres";
  size = 4;
  sha256 = codes "h";
  error = [];
  warnings = [];
}

abbrev pub described : Manifest
described = build_manifest sid (codes "i") (codes "t") (codes "h") (dumped ∷ [])

abbrev pub sidecar : File
sidecar = manifest described

abbrev pub artifact : Artifact
artifact = record { name = codes "s.tar.gz"; content = archive }

abbrev pub empty : Memory
empty = record { files = []; objects = [] }

-- The snapshot in the data dir, not yet off-site.
abbrev pub pending : Memory
pending = record {
  files =
      (codes "s.tar.gz", archive)
      ∷ (codes "s.manifest.json", sidecar)
      ∷ (codes "s.offsite-pending.json", marker (codes "j"))
      ∷ [];
  objects = [];
}

abbrev staged : StagedComponent
staged = record {
  name = codes "db";
  kind = codes "postgres";
  path = codes "db.dump";
  warnings = [];
  error = [];
}

abbrev pub engine : Engine memory
engine = record {
  Source = Text;
  build_source = λ spec. ok spec.name;
  component_name = λ source. ok source;
  produce = λ source w. (ok (staged ∷ []), w);
  entries = λ w. [];
  remove = λ entry w. (ok tt, w);
  size_of = λ path w. (ok 4, w);
  sha256_file = λ path w. (ok (codes "h"), w);
  content = λ path w. archive;
  write_manifest = λ m w. (ok tt, w);
  create_bundle = λ m path w. (ok tt, w);
  run = λ argv w. (ok 0, w);
  prepare = λ w. (ok tt, w);
  clean_up = λ w. w;
  hook = λ phase w. (ok tt, w);
  notify = λ alert w. (ok tt, w);
  type_name = λ failure. codes "Error";
  describe = λ failure. codes "failed";
  loads = λ t. none;
  redact = λ t. t;
}

abbrev pub restorer : Restorer memory engine
restorer = record {
  hash_of = λ path w. (ok (codes "h"), w);
  extract_bundle = λ path dir w. (ok tt, w);
  restore = λ source dir w. (ok tt, w);
  hook = λ phase w. (ok tt, w);
}

abbrev pub params : Params
params = record {
  job = job;
  instance_name = codes "i";
  now = noon;
  created_at = codes "t";
  scope = record { job = codes "j"; scoped = false; plain_at = none };
  snapshot_id = some sid;
  has_notifier = true;
  has_hooks = true;
}
