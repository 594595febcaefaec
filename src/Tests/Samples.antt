-- ===== src/Tests/Samples.antt =====
-- A small database: one project with a file of one version, and two jobs.
use prowiki.Base.{ℕ, true, String, List, [], ◌∷◌, Option, some, none, codes, ◌==◌, if◌then◌else◌}
use prowiki.Domain.Enums.{JobStatus, pending, processing, stage_level1_overview, Stage}
use prowiki.Domain.Entities.{Project, File, Job, Feature}
use prowiki.Db.Schema.{Tables, VersionRow, no_tables}
use prowiki.Db.Io.{Env, World, reliable}

abbrev pub job : ℕ → Stage → JobStatus → ℕ → ℕ → Job
job id stage status priority retries = record {
  id = id;
  project_id = 1;
  target_id = 1;
  target_type = "File";
  stage = stage;
  status = status;
  priority = priority;
  retry_count = retries;
  payload = "";
  created_at = 0;
  updated_at = 0;
}

-- The second has the higher priority, the third is at its last attempt.
abbrev pub three_jobs : List Job
three_jobs =
    job 1 stage_level1_overview pending 1 0
    ∷ job 2 stage_level1_overview pending 5 0
    ∷ job 3 "PARSE" processing 1 3
    ∷ []

abbrev pub one_project : Project
one_project = record { id = 1; name = "demo"; fs_location = ""; created_at = 0; updated_at = 0 }

abbrev pub one_file : File
one_file = record {
  id = 1;
  project_id = 1;
  folder_id = none;
  path = codes "a.go";
  created_at = 0;
  updated_at = 0;
}

abbrev pub one_version : VersionRow
one_version = record {
  id = 1;
  file_id = 1;
  content = codes "package a";
  ast_hash = "h1";
  summary = some "a package";
  is_latest = true;
  created_at = 0;
}

abbrev pub one_feature : Feature
one_feature = record {
  id = 1;
  project_id = 1;
  name = "parsing";
  description = "parses";
  created_at = 0;
  updated_at = 0;
}

abbrev pub small_tables : Tables
small_tables = record no_tables {
  projects = record { rows = one_project ∷ []; seq = 1 };
  files = record { rows = one_file ∷ []; seq = 1 };
  versions = record { rows = one_version ∷ []; seq = 1 };
  features = record { rows = one_feature ∷ []; seq = 1 };
  file_features = record { file_version_id = 1; feature_id = 1 } ∷ [];
  jobs = record { rows = three_jobs; seq = 3 };
}

abbrev pub small_world : World
small_world = record { tables = small_tables; tick = 0 }

-- Time is the number of the call, and RETURNING keeps the order of the rows.
abbrev pub calm : Env
calm = reliable (λ n. n) (λ jobs. jobs)

abbrev fails_third : ℕ → Option String
fails_third n = if n == 2 then some "database is locked" else none

-- The driver fails at the third call.
abbrev pub shaky : Env
shaky = record { fault = fails_third; clock = λ n. n; arrange = λ jobs. jobs }
