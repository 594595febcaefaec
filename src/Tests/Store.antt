-- ===== src/Tests/Store.antt =====
-- The theorems on projects, on a small database with a second project.
use prowiki.Base.{◌≡◌, refl, [], ◌∷◌, none}
use prowiki.Domain.Entities.{Project}
use prowiki.Db.Schema.{has_project}
use prowiki.Db.Io.{World}
use prowiki.Txn.Atomic.{AllOrNothing}
use prowiki.Store.Projects
use prowiki.Store.Projects.References.{HasReferences}
use prowiki.Store.Projects.Cascade.{delete_lem, delete_result, Deletes}
use prowiki.Container.{open_project}
use prowiki.Container.Opened.{IsOpened, open_project-IsOpened}
use prowiki.Tests.Samples.{calm, small_tables, one_project}

abbrev second_project : Project
second_project = record { id = 2; name = "other"; fs_location = ""; created_at = 0; updated_at = 0 }

abbrev two_projects : World
two_projects = record {
  tables = record small_tables {
    projects = record { rows = one_project ∷ second_project ∷ []; seq = 2 };
  };
  tick = 0;
}

two_projects-HasReferences : HasReferences two_projects.tables
two_projects-HasReferences = record {
  files = (refl, tt);
  versions = (refl, tt);
  features = (refl, tt);
  links = ((refl, refl), tt);
  jobs = (refl, (refl, (refl, tt)));
  interactions = tt;
  code_styles = tt;
  anomalies = tt;
  entities = tt;
  configs = tt;
  endpoints = tt;
}

delete_lem_example :
    Deletes calm 1 two_projects (Projects.delete calm 1 two_projects)
    × (calm.fault two_projects.tick ≡ none
        → (Projects.delete calm 1 two_projects).0
          ≡ delete_result (has_project two_projects.tables 1))
delete_lem_example = delete_lem calm 1 two_projects two_projects-HasReferences

open_project-IsOpened_example :
    AllOrNothing two_projects
      (open_project calm "third" two_projects)
      (λ id w'. IsOpened "third" id w'.tables)
open_project-IsOpened_example = open_project-IsOpened calm "third" two_projects
