-- ===== src/Tests/Api.antt =====
-- Requests to the server over a small database.
use prowiki.Base.{◌≡◌, refl, [], codes, first_where, arith}
use prowiki.Store.Versions.{is_latest_of}
use prowiki.Api.{asset, Request, Response, serve}
use prowiki.Api.FileAnswer.{file_request, file_answer, IsAnsweredBy, get_file_lem}
use prowiki.Api.Clean.{clean_path}
use prowiki.Tests.Samples.{calm, small_world, one_project}

abbrev dashboard : Request → Response
dashboard r = record { status = 200; headers = []; body = asset (codes "<html>") }

abbrev post_files : Request
post_files = record { method = "POST"; path = codes "/api/files" }

get_file_lem_example :
    IsAnsweredBy
      (file_answer (first_where (is_latest_of 1) small_world.tables.versions.rows))
      (serve calm one_project dashboard (file_request 1 (codes "x")) small_world).0
unfolding clean_path prowiki.Api.Scan.Printed.decimal
get_file_lem_example =
    get_file_lem calm one_project dashboard 1 (codes "x") small_world (omega arith) refl refl refl

cleaned : clean_path (codes "/api/files//../jobs/./x/") ≡ codes "/api/jobs/x/"
unfolding clean_path
cleaned = refl

unclean_path : clean_path (codes "//a/../..") ≡ codes "/"
unfolding clean_path
unclean_path = refl
