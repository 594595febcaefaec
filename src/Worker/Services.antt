-- ===== src/Worker/Services.antt =====
-- internal/worker/dispatcher.go: the dispatcher over the services of internal/app.
use Prim.Native.String.{◌++◌}
use prowiki.Base.{String, str_eq, if◌then◌else◌}
use prowiki.Domain.Errors.{Error}
use prowiki.Domain.Enums.{
  stage_level1_overview, stage_level2_entity, stage_level3_feature, stage_level4_edge_case,
  stage_style_evaluation, stage_intersection_synthesis,
}
use prowiki.Domain.Entities.{Job}
use prowiki.Db.Io.{Io, pure, raise, ◌>>◌}
use prowiki.Txn.{TxFunc}
use prowiki.Worker.{Dispatch}

abbrev pub unimplemented : String → Io TxFunc
unimplemented name = raise (Error.message (name ++ " not yet fully implemented"))

-- `ServiceDispatcher.Dispatch`, of `ProcessOverview`.
unfoldable pub service_dispatch : (Job → Io (Unit {0})) → Dispatch
service_dispatch process_overview job =
    if str_eq job.stage stage_level1_overview
    then process_overview job >> pure (pure tt)
    else if str_eq job.stage stage_level2_entity
    then unimplemented "StageLevel2Entity"
    else if str_eq job.stage stage_level3_feature
    then unimplemented "StageLevel3Feature"
    else if str_eq job.stage stage_level4_edge_case
    then unimplemented "StageLevel4EdgeCase"
    else if str_eq job.stage stage_style_evaluation
    then unimplemented "StageStyleEvaluation"
    else if str_eq job.stage stage_intersection_synthesis
    then unimplemented "StageIntersectionSynthesis"
    else raise (Error.message ("unknown stage: " ++ job.stage))
