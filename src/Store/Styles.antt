-- ===== src/Store/Styles.antt =====
-- internal/store/style_store.go: style rules and the anomalies found against them.
use prowiki.Base.{ℕ, ◌&&◌, String, if◌then◌else◌}
use prowiki.Domain.Errors.{Error, ok, err}
use prowiki.Domain.Entities.{CodeStyle, StyleAnomaly}
use prowiki.Db.Schema.{has_project, has_version, has_code_style, insert, next_id}
use prowiki.Db.Io.{Env, Io, Query, statement}

abbrev pub style_row : ℕ → ℕ → String → ℕ → CodeStyle
style_row now project rule id = record {
  id = id;
  project_id = project;
  rule = rule;
  created_at = now;
  updated_at = now;
}

unfoldable pub insert_style : ℕ → String → Query ℕ
insert_style project rule now t =
    if has_project t project
    then ok (
      next_id t.code_styles,
      record t { code_styles = insert (style_row now project rule) t.code_styles },
    )
    else err (Error.constraint "FOREIGN KEY constraint failed")

-- `CreateCodeStyle`, which sets `style.ID`: the result is that id.
unfoldable pub create_code_style : Env → ℕ → String → Io ℕ
unfolding insert_style statement
create_code_style env project rule = statement env (insert_style project rule)

abbrev pub anomaly_row : ℕ → ℕ → ℕ → String → ℕ → StyleAnomaly
anomaly_row now version style rationale id = record {
  id = id;
  file_version_id = version;
  code_style_id = style;
  rationale = rationale;
  created_at = now;
}

unfoldable pub insert_anomaly : ℕ → ℕ → String → Query ℕ
insert_anomaly version style rationale now t =
    if has_version t version && has_code_style t style
    then ok (
      next_id t.anomalies,
      record t { anomalies = insert (anomaly_row now version style rationale) t.anomalies },
    )
    else err (Error.constraint "FOREIGN KEY constraint failed")

-- `CreateStyleAnomaly`, which sets `anomaly.ID`: the result is that id.
unfoldable pub create_style_anomaly : Env → ℕ → ℕ → String → Io ℕ
unfolding insert_anomaly statement
create_style_anomaly env version style rationale =
    statement env (insert_anomaly version style rationale)
