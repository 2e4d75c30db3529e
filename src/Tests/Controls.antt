-- ===== src/Tests/Controls.antt =====
-- The tables' controls, the page that uploads an artifact and the page that starts a task.
use cadentra.Prelude.{
  ℕ, ltb, refl, List, ◌≡◌, ◌≢◌, String, some, [], ◌∷◌, true, false, get_or, includes, if◌then◌else◌,
}
use cadentra.DataTable.FacetedFilter
use cadentra.DataTable.FacetedFilter.{selects, flips, run_refines}
use cadentra.Executions.RunTask
use cadentra.Executions.RunTask.{presses_run, confirms, answered as run_answered, run-init-Inv}
use cadentra.Editors.Artifact
use cadentra.Editors.Artifact.{
  File, Event, submits, types_name, types_version, selects as selects_arch, arm64, chooses, ends,
  answered, changes_token, error_of,
}
use cadentra.Editors.Artifact.Uploads.{IsSteady, run-init-IsSteady}

run_refines_example :
    ((y : String)
      → includes
          (get_or
            (FacetedFilter.run (some ("todo" ∷ [])) (selects "done" ∷ selects "todo" ∷ []))
            [])
          y
        ≡ flips (includes ("todo" ∷ [])) (selects "done" ∷ selects "todo" ∷ []) y)
    × (FacetedFilter.run (some ("todo" ∷ [])) (selects "done" ∷ selects "todo" ∷ []) ≢ some [])
run_refines_example =
    run_refines (some ("todo" ∷ [])) (selects "done" ∷ selects "todo" ∷ []) (λ e. cc)

abbrev digits : ℕ → String
digits n = if ltb n 300 then "200" else "413"

abbrev disk : File
disk = record { name = "disk.img"; content = "x" }

-- The first upload is too large for the hub.
abbrev uploads : List Event
uploads =
    submits
    ∷ types_name "disk"
    ∷ types_version "1"
    ∷ selects_arch arm64
    ∷ chooses (some disk)
    ∷ submits
    ∷ submits
    ∷ ends (answered 413)
    ∷ changes_token (some "u")
    ∷ submits
    ∷ ends (answered 200)
    ∷ []

upload_refused : error_of "upload failed" digits (answered 413) ≡ "upload failed: 413"
unfolding error_of
upload_refused = refl

run-init-IsSteady_example :
    IsSteady (Artifact.run "upload failed" digits (Artifact.init (some "t")) uploads)
run-init-IsSteady_example = run-init-IsSteady "upload failed" digits (some "t") uploads

abbrev presses : List RunTask.Event
presses =
    presses_run
    ∷ confirms
    ∷ confirms
    ∷ run_answered false
    ∷ confirms
    ∷ presses_run
    ∷ confirms
    ∷ run_answered true
    ∷ []

run-init-Inv_example : RunTask.Inv (RunTask.run RunTask.init presses)
run-init-Inv_example = run-init-Inv presses
