-- ===== src/Catalog/Lists/Rows.antt =====
-- The rows of the lists: Script and Schedule of web/src/lib/api.ts and Task, with what their lists in
-- web/src/features/catalog/index.tsx and web/src/features/tasks/index.tsx send.
use Prim.Native.String
use cadentra.Prelude.{
  refl, String, Option, none, some, List, [], ◌==◌, get_or, find, truthy, if◌then◌else◌,
}
use cadentra.Api.{Node, Script, ScriptForm, Schedule, Task}
use cadentra.Catalog.Lists.{Row}

abbrev pub script_row : Row Script
script_row = record {
  id = λ (s : Script). s.id;
  enabled = λ (s : Script). s.enabled;
  with_enabled = λ b s. record s { enabled = b };
  id-with_enabled = λ b s. refl;
  enabled-with_enabled = λ b s. refl;
}

abbrev pub schedule_row : Row Schedule
schedule_row = record {
  id = λ (s : Schedule). s.id;
  enabled = λ (s : Schedule). s.enabled;
  with_enabled = λ b s. record s { enabled = b };
  id-with_enabled = λ b s. refl;
  enabled-with_enabled = λ b s. refl;
}

abbrev pub task_row : Row Task
task_row = record {
  id = λ (t : Task). t.id;
  enabled = λ (t : Task). t.enabled;
  with_enabled = λ b t. record t { enabled = b };
  id-with_enabled = λ b t. refl;
  enabled-with_enabled = λ b t. refl;
}

-- The body of the request that clones a script: all but four members, under another name.
unfoldable pub clone_body : Script → ScriptForm
clone_body s = record {
  id = none;
  name = some (String.◌++◌ s.name " (copy)");
  description = some s.description;
  interpreter = some s.interpreter;
  content = some s.content;
  parameters = some s.parameters;
  environment = some s.environment;
  working_dir = some s.working_dir;
  run_user = s.run_user;
  timeout = some s.timeout;
  enabled = some s.enabled;
  revision = none;
  sha256 = some s.sha256;
  updated_at = none;
  created_at = none;
}

-- The status that the first entry of a node's menu asks for.
unfoldable pub next_status : Node → String
next_status n = if n.status == "maintenance" then "online" else "maintenance"

-- The task's name in the list of schedules, or its id; `tasks` is none until the query is answered.
unfoldable pub task_name : Option (List Task) → Schedule → String
task_name tasks s = elim (find (λ (t : Task). t.id == s.task_id) (get_or tasks [])) [
  | none ↦ s.task_id
  | some t ↦ if truthy t.name then t.name else s.task_id
]
