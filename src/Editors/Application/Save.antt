-- ===== src/Editors/Application/Save.antt =====
-- `save` and `deploy` of ApplicationEditor (web/src/features/editors/index.tsx): the requests that
-- they send, in order, up to the first that fails.
use Prim.Native.String
use cadentra.Prelude.{
  String, Option, none, some, List, [], ◌∷◌, ◌++◌, Bool, true, false, not, ◌||◌, ◌==◌, get_or,
  truthy, filter, includes, if◌then◌else◌,
}
use cadentra.Api.{ApplicationForm}
use cadentra.Editors.Draft.{form}
use cadentra.Editors.Application.Form.{Editor, selected_nodes}

pub data Call : Type 0 where
  put_application : String → ApplicationForm → Call
  post_application : ApplicationForm → Call
  assign unassign : String → List String → Call
  post_deploy : String → List String → String → Call

-- A request is sent, and its answer is the id in the answer's body; none is a request that throws.
abbrev pub Answers : Type 0
Answers = Call → Option String

-- An action sends requests, and ends with a value or by an exception.
abbrev pub Act : Type 0 → Type 0
Act A = List Call × Option A

infixl 5 ◌>>=◌ ◌>>◌
abbrev pub ◌>>=◌ : {A B : Type 0} → Act A → (A → Act B) → Act B
(calls, none) >>= f = (calls, none)
(calls, some a) >>= f = (calls ++ (f a).0, (f a).1)

abbrev pub ◌>>◌ : {A B : Type 0} → Act A → Act B → Act B
m >> k = m >>= λ _. k

abbrev pub pure : {A : Type 0} → A → Act A
pure a = ([], some a)

abbrev pub send : Answers → Call → Act String
send answers c = (c ∷ [], answers c)

abbrev is_empty : List String → Bool
is_empty [] = true
is_empty (x ∷ xs) = false

-- A request that is sent only if there are nodes to name in it.
abbrev pub send_nodes : Answers → (List String → Call) → List String → Act String
send_nodes answers call [] = pure ""
send_nodes answers call (n ∷ ns) = send answers (call (n ∷ ns))

abbrev pub is_editing : String → Bool
is_editing id = not (id == "new")

-- assignedNodes.data.filter((nodeId) => !selectedNodes.includes(nodeId)), where there are data.
abbrev pub removed_nodes : Editor → List String
removed_nodes e = elim e.assigned [
  | none ↦ []
  | some ids ↦ if is_editing e.id then filter (λ n. not (includes (selected_nodes e) n)) ids else []
]

-- The rest of `save`, once the application itself has been saved as `application_id`.
unfoldable pub save_nodes : Answers → Editor → String → Act (Option String)
unfolding filter includes
save_nodes answers e application_id = do
  send_nodes answers (assign application_id) (selected_nodes e)
  send_nodes answers (unassign application_id) (removed_nodes e)
  pure (some (String.◌++◌ "/applications/" application_id))

-- The first request of `save`.
abbrev pub save_call : Editor → Call
save_call e =
    if is_editing e.id
    then put_application e.id (form e.fields)
    else post_application (form e.fields)

-- What an action leads to: nothing, or the address of the page that is opened.
unfoldable pub save : Answers → Editor → Act (Option String)
unfolding save_nodes
save answers e =
    if not (truthy (get_or (form e.fields).name ""))
    then pure none
    else do application_id ← send answers (save_call e); save_nodes answers e application_id

-- The refetches that follow are queries.
unfoldable pub deploy : Answers → Editor → Act (Option String)
deploy answers e =
    if not (is_editing e.id) || is_empty (selected_nodes e)
    then pure none
    else do send answers (post_deploy e.id (selected_nodes e) e.operation); pure none
