-- ===== src/Editors/Saving.antt =====
-- `save` of ScheduleEditor, ScriptEditor and GroupEditor (web/src/features/editors/index.tsx) and of
-- TaskEditor (web/src/features/tasks/index.tsx).
use cadentra.Prelude.{
  ◌≡◌, ◌≢◌, refl, ◌⊎◌, inl, inr, String, Option, none, some, List, [], ◌∷◌, not, ◌==◌, get_or,
  truthy, if◌then◌else◌, arith, eq_iff, Bool-cases, Option-cases,
}
use cadentra.Api.{ScheduleForm, ScriptForm, GroupForm, TaskForm}
use cadentra.Editors.Draft.{form}
use cadentra.Editors.Schedule
use cadentra.Editors.Script
use cadentra.Editors.Group
use cadentra.Editors.Task

-- The request that stores a form, at the object with an id or as a new object.
pub data Request (F : Type 0) : Type 0 where
  put : String → F → Request F
  post : F → Request F

-- The hub takes the form, or the request throws an error with a text.
pub data Answer : Type 0 where
  accepted : Answer
  rejected : String → Answer

-- What a save has sent, the page that it opens, and the text of an exception that it throws.
pub record Saved (F : Type 0) : Type 0 where
  pub requests : List (Request F)
  pub page : Option String
  pub thrown : Option String

abbrev nothing : {F : Type 0} → Saved F
nothing = record { requests = []; page = none; thrown = none }

-- id === 'new' is a new object.
abbrev pub request_for : {F : Type 0} → String → F → Request F
request_for id f = if not (id == "new") then put id f else post f

abbrev pub settle : {F : Type 0} → Request F → String → Answer → Saved F
settle r page accepted = record { requests = r ∷ []; page = some page; thrown = none }
settle r page (rejected text) = record { requests = r ∷ []; page = none; thrown = some text }

-- What the editors for scripts, groups and tasks do with a form that has a name.
unfoldable pub submit : {F : Type 0} → (Request F → Answer) → String → String → String → F → Saved F
submit answers page required id f =
    if truthy required then settle (request_for id f) page (answers (request_for id f)) else nothing

unfoldable pub save_script : (Request ScriptForm → Answer) → Script.Editor → Saved ScriptForm
unfolding submit
save_script answers e =
    submit answers "/scripts" (get_or (form e.fields).name "") e.id (form e.fields)

unfoldable pub save_group : (Request GroupForm → Answer) → Group.Editor → Saved GroupForm
unfolding submit
save_group answers e =
    submit answers "/groups" (get_or (form e.fields).name "") e.id (form e.fields)

-- The list of tasks is fetched again before the page is opened.
unfoldable pub save_task : (Request TaskForm → Answer) → Task.Form.Editor → Saved TaskForm
unfolding submit
save_task answers e = submit answers "/tasks" (get_or (form e.fields).name "") e.id (form e.fields)

-- The exception is caught, and its text is shown over the form.
abbrev show_error : Schedule.Editor → Saved ScheduleForm → Schedule.Editor × Saved ScheduleForm
show_error e s = elim s.thrown [
  | none ↦ (e, s)
  | some text ↦ (record e { error = text }, record s { thrown = none })
]

unfoldable pub save_schedule :
    (Request ScheduleForm → Answer) → Schedule.Editor → Schedule.Editor × Saved ScheduleForm
unfolding submit
save_schedule answers e =
    show_error e
      (submit answers "/schedules" (get_or (form e.fields).task_id "") e.id (form e.fields))

-- A save either sends nothing, exactly where the required text is missing, and then opens no page
-- and throws nothing, or sends one request with the form. The page of the list is opened exactly
-- if the hub takes the request, and otherwise the hub's error is thrown.
abbrev pub Submits :
    {F : Type 0} → (Request F → Answer) → String → String → String → F → Saved F → Type 0
Submits answers page required id f s =
    ((required ≡ "") × (s.requests ≡ []) × (s.page ≡ none) × (s.thrown ≡ none))
    ⊎ ((required ≢ "")
        × (r : Request _) × (s.requests ≡ r ∷ [])
        × (((id ≡ "new") × (r ≡ post f)) ⊎ ((id ≢ "new") × (r ≡ put id f)))
        × (((answers r ≡ accepted) × (s.page ≡ some page) × (s.thrown ≡ none))
            ⊎ ((text : String) × (answers r ≡ rejected text)
                × (s.page ≡ none)
                × (s.thrown ≡ some text))))

settle-Submits :
    {F : Type 0} (answers : Request F → Answer) (page required id : String) (f : F) (r : Request F)
    (a : Answer)
    → answers r ≡ a
    → required ≢ ""
    → (((id ≡ "new") × (r ≡ post f)) ⊎ ((id ≢ "new") × (r ≡ put id f)))
    → Submits answers page required id f (settle r page a)
settle-Submits answers page required id f r accepted e h k =
    inr (h, r, refl, k, inl (e, refl, refl))
settle-Submits answers page required id f r (rejected text) e h k =
    inr (h, r, refl, k, inr (text, e, refl, refl))

pub settle-requests :
    {F : Type 0} (r : Request F) (page : String) (a : Answer) → (settle r page a).requests ≡ r ∷ []
settle-requests r page accepted = refl
settle-requests r page (rejected text) = refl

request_for-cases :
    {F : Type 0} (id : String) (f : F)
    → ((id ≡ "new") × (request_for id f ≡ post f)) ⊎ ((id ≢ "new") × (request_for id f ≡ put id f))
request_for-cases id f = elim (Bool-cases (id == "new")) [
  | inl e ↦ rw e (inl (ground (arith, eq_iff id "new"), refl))
  | inr e ↦ rw e (inr (ground (arith, eq_iff id "new"), refl))
]

-- Whatever the form and whatever the hub answers, a save follows the contract `Submits`.
pub submit-Submits :
    {F : Type 0} (answers : Request F → Answer) (page required id : String) (f : F)
    → Submits answers page required id f (submit answers page required id f)
unfolding submit
submit-Submits answers page required id f = elim (Bool-cases (required == "")) [
  | inl e ↦ rw e (inl (ground (arith, eq_iff required ""), refl, refl, refl))
  | inr e ↦ rw e (
      settle-Submits answers page required id f (request_for id f) (answers (request_for id f)) refl
        (ground (arith, eq_iff required "")) (request_for-cases id f))
]

show_error_lem :
    (e : Schedule.Editor) (s : Saved ScheduleForm)
    → ((show_error e s).1.requests ≡ s.requests)
      × ((show_error e s).1.page ≡ s.page)
      × ((show_error e s).1.thrown ≡ none)
      × ((show_error e s).0.error ≡ get_or s.thrown e.error)
      × ((show_error e s).0.fields ≡ e.fields)
show_error_lem e s = elim (Option-cases s.thrown) [
  | inl h ↦ rw h (refl, refl, refl, refl, refl)
  | inr (text, h) ↦ rw h (refl, refl, refl, refl, refl)
]

-- What a press of the save button of the schedule editor leaves: a request exactly if a task is
-- chosen, and the hub's error, if there is one, shown over the form, whose fields are kept. The
-- exception goes no further.
pub save_schedule_lem :
    (answers : Request ScheduleForm → Answer) (e : Schedule.Editor)
    → (s : Saved ScheduleForm) × Submits answers "/schedules"
        (get_or (form e.fields).task_id "")
        e.id
        (form e.fields)
        s
      × ((save_schedule answers e).1.requests ≡ s.requests)
      × ((save_schedule answers e).1.page ≡ s.page)
      × ((save_schedule answers e).1.thrown ≡ none)
      × ((save_schedule answers e).0.error ≡ get_or s.thrown e.error)
      × ((save_schedule answers e).0.fields ≡ e.fields)
unfolding save_schedule submit
save_schedule_lem answers e =
    let s = submit answers "/schedules" (get_or (form e.fields).task_id "") e.id (form e.fields) in
    (
      s,
      submit-Submits answers "/schedules" (get_or (form e.fields).task_id "") e.id (form e.fields),
      (show_error_lem e s).0,
      (show_error_lem e s).1,
      (show_error_lem e s).2,
      (show_error_lem e s).3,
      (show_error_lem e s).4,
    )
