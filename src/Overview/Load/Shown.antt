-- ===== src/Overview/Load/Shown.antt =====
-- What the dashboard of web/src/features/overview/index.tsx shows of the answers to its requests.
use Prim.Native.Nat.{suc}
use cadentra.Prelude.{
  ◌≡◌, ◌≢◌, refl, ap, ◌∙◌, ◌⊎◌, inl, inr, String, Option, none, some, List, [], ◌∷◌, Bool, true,
  false, ◌==◌, filter, length, any, get_or, All, lookup, truthy, if-either, if◌then◌else◌,
}
use cadentra.Api.{Application, Node, Execution, Schedule, Task, ApplicationNodeState}
use cadentra.Overview.Figures.{application_health, health_by_id, healthy_applications}
use cadentra.Overview.Health.{
  App, HasDistinctIds, has_healthy, lookup-health_by_id, healthy_applications-eq,
  application_health-healthy,
}
use cadentra.Overview.Load.{
  Answers, DashboardData, load_dashboard, shown_health, with_states, or_unknown,
}

abbrev pub AreDistinct : List Application → Type 0
AreDistinct [] = Unit
AreDistinct (a ∷ apps) = All (λ (b : Application). a.id ≢ b.id) apps × AreDistinct apps

if-length :
    {A B : Type 0} (b : Bool) (x : A) (y : B) (xs : List A) (ys : List B)
    → length xs ≡ length ys
    → length (if b then x ∷ xs else xs) ≡ length (if b then y ∷ ys else ys)
if-length true x y xs ys h = ap suc h
if-length false x y xs ys h = h

module _ (states : String → Option (List ApplicationNodeState)) where
  All-with_states :
      (P : App → Type 0) (apps : List Application)
      → All (λ (a : Application). P (a.id, get_or (states a.id) [])) apps
      → All P (with_states states apps)
  All-with_states P [] h = tt
  All-with_states P (a ∷ apps) h = (h.0, All-with_states P apps h.1)

  All-applications :
      (P : App → Type 0) (apps : List Application)
      → All P (with_states states apps)
      → All (λ (a : Application). P (a.id, get_or (states a.id) [])) apps
  All-applications P [] h = tt
  All-applications P (a ∷ apps) h = (h.0, All-applications P apps h.1)

  with_states-HasDistinctIds :
      (apps : List Application) → AreDistinct apps → HasDistinctIds (with_states states apps)
  with_states-HasDistinctIds [] h = tt
  with_states-HasDistinctIds (a ∷ apps) h =
      (All-with_states (λ (b : App). a.id ≢ b.0) apps h.0, with_states-HasDistinctIds apps h.1)

  filter-with_states :
      (q : Application → Bool) (apps : List Application)
      → All (λ (a : Application). q a ≡ has_healthy (a.id, get_or (states a.id) [])) apps
      → length (filter has_healthy (with_states states apps)) ≡ length (filter q apps)
  unfolding filter
  filter-with_states q [] h = refl
  filter-with_states q (a ∷ apps) h = rw h.0 (
      if-length (has_healthy (a.id, get_or (states a.id) [])) (a.id, get_or (states a.id) []) a
        (filter has_healthy (with_states states apps)) (filter q apps)
        (filter-with_states q apps h.1))

application_health-truthy :
    (states : List ApplicationNodeState) → truthy (application_health states) ≡ true
unfolding application_health
application_health-truthy states =
    if-either (λ s. truthy s ≡ true)
      (any (λ (s : ApplicationNodeState). s.health == "healthy") states) refl
      (if-either (λ s. truthy s ≡ true)
        (any (λ (s : ApplicationNodeState). s.health == "unhealthy") states) refl refl)

-- One of the five requests has rejected.
abbrev pub Rejects : Answers → Type 0
Rejects a =
    (a.nodes ≡ none)
    ⊎ (a.executions ≡ none)
    ⊎ (a.applications ≡ none)
    ⊎ (a.schedules ≡ none)
    ⊎ (a.tasks ≡ none)

shown_health-found :
    (d : DashboardData) (id : String) (states : List ApplicationNodeState)
    → lookup id d.application_health ≡ some (application_health states)
    → shown_health d id ≡ application_health states
unfolding shown_health
shown_health-found d id states h = ap or_unknown h ∙ rw (application_health-truthy states) refl

All-shown_health :
    (d : DashboardData) (states : String → Option (List ApplicationNodeState))
    (apps : List Application)
    → All
        (λ (a : Application).
          lookup a.id d.application_health ≡ some (application_health (get_or (states a.id) [])))
        apps
    → All
        (λ (a : Application). shown_health d a.id ≡ application_health (get_or (states a.id) []))
        apps
All-shown_health d states [] h = tt
All-shown_health d states (a ∷ apps) h =
    (shown_health-found d a.id (get_or (states a.id) []) h.0, All-shown_health d states apps h.1)

shows_healthy :
    (d : DashboardData) (states : String → Option (List ApplicationNodeState))
    (apps : List Application)
    → All
        (λ (a : Application). shown_health d a.id ≡ application_health (get_or (states a.id) []))
        apps
    → All
        (λ (a : Application).
          (shown_health d a.id == "healthy") ≡ has_healthy (a.id, get_or (states a.id) []))
        apps
shows_healthy d states [] h = tt
shows_healthy d states (a ∷ apps) h = (
  ap (λ s. s == "healthy") h.0 ∙ application_health-healthy (get_or (states a.id) []),
  shows_healthy d states apps h.1,
)

-- Each application is shown with the health of its own states, and the number is of the healthy.
abbrev pub ShowsHealth :
    DashboardData → (String → Option (List ApplicationNodeState)) → List Application → Type 0
ShowsHealth d states apps =
    All (λ (a : Application). shown_health d a.id ≡ application_health (get_or (states a.id) []))
      apps
    × (d.healthy_applications
        ≡ length (filter (λ (a : Application). shown_health d a.id == "healthy") apps))

-- What the page shows of the answers, where the five requests succeed.
abbrev pub Shows : Answers → DashboardData → Type 0
Shows a d =
    (a.nodes ≡ some d.nodes)
    × (a.executions ≡ some d.executions)
    × (a.applications ≡ some d.applications)
    × (a.schedules ≡ some d.schedules)
    × (a.tasks ≡ some d.tasks)
    × ShowsHealth d a.states d.applications

loaded-ShowsHealth :
    (apps : List Application) (states : String → Option (List ApplicationNodeState))
    (d : DashboardData)
    → AreDistinct apps
    → d.application_health ≡ health_by_id [] (with_states states apps)
    → d.healthy_applications ≡ healthy_applications (with_states states apps)
    → ShowsHealth d states apps
loaded-ShowsHealth apps states d h e k =
    let distinct = with_states-HasDistinctIds states apps h in
    let shown = All-shown_health d states apps (
      All-applications states
        (λ (b : App). lookup b.0 d.application_health ≡ some (application_health b.1)) apps
        (rw e (lookup-health_by_id [] (with_states states apps) distinct))) in
    (
      shown,
      k
          ∙ healthy_applications-eq (with_states states apps) distinct
          ∙ filter-with_states states (λ (a : Application). shown_health d a.id == "healthy") apps
              (shows_healthy d states apps shown),
    )

-- How the page's load ends, for given answers.
abbrev Ends : Answers → Type 0
Ends a =
    ((load_dashboard a ≡ none) × Rejects a)
    ⊎ ((d : DashboardData) × (load_dashboard a ≡ some d) × Shows a d)

load_dashboard-Ends :
    (n : Option (List Node)) (e : Option (List Execution)) (p : Option (List Application))
    (s : Option (List Schedule)) (t : Option (List Task))
    (states : String → Option (List ApplicationNodeState))
    → AreDistinct (get_or p [])
    → Ends (record {
      nodes = n;
      executions = e;
      applications = p;
      schedules = s;
      tasks = t;
      states = states;
    })
unfolding load_dashboard
load_dashboard-Ends none e p s t states h = inl (refl, inl refl)
load_dashboard-Ends (some n) none p s t states h = inl (refl, inr (inl refl))
load_dashboard-Ends (some n) (some e) none s t states h = inl (refl, inr (inr (inl refl)))
load_dashboard-Ends (some n) (some e) (some p) none t states h =
    inl (refl, inr (inr (inr (inl refl))))
load_dashboard-Ends (some n) (some e) (some p) (some s) none states h =
    inl (refl, inr (inr (inr (inr refl))))
load_dashboard-Ends (some n) (some e) (some p) (some s) (some t) states h =
    inr (_, refl, (refl, refl, refl, refl, refl, loaded-ShowsHealth p states _ h refl refl))

-- If the answered applications have different ids, the dashboard fails exactly where one of its
-- five requests rejects, and else it has their answers, shows for each application the health of
-- its own states, with no states where their request rejects, and its number of healthy
-- applications is the number of those shown as healthy.
pub load_dashboard_lem :
    (a : Answers)
    → AreDistinct (get_or a.applications [])
    → ((load_dashboard a ≡ none) × Rejects a)
      ⊎ ((d : DashboardData) × (load_dashboard a ≡ some d) × Shows a d)
load_dashboard_lem a h =
    load_dashboard-Ends a.nodes a.executions a.applications a.schedules a.tasks a.states h
