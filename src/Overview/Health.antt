-- ===== src/Overview/Health.antt =====
-- web/src/features/overview/index.tsx: the health of the applications on the dashboard.
use cadentra.Prelude.{
  suc, ◌+◌, ◌≡◌, ◌≢◌, refl, sym, ◌∙◌, String, none, some, List, [], ◌∷◌, Bool, ◌==◌, filter, length,
  any, All, if◌then◌else◌, Dict, insert, lookup, lookup-insert_self, lookup-insert_ne, arith,
  Bool-cases, inl, inr,
}
use cadentra.Api.{ApplicationNodeState}
use cadentra.Overview.Figures.{
  application_health, health_by_id, count_healthy, healthy_applications,
}

-- An application's id and its states.
abbrev pub App : Type 0
App = String × List ApplicationNodeState

abbrev pub HasDistinctIds : List App → Type 0
HasDistinctIds [] = Unit
HasDistinctIds (a ∷ apps) = All (λ (b : App). a.0 ≢ b.0) apps × HasDistinctIds apps

lookup-health_by_id_other :
    (d : Dict String) (apps : List App) (id : String)
    → All (λ (b : App). id ≢ b.0) apps
    → lookup id (health_by_id d apps) ≡ lookup id d
unfolding health_by_id
lookup-health_by_id_other d [] id h = refl
lookup-health_by_id_other d ((j, states) ∷ apps) id h =
    lookup-health_by_id_other (insert j (application_health states) d) apps id h.1
    ∙ lookup-insert_ne j id (application_health states) d (λ e. h.0 (sym e))

-- If the applications have different ids, the dictionary has for each the health of its own states.
pub lookup-health_by_id :
    (d : Dict String) (apps : List App)
    → HasDistinctIds apps
    → All (λ (a : App). lookup a.0 (health_by_id d apps) ≡ some (application_health a.1)) apps
unfolding health_by_id
lookup-health_by_id d [] h = tt
lookup-health_by_id d ((id, states) ∷ apps) h = (
  lookup-health_by_id_other (insert id (application_health states) d) apps id h.0
      ∙ lookup-insert_self id (application_health states) d,
  lookup-health_by_id (insert id (application_health states) d) apps h.1,
)

count_healthy-insert :
    (id health : String) (d : Dict String)
    → lookup id d ≡ none
    → count_healthy (insert id health d)
      ≡ (if health == "healthy" then suc (count_healthy d) else count_healthy d)
unfolding count_healthy insert lookup
count_healthy-insert id health [] h = refl
count_healthy-insert id health ((j, w) ∷ d) h = ground (arith, count_healthy-insert id health d)

insert-fresh :
    (id health : String) (d : Dict String) (apps : List App)
    → All (λ (b : App). id ≢ b.0) apps
    → All (λ (b : App). lookup b.0 d ≡ none) apps
    → All (λ (b : App). lookup b.0 (insert id health d) ≡ none) apps
insert-fresh id health d [] h k = tt
insert-fresh id health d (b ∷ apps) h k =
    (lookup-insert_ne id b.0 health d h.0 ∙ k.0, insert-fresh id health d apps h.1 k.1)

abbrev pub has_healthy : App → Bool
has_healthy a = any (λ (s : ApplicationNodeState). s.health == "healthy") a.1

pub application_health-healthy :
    (states : List ApplicationNodeState)
    → (application_health states == "healthy")
      ≡ any (λ (s : ApplicationNodeState). s.health == "healthy") states
unfolding application_health
application_health-healthy states =
    elim (Bool-cases (any (λ (s : ApplicationNodeState). s.health == "healthy") states)) [
      | inl e ↦ rw e refl
      | inr e ↦
          elim (Bool-cases (any (λ (s : ApplicationNodeState). s.health == "unhealthy") states)) [
            | inl u ↦ rw (e, u) refl
            | inr u ↦ rw (e, u) refl
          ]
    ]

count_healthy-health_by_id :
    (d : Dict String) (apps : List App)
    → HasDistinctIds apps
    → All (λ (b : App). lookup b.0 d ≡ none) apps
    → count_healthy (health_by_id d apps) ≡ length (filter has_healthy apps) + count_healthy d
unfolding health_by_id filter
count_healthy-health_by_id d [] h k = omega arith
count_healthy-health_by_id d ((id, states) ∷ apps) h k =
    let d' = insert id (application_health states) d in
    ground (
      arith,
      count_healthy-health_by_id d' apps h.1
          (insert-fresh id (application_health states) d apps h.0 k.1),
      count_healthy-insert id (application_health states) d k.0,
      application_health-healthy states,
    )

lookup-nil : (apps : List App) → All (λ (b : App). lookup {V = String} b.0 [] ≡ none) apps
unfolding lookup
lookup-nil [] = tt
lookup-nil (b ∷ apps) = (refl, lookup-nil apps)

-- If the applications have different ids, the dashboard's number of healthy applications counts
-- those with a healthy state on some node, whatever their other states are.
pub healthy_applications-eq :
    (apps : List App)
    → HasDistinctIds apps
    → healthy_applications apps ≡ length (filter has_healthy apps)
unfolding healthy_applications count_healthy
healthy_applications-eq apps h =
    ground (arith, count_healthy-health_by_id [] apps h (lookup-nil apps))
