-- ===== src/Overview/Figures.antt =====
-- web/src/features/overview/index.tsx: what loadDashboard makes of the applications' states, and
-- the counts of executions and nodes.
use cadentra.Prelude.{
  ℕ, suc, ◌+◌, ◌≡◌, ◌≢◌, refl, ap, sym, ◌∙◌, String, List, [], ◌∷◌, Bool, false, not, ◌||◌, ◌&&◌,
  ◌==◌, filter, any, take, length, includes, if◌then◌else◌, Dict, insert, ℤ, sub_ℕ, pos, arith,
  eq_iff, ne-of_eq-false,
}
use cadentra.Api.{Node, Execution, Schedule, ApplicationNodeState}

-- The health of an application from the states on its nodes. A request for the states that fails
-- counts as no states.
unfoldable pub application_health : List ApplicationNodeState → String
unfolding any
application_health states =
    if any (λ (s : ApplicationNodeState). s.health == "healthy") states
    then "healthy"
    else if any (λ (s : ApplicationNodeState). s.health == "unhealthy") states
    then "unhealthy"
    else "unknown"

-- Object.fromEntries over the applications' ids, each with the answer for its states.
unfoldable pub health_by_id : Dict String → List (String × List ApplicationNodeState) → Dict String
unfolding insert application_health
health_by_id d [] = d
health_by_id d ((id, states) ∷ rest) = health_by_id (insert id (application_health states) d) rest

unfoldable pub count_healthy : Dict String → ℕ
count_healthy [] = 0
count_healthy ((id, health) ∷ d) =
    if health == "healthy" then suc (count_healthy d) else count_healthy d

unfoldable pub healthy_applications : List (String × List ApplicationNodeState) → ℕ
unfolding count_healthy health_by_id
healthy_applications apps = count_healthy (health_by_id [] apps)

unfoldable pub failed : List Execution → ℕ
unfolding filter includes
failed executions =
    length (filter (λ x. includes ("FAILED" ∷ "TIMED_OUT" ∷ []) x.status) executions)

unfoldable pub terminal : List Execution → ℕ
unfolding filter includes
terminal executions =
    length (filter (λ x. includes ("SUCCESS" ∷ "FAILED" ∷ "TIMED_OUT" ∷ []) x.status) executions)

-- The numerator of the success rate.
unfoldable pub successes : List Execution → ℕ
unfolding filter
successes executions = length (filter (λ x. x.status == "SUCCESS") executions)

unfoldable pub running : List Execution → List Execution
unfolding filter
running executions = take 6 (filter (λ x. x.status == "RUNNING") executions)

abbrev pub recent : List Execution → List Execution
recent executions = take 8 executions

unfoldable pub enabled_schedules : List Schedule → List Schedule
unfolding filter
enabled_schedules schedules = take 5 (filter (λ (s : Schedule). s.enabled) schedules)

unfoldable pub online : List Node → ℕ
unfolding filter
online nodes = length (filter (λ n. n.status == "online") nodes)

unfoldable pub offline : List Node → ℕ
unfolding filter
offline nodes = length (filter (λ n. n.status == "offline") nodes)

unfoldable pub degraded : List Node → ℤ
unfolding online offline
degraded nodes = sub_ℕ (length nodes) (online nodes + offline nodes)

module _ {A : Type 0} where
  length-filter-or :
      (p q r : A → Bool) (xs : List A)
      → ((x : A) → r x ≡ (p x || q x))
      → ((x : A) → (p x && q x) ≡ false)
      → length (filter r xs) ≡ length (filter p xs) + length (filter q xs)
  unfolding filter
  length-filter-or p q r [] e d = refl
  length-filter-or p q r (x ∷ xs) e d = ground (arith, e x, d x, length-filter-or p q r xs e d)

  length-filter-not :
      (p : A → Bool) (xs : List A)
      → length (filter p xs) + length (filter (λ x. not (p x)) xs) ≡ length xs
  unfolding filter
  length-filter-not p [] = refl
  length-filter-not p (x ∷ xs) = ground (arith, length-filter-not p xs)

eq-exclusive : (s a b : String) → a ≢ b → (s == a && s == b) ≡ false
eq-exclusive s a b h = ground (arith, eq_iff s a, eq_iff s b)

sub_ℕ-eq : (n a b r : ℕ) → a + b + r ≡ n → sub_ℕ n (a + b) ≡ pos r
sub_ℕ-eq n a b r h = ground arith

-- The runs that have ended are those that have succeeded and those that have failed, so the success
-- rate, their share of the ended runs, is a part and never more than all of them.
pub terminal-eq :
    (executions : List Execution) → terminal executions ≡ successes executions + failed executions
unfolding terminal successes failed includes
terminal-eq executions =
    length-filter-or (λ (x : Execution). x.status == "SUCCESS")
      (λ (x : Execution). includes ("FAILED" ∷ "TIMED_OUT" ∷ []) x.status)
      (λ (x : Execution). includes ("SUCCESS" ∷ "FAILED" ∷ "TIMED_OUT" ∷ []) x.status) executions
      (λ x. ground (arith, eq_iff x.status "SUCCESS", eq_iff "SUCCESS" x.status))
      (λ x. ground (
        arith,
        eq-exclusive x.status "SUCCESS" "FAILED" (ne-of_eq-false "SUCCESS" "FAILED" refl),
        eq-exclusive x.status "SUCCESS" "TIMED_OUT" (ne-of_eq-false "SUCCESS" "TIMED_OUT" refl),
        eq_iff "FAILED" x.status,
        eq_iff "TIMED_OUT" x.status,
        eq_iff x.status "FAILED",
        eq_iff x.status "TIMED_OUT",
      ))

-- The number of degraded nodes is never negative: it counts the nodes that are neither online nor
-- offline.
pub degraded-eq :
    (nodes : List Node)
    → degraded nodes
      ≡ pos (
          length (filter (λ (n : Node). not (n.status == "online" || n.status == "offline")) nodes))
unfolding degraded online offline
degraded-eq nodes =
    sub_ℕ-eq (length nodes) (online nodes) (offline nodes)
      (length (filter (λ (n : Node). not (n.status == "online" || n.status == "offline")) nodes))
      (ap
          (λ k.
            k
            + length
                (filter (λ (n : Node). not (n.status == "online" || n.status == "offline")) nodes))
          (sym (
            length-filter-or (λ (n : Node). n.status == "online")
              (λ (n : Node). n.status == "offline")
              (λ (n : Node). n.status == "online" || n.status == "offline") nodes (λ n. refl)
              (λ n.
                eq-exclusive n.status "online" "offline" (ne-of_eq-false "online" "offline" refl))))
        ∙ length-filter-not (λ (n : Node). n.status == "online" || n.status == "offline") nodes)
