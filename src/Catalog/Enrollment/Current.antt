-- ===== src/Catalog/Enrollment/Current.antt =====
-- The command that NodeEnrollmentDialog of web/src/features/catalog/index.tsx shows is never one for
-- other inputs than those in its fields.
use cadentra.Prelude.{
  if-either, ap, ◌≡◌, ◌≢◌, refl, ◌⊎◌, inl, inr, String, Option, none, some, List, [], ◌∷◌, true,
  truthy, All, arith, eq_iff, Bool-cases, Option-cases, subst,
}
use cadentra.Shared.Clipboard.{Browser, Copied, on_clipboard, thrown, copy_text, copy_text-cases}
use cadentra.Catalog.Enrollment.{
  NodeEnrollment, Request, Dialog, init, inputs, same_request, answer_for, data_of, command_by,
  command, on_copied, copy, Event, answered, step, run, changes_name, changes_address, changes_hub,
  changes_method, submits, presses_copy, time_is_up,
}

module _ (Fits : Request → NodeEnrollment → Type 0) where
  -- An answer of the hub fits the request that it answers.
  abbrev pub Honest : Event → Type 0
  Honest (answered r n) = Fits r n
  Honest _ = Unit

  pub record Inv (d : Dialog) : Type 0 where
    pub current : (d.request ≡ none) ⊎ (d.request ≡ some (inputs d))
    pub fitting : All (λ a. Fits a.0 a.1) d.answers

  same_request→eq : (r s : Request) → same_request r s ≡ true → r ≡ s
  same_request→eq r s h = ground (
    arith,
    eq_iff r.node_name s.node_name,
    eq_iff r.node_ip s.node_ip,
    eq_iff r.hub_address s.hub_address,
  )

  answer_for-Fits :
      (r : Request) (given : List (Request × NodeEnrollment)) (n : NodeEnrollment)
      → All (λ a. Fits a.0 a.1) given
      → answer_for r given ≡ some n
      → Fits r n
  unfolding answer_for
  answer_for-Fits r [] n h e = absurd (ground arith)
  answer_for-Fits r ((s, m) ∷ given) n h e = elim (Bool-cases (same_request s r)) [
    | inl same ↦
        subst (λ q. Fits q n) (same_request→eq s r same)
          (subst (λ k. Fits s k) (ground (arith, same)) h.0)
    | inr other ↦ answer_for-Fits r given n h.1 (rw other at e)
  ]

  copied-Inv : (c : Copied) (d : Dialog) → Inv d → Inv (on_copied c d)
  unfolding on_copied inputs
  copied-Inv (on_clipboard t) d h = record { current = h.current; fitting = h.fitting }
  copied-Inv thrown d h = h

  copy-Inv : (d : Dialog) (b : Browser) → Inv d → Inv (copy b d)
  unfolding copy
  copy-Inv d b h = if-either Inv (truthy (command d)) (copied-Inv (copy_text b (command d)) d h) h

  step-Inv : (d : Dialog) (e : Event) → Honest e → Inv d → Inv (step d e)
  unfolding step inputs
  step-Inv d (changes_name v) a h = record { current = inl refl; fitting = h.fitting }
  step-Inv d (changes_address v) a h = record { current = inl refl; fitting = h.fitting }
  step-Inv d (changes_hub v) a h = record { current = inl refl; fitting = h.fitting }
  step-Inv d (changes_method m) a h = record { current = h.current; fitting = h.fitting }
  step-Inv d submits a h = record { current = inr refl; fitting = h.fitting }
  step-Inv d (answered r n) a h = record { current = h.current; fitting = (a, h.fitting) }
  step-Inv d (presses_copy b) a h = copy-Inv d b h
  step-Inv d time_is_up a h = record { current = h.current; fitting = h.fitting }

  run-Inv : (d : Dialog) (es : List Event) → All Honest es → Inv d → Inv (run d es)
  unfolding run
  run-Inv d [] honest h = h
  run-Inv d (e ∷ es) honest h = run-Inv (step d e) es honest.1 (step-Inv d e honest.0 h)

  data_of-Fits : (d : Dialog) (n : NodeEnrollment) → Inv d → data_of d ≡ some n → Fits (inputs d) n
  unfolding data_of
  data_of-Fits d n h e = elim h.current [
    | inl missing ↦ absurd (ground arith)
    | inr current ↦ answer_for-Fits (inputs d) d.answers n h.fitting (rw current at e)
  ]

  copy-clipboard :
      (d : Dialog) (b : Browser) → ((copy b d).clipboard ≡ some (command d)) ⊎ (copy b d ≡ d)
  unfolding copy on_copied
  copy-clipboard d b =
      if-either (λ e. (e.clipboard ≡ some (command d)) ⊎ (e ≡ d)) (truthy (command d))
        (elim (copy_text-cases b (command d)) [
          | inl done ↦ inl (ap (λ c. (on_copied c d).clipboard) done)
          | inr refused ↦ inr (ap (λ c. on_copied c d) refused)
        ])
        (inr refl)

  command-by :
      (d : Dialog) (n : NodeEnrollment) → data_of d ≡ some n → command d ≡ command_by d.method n
  unfolding command
  command-by d n e = rw (e, command) refl

  no_command : (d : Dialog) → data_of d ≡ none → command d ≡ ""
  unfolding command
  no_command d e = rw (e, command) refl

  -- Whatever the user does and whenever the hub answers, if the hub's answers fit the requests that
  -- they answer, a command that the dialog shows is the one that an answer fitting the inputs in the
  -- fields, trimmed, has for the chosen method; the copy button puts that command on the clipboard or,
  -- where the browser refuses, changes nothing.
  pub run-command :
      (origin : Option String) (es : List Event) (b : Browser)
      → All Honest es
      → let d = run (init origin) es in
        command d ≢ ""
        → ((n : NodeEnrollment) × Fits (inputs d) n × (command d ≡ command_by d.method n))
          × (((copy b d).clipboard ≡ some (command d)) ⊎ (copy b d ≡ d))
  run-command origin es b honest full =
      let d = run (init origin) es in
      let inv = run-Inv (init origin) es honest (record { current = inl refl; fitting = tt }) in
      elim (Option-cases (data_of d)) [
        | inl missing ↦ absurd (full (no_command d missing))
        | inr (n, there) ↦
            ((n, data_of-Fits d n inv there, command-by d n there), copy-clipboard d b)
      ]
