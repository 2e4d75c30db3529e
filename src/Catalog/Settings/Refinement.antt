-- ===== src/Catalog/Settings/Refinement.antt =====
-- The page of the settings in web/src/features/catalog/index.tsx does what a draft over the stored
-- settings does.
use cadentra.Prelude.{
  ◌≡◌, refl, sym, ap, ◌∙◌, inl, inr, String, Option, none, some, List, [], ◌∷◌, ◌==◌, Dict, lookup,
  insert, merge, IsDict, insert-IsDict, lookup-insert, arith, Option-cases, subst, includes,
  if-either, if◌then◌else◌,
}
use cadentra.Catalog.Settings.{
  Page, settings, load, edit, save, put_settings, on_answer, Event, edits, presses_save, answers,
  refetches, step, run, or_data, End, succeeds, fails, only,
}
use cadentra.Catalog.Settings.Draft.{
  Draft, taken, write, spec_edit, spec_step, spec_run, Agree, Sends, Rel,
}
use cadentra.Catalog.Settings.Merging.{
  settings-insert, insert-ne-nil, keeps_sent, sent-cases, refetched, merge_shown, lookup-merge-only,
  values-IsDict,
}

module _ (p : Page) (s : Draft) (h : Rel p s) where
  module _ (k v : String) where
    lookup-edited :
        (j : String)
        → lookup j (settings (record p { values = insert k v (settings p) }))
          ≡ (if k == j then some v else lookup j (settings p))
    lookup-edited j =
        ap (lookup j) (settings-insert k v p (settings p)) ∙ lookup-insert k j v (settings p)

    not_edited :
        (j : String)
        → lookup j (settings (record p { values = insert k v (settings p) })) ≡ none
        → lookup j (settings p) ≡ none
    not_edited j e =
        let e' : (if k == j then some v else lookup j (settings p)) ≡ none =
          sym (lookup-edited j) ∙ e in
        ground arith

    edited-Rel :
        Rel (record p { values = insert k v (settings p) }) (record s { shown = write k v s.shown })
    edited-Rel = record {
      shown = λ j. lookup-edited j ∙ ap (λ o. if k == j then some v else o) (h.shown j);
      stored = h.stored;
      dict =
          subst IsDict (sym (settings-insert k v p (settings p)))
            (insert-IsDict k v (settings p) h.dict);
      fresh = λ e. absurd (insert-ne-nil k v (settings p) e);
      within = λ j e. h.within j (not_edited j e);
      sent =
          keeps_sent p (record p { values = insert k v (settings p) }) refl
            (λ e. absurd (insert-ne-nil k v (settings p) e)) not_edited p.pending s.sent h.sent;
    }

    edit-Rel : Rel (edit k v p) (spec_edit k v s)
    unfolding edit spec_edit
    edit-Rel = elim (Option-cases (lookup k (settings p))) [
      | inl missing ↦ rw (edit, spec_edit, missing, sym (h.shown k) ∙ missing) h
      | inr (old, there) ↦ rw (edit, spec_edit, there, sym (h.shown k) ∙ there) edited-Rel
    ]

  refetch-settings : settings (record p { fetched = some p.hub }) ≡ settings p
  unfolding settings
  refetch-settings = refetched p.values p.fetched p.hub h.fresh

  refetch-Rel : Rel (record p { fetched = some p.hub }) s
  refetch-Rel = record {
    shown = λ j. ap (lookup j) refetch-settings ∙ h.shown j;
    stored = h.stored;
    dict = subst IsDict (sym refetch-settings) h.dict;
    fresh = λ e. refl;
    within = λ j e. h.within j (ap (lookup j) (sym refetch-settings) ∙ e);
    sent =
        keeps_sent p (record p { fetched = some p.hub }) refl (λ e. e)
          (λ j e. ap (lookup j) (sym refetch-settings) ∙ e) p.pending s.sent h.sent;
  }

  -- What the hub has once the values are stored is what is shown.
  merged : Agree (λ j. lookup j (merge p.hub p.values)) s.shown
  unfolding settings
  merged j = merge_shown p.values p.fetched p.hub j h.fresh h.dict (h.within j) ∙ h.shown j

  saved-Rel : Rel (record p { pending = some p.values }) (record s { sent = some s.shown })
  unfolding settings
  saved-Rel = record {
    shown = h.shown;
    stored = h.stored;
    dict = h.dict;
    fresh = h.fresh;
    within = h.within;
    sent =
        ((λ e. e), merged, (λ j e. sym (h.shown j) ∙ e), values-IsDict p.values p.fetched h.dict);
  }

  save-Rel : Rel (save p) (spec_step s presses_save)
  unfolding save spec_step
  save-Rel = elim (sent-cases p p.pending s.sent h.sent) [
    | inl (idle, quiet) ↦ rw (save, spec_step, idle, quiet) saved-Rel
    | inr (b, g, busy, under_way, same) ↦ rw (save, spec_step, busy, under_way) h
  ]

  stored-Rel :
      (b : Dict String) (g : String → Option String)
      → Sends p b g
      → Rel
          (record p { pending = none; hub = merge p.hub b })
          (record s { sent = none; stored = g })
  unfolding settings
  stored-Rel b g (nothing, agree, inside, distinct) = record {
    shown = h.shown;
    stored = agree;
    dict = h.dict;
    fresh = λ e. h.fresh e ∙ ap some (sym (ap (merge p.hub) (nothing e)));
    within = λ j e. agree j ∙ inside j e;
    sent = tt;
  }

  part-Rel :
      (keys : List String) (b : Dict String) (g : String → Option String)
      → Sends p b g
      → Rel
          (record p { pending = none; hub = merge p.hub (only keys b) })
          (record s { sent = none; stored = taken (fails keys) g s.stored })
  unfolding settings only
  part-Rel keys b g (nothing, agree, inside, distinct) = record {
    shown = h.shown;
    stored = λ j.
        lookup-merge-only keys p.hub b j distinct
        ∙ ap (λ o. if includes keys j then o else lookup j p.hub) (agree j)
        ∙ ap (λ o. if includes keys j then g j else o) (h.stored j);
    dict = h.dict;
    fresh = λ e. h.fresh e ∙ ap some (sym (ap (λ body. merge p.hub (only keys body)) (nothing e)));
    within = λ j e.
        lookup-merge-only keys p.hub b j distinct
        ∙ if-either (λ o. o ≡ none) (includes keys j) (agree j ∙ inside j e) (h.within j e);
    sent = tt;
  }

  end-Rel :
      (end : End) (b : Dict String) (g : String → Option String)
      → Sends p b g
      → Rel
          (record p { pending = none; hub = put_settings end b p.hub })
          (record s { sent = none; stored = taken end g s.stored })
  unfolding put_settings
  end-Rel succeeds b g same = stored-Rel b g same
  end-Rel (fails keys) b g same = part-Rel keys b g same

  answer-Rel : (end : End) → Rel (on_answer end p) (spec_step s (answers end))
  unfolding on_answer spec_step
  answer-Rel end = elim (sent-cases p p.pending s.sent h.sent) [
    | inl (idle, quiet) ↦ rw (on_answer, spec_step, idle, quiet) h
    | inr (b, g, busy, under_way, same) ↦
        rw (on_answer, spec_step, busy, under_way) (end-Rel end b g same)
  ]

step-Rel : (p : Page) (s : Draft) (e : Event) → Rel p s → Rel (step p e) (spec_step s e)
unfolding step spec_step
step-Rel p s (edits k v) h = edit-Rel p s h k v
step-Rel p s presses_save h = save-Rel p s h
step-Rel p s (answers end) h = answer-Rel p s h end
step-Rel p s refetches h = refetch-Rel p s h

run-Rel : (p : Page) (s : Draft) (es : List Event) → Rel p s → Rel (run p es) (spec_run s es)
unfolding run spec_run
run-Rel p s [] h = h
run-Rel p s (e ∷ es) h = run-Rel (step p e) (spec_step s e) es (step-Rel p s e h)

load-Rel :
    (hub : Dict String)
    → IsDict hub
    → Rel (load hub) (record { shown = λ j. lookup j hub; sent = none; stored = λ j. lookup j hub })
unfolding settings or_data
load-Rel hub distinct = record {
  shown = λ j. refl;
  stored = λ j. refl;
  dict = distinct;
  fresh = λ e. refl;
  within = λ j e. e;
  sent = tt;
}

-- From the loading of settings whose keys are different on, if nobody else changes them, any sequence
-- of edits, saves, answers and refetches does to the page and to the hub what it does to a draft over
-- the stored settings: an edit changes the one shown setting, an accepted save stores everything that
-- was shown when the button was pressed, a save that fails stores, of that, the keys that the hub has
-- stored before the failure, and a refetch changes nothing.
pub run-load_refines :
    (hub : Dict String) (es : List Event)
    → IsDict hub
    → let s =
        spec_run
          (record { shown = λ j. lookup j hub; sent = none; stored = λ j. lookup j hub })
          es in
      Agree (λ j. lookup j (settings (run (load hub) es))) s.shown
      × Agree (λ j. lookup j (run (load hub) es).hub) s.stored
run-load_refines hub es distinct =
    let r = run-Rel (load hub) _ es (load-Rel hub distinct) in (r.shown, r.stored)
