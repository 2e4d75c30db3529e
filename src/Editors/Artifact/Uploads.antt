-- ===== src/Editors/Artifact/Uploads.antt =====
-- What the page of web/src/features/editors/index.tsx that uploads artifacts keeps, whatever happens.
use Prim.Native.Nat.{suc}
use cadentra.Prelude.{
  ℕ, ◌≡◌, inl, inr, refl, String, Option, none, some, List, [], ◌∷◌, Bool, true, false, not, ◌&&◌,
  length, truthy, All, arith, Bool-cases, ap,
}
use cadentra.Editors.Artifact.{
  Upload, End, Page, init, Architecture, amd64, value_of, Event, types_name, types_version, selects,
  chooses, submits, ends, changes_token, name_of, upload_of, submit, submit_file, succeeds, finish,
  settle, step, run, File,
}

abbrev pub IsArchitecture : String → Type 0
IsArchitecture v = (a : Architecture) × (v ≡ value_of a)

-- The upload has a name, a version and one of the two architectures.
abbrev pub IsComplete : Upload → Type 0
IsComplete u =
    (truthy u.body.name ≡ true)
    × (truthy u.body.version ≡ true)
    × IsArchitecture u.body.architecture

-- The one request under way, while the button is disabled; no error is shown then.
abbrev pub IsSingle : Bool → String → List Upload → Type 0
IsSingle uploading error [] = uploading ≡ false
IsSingle uploading error (u ∷ us) = (us ≡ []) × (uploading ≡ true) × (error ≡ "") × IsComplete u

pub record IsSteady (p : Page) : Type 0 where
  pub single : IsSingle p.uploading p.error p.under_way
  pub complete : All IsComplete p.accepted
  pub leaves : p.visits ≡ length p.accepted
  pub names_file : p.file_name ≡ name_of p.file
  pub selected : IsArchitecture p.architecture

idle-single :
    (uploading : Bool) (error : String) (us : List Upload)
    → IsSingle uploading error us
    → uploading ≡ false
    → us ≡ []
idle-single uploading error [] h idle = refl
idle-single uploading error (u ∷ us) h idle = cc

start-IsSteady :
    (p : Page) (file : File)
    → IsSteady p
    → (truthy p.name && truthy p.version && not p.uploading) ≡ true
    → IsSteady
        (record p { uploading = true; error = ""; under_way = upload_of p file ∷ p.under_way })
start-IsSteady p file h on = record {
  single = (
    idle-single p.uploading p.error p.under_way h.single (ground arith),
    refl,
    refl,
    (ground arith, ground arith, h.selected),
  );
  complete = h.complete;
  leaves = h.leaves;
  names_file = h.names_file;
  selected = h.selected;
}

submit_file-IsSteady : (file : Option File) (p : Page) → IsSteady p → IsSteady (submit_file file p)
submit_file-IsSteady none p h = h
submit_file-IsSteady (some file) p h =
    elim (Bool-cases (truthy p.name && truthy p.version && not p.uploading)) [
      | inl on ↦ rw on (start-IsSteady p file h on)
      | inr off ↦ rw off h
    ]

module _ (upload_failed : String) (digits : ℕ → String) where
  finish-IsSteady :
      (p : Page) (e : End) (u : Upload) (others : List Upload)
      → IsSteady p
      → IsSingle p.uploading p.error (u ∷ others)
      → IsSteady (finish upload_failed digits e u others p)
  unfolding finish
  finish-IsSteady p e u others h k = elim (Bool-cases (succeeds upload_failed digits e)) [
    | inl good ↦ rw good (record {
      single = rw k.0 refl;
      complete = (k.3, h.complete);
      leaves = ap suc h.leaves;
      names_file = h.names_file;
      selected = h.selected;
    })
    | inr bad ↦ rw bad (record {
      single = rw k.0 refl;
      complete = h.complete;
      leaves = h.leaves;
      names_file = h.names_file;
      selected = h.selected;
    })
  ]

  settle-IsSteady :
      (p : Page) (e : End) (us : List Upload)
      → IsSteady p
      → IsSingle p.uploading p.error us
      → IsSteady (settle upload_failed digits e us p)
  settle-IsSteady p e [] h k = h
  settle-IsSteady p e (u ∷ others) h k = finish-IsSteady p e u others h k

  step-IsSteady : (p : Page) (e : Event) → IsSteady p → IsSteady (step upload_failed digits p e)
  unfolding step submit
  step-IsSteady p (types_name v) h = record {
    single = h.single;
    complete = h.complete;
    leaves = h.leaves;
    names_file = h.names_file;
    selected = h.selected;
  }
  step-IsSteady p (types_version v) h = record {
    single = h.single;
    complete = h.complete;
    leaves = h.leaves;
    names_file = h.names_file;
    selected = h.selected;
  }
  step-IsSteady p (selects a) h = record {
    single = h.single;
    complete = h.complete;
    leaves = h.leaves;
    names_file = h.names_file;
    selected = (a, refl);
  }
  step-IsSteady p (chooses f) h = record {
    single = h.single;
    complete = h.complete;
    leaves = h.leaves;
    names_file = refl;
    selected = h.selected;
  }
  step-IsSteady p submits h = submit_file-IsSteady p.file p h
  step-IsSteady p (ends e) h = settle-IsSteady p e p.under_way h h.single
  step-IsSteady p (changes_token t) h = record {
    single = h.single;
    complete = h.complete;
    leaves = h.leaves;
    names_file = h.names_file;
    selected = h.selected;
  }

  run-IsSteady :
      (p : Page) (es : List Event) → IsSteady p → IsSteady (run upload_failed digits p es)
  unfolding run
  run-IsSteady p [] h = h
  run-IsSteady p (e ∷ es) h = run-IsSteady (step upload_failed digits p e) es (step-IsSteady p e h)

  -- Whatever the user does, whatever else happens to the token and however the requests end, at most
  -- one upload is under way, and the button is disabled and no error shown while it is; every upload
  -- that was sent and is under way or taken by the hub has a name, a version and one of the two
  -- architectures; the page leaves for the list once for each that was taken; and it shows the name
  -- of the file that is chosen.
  pub run-init-IsSteady :
      (token : Option String) (es : List Event)
      → IsSteady (run upload_failed digits (init token) es)
  run-init-IsSteady token es = run-IsSteady (init token) es (record {
    single = refl;
    complete = tt;
    leaves = refl;
    names_file = refl;
    selected = (amd64, refl);
  })
