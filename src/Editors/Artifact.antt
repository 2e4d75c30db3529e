-- ===== src/Editors/Artifact.antt =====
-- ArtifactEditor of web/src/features/editors/index.tsx: a file is uploaded as an artifact.
pub mod Uploads
use Prim.Native.Nat.{suc}
use Prim.Native.String
use cadentra.Prelude.{
  ℕ, String, Option, none, some, List, [], ◌∷◌, Bool, true, false, not, ◌&&◌, get_or, truthy,
  if◌then◌else◌,
}
use cadentra.Session.Request.{is_ok}

-- A file of the user's, by its name and what is in it.
pub record File : Type 0 where
  pub name : String
  pub content : String

-- new FormData(event.currentTarget), from the fields of the form.
pub record FormData : Type 0 where
  pub name : String
  pub version : String
  pub architecture : String
  pub file : File

-- The POST to /api/artifacts.
pub record Upload : Type 0 where
  pub authorization : String
  pub body : FormData

-- How the request ends: `rejected` is an Error with its message, `thrown` anything else.
pub data End : Type 0 where
  answered : (status : ℕ) → End
  rejected : String → End
  thrown : End

-- The page, with the fields that the browser keeps of the form. `token` is what getToken returns,
-- `under_way` are the requests without an answer, the newest first, `accepted` those that the hub
-- has answered with a status from 200 to 299, and `visits` counts window.location.assign.
pub record Page : Type 0 where
  pub name : String
  pub version : String
  pub architecture : String
  pub file : Option File
  pub file_name : String
  pub uploading : Bool
  pub error : String
  pub token : Option String
  pub under_way : List Upload
  pub accepted : List Upload
  pub visits : ℕ

abbrev pub init : Option String → Page
init token = record {
  name = "";
  version = "";
  architecture = "amd64";
  file = none;
  file_name = "";
  uploading = false;
  error = "";
  token = token;
  under_way = [];
  accepted = [];
  visits = 0;
}

pub data Architecture : Type 0 where
  amd64 arm64 : Architecture

abbrev pub value_of : Architecture → String
value_of amd64 = "amd64"
value_of arm64 = "arm64"

-- `ends` is the end of the newest request under way, `changes_token` what the rest of the console
-- does with the token.
pub data Event : Type 0 where
  types_name types_version : String → Event
  selects : Architecture → Event
  chooses : Option File → Event
  submits : Event
  ends : End → Event
  changes_token : Option String → Event

-- event.target.files?.[0]?.name || ''
abbrev pub name_of : Option File → String
name_of none = ""
name_of (some file) = file.name

abbrev pub upload_of : Page → File → Upload
upload_of p file = record {
  authorization = String.◌++◌ "Bearer " (get_or p.token "");
  body = record { name = p.name; version = p.version; architecture = p.architecture; file = file };
}

-- upload, up to the answer. The browser hands the form on where its required fields are filled.
abbrev pub submit_file : Option File → Page → Page
submit_file none p = p
submit_file (some file) p =
    if truthy p.name && truthy p.version && not p.uploading
    then record p { uploading = true; error = ""; under_way = upload_of p file ∷ p.under_way }
    else p

unfoldable pub submit : Page → Page
submit p = submit_file p.file p

-- `upload_failed` is the text of that name, `digits` writes a number.
module _ (upload_failed : String) (digits : ℕ → String) where
  unfoldable pub error_of : End → String
  error_of (answered status) = String.◌++◌ upload_failed (String.◌++◌ ": " (digits status))
  error_of (rejected message) = message
  error_of thrown = upload_failed

  abbrev pub succeeds : End → Bool
  succeeds (answered status) = is_ok status
  succeeds _ = false

  -- The catch and finally of upload, for the request u.
  unfoldable pub finish : End → Upload → List Upload → Page → Page
  unfolding error_of
  finish e u others p =
      if succeeds e
      then record p {
        uploading = false;
        under_way = others;
        accepted = u ∷ p.accepted;
        visits = suc p.visits;
      }
      else record p { uploading = false; under_way = others; error = error_of e }

  abbrev pub settle : End → List Upload → Page → Page
  settle e [] p = p
  settle e (u ∷ others) p = finish e u others p

  unfoldable pub step : Page → Event → Page
  unfolding submit finish
  step p (types_name v) = record p { name = v }
  step p (types_version v) = record p { version = v }
  step p (selects a) = record p { architecture = value_of a }
  step p (chooses f) = record p { file = f; file_name = name_of f }
  step p submits = submit p
  step p (ends e) = settle e p.under_way p
  step p (changes_token t) = record p { token = t }

  unfoldable pub run : Page → List Event → Page
  unfolding step
  run p [] = p
  run p (e ∷ es) = run (step p e) es
