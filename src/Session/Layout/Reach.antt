-- ===== src/Session/Layout/Reach.antt =====
-- The interleavings of the layout's effect, of the hub's answers and of signing out, in
-- web/src/components/layout/authenticated-layout.tsx.
use cadentra.Prelude.{◌≡◌, ℕ, String, Option, none, some, ℤ, true}
use cadentra.Session.Request.{Response}
use cadentra.Session.Client.{set_token}
use cadentra.Session.Store.{App, SessionInfo, reset}
use cadentra.Session.Layout.{
  Check, waiting, settled, Layout, mount, run_again, take_down, nth, answer, finish,
}
use cadentra.Navigation.{Url}

-- web/src/components/sign-out-dialog.tsx: what signing out does to the store, and a 401 to a request
-- of a page, which drops the client's token alone.
unfoldable pub sign_out : Layout → Layout
unfolding reset
sign_out l = record l { app = reset l.app }

unfoldable pub denied : Layout → Layout
unfolding set_token
denied l = record l { app = record l.app { client = set_token none l.app.client } }

pub data Step (get_time : String → ℤ) (l : Layout) : Layout → Type 0 where
  reruns : (location : Option Url) → l.present ≡ true → Step get_time l (run_again location l)
  leaves : l.present ≡ true → Step get_time l (take_down l)
  answers :
      (location : Option Url) (i : ℕ) (c : Check) (r : Option (Response SessionInfo))
      → nth i l.checks ≡ some c
      → c.stage ≡ waiting
      → Step get_time l (answer get_time location i c.mounted r l)
  ends :
      (i : ℕ) (c : Check)
      → nth i l.checks ≡ some c
      → c.stage ≡ settled
      → Step get_time l (finish i c.mounted l)
  signs_out : Step get_time l (sign_out l)
  is_denied : Step get_time l (denied l)

pub data Reach (get_time : String → ℤ) : Layout → Type 0 where
  start : (location : Option Url) (app : App) → Reach get_time (mount location app)
  later : {l m : Layout} → Reach get_time l → Step get_time l m → Reach get_time m
