-- ===== src/Auth/Store/Requests.antt =====
-- Any sequence of operations of the memory store (cool-next/auth/store.go), each with its clock
-- readings, and what every one of them keeps.
use cool_admin_go_next.Common.{ℕ, List, [], ◌∷◌, Text}
use cool_admin_go_next.Auth.Session.{Kind, Snapshot, Context}
use cool_admin_go_next.Auth.Store.{Sessions, get, save, rotate_refresh, revoke, revoke_users}

pub data Request : Type 0 where
  reads : Context → Text → ℕ → Request
  saves : Context → Snapshot → ℕ → ℕ → Request
  rotates : Context → Text → Text → Snapshot → ℕ → ℕ → Request
  revokes : Context → Text → Request
  bans : Context → Kind → List ℕ → ℕ → Request

unfoldable pub perform : Request → Sessions → Sessions
unfolding get save rotate_refresh revoke revoke_users
perform (reads ctx session_id now) m = (get ctx session_id now m).1
perform (saves ctx value checked now) m = (save ctx value checked now m).1
perform (rotates ctx session_id expected next checked now) m =
    (rotate_refresh ctx session_id expected next checked now m).1
perform (revokes ctx session_id) m = (revoke ctx session_id m).1
perform (bans ctx subject user_ids now) m = (revoke_users ctx subject user_ids now m).1

unfoldable pub perform_all : List Request → Sessions → Sessions
unfolding perform
perform_all [] m = m
perform_all (r ∷ rs) m = perform_all rs (perform r m)
