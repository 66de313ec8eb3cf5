-- ===== src/Auth/Store/Refinement/Simulation.antt =====
-- Each operation of the memory store (cool-next/auth/store.go) against its specification.
use cool_admin_go_next.Common.{
  ℕ, ◌≤◌, Bool, not, List, [], ◌∷◌, Text, Option, none, some, lookup, kept, lookup-keep,
  HasKeys-keep, ◌≡◌, refl, ap, ◌∙◌, Result, ok, err, ◌>>◌, arith,
}
use cool_admin_go_next.Auth.Session.{
  Kind, Snapshot, AuthError, Checked, clone_snapshot, context_error,
}
use cool_admin_go_next.Auth.Store.{
  Sessions, is_live, cleanup_expired, check_get, check_save, check_rotate, get, save, rotation,
  rotate_refresh, rotate_within, revoke, revoke_users, revoke_user_set, revoke_targets, guarded,
  is_target, read_within,
}
use cool_admin_go_next.Auth.Store.Requests.{Request, reads, saves, rotates, revokes, bans, perform}
use cool_admin_go_next.Auth.Store.Refinement.{
  Written, write, Answer, session, done, seen, spec_guarded, spec_targets, spec_read, spec, answer,
  clock, Agree, Agree-later, Agree-cleanup, Agree-put, Agree-erase, lookup-cleanup,
}

abbrev Matches : ℕ → Checked × Sessions → Answer × Written → Type 0
Matches now found expected = (done found.0 ≡ expected.0) × Agree now found.1 expected.1

guarded-Matches :
    (now : ℕ) (c : Checked) (body : Sessions → Checked × Sessions) (after : Answer × Written)
    (m : Sessions) (a : Written)
    → Agree now m a
    → Matches now (body m) after
    → Matches now (guarded c body m) (spec_guarded c after a)
guarded-Matches now (ok _) body after m a g h = h
guarded-Matches now (err e) body after m a g h = (refl, g)

read-Matches :
    (c : Checked) (session_id : Text) (now : ℕ) (m : Sessions) (a : Written)
    → Agree now m a
    → (session (guarded c (read_within session_id now) m).0 ≡ spec_read c session_id now a)
      × Agree now (guarded c (read_within session_id now) m).1 a
read-Matches (err e) session_id now m a g = (refl, g)
read-Matches (ok _) session_id now m a g =
    (rw (lookup-cleanup now m a session_id g) refl, Agree-cleanup now m a g)

rotate-Matches :
    (c : Checked) (session_id expected : Text) (next : Snapshot) (now : ℕ) (m : Sessions)
    (a : Written)
    → Agree now m a
    → Matches now
        (guarded c (λ m. rotate_within session_id expected next (cleanup_expired now m)) m)
        (spec_guarded
          (c >> rotation expected next (seen now a session_id))
          (done (ok tt), write session_id (some (clone_snapshot next)) a)
          a)
rotate-Matches (err e) session_id expected next now m a g = (refl, g)
rotate-Matches (ok _) session_id expected next now m a g =
    rw (lookup-cleanup now m a session_id g) (
      guarded-Matches now (rotation expected next (seen now a session_id)) _ _
        (cleanup_expired now m) a (Agree-cleanup now m a g)
        (
          refl,
          Agree-put now (cleanup_expired now m) a session_id (clone_snapshot next)
              (Agree-cleanup now m a g),
        ))

kept_swap :
    (now : ℕ) (p : Snapshot → Bool) (o : Option Snapshot)
    → kept (is_live now) (kept p (kept (is_live now) o)) ≡ kept (is_live now) (kept p o)
kept_swap now p none = refl
kept_swap now p (some v) = ground arith

targets-Matches :
    (subject : Kind) (ids : Result AuthError (List ℕ)) (now : ℕ) (m : Sessions) (a : Written)
    → Agree now m a
    → Matches now (revoke_targets subject now ids m) (spec_targets subject ids a)
targets-Matches subject (err e) now m a g = (refl, g)
targets-Matches subject (ok []) now m a g = (refl, g)
targets-Matches subject (ok (id ∷ ids)) now m a g =
    let spares : Snapshot → Bool = λ value. not (is_target subject (id ∷ ids) value) in
    let cleaned = Agree-cleanup now m a g in
    (
      refl,
      record {
        keys = HasKeys-keep spares (cleanup_expired now m) cleaned.keys;
        sees = λ key.
            ap (kept (is_live now)) (
              lookup-keep spares key (cleanup_expired now m) cleaned.keys
              ∙ ap (kept spares) (lookup-cleanup now m a key g))
            ∙ kept_swap now spares (a key);
      },
    )

-- One request: the same answer, and what is seen afterwards is the same.
pub perform-Matches :
    (t : ℕ) (r : Request) (m : Sessions) (a : Written)
    → t ≤ clock t r
    → Agree t m a
    → (answer r m ≡ (spec r a).0) × Agree (clock t r) (perform r m) (spec r a).1
unfolding perform get save rotate_refresh revoke revoke_users
perform-Matches t (reads ctx session_id now) m a h g =
    read-Matches (check_get ctx session_id) session_id now m a (Agree-later t now m a h g)
perform-Matches t (saves ctx value checked now) m a h g =
    let later = Agree-later t now m a h g in
    guarded-Matches now (check_save ctx value checked) _ _ m a later (
      refl,
      Agree-put now (cleanup_expired now m) a value.session_id (clone_snapshot value)
          (Agree-cleanup now m a later),
    )
perform-Matches t (rotates ctx session_id expected next checked now) m a h g =
    rotate-Matches (check_rotate ctx session_id expected next checked) session_id expected next now
      m a (Agree-later t now m a h g)
perform-Matches t (revokes ctx session_id) m a h g =
    guarded-Matches t (check_get ctx session_id) _ _ m a g (refl, Agree-erase t m a session_id g)
perform-Matches t (bans ctx subject user_ids now) m a h g =
    let later = Agree-later t now m a h g in
    guarded-Matches now (context_error ctx) _ _ m a later
      (targets-Matches subject (revoke_user_set subject user_ids) now m a later)

abbrev pub answers : List Request → Sessions → List Answer
answers [] m = []
answers (r ∷ rs) m = answer r m ∷ answers rs (perform r m)

abbrev pub spec_answers : List Request → Written → List Answer
spec_answers [] a = []
spec_answers (r ∷ rs) a = (spec r a).0 ∷ spec_answers rs (spec r a).1

-- The clock never goes back.
abbrev pub InOrder : ℕ → List Request → Type 0
InOrder t [] = Unit
InOrder t (r ∷ rs) = (t ≤ clock t r) × InOrder (clock t r) rs

answers-Agree :
    (t : ℕ) (rs : List Request) (m : Sessions) (a : Written)
    → InOrder t rs
    → Agree t m a
    → answers rs m ≡ spec_answers rs a
answers-Agree t [] m a h g = refl
answers-Agree t (r ∷ rs) m a h g =
    let (same, next) = perform-Matches t r m a h.0 g in
    rw same (
      ap (λ l. (spec r a).0 ∷ l) (answers-Agree (clock t r) rs (perform r m) (spec r a).1 h.1 next))

-- A new memory store answers any requests, under a clock that does not go back, as a map would
-- that only remembers what was written last under each id and hides what has expired: the deletion
-- of expired sessions is never seen.
pub answers-spec_answers :
    (t : ℕ) (rs : List Request) → InOrder t rs → answers rs [] ≡ spec_answers rs (λ _. none)
unfolding lookup
answers-spec_answers t rs h =
    answers-Agree t rs [] (λ _. none) h (record { keys = tt; sees = λ key. refl })
