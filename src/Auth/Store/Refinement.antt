-- ===== src/Auth/Store/Refinement.antt =====
-- The memory store against a plain map of sessions (cool-next/auth/store.go): no expired session is
-- seen, and when the store deletes them is not seen either.
pub mod Simulation
use cool_admin_go_next.Common.{
  ℕ, ◌≤◌, Bool, true, false, not, List, [], ◌∷◌, Text, text_eq, text_eq_iff, Option, none, some,
  Map, lookup, erase, put, keep, kept, lookup-keep, lookup-put_same, lookup-put_other,
  lookup-erase_same, lookup-erase_other, HasKeys, HasKeys-keep, HasKeys-put, HasKeys-erase, ◌≡◌,
  refl, sym, ap, ◌∙◌, Result, ok, err, ◌>>◌, ltb, if◌then◌else◌, Bool-cases, inl, inr, arith,
}
use cool_admin_go_next.Auth.Session.{
  Kind, Snapshot, AuthError, Checked, Context, clone_snapshot, context_error,
}
use cool_admin_go_next.Auth.Store.{
  Sessions, is_live, cleanup_expired, check_get, check_save, check_rotate, get, save, rotation,
  rotate_refresh, rotate_within, revoke, revoke_users, revoke_user_set, revoke_targets,
  delete_users, guarded, is_target, clone_found, read_within,
}
use cool_admin_go_next.Auth.Store.Requests.{Request, reads, saves, rotates, revokes, bans, perform}

-- The specification: the last session that was written under each id, and nothing is ever deleted
-- for its age.
abbrev pub Written : Type 0
Written = Text → Option Snapshot

abbrev pub write : Text → Option Snapshot → Written → Written
write session_id value a = λ key. if text_eq session_id key then value else a key

pub data Answer : Type 0 where
  session : Result AuthError (Option Snapshot) → Answer
  done : Checked → Answer

abbrev pub seen : ℕ → Written → Text → Option Snapshot
seen now a session_id = kept (is_live now) (a session_id)

abbrev pub spec_guarded : Checked → Answer × Written → Written → Answer × Written
spec_guarded (err e) after a = (done (err e), a)
spec_guarded (ok _) after a = after

abbrev pub spec_targets : Kind → Result AuthError (List ℕ) → Written → Answer × Written
spec_targets subject (err e) a = (done (err e), a)
spec_targets subject (ok []) a = (done (ok tt), a)
spec_targets subject (ok (id ∷ ids)) a =
    (done (ok tt), λ key. kept (λ value. not (is_target subject (id ∷ ids) value)) (a key))

abbrev pub spec_read : Checked → Text → ℕ → Written → Answer
spec_read (err e) session_id now a = session (err e)
spec_read (ok _) session_id now a = session (ok (clone_found (seen now a session_id)))

abbrev pub spec : Request → Written → Answer × Written
spec (reads ctx session_id now) a = (spec_read (check_get ctx session_id) session_id now a, a)
spec (saves ctx value checked now) a =
    spec_guarded (check_save ctx value checked)
      (done (ok tt), write value.session_id (some (clone_snapshot value)) a) a
spec (rotates ctx session_id expected next checked now) a =
    spec_guarded
      (check_rotate ctx session_id expected next checked
        >> rotation expected next (seen now a session_id))
      (done (ok tt), write session_id (some (clone_snapshot next)) a) a
spec (revokes ctx session_id) a =
    spec_guarded (check_get ctx session_id) (done (ok tt), write session_id none a) a
spec (bans ctx subject user_ids now) a =
    spec_guarded (context_error ctx) (spec_targets subject (revoke_user_set subject user_ids) a) a

-- What the store answers.
abbrev pub answer : Request → Sessions → Answer
answer (reads ctx session_id now) m = session (get ctx session_id now m).0
answer (saves ctx value checked now) m = done (save ctx value checked now m).0
answer (rotates ctx session_id expected next checked now) m =
    done (rotate_refresh ctx session_id expected next checked now m).0
answer (revokes ctx session_id) m = done (revoke ctx session_id m).0
answer (bans ctx subject user_ids now) m = done (revoke_users ctx subject user_ids now m).0

-- The clock after a request.
abbrev pub clock : ℕ → Request → ℕ
clock t (reads _ _ now) = now
clock t (saves _ _ _ now) = now
clock t (rotates _ _ _ _ _ now) = now
clock t (revokes _ _) = t
clock t (bans _ _ _ now) = now

-- The two see the same sessions from `t` on.
pub record Agree (t : ℕ) (m : Sessions) (a : Written) : Type 0 where
  pub keys : HasKeys m
  pub sees : (key : Text) → kept (is_live t) (lookup key m) ≡ seen t a key

kept_later :
    (t now : ℕ) (o : Option Snapshot)
    → t ≤ now
    → kept (is_live now) (kept (is_live t) o) ≡ kept (is_live now) o
kept_later t now none h = refl
kept_later t now (some v) h = ground arith

Agree-later : (t now : ℕ) (m : Sessions) (a : Written) → t ≤ now → Agree t m a → Agree now m a
Agree-later t now m a h g = record {
  keys = g.keys;
  sees = λ key.
      sym (kept_later t now (lookup key m) h)
      ∙ ap (kept (is_live now)) (g.sees key)
      ∙ kept_later t now (a key) h;
}

lookup-cleanup :
    (now : ℕ) (m : Sessions) (a : Written) (key : Text)
    → Agree now m a
    → lookup key (cleanup_expired now m) ≡ seen now a key
unfolding cleanup_expired
lookup-cleanup now m a key g = lookup-keep (is_live now) key m g.keys ∙ g.sees key

Agree-cleanup :
    (now : ℕ) (m : Sessions) (a : Written) → Agree now m a → Agree now (cleanup_expired now m) a
unfolding cleanup_expired
Agree-cleanup now m a g = record {
  keys = HasKeys-keep (is_live now) m g.keys;
  sees = λ key.
      ap (kept (is_live now)) (lookup-cleanup now m a key g)
      ∙ kept_later now now (a key) (omega arith);
}

Agree-put :
    (now : ℕ) (m : Sessions) (a : Written) (id : Text) (value : Snapshot)
    → Agree now m a
    → Agree now (put id value m) (write id (some value) a)
Agree-put now m a id value g = record {
  keys = HasKeys-put id value m g.keys;
  sees = λ key. elim (Bool-cases (text_eq id key)) [
    | inl e ↦
        let same : id ≡ key = (text_eq_iff id key).0 e in
        rw e (rw (← same, lookup-put_same id value m) refl)
    | inr e ↦ rw (e, lookup-put_other key id value m e) (g.sees key)
  ];
}

Agree-erase :
    (now : ℕ) (m : Sessions) (a : Written) (id : Text)
    → Agree now m a
    → Agree now (erase id m) (write id none a)
Agree-erase now m a id g = record {
  keys = HasKeys-erase id m g.keys;
  sees = λ key. elim (Bool-cases (text_eq id key)) [
    | inl e ↦
        let same : id ≡ key = (text_eq_iff id key).0 e in
        rw e (rw (← same, lookup-erase_same id m) refl)
    | inr e ↦ rw (e, lookup-erase_other key id m e) (g.sees key)
  ];
}
