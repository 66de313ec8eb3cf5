-- ===== src/Auth/Service/Replay.antt =====
-- A refresh token works once (cool-next/auth/identity.go over cool-next/auth/store.go).
use cool_admin_go_next.Common.{
  ℕ, true, false, List, [], ◌∷◌, ◌++◌, Text, text_eq, Option, ◌≡◌, ◌≢◌, refl, sym, ap, ◌∙◌, ok, err,
  ◌>>◌, All, All-append, inl, inr,
}
use cool_admin_go_next.Auth.Session.{
  Principal, Snapshot, AuthError, Checked, Context, replay, not_found,
}
use cool_admin_go_next.Auth.Store.{Sessions, get, rotate_refresh}
use cool_admin_go_next.Auth.Store.Requests.{Request, reads, perform, perform_all}
use cool_admin_go_next.Auth.Store.Rotation.{WritesFresh, rotate_refresh_once}
use cool_admin_go_next.Auth.Service.{
  Codec, Claims, Pair, Moments, snapshot_from_pair, token_subject, refresh_with,
}
use cool_admin_go_next.Auth.Service.Refreshing.{refresh_with-IsRefreshed}
use cool_admin_go_next.Auth.Service.Memory.{memory}

perform_all-append :
    (rs ss : List Request) (m : Sessions)
    → perform_all (rs ++ ss) m ≡ perform_all ss (perform_all rs m)
unfolding perform_all
perform_all-append [] ss m = refl
perform_all-append (r ∷ rs) ss m = perform_all-append rs ss (perform r m)

perform_all-read :
    (ctx : Context) (id : Text) (now : ℕ) (between during : List Request) (m : Sessions)
    → perform_all (between ++ reads ctx id now ∷ during) m
      ≡ perform_all during (get ctx id now (perform_all between m)).1
unfolding perform_all
perform_all-read ctx id now between during m =
    perform_all-append between (reads ctx id now ∷ during) m

not_refused : (c : Checked) (e : AuthError) → (c >> err e) ≢ ok tt
not_refused (ok _) e h = cc
not_refused (err _) e h = cc

second_rotation :
    (id jti : Text) (ctx ctx' : Context) (next next' : Snapshot) (at at' : Moments)
    (start left : Sessions) (between during : List Request) (id' asked jti' : Text)
    → id' ≡ id
    → asked ≡ id
    → jti' ≡ jti
    → (rotate_refresh ctx id jti next at.checked_at at.written_at start).1 ≡ left
    → (rotate_refresh ctx id jti next at.checked_at at.written_at start).0 ≡ ok tt
    → text_eq next.refresh_jti jti ≡ false
    → All (WritesFresh id jti) between
    → All (WritesFresh id jti) during
    → (rotate_refresh ctx' id' jti' next' at'.checked_at at'.written_at
        (perform_all during (get ctx' asked at'.read_at (perform_all between left)).1)).0
      ≢ ok tt
second_rotation id jti ctx ctx' next next' at at' start left between during id' asked jti' same read
      used state done fresh quiet quiet' second =
    let rs = between ++ reads ctx' id at'.read_at ∷ during in
    let accepted : (rotate_refresh ctx' id jti next' at'.checked_at at'.written_at
          (perform_all rs left)).0
        ≡ ok tt =
      rw (perform_all-read ctx' id at'.read_at between during left)
        (rw (same, read, used) at second) in
    elim (rotate_refresh_once id jti ctx ctx' next next' at.checked_at at.written_at at'.checked_at
      at'.written_at start rs done fresh
      (All-append (WritesFresh id jti) between _ quiet (tt, quiet'))) [
        | inl e ↦ not_refused _ replay (sym e ∙ rw state accepted)
        | inr e ↦ not_refused _ not_found (sym e ∙ rw state accepted)
      ]

-- A refresh token that was used is not accepted again: when two refreshes present tokens of the
-- same session with the same identifier, the second one fails, whatever requests come between
-- them and while they run, as long as none of these and not the first refresh itself writes the old
-- identifier back (identifiers are drawn at random).
pub refresh_with_once :
    (codec : Codec) (ctx ctx' : Context) (token token' : Text)
    (resolve resolve' : Principal → Option Principal) (at at' : Moments)
    (meanwhile afterwards afterwards' : Sessions → Sessions) (m : Sessions)
    (between during : List Request) (claims claims' : Claims) (pair pair' : Pair)
    → codec.parse token true ≡ ok claims
    → codec.parse token' true ≡ ok claims'
    → claims'.session_id ≡ claims.session_id
    → claims'.jti ≡ claims.jti
    → (refresh_with codec memory ctx token resolve at meanwhile afterwards m).0 ≡ ok pair
    → text_eq pair.refresh_jti claims.jti ≡ false
    → All (WritesFresh claims.session_id claims.jti) between
    → All (WritesFresh claims.session_id claims.jti) during
    → (refresh_with codec memory ctx' token' resolve' at' (perform_all during) afterwards' (
        perform_all between
          (refresh_with codec memory ctx token resolve at meanwhile afterwards m).1)).0
      ≢ ok pair'
unfolding perform
refresh_with_once codec ctx ctx' token token' resolve resolve' at at' meanwhile afterwards
      afterwards' m between during claims claims' pair pair' parsed parsed' sid jti first fresh
      quiet quiet' second =
    let (c, v, p, ((parsed1, _, own1, _), _, done1, state1)) =
      refresh_with-IsRefreshed codec memory ctx token resolve at meanwhile afterwards m pair
        first in
    let (c', v', p', ((parsed2, _, own2, _), _, done2, _)) =
      refresh_with-IsRefreshed codec memory ctx' token' resolve' at' (perform_all during)
        afterwards' _ pair' second in
    let one : claims ≡ c = cc in
    let two : claims' ≡ c' = cc in
    let held : claims.session_id ≡ v.session_id = ap (λ x. x.session_id) one ∙ own1.0 in
    let asked : c'.session_id ≡ v.session_id = ap (λ x. x.session_id) (sym two) ∙ sid ∙ held in
    let used : claims.jti ≡ c.jti = ap (λ x. x.jti) one in
    second_rotation v.session_id c.jti ctx ctx'
      (snapshot_from_pair (token_subject v.session_id p) pair)
      (snapshot_from_pair (token_subject v'.session_id p') pair') at at'
      (meanwhile (get ctx c.session_id at.read_at m).1) _ between during v'.session_id c'.session_id
      c'.jti (sym own2.0 ∙ asked) asked (ap (λ x. x.jti) (sym two) ∙ jti ∙ used) state1 done1
      (rw (← used) fresh) (rw (← held, ← used) quiet) (rw (← held, ← used) quiet') done2
