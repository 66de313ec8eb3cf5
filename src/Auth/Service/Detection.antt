-- ===== src/Auth/Service/Detection.antt =====
-- A replayed refresh token ends its session (cool-next/auth/identity.go).
use cool_admin_go_next.Common.{
  ℕ, Bool, true, false, [], ◌∷◌, Text, text_eq, is_empty_text, Option, none, some, lookup, erase,
  lookup-erase_same, lt→ltb, ◌<◌, ◌&&◌, ◌≡◌, refl, sym, subst, Result, ok, err, ok-right,
}
use cool_admin_go_next.Auth.Session.{
  Principal, Snapshot, AuthError, Checked, Context, context_error, valid_identifier, require-holds,
  invalid_session_id,
}
use cool_admin_go_next.Auth.Store.{Sessions, get, check_get, revoke, guarded, read_within}
use cool_admin_go_next.Auth.Service.{
  Codec, Claims, Moments, unauthenticated, check_claims, verify, verify_read, refresh_with,
}
use cool_admin_go_next.Auth.Service.Memory.{memory}

check-guarded :
    (c : Checked) (session_id : Text) (now : ℕ) (m : Sessions) (value : Option Snapshot)
    → (guarded c (read_within session_id now) m).0 ≡ ok value
    → c ≡ ok tt
check-guarded (ok _) session_id now m value h = refl
check-guarded (err e) session_id now m value h = cc

check-get :
    (ctx : Context) (session_id : Text) (now : ℕ) (m : Sessions) (value : Option Snapshot)
    → (get ctx session_id now m).0 ≡ ok value
    → check_get ctx session_id ≡ ok tt
unfolding get
check-get ctx session_id now m value h =
    check-guarded (check_get ctx session_id) session_id now m value h

not_empty :
    (session_id : Text) → valid_identifier session_id ≡ true → is_empty_text session_id ≡ false
unfolding valid_identifier
not_empty [] h = cc
not_empty (c ∷ s) h = refl

check-not_empty :
    (ctx : Context) (session_id : Text)
    → check_get ctx session_id ≡ ok tt
    → is_empty_text session_id ≡ false
unfolding check_get
check-not_empty ctx session_id h = not_empty session_id (
    require-holds (valid_identifier session_id) invalid_session_id
      (ok-right (context_error ctx) _ h))

revoke-checked :
    (ctx : Context) (session_id : Text) (m : Sessions)
    → check_get ctx session_id ≡ ok tt
    → revoke ctx session_id m ≡ (ok tt, erase session_id m)
unfolding revoke
revoke-checked ctx session_id m h =
    subst (λ c. guarded c (λ m. (ok tt, erase session_id m)) m ≡ (ok tt, erase session_id m))
      (sym h) refl

&&_false : (b : Bool) → (b && false) ≡ false
&&_false true = refl
&&_false false = refl

unfit :
    (claims : Claims) (current : Snapshot)
    → claims.is_refresh ≡ true
    → text_eq claims.jti current.refresh_jti ≡ false
    → check_claims claims current ≡ false
unfolding check_claims
unfit claims current refresh other = rw (refresh, other) (&&_false _)

read-replayed :
    (codec : Codec) (ctx : Context) (now : ℕ) (claims : Claims) (current : Snapshot)
    (meanwhile : Sessions → Sessions) (r : Result AuthError (Option Snapshot) × Sessions)
    → claims.is_refresh ≡ true
    → text_eq claims.jti current.refresh_jti ≡ false
    → now < current.expires_at
    → check_get ctx claims.session_id ≡ ok tt
    → r.0 ≡ ok (some current)
    → verify_read codec memory ctx true now claims meanwhile r
      ≡ (err unauthenticated, erase claims.session_id (meanwhile r.1))
read-replayed codec ctx now claims current meanwhile (err e, s) refresh other live checked found =
    absurd (cc)
read-replayed codec ctx now claims current meanwhile (ok none, s) refresh other live checked found =
    absurd (cc)
read-replayed codec ctx now claims current meanwhile (ok (some value), s) refresh other live checked
      found =
    let same : value ≡ current = cc in
    rw
      (
        same,
        lt→ltb now current.expires_at live,
        unfit claims current refresh other,
        check-not_empty ctx claims.session_id checked,
        other,
        revoke-checked ctx claims.session_id (meanwhile s) checked,
      )
      refl

refresh-replayed :
    (codec : Codec) (ctx : Context) (token : Text) (resolve : Principal → Option Principal)
    (at : Moments) (meanwhile afterwards : Sessions → Sessions) (m : Sessions) (claims : Claims)
    (current : Snapshot)
    → codec.parse token true ≡ ok claims
    → claims.is_refresh ≡ true
    → (get ctx claims.session_id at.read_at m).0 ≡ ok (some current)
    → at.verified_at < current.expires_at
    → text_eq claims.jti current.refresh_jti ≡ false
    → refresh_with codec memory ctx token resolve at meanwhile afterwards m ≡ (
      err unauthenticated,
      erase claims.session_id (meanwhile (get ctx claims.session_id at.read_at m).1),
    )
unfolding refresh_with verify
refresh-replayed codec ctx token resolve at meanwhile afterwards m claims current parsed refresh
      found live other =
    rw
      (
        parsed,
        read-replayed codec ctx at.verified_at claims current meanwhile
            (get ctx claims.session_id at.read_at m) refresh other live
            (check-get ctx claims.session_id at.read_at m (some current) found) found,
      )
      refl

-- A refresh token that is not the one that its session holds now, a used one for instance, fails and
-- ends the session: the store no longer has it, whatever other requests did in the meantime.
pub refresh_with-replayed :
    (codec : Codec) (ctx : Context) (token : Text) (resolve : Principal → Option Principal)
    (at : Moments) (meanwhile afterwards : Sessions → Sessions) (m : Sessions) (claims : Claims)
    (current : Snapshot)
    → codec.parse token true ≡ ok claims
    → claims.is_refresh ≡ true
    → (get ctx claims.session_id at.read_at m).0 ≡ ok (some current)
    → at.verified_at < current.expires_at
    → text_eq claims.jti current.refresh_jti ≡ false
    → ((refresh_with codec memory ctx token resolve at meanwhile afterwards m).0
        ≡ err unauthenticated)
      × (lookup claims.session_id
            (refresh_with codec memory ctx token resolve at meanwhile afterwards m).1
          ≡ none)
refresh_with-replayed codec ctx token resolve at meanwhile afterwards m claims current parsed
      refresh found live other =
    let failed =
      refresh-replayed codec ctx token resolve at meanwhile afterwards m claims current parsed
        refresh found live other in
    rw failed (
      refl,
      lookup-erase_same claims.session_id (meanwhile (get ctx claims.session_id at.read_at m).1),
    )
