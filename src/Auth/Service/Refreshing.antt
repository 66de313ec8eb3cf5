-- ===== src/Auth/Service/Refreshing.antt =====
-- What a refresh does to the store (cool-next/auth/identity.go).
use cool_admin_go_next.Common.{
  true, Text, Option, none, some, ◌≡◌, refl, sym, ◌∙◌, ap, Result, ok, err, Bool-cases, inl, inr,
}
use cool_admin_go_next.Auth.Session.{
  Principal, Snapshot, Checked, Context, replay, validate_principal,
}
use cool_admin_go_next.Auth.Service.{
  Codec, CodecError, Store, Claims, Pair, Moments, Reply, ServiceError, other_user, token_subject,
  to_principal, snapshot_from_pair, same_user, verify, rotated, rotate_pair, refresh_checked,
  refresh_resolved, refresh_verified, refresh_with, revoked,
}
use cool_admin_go_next.Auth.Service.Granting.{IsVerified, verify-IsVerified}

module _ {S : Type 0} (codec : Codec) (store : Store S) where
  never_paired : (r : Checked × S) (pair : Pair) → (revoked codec store r).0 ≡ ok pair → ⊥
  never_paired (ok _, s) pair h = cc
  never_paired (err e, s) pair h = cc

  -- The rotation of the session `current`, that was read with `claims`, for the pair `pair`.
  abbrev pub rotation_for :
      Context → Moments → Claims → Snapshot → Principal → Pair → S → Checked × S
  rotation_for ctx at claims current principal pair s =
      store.rotate_refresh ctx current.session_id claims.jti
        (snapshot_from_pair (token_subject current.session_id principal) pair) at.checked_at
        at.written_at s

  rotated-ok :
      (ctx : Context) (session_id : Text) (afterwards : S → S) (pair result : Pair)
      (r : Checked × S)
      → (rotated codec store ctx session_id afterwards pair r).0 ≡ ok result
      → (pair ≡ result)
        × (r.0 ≡ ok tt)
        × ((rotated codec store ctx session_id afterwards pair r).1 ≡ r.1)
  rotated-ok ctx session_id afterwards pair result (ok _, s) h = (cc, refl, refl)
  rotated-ok ctx session_id afterwards pair result (err replay, s) h =
      absurd (never_paired (store.revoke ctx session_id (afterwards s)) result h)
  rotated-ok ctx session_id afterwards pair result (err _, s) h = cc

  -- A refresh that succeeds: the token and its session were verified, the principal is the same
  -- user, and the session was rotated from the token's identifier to those of the pair.
  abbrev pub IsRefreshed :
      Context → Text → Moments → (S → S) → S → Pair → S → Claims → Snapshot → Principal → Type 0
  IsRefreshed ctx token at meanwhile s pair t claims current principal =
      IsVerified codec store ctx token true at s claims current
      × (same_user codec store principal current ≡ true)
      × ((rotation_for ctx at claims current principal pair
            (meanwhile (store.get ctx claims.session_id at.read_at s).1)).0
          ≡ ok tt)
      × ((rotation_for ctx at claims current principal pair
            (meanwhile (store.get ctx claims.session_id at.read_at s).1)).1
          ≡ t)

  rotate_pair-ok :
      (ctx : Context) (at : Moments) (afterwards : S → S) (claims : Claims) (current : Snapshot)
      (principal : Principal) (issued : Result CodecError Pair) (s : S) (result : Pair)
      → (rotate_pair codec store ctx at afterwards claims current
          (token_subject current.session_id principal)
          issued
          s).0
        ≡ ok result
      → ((rotation_for ctx at claims current principal result s).0 ≡ ok tt)
        × ((rotate_pair codec store ctx at afterwards claims current
              (token_subject current.session_id principal)
              issued
              s).1
            ≡ (rotation_for ctx at claims current principal result s).1)
  rotate_pair-ok ctx at afterwards claims current principal (err _) s result h = absurd (cc)
  rotate_pair-ok ctx at afterwards claims current principal (ok pair) s result h =
      let rotation = rotation_for ctx at claims current principal pair s in
      let (same, done, state) =
        rotated-ok ctx current.session_id afterwards pair result rotation h in
      (
        rw (← same) done,
        state ∙ ap (λ p. (rotation_for ctx at claims current principal p s).1) same,
      )

  checked-ok :
      (ctx : Context) (at : Moments) (afterwards : S → S) (claims : Claims) (current : Snapshot)
      (principal : Principal) (c : Checked) (s : S) (result : Pair)
      → (refresh_checked codec store ctx at afterwards claims current principal c s).0 ≡ ok result
      → (same_user codec store principal current ≡ true)
        × ((rotation_for ctx at claims current principal result s).0 ≡ ok tt)
        × ((refresh_checked codec store ctx at afterwards claims current principal c s).1
            ≡ (rotation_for ctx at claims current principal result s).1)
  checked-ok ctx at afterwards claims current principal (err _) s result h = absurd (cc)
  checked-ok ctx at afterwards claims current principal (ok _) s result h =
      elim (Bool-cases (same_user codec store principal current)) [
        | inr changed ↦
            let refused : ◌≡◌ {A = Result ServiceError Pair} (err other_user) (ok result) =
              rw changed at h in
            absurd (cc)
        | inl same ↦
            let issued = codec.issue_pair (token_subject current.session_id principal) in
            let (done, state) =
              rotate_pair-ok ctx at afterwards claims current principal issued s result
                (rw same at h) in
            (same, done, rw same state)
      ]

  verified-ok :
      (ctx : Context) (at : Moments) (meanwhile afterwards : S → S)
      (resolve : Principal → Option Principal) (r : Reply codec store (Claims × Snapshot))
      (result : Pair)
      → (refresh_verified codec store ctx at meanwhile afterwards resolve r).0 ≡ ok result
      → (claims : Claims) × (current : Snapshot) × (principal : Principal) × (r.0
          ≡ ok (claims, current))
        × (same_user codec store principal current ≡ true)
        × ((rotation_for ctx at claims current principal result (meanwhile r.1)).0 ≡ ok tt)
        × ((refresh_verified codec store ctx at meanwhile afterwards resolve r).1
            ≡ (rotation_for ctx at claims current principal result (meanwhile r.1)).1)
  verified-ok ctx at meanwhile afterwards resolve (err e, s) result h = absurd (cc)
  verified-ok ctx at meanwhile afterwards resolve (ok (claims, current), s) result h =
      go (resolve (to_principal current)) h
    where
      go :
          (found : Option Principal)
          → (refresh_resolved codec store ctx at afterwards claims current found (meanwhile s)).0
            ≡ ok result
          → (c : Claims) × (v : Snapshot) × (principal : Principal) × (◌≡◌
              {A = Result ServiceError (Claims × Snapshot)}
              (ok (claims, current))
              (ok (c, v)))
            × (same_user codec store principal v ≡ true)
            × ((rotation_for ctx at c v principal result (meanwhile s)).0 ≡ ok tt)
            × ((refresh_resolved codec store ctx at afterwards claims current found (meanwhile s)).1
                ≡ (rotation_for ctx at c v principal result (meanwhile s)).1)
      go none h = absurd (cc)
      go (some principal) h =
          let (same, done, state) =
            checked-ok ctx at afterwards claims current principal (validate_principal principal)
              (meanwhile s) result h in
          (claims, current, principal, refl, same, done, state)

  -- A refresh that succeeds verified the token and its session, kept the session's user, and rotated
  -- the session in the store from the token's identifier to the new pair's; the state that it leaves
  -- is that rotation's.
  pub refresh_with-IsRefreshed :
      (ctx : Context) (token : Text) (resolve : Principal → Option Principal) (at : Moments)
      (meanwhile afterwards : S → S) (s : S) (pair : Pair)
      → (refresh_with codec store ctx token resolve at meanwhile afterwards s).0 ≡ ok pair
      → (claims : Claims) × (current : Snapshot) × (principal : Principal) × IsRefreshed ctx token
          at meanwhile s pair
          (refresh_with codec store ctx token resolve at meanwhile afterwards s).1
          claims
          current
          principal
  unfolding refresh_with
  refresh_with-IsRefreshed ctx token resolve at meanwhile afterwards s pair h =
      let reply = verify codec store ctx token true at meanwhile s in
      let (claims, current, principal, found, same, done, state) =
        verified-ok ctx at meanwhile afterwards resolve reply pair h in
      let (verified, left) =
        verify-IsVerified codec store ctx token true at meanwhile s claims current found in
      (claims, current, principal, (verified, same, rw (← left) done, rw (← left) (sym state)))
