-- ===== src/Auth/Service/Barring.antt =====
-- A ban reaches every protocol (cool-next/auth/identity.go over cool-next/auth/store.go).
use cool_admin_go_next.Common.{
  ℕ, false, List, Text, text_eq, Option, some, ◌&&◌, ◌≡◌, refl, subst, sym, ◌∙◌, ap, ok, All,
  Bool-cases, inl, inr,
}
use cool_admin_go_next.Auth.Session.{Kind, Snapshot, Context, is_admin}
use cool_admin_go_next.Auth.Store.{Sessions, contains, revoke_users}
use cool_admin_go_next.Auth.Store.Requests.{Request, perform_all}
use cool_admin_go_next.Auth.Store.Revocation.{SavesSpared, revoke_users_bars}
use cool_admin_go_next.Auth.Service.{Codec, Claims, Moments}
use cool_admin_go_next.Auth.Service.Authorization.{
  Authorizer, Rule, Verified, context_with_session, subject_id, authenticate,
}
use cool_admin_go_next.Auth.Service.Granting.{authenticate-Granted}
use cool_admin_go_next.Auth.Service.Memory.{memory}

subject_id-context :
    (claims : Claims) (current : Snapshot)
    → subject_id (context_with_session claims current).identity ≡ some current.principal.user_id
unfolding subject_id context_with_session
subject_id-context claims current = elim (Bool-cases (is_admin claims.principal.subject)) [
  | inl admin ↦ rw admin refl
  | inr app ↦ rw app refl
]

-- After users were banned, no request of theirs is authenticated with any token, under any rule that
-- looks at tokens, until they log in again: the banned users are not among the users of the
-- sessions that a request gains. Other requests, refreshes of their tokens among them, may come in
-- between.
pub authenticate_bars :
    (codec : Codec) (authorizer : Option Authorizer) (subject : Kind) (user_ids : List ℕ)
    (banning ctx : Context) (now : ℕ) (m : Sessions) (rs : List Request) (token : Text)
    (rule : Rule) (at : Moments) (meanwhile : Sessions → Sessions) (verified : Verified) (id : ℕ)
    → (revoke_users banning subject user_ids now m).0 ≡ ok tt
    → All (SavesSpared subject user_ids) rs
    → (authenticate codec memory authorizer ctx token rule at meanwhile
        (perform_all rs (revoke_users banning subject user_ids now m).1)).0
      ≡ ok (some verified)
    → subject_id verified.identity ≡ some id
    → (text_eq verified.session.subject subject && contains user_ids id) ≡ false
unfolding context_with_session
authenticate_bars codec authorizer subject user_ids banning ctx now m rs token rule at meanwhile
      verified id banned spared granted user =
    let ((claims, current, (_, found, _, _), same, _), _) =
      authenticate-Granted codec memory authorizer ctx token rule at meanwhile _ (some verified)
        granted in
    let barred =
      revoke_users_bars subject user_ids banning ctx now at.read_at m rs claims.session_id current
        banned spared found in
    let owner : some current.principal.user_id ≡ some id =
      sym (subject_id-context claims current) ∙ ap (λ v. subject_id v.identity) same ∙ user in
    let uid : current.principal.user_id ≡ id = cc in
    subst (λ v. (text_eq v.session.subject subject && contains user_ids id) ≡ false) same
      (rw (← uid) barred)
