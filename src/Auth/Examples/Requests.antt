-- ===== src/Auth/Examples/Requests.antt =====
-- The session store and the service at concrete inputs (cool-next/auth).
use cool_admin_go_next.Common.{
  Bool, true, false, List, [], ◌∷◌, Text, codes, text_eq, Option, none, some, pos, lookup, put,
  ◌&&◌, ok, err, ◌>>◌, ◌≡◌, ◌≢◌, refl, arith,
}
use cool_admin_go_next.Auth.Session.{
  Principal, Snapshot, live, admin_kind, validate_snapshot, not_found,
}
use cool_admin_go_next.Auth.Store.{
  Sessions, get, revoke, revoke_users, rotate_refresh, check_rotate, contains,
}
use cool_admin_go_next.Auth.Store.Requests.{Request, reads, saves, bans, perform_all}
use cool_admin_go_next.Auth.Store.Sound.{get-valid}
use cool_admin_go_next.Auth.Store.Revocation.{revoke_bars}
use cool_admin_go_next.Auth.Store.Refinement.Simulation.{
  answers, spec_answers, answers-spec_answers,
}
use cool_admin_go_next.Auth.Service.{
  Codec, Claims, Pair, Moments, unauthenticated, refresh_with, check_claims,
}
use cool_admin_go_next.Auth.Service.Authorization.{
  Authorizer, Rule, Verified, authenticate, subject_id,
}
use cool_admin_go_next.Auth.Service.Granting.{Granted, authenticate-Granted}
use cool_admin_go_next.Auth.Service.Memory.{memory}
use cool_admin_go_next.Auth.Service.Barring.{authenticate_bars}
use cool_admin_go_next.Auth.Service.Detection.{refresh_with-replayed}
use cool_admin_go_next.Auth.Service.Replay.{refresh_with_once}
use cool_admin_go_next.Auth.Examples.{alice, first_session}

abbrev login : List Request
login = saves live first_session 1 2 ∷ []

-- The store after the login.
abbrev logged_in : Sessions
logged_in = (codes "s", first_session) ∷ []

stored_login : perform_all login [] ≡ logged_in
unfolding perform_all put
stored_login = refl

get-valid_example :
    (first_session.session_id ≡ codes "s") × (validate_snapshot first_session 3 ≡ ok tt)
unfolding perform_all get lookup put
get-valid_example = get-valid login live (codes "s") 3 first_session refl

abbrev visits : List Request
visits =
    saves live first_session 1 2
    ∷ reads live (codes "s") 3
    ∷ bans live admin_kind (8 ∷ []) 4
    ∷ reads live (codes "s") 10_000_000
    ∷ []

answers-spec_answers_example : answers visits [] ≡ spec_answers visits (λ _. none)
answers-spec_answers_example =
    answers-spec_answers 0 visits (omega arith, (omega arith, (omega arith, (omega arith, tt))))

revoke_bars_example :
    ((value : Snapshot)
      → (get live (codes "s") 4 (perform_all [] (revoke live (codes "s") logged_in).1)).0
        ≢ ok (some value))
    × ((rotate_refresh live
          (codes "s")
          (codes "r")
          first_session
          4
          5
          (perform_all [] (revoke live (codes "s") logged_in).1)).0
        ≡ (check_rotate live (codes "s") (codes "r") first_session 4 >> err not_found))
unfolding revoke
revoke_bars_example =
    revoke_bars (codes "s") live live 4 4 5 logged_in [] (codes "r") first_session refl tt

abbrev claims_of : Text → Bool → Claims
claims_of jti refresh = record {
  session_id = codes "s";
  principal = alice;
  jti = jti;
  is_refresh = refresh;
  issued_at = 1;
  not_before = 1;
  expires_at = 9_000_500;
}

abbrev second_pair : Pair
second_pair = record {
  access_token = codes "a2";
  refresh_token = codes "r2";
  access_jti = codes "a2";
  refresh_jti = codes "r2";
  access_expires_at = 5_000_000;
  expires_at = 19_000_000;
}

-- A token is its identifier.
abbrev plain_codec : Codec
plain_codec = record {
  issue_pair = λ _. ok second_pair;
  parse = λ token refresh. ok (claims_of token refresh);
}

abbrev early : Moments
early = record { read_at = 3; verified_at = 4; checked_at = 5; written_at = 6 }

abbrev late : Moments
late = record { read_at = 13; verified_at = 14; checked_at = 15; written_at = 16 }

abbrev same_user_again : Principal → Option Principal
same_user_again p = some p

abbrev idle : Sessions → Sessions
idle m = m

refreshed :
    (refresh_with plain_codec memory live (codes "r") same_user_again early idle idle logged_in).0
    ≡ ok second_pair
unfolding refresh_with get rotate_refresh check_claims lookup
refreshed = refl

refresh_with_once_example :
    (refresh_with plain_codec memory live (codes "r") same_user_again late (perform_all []) idle (
      perform_all []
        (refresh_with plain_codec memory live
          (codes "r")
          same_user_again
          early
          idle
          idle
          logged_in).1)).0
    ≢ ok second_pair
refresh_with_once_example =
    refresh_with_once plain_codec live live (codes "r") (codes "r") same_user_again same_user_again
      early late idle idle idle logged_in [] [] (claims_of (codes "r") true)
      (claims_of (codes "r") true) second_pair second_pair refl refl refl refl refreshed refl tt tt

refresh_with-replayed_example :
    ((refresh_with plain_codec memory live (codes "q") same_user_again early idle idle logged_in).0
      ≡ err unauthenticated)
    × (lookup
          (codes "s")
          (refresh_with plain_codec memory live
            (codes "q")
            same_user_again
            early
            idle
            idle
            logged_in).1
        ≡ none)
unfolding get lookup
refresh_with-replayed_example =
    refresh_with-replayed plain_codec live (codes "q") same_user_again early idle idle logged_in
      (claims_of (codes "q") true) first_session refl refl refl (omega arith) refl

abbrev agreeing : Option Authorizer
agreeing = some (λ _. some true)

abbrev list_rule : Rule
list_rule = record { ignore_token = false; permission = codes "u"; resource = codes "GET /u" }

abbrev alice_verified : Verified
alice_verified = record {
  session = record {
    id = codes "s";
    subject = admin_kind;
    access_jti = codes "a";
    expires_at = 9_000_500;
  };
  identity = record {
    subject = admin_kind;
    admin = record {
      user_id = 7;
      username = codes "al";
      password_v = pos 1;
      role_ids = some (12 ∷ []);
    };
    app = 0;
  };
}

alice_passes :
    (authenticate plain_codec memory agreeing live (codes "a") list_rule early idle logged_in).0
    ≡ ok (some alice_verified)
unfolding authenticate get check_claims lookup
alice_passes = refl

authenticate-Granted_example :
    Granted plain_codec memory agreeing live
      (codes "a")
      list_rule
      early
      logged_in
      (some alice_verified)
authenticate-Granted_example =
    authenticate-Granted plain_codec memory agreeing live (codes "a") list_rule early idle logged_in
      (some alice_verified) alice_passes

-- Another user is banned, and alice still passes.
alice_stays :
    (authenticate plain_codec memory agreeing live
      (codes "a")
      list_rule
      early
      idle
      (perform_all [] (revoke_users live admin_kind (8 ∷ []) 2 logged_in).1)).0
    ≡ ok (some alice_verified)
unfolding authenticate get check_claims perform_all lookup
alice_stays = refl

authenticate_bars_example :
    (text_eq alice_verified.session.subject admin_kind && contains (8 ∷ []) 7) ≡ false
unfolding revoke_users subject_id
authenticate_bars_example =
    authenticate_bars plain_codec agreeing admin_kind (8 ∷ []) live live 2 logged_in [] (codes "a")
      list_rule early idle alice_verified 7 refl tt alice_stays refl
