-- ===== src/Auth/Login/Tests.antt =====
-- A login that succeeds, and one whose state does not come back.
use reana_server.Prelude.{
  ℕ, ◌+◌, ◌≤◌, String, ◌≡◌, refl, true, false, Option, none, some, if◌then◌else◌, str_eq, leb,
  leb→le, arith, Bool-cases, inl, inr, [], lookup, insert, erase, compare_digest, is_ascii, ◌↔◌,
  ◌≢◌, ◌&&◌,
}
use reana_server.Auth.Errors.{missing_role, ok}
use reana_server.Auth.Sessions.{AuthConfig}
use reana_server.Auth.Sessions.Dictionary.{redis, set, exec_delete}
use reana_server.Auth.Sessions.Store.{store_session}
use reana_server.Auth.Login.{
  safe_next_url, StateData, state_accepted, Serializer, consume_state, issue_state,
}
use reana_server.Auth.Login.Callback.{
  Subject, TokenBody, failed, tokens, Calls, Arrival, validated, establish, oauth_callback,
}
use reana_server.Auth.Login.States.{consume_state-issue_state_iff}
use reana_server.Auth.Login.Bound.{IsBound, oauth_callback-IsBound}

abbrev loads : ℕ → ℕ → ℕ × StateData → Option StateData
loads now max_age (t, d) = if leb now (t + max_age) then some d else none

loads-signed :
    (now max_age : ℕ) (c : ℕ × StateData) (d : StateData)
    → loads now max_age c ≡ some d
    → (t : ℕ) × (c ≡ (t, d)) × (now ≤ t + max_age)
loads-signed now max_age (t, x) d h = elim (Bool-cases (leb now (t + max_age))) [
  | inl e ↦ let same : x ≡ d = ground (arith, h, e) in (t, rw same refl, leb→le now (t + max_age) e)
  | inr e ↦ ground (arith, h, e)
]

loads-dumps :
    (now max_age t : ℕ) (d : StateData)
    → t ≤ now
    → now ≤ t + max_age
    → loads now max_age (t, d) ≡ some d
loads-dumps now max_age t d started fresh = ground (arith, fresh)

abbrev serializer : Serializer
serializer = record {
  Cookie = ℕ × StateData;
  dumps = λ t d. (t, d);
  loads = loads;
  loads-signed = loads-signed;
  loads-dumps = loads-dumps;
}

abbrev state_data : StateData
state_data = record {
  state = "xyz";
  flow = "bff";
  verifier = some "v";
  next = some "/workflows";
  nonce = some "n";
}

abbrev ann : Subject
ann = record { iss = "https://idp"; sub = "ann" }

abbrev body : TokenBody
body = record { access_token = "a1"; id_token = some "i1"; refresh_token = some "r1" }

abbrev calls : Calls
calls = record {
  exchange = λ v. if str_eq v "v" then tokens body else failed;
  validate_access_token = λ t. ok ann;
  validate_id_token = λ t n. ok "ann";
  provision = λ claims t. some (missing_role none);
}

abbrev config : AuthConfig
config = record { issuer = "https://idp"; web_client_id = "reana"; session_ttl = 100 }

-- The state comes back 500 seconds later.
abbrev arrival : String → Arrival (ℕ × StateData)
arrival param = record {
  bff_active = true;
  state_param = param;
  state_cookie = some (1000, state_data);
  has_error = false;
  old_sid = none;
  now = 1500;
  stored_at = 1500;
  sid = "s2";
}

forged : (oauth_callback redis serializer config calls (arrival "abc") []).0.status ≡ 403
unfolding oauth_callback consume_state compare_digest
forged = refl

oauth_callback-IsBound_example : IsBound redis serializer config calls (arrival "xyz") "a1" "s2"
unfolding oauth_callback consume_state compare_digest validated establish store_session
    safe_next_url lookup insert erase set exec_delete
oauth_callback-IsBound_example =
    oauth_callback-IsBound redis serializer config calls (arrival "xyz") [] "a1" "s2" refl

consume_state-issue_state_iff_example :
    (consume_state serializer 1500 (some (issue_state serializer 1000 state_data)) "xyz" "bff"
      ≡ state_accepted state_data)
    ↔ ((◌≢◌ {A = String} "xyz" "")
        × (◌≡◌ {A = String} "xyz" "xyz")
        × (◌≡◌ {A = String} "bff" "bff")
        × (is_ascii "xyz" && is_ascii "bff" ≡ true))
consume_state-issue_state_iff_example =
    consume_state-issue_state_iff serializer 1000 1500 state_data "xyz" "bff" (omega arith)
      (omega arith)
