-- ===== src/Auth/Login/States.antt =====
-- reana_server/oauth_state.py: what `consume_state` accepts.
use reana_server.Prelude.{
  ℕ, ◌+◌, ◌≤◌, String, ◌≡◌, ap, Option, none, some, ◌&&◌, str_eq, arith, Bool-cases, inl, inr,
  eq_iff, true, ◌↔◌, ◌≢◌, is_ascii, compare_digest,
}
use reana_server.Auth.Login.{
  StateData, Serializer, state_accepted, state_max_age, matching, consume_state, issue_state,
}

module _ (serializer : Serializer) where
  open serializer use {Cookie, dumps, loads}

  matching_iff :
      (param flow : String) (d x : StateData)
      → (matching serializer param flow (some x) ≡ state_accepted d)
        ↔ ((x ≡ d) × (d.state ≡ param) × (d.flow ≡ flow) × (is_ascii param && is_ascii flow ≡ true))
  unfolding compare_digest
  matching_iff param flow d x =
      ground
        (arith, eq_iff x.state param, eq_iff x.flow flow, eq_iff d.state param, eq_iff d.flow flow)

  matching-accepted :
      (param flow : String) (o : Option StateData) (d : StateData)
      → matching serializer param flow o ≡ state_accepted d
      → (o ≡ some d) × (d.state ≡ param) × (d.flow ≡ flow)
  matching-accepted param flow none d h = ground (arith, h)
  matching-accepted param flow (some x) d h =
      let (same, state, for_flow, _) = (matching_iff param flow d x).0 h in
      (ap some same, state, for_flow)

  -- What `consume_state` accepts was signed at most ten minutes ago, for this flow and this state.
  pub consume_state-accepted :
      (now : ℕ) (o : Option Cookie) (param flow : String) (d : StateData)
      → consume_state serializer now o param flow ≡ state_accepted d
      → (t : ℕ) × (o ≡ some (dumps t d))
        × (now ≤ t + state_max_age)
        × (d.state ≡ param)
        × (d.flow ≡ flow)
  unfolding consume_state
  consume_state-accepted now none param flow d h = ground (arith, h)
  consume_state-accepted now (some c) param flow d h = elim (Bool-cases (str_eq param "")) [
    | inl e ↦ ground (arith, e, h)
    | inr e ↦
        let (loaded, state, for_flow) =
          matching-accepted param flow (loads now state_max_age c) d (ground (arith, e, h)) in
        let (t, signed, fresh) = serializer.loads-signed now state_max_age c d loaded in
        (t, ap some signed, fresh, state, for_flow)
  ]

  -- Let a state be issued with its data at a time. At most 600 seconds later `consume_state` gives the
  -- data back exactly if it is given this state, which is not empty, and the flow of the data, both
  -- of ASCII characters.
  pub consume_state-issue_state_iff :
      (t now : ℕ) (d : StateData) (param flow : String)
      → t ≤ now
      → now ≤ t + 600
      → (consume_state serializer now (some (issue_state serializer t d)) param flow
          ≡ state_accepted d)
        ↔ ((param ≢ "")
            × (d.state ≡ param)
            × (d.flow ≡ flow)
            × (is_ascii param && is_ascii flow ≡ true))
  unfolding consume_state issue_state
  consume_state-issue_state_iff t now d param flow started fresh =
      rw (serializer.loads-dumps now 600 t d started fresh)
        (ground (arith, eq_iff param "", matching_iff param flow d d))
