-- ===== src/Ownership/Handover.antt =====
-- That `step_23` amounts to sending the calls of its plan in order.
use paraspace_core.Prelude.{
  if◌then◌else◌, String, Bool, true, false, not, List, [], ◌∷◌, ◌≡◌, ◌≢◌, refl, ap, ◌∙◌, inl, inr,
  Bool-cases, arith, str_eq, eq_iff,
}
use paraspace_core.Timelock.{Way, live}
use paraspace_core.Ownership.{
  addresses_provider_registry, addresses_provider, acl_manager, reserves_setup_helper,
  conduit_controller, zone_controller, weth_gateway, wpunk_gateway, yape, cape, p2p_pair_staking,
  helper_contract, time_lock, nft_floor_oracle, Target, default_admin, asset_listing_admin,
  risk_admin, updater, transfer_ownership, set_acl_admin, change_admin, conduit_ownership,
  add_pool_admin, remove_pool_admin, add_risk_admin, remove_risk_admin, grant_role, revoke_role,
  Accepts, ◌▸◌, when, when_role, send, tx, State, Script, apply,
}
use paraspace_core.Ownership.Steps.{
  Admins, Deployment, with_first, transfer_provider, transfer_acl, transfer_setup_helper,
  transfer_conduit, transfer_weth_gateway, transfer_punk_gateway, transfer_yape, transfer_cape,
  transfer_p2p, transfer_helper, transfer_time_lock, transfer_oracle, hand_over_rest, hand_over,
  step_23,
}
use paraspace_core.Ownership.Broadcast.{
  send_all, only, send_cons, send_one, send_missing, send_held, send_all_seq_state, apply_all,
  Sends, Sends-one, Sends-when, Sends-cons, Sends-seq,
}
use paraspace_core.Ownership.Plans.{
  admin_plan, risk_plan, acl_plan, provider_plan, conduit_plan, proxied_plan, oracle_plan,
  rest_plan, plan,
}

module _ (accepts : Accepts) (new old risk : String) where
  admin_lem :
      (s : Script)
      → (send accepts acl_manager (grant_role default_admin new)
            ▸ send accepts acl_manager (revoke_role default_admin old))
          s
        ≡ send_all accepts (admin_plan new old) s
  admin_lem s = send_cons accepts _ _ _ s (send_one accepts _ _)

  risk_lem :
      (d e : Bool) (s : Script)
      → risk ≢ old
      → s.state.roles acl_manager risk_admin risk ≡ d
      → s.state.roles acl_manager risk_admin old ≡ e
      → (when_role acl_manager risk_admin risk false
              (send accepts acl_manager (add_risk_admin risk))
            ▸ when_role acl_manager risk_admin old true
                (send accepts acl_manager (remove_risk_admin old))
            ▸ send accepts acl_manager (grant_role default_admin new)
            ▸ send accepts acl_manager (revoke_role default_admin old))
          s
        ≡ send_all accepts (risk_plan d e new old risk) s
  unfolding apply
  risk_lem d e s k p q =
      send_missing accepts acl_manager risk_admin risk d _ _ _ s p
        (λ _.
          send_held accepts acl_manager risk_admin old e _ _ _ _ (ground (arith, eq_iff old risk))
            (λ _. admin_lem _) (λ _. admin_lem _))
        (λ _.
          send_held accepts acl_manager risk_admin old e _ _ _ _ q (λ _. admin_lem _)
            (λ _. admin_lem _))

  acl_lem :
      (b c d e : Bool) (s : Script)
      → old ≢ new
      → risk ≢ old
      → s.state.roles acl_manager asset_listing_admin new ≡ b
      → s.state.roles acl_manager asset_listing_admin old ≡ c
      → s.state.roles acl_manager risk_admin risk ≡ d
      → s.state.roles acl_manager risk_admin old ≡ e
      → transfer_acl live accepts new old risk s
        ≡ send_all accepts (acl_plan b c d e new old risk) s
  unfolding transfer_acl apply
  acl_lem b c d e s h k p q r w = send_cons accepts (tx acl_manager (add_pool_admin new)) _ _ s (
      send_cons accepts (tx acl_manager (remove_pool_admin old)) _ _ _ (
        send_missing accepts acl_manager asset_listing_admin new b _ _ _ _ p
          (λ _.
            send_held accepts acl_manager asset_listing_admin old c _ _ _ _
              (ground (arith, eq_iff old new)) (λ _. risk_lem d e _ k r w)
              (λ _. risk_lem d e _ k r w))
          (λ _.
            send_held accepts acl_manager asset_listing_admin old c _ _ _ _ q
              (λ _. risk_lem d e _ k r w) (λ _. risk_lem d e _ k r w))))

module _ (accepts : Accepts) where
  proxied_lem :
      (b : Bool) (t : Target) (new gateway : String)
      → Sends accepts
          (when b (
            send accepts t (change_admin new)
            ▸ when (not (str_eq gateway new)) (send accepts t (transfer_ownership gateway))))
          (if b then proxied_plan t new gateway else [])
  unfolding send_all
  proxied_lem true t new gateway = record {
    law =
        (Sends-cons accepts (tx t (change_admin new))
          (Sends-when accepts (not (str_eq gateway new)) (tx t (transfer_ownership gateway)))).law;
  }
  proxied_lem false t new gateway = record { law = λ s. refl }

  oracle_calls_lem :
      (new old : String)
      → Sends accepts
          (send accepts nft_floor_oracle (grant_role updater new)
            ▸ send accepts nft_floor_oracle (revoke_role updater old)
            ▸ send accepts nft_floor_oracle (grant_role default_admin new)
            ▸ send accepts nft_floor_oracle (revoke_role default_admin old))
          (oracle_plan new old)
  oracle_calls_lem new old = Sends-cons accepts (tx nft_floor_oracle (grant_role updater new)) (
      Sends-cons accepts (tx nft_floor_oracle (revoke_role updater old)) (
        Sends-cons accepts (tx nft_floor_oracle (grant_role default_admin new))
          (Sends-one accepts (tx nft_floor_oracle (revoke_role default_admin old)))))

  oracle_lem :
      (b : Bool) (new old : String)
      → Sends accepts
          (when b (
            send accepts nft_floor_oracle (grant_role updater new)
            ▸ send accepts nft_floor_oracle (revoke_role updater old)
            ▸ send accepts nft_floor_oracle (grant_role default_admin new)
            ▸ send accepts nft_floor_oracle (revoke_role default_admin old)))
          (if b then oracle_plan new old else [])
  unfolding send_all
  oracle_lem true new old = record { law = (oracle_calls_lem new old).law }
  oracle_lem false new old = record { law = λ s. refl }

  first_lem :
      (b : Bool) (t : Target) (emergencies : List String) (emergency : String)
      (others : List String)
      → emergencies ≡ emergency ∷ others
      → Sends accepts
          (when b (with_first emergencies λ a. send accepts t (change_admin a)))
          (only b (tx t (change_admin emergency)))
  first_lem b t emergencies emergency others h =
      rw h (record { law = (Sends-when accepts b (tx t (change_admin emergency))).law })

  conduit_lem :
      (conduit new : String)
      → Sends accepts
          (send accepts conduit_controller (conduit_ownership conduit new)
            ▸ send accepts zone_controller (transfer_ownership new))
          (conduit_plan conduit new)
  conduit_lem conduit new =
      Sends-cons accepts (tx conduit_controller (conduit_ownership conduit new))
        (Sends-one accepts (tx zone_controller (transfer_ownership new)))

  provider_lem :
      (new : String) → Sends accepts (transfer_provider live accepts new) (provider_plan new)
  unfolding transfer_provider
  provider_lem new = record {
    law =
        (Sends-cons accepts (tx addresses_provider_registry (transfer_ownership new)) (
          Sends-cons accepts (tx addresses_provider (set_acl_admin new))
            (Sends-one accepts (tx addresses_provider (transfer_ownership new))))).law;
  }

module _ (accepts : Accepts) (d : Deployment) (admins : Admins) (emergency : String)
    (others : List String) (old : String) where
  open admins use {para_space_admin as new, gateway_admin as gateway}

  rest_lem :
      admins.emergency_admins ≡ emergency ∷ others
      → Sends accepts (hand_over_rest live accepts d admins old) (rest_plan d admins emergency old)
  unfolding hand_over_rest transfer_setup_helper transfer_conduit transfer_weth_gateway
      transfer_punk_gateway transfer_yape transfer_cape transfer_p2p transfer_helper
      transfer_time_lock transfer_oracle
  rest_lem h =
      let emergencies = admins.emergency_admins in
      let setup = Sends-one accepts (tx reserves_setup_helper (transfer_ownership new)) in
      let conduit = conduit_lem accepts d.conduit new in
      let weth =
        Sends-when accepts (d.in_db weth_gateway) (tx weth_gateway (transfer_ownership gateway)) in
      let punk =
        Sends-when accepts (d.in_db wpunk_gateway)
          (tx wpunk_gateway (transfer_ownership gateway)) in
      let first_yape = first_lem accepts (d.in_db yape) yape emergencies emergency others h in
      let first_cape = first_lem accepts (d.in_db cape) cape emergencies emergency others h in
      let p2p = proxied_lem accepts (d.in_db p2p_pair_staking) p2p_pair_staking new gateway in
      let helper = proxied_lem accepts (d.in_db helper_contract) helper_contract new gateway in
      let lock = Sends-when accepts (d.in_db time_lock) (tx time_lock (change_admin new)) in
      let oracle = oracle_lem accepts (d.in_db nft_floor_oracle) new old in
      let all = Sends-seq accepts setup (
        Sends-seq accepts conduit (
          Sends-seq accepts weth (
            Sends-seq accepts punk (
              Sends-seq accepts first_yape (
                Sends-seq accepts first_cape (
                  Sends-seq accepts p2p
                    (Sends-seq accepts helper (Sends-seq accepts lock oracle)))))))) in
      record { law = all.law }

  provider-roles : (s t : State) → t ≡ apply_all (provider_plan new) s → t.roles ≡ s.roles
  unfolding apply_all apply
  provider-roles s t h = ap (λ u. u.roles) h

  hand_over_sends :
      (s : Script)
      → old ≢ new
      → admins.risk_admin ≢ old
      → admins.emergency_admins ≡ emergency ∷ others
      → hand_over live accepts d admins old s
        ≡ send_all accepts (plan s.state.roles d admins emergency old) s
  unfolding hand_over plan
  hand_over_sends s h k e =
      send_all_seq_state accepts (transfer_provider live accepts new)
        (transfer_acl live accepts new old admins.risk_admin
          ▸ hand_over_rest live accepts d admins old)
        _ _ s ((provider_lem accepts new).law s)
        λ t p.
          let roles = provider-roles s.state t.state p in
          send_all_seq_state accepts (transfer_acl live accepts new old admins.risk_admin)
            (hand_over_rest live accepts d admins old) _ _ t
            (acl_lem accepts new old admins.risk_admin _ _ _ _ t h k
              (ap (λ r. r acl_manager asset_listing_admin new) roles)
              (ap (λ r. r acl_manager asset_listing_admin old) roles)
              (ap (λ r. r acl_manager risk_admin admins.risk_admin) roles)
              (ap (λ r. r acl_manager risk_admin old) roles))
            (λ u _. (rest_lem e).law u)

-- The step hands over if the owner of the addresses provider is another than the new one.
pub step_23-hand_over :
    (way : Way) (accepts : Accepts) (d : Deployment) (admins : Admins) (s : Script)
    → s.state.owner addresses_provider ≢ admins.para_space_admin
    → step_23 way accepts d admins s
      ≡ hand_over way accepts d admins (s.state.owner addresses_provider) s
unfolding step_23
step_23-hand_over way accepts d admins s h =
    elim (Bool-cases (str_eq (s.state.owner addresses_provider) admins.para_space_admin)) [
      | inl e ↦ absurd (h ((eq_iff _ _).0 e))
      | inr e ↦ rw e
    ]

-- If the old administrator, who owns the addresses provider, differs from the new one and from the
-- risk administrator, and there is an emergency administrator, the step outside a dry run sends exactly the calls of `plan`, in that order, up to the first that a
-- contract rejects, which ends the process. The list depends on the roles before the step.
pub step_23_sends :
    (accepts : Accepts) (d : Deployment) (admins : Admins) (emergency : String)
    (others : List String) (s : Script)
    → s.state.owner addresses_provider ≢ admins.para_space_admin
    → admins.risk_admin ≢ s.state.owner addresses_provider
    → admins.emergency_admins ≡ emergency ∷ others
    → step_23 live accepts d admins s
      ≡ send_all accepts
          (plan s.state.roles d admins emergency (s.state.owner addresses_provider))
          s
step_23_sends accepts d admins emergency others s h k e =
    step_23-hand_over live accepts d admins s h
    ∙ hand_over_sends accepts d admins emergency others (s.state.owner addresses_provider) s h k e
