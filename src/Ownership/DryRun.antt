-- ===== src/Ownership/DryRun.antt =====
-- What `step_23` encodes in a dry run, against what it sends without one.
use paraspace_core.Prelude.{
  if◌then◌else◌, String, Bool, true, false, not, some, List, [], ◌∷◌, ◌++◌, map, map-append, ◌≡◌,
  ◌≢◌, refl, ap, str_eq, append_assoc, ◌∙◌, sym, append-nil, Bool-cases, inl, inr,
}
use paraspace_core.Timelock.{kept, live}
use paraspace_core.Ownership.{
  addresses_provider_registry, addresses_provider, acl_manager, reserves_setup_helper,
  conduit_controller, zone_controller, weth_gateway, wpunk_gateway, yape, cape, p2p_pair_staking,
  helper_contract, time_lock, nft_floor_oracle, Target, Role, default_admin, asset_listing_admin,
  risk_admin, updater, transfer_ownership, set_acl_admin, change_admin, conduit_ownership,
  add_pool_admin, remove_pool_admin, add_asset_listing_admin, remove_asset_listing_admin,
  add_risk_admin, remove_risk_admin, grant_role, revoke_role, Accepts, Action, ◌▸◌, when, when_role,
  encode, Tx, tx, same, Script,
}
use paraspace_core.Ownership.Steps.{
  Admins, Deployment, with_first, transfer_provider, transfer_acl, transfer_setup_helper,
  transfer_conduit, transfer_weth_gateway, transfer_punk_gateway, transfer_yape, transfer_cape,
  transfer_p2p, transfer_helper, transfer_time_lock, transfer_oracle, hand_over_rest, hand_over,
  step_23,
}
use paraspace_core.Ownership.Broadcast.{send_all, only}
use paraspace_core.Ownership.Plans.{provider_plan, acl_plan, rest_plan, plan}
use paraspace_core.Ownership.Handover.{step_23_sends, step_23-hand_over}

-- The dry run addresses the call for the zone controller to the conduit controller.
abbrev pub misdirect : Tx → Tx
misdirect x = if same x.target zone_controller then tx conduit_controller x.call else x

-- A part of a script that encodes a list of calls, but for the misdirection, and changes nothing
-- else. What it asks of the chain is asked of the roles at the start.
record Encodes (roles : Target → Role → String → Bool) (f : Action) (xs : List Tx) : Type 0 where
  law :
      (s : Script)
      → s.state.roles ≡ roles
      → f s ≡ some (record s { encoded = s.encoded ++ map misdirect xs })

module _ (roles : Target → Role → String → Bool) where
  one : (x : Tx) → Encodes roles (encode (misdirect x).target (misdirect x).call) (x ∷ [])
  one x = record { law = λ s _. refl }

  none_sent : Encodes roles (λ s. some s) []
  none_sent = record {
    law = λ s _. ap (λ l. some (record s { encoded = l })) (sym (append-nil s.encoded));
  }

  guarded_by :
      (b : Bool) {f : Action} {xs : List Tx}
      → Encodes roles f xs
      → Encodes roles (when b f) (if b then xs else [])
  guarded_by true p = record { law = p.law }
  guarded_by false p = record { law = none_sent.law }

  missing :
      (t : Target) (r : Role) (a : String) {f : Action} {x : Tx}
      → Encodes roles f (x ∷ [])
      → Encodes roles (when_role t r a false f) (only (not (roles t r a)) x)
  missing t r a p = record {
    law = λ s e. rw (ap (λ q. q t r a) e) (elim (Bool-cases (roles t r a)) [
      | inl h ↦ rw h (none_sent.law s e)
      | inr h ↦ rw h (p.law s e)
    ]);
  }

  held :
      (t : Target) (r : Role) (a : String) {f : Action} {x : Tx}
      → Encodes roles f (x ∷ [])
      → Encodes roles (when_role t r a true f) (only (roles t r a) x)
  held t r a p = record {
    law = λ s e. rw (ap (λ q. q t r a) e) (elim (Bool-cases (roles t r a)) [
      | inl h ↦ rw h (p.law s e)
      | inr h ↦ rw h (none_sent.law s e)
    ]);
  }

  then_ :
      {f g : Action} {xs ys : List Tx}
      → Encodes roles f xs
      → Encodes roles g ys
      → Encodes roles (f ▸ g) (xs ++ ys)
  then_ {f} {g} {xs} {ys} p q = record {
    law = λ s e.
        rw (p.law s e, ◌▸◌)
          (q.law _ e
            ∙ ap (λ l. some (record s { encoded = l }))
                (append_assoc s.encoded (map misdirect xs) (map misdirect ys)
                  ∙ ap (λ l. s.encoded ++ l) (sym (map-append misdirect xs ys))));
  }

module _ (accepts : Accepts) (d : Deployment) (admins : Admins) (emergency : String)
    (others : List String) (old : String) (roles : Target → Role → String → Bool) where
  open admins use {para_space_admin as new, gateway_admin as gateway, risk_admin as risk}

  provider_lem : Encodes roles (transfer_provider kept accepts new) (provider_plan new)
  unfolding transfer_provider
  provider_lem =
      let all = then_ roles (one roles (tx addresses_provider_registry (transfer_ownership new))) (
        then_ roles (one roles (tx addresses_provider (set_acl_admin new)))
          (one roles (tx addresses_provider (transfer_ownership new)))) in
      record { law = all.law }

  acl_lem : Encodes roles (transfer_acl kept accepts new old risk) (
      acl_plan
        (roles acl_manager asset_listing_admin new)
        (roles acl_manager asset_listing_admin old)
        (roles acl_manager risk_admin risk)
        (roles acl_manager risk_admin old)
        new
        old
        risk)
  unfolding transfer_acl
  acl_lem =
      let lists =
        missing roles acl_manager asset_listing_admin new
          (one roles (tx acl_manager (add_asset_listing_admin new))) in
      let unlists =
        held roles acl_manager asset_listing_admin old
          (one roles (tx acl_manager (remove_asset_listing_admin old))) in
      let risks =
        missing roles acl_manager risk_admin risk
          (one roles (tx acl_manager (add_risk_admin risk))) in
      let unrisks =
        held roles acl_manager risk_admin old
          (one roles (tx acl_manager (remove_risk_admin old))) in
      let all = then_ roles (one roles (tx acl_manager (add_pool_admin new))) (
        then_ roles (one roles (tx acl_manager (remove_pool_admin old))) (
          then_ roles lists (
            then_ roles unlists (
              then_ roles risks (
                then_ roles unrisks (
                  then_ roles (one roles (tx acl_manager (grant_role default_admin new)))
                    (one roles (tx acl_manager (revoke_role default_admin old))))))))) in
      record { law = all.law }

  rest_lem :
      admins.emergency_admins ≡ emergency ∷ others
      → Encodes roles (hand_over_rest kept accepts d admins old) (rest_plan d admins emergency old)
  unfolding hand_over_rest transfer_setup_helper transfer_conduit transfer_weth_gateway
      transfer_punk_gateway transfer_yape transfer_cape transfer_p2p transfer_helper
      transfer_time_lock transfer_oracle
  rest_lem h =
      let r = roles in
      let conduit =
        then_ r (one r (tx conduit_controller (conduit_ownership d.conduit new)))
          (one r (tx zone_controller (transfer_ownership new))) in
      let weth =
        guarded_by r (d.in_db weth_gateway)
          (one r (tx weth_gateway (transfer_ownership gateway))) in
      let punk =
        guarded_by r (d.in_db wpunk_gateway)
          (one r (tx wpunk_gateway (transfer_ownership gateway))) in
      let first_yape = guarded_by r (d.in_db yape) (one r (tx yape (change_admin emergency))) in
      let first_cape = guarded_by r (d.in_db cape) (one r (tx cape (change_admin emergency))) in
      let differs = not (str_eq gateway new) in
      let p2p = guarded_by r (d.in_db p2p_pair_staking) (
        then_ r (one r (tx p2p_pair_staking (change_admin new)))
          (guarded_by r differs (one r (tx p2p_pair_staking (transfer_ownership gateway))))) in
      let helper = guarded_by r (d.in_db helper_contract) (
        then_ r (one r (tx helper_contract (change_admin new)))
          (guarded_by r differs (one r (tx helper_contract (transfer_ownership gateway))))) in
      let lock = guarded_by r (d.in_db time_lock) (one r (tx time_lock (change_admin new))) in
      let oracle = guarded_by r (d.in_db nft_floor_oracle) (
        then_ r (one r (tx nft_floor_oracle (grant_role updater new))) (
          then_ r (one r (tx nft_floor_oracle (revoke_role updater old))) (
            then_ r (one r (tx nft_floor_oracle (grant_role default_admin new)))
              (one r (tx nft_floor_oracle (revoke_role default_admin old)))))) in
      let all = then_ r (one r (tx reserves_setup_helper (transfer_ownership new))) (
        then_ r conduit (
          then_ r weth (
            then_ r punk (
              then_ r first_yape
                (then_ r first_cape (then_ r p2p (then_ r helper (then_ r lock oracle)))))))) in
      record { law = λ s e. rw (h, with_first) (all.law s e) }

  hand_over_encodes :
      (s : Script)
      → admins.emergency_admins ≡ emergency ∷ others
      → s.state.roles ≡ roles
      → hand_over kept accepts d admins old s
        ≡ some
            (record s { encoded = s.encoded ++ map misdirect (plan roles d admins emergency old) })
  unfolding hand_over plan
  hand_over_encodes s h e = (then_ roles provider_lem (then_ roles acl_lem (rest_lem h))).law s e

-- From any state there is a list of calls such that the step outside a dry run sends exactly these, in
-- order, up to the first that a contract rejects, and a dry run in a mode that only keeps calls
-- encodes exactly these, in the same order, and changes nothing else; but each call for the zone
-- controller is addressed to the conduit controller. It is asked that the owner of the addresses
-- provider is another than the new administrator and than the risk administrator, and that there is an
-- emergency administrator.
pub step_23_encodes :
    (accepts : Accepts) (d : Deployment) (admins : Admins) (emergency : String)
    (others : List String) (s : Script)
    → s.state.owner addresses_provider ≢ admins.para_space_admin
    → admins.risk_admin ≢ s.state.owner addresses_provider
    → admins.emergency_admins ≡ emergency ∷ others
    → (calls : List Tx) × (step_23 live accepts d admins s ≡ send_all accepts calls s)
      × (step_23 kept accepts d admins s
          ≡ some (record s { encoded = s.encoded ++ map misdirect calls }))
step_23_encodes accepts d admins emergency others s h k e = (
  plan s.state.roles d admins emergency (s.state.owner addresses_provider),
  step_23_sends accepts d admins emergency others s h k e,
  step_23-hand_over kept accepts d admins s h
      ∙ hand_over_encodes accepts d admins emergency others (s.state.owner addresses_provider)
          s.state.roles s e refl,
)
