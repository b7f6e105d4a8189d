-- ===== src/Ownership/Tests.antt =====
-- Runs of `step_23` on a small deployment, and the theorems at that deployment.
use paraspace_core.Prelude.{
  true, some, List, [], ◌∷◌, ◌++◌, map, ◌≡◌, ◌≢◌, refl, str_eq, ◌||◌, ◌&&◌, eq_iff,
}
use paraspace_core.Timelock.{live, kept}
use paraspace_core.Ownership.{
  addresses_provider_registry, addresses_provider, acl_manager, reserves_setup_helper,
  conduit_controller, zone_controller, weth_gateway, cape, p2p_pair_staking, default_admin,
  set_acl_admin, change_admin, conduit_ownership, add_pool_admin, remove_pool_admin,
  add_asset_listing_admin, remove_asset_listing_admin, add_risk_admin, remove_risk_admin,
  grant_role, revoke_role, transfer_ownership, Accepts, Tx, tx, State, Script, same,
}
use paraspace_core.Ownership.Steps.{Admins, Deployment, step_23}
use paraspace_core.Ownership.Broadcast.{send_all, apply_all}
use paraspace_core.Ownership.Plans.{plan}
use paraspace_core.Ownership.Handover.{step_23_sends}
use paraspace_core.Ownership.DryRun.{misdirect, step_23_encodes}
use paraspace_core.Ownership.Outcome.{IsHandedOver, step_23-IsHandedOver}

abbrev admins : Admins
admins = record {
  para_space_admin = "multisig";
  emergency_admins = "guard" ∷ [];
  gateway_admin = "gateway";
  risk_admin = "risk";
}

abbrev deployment : Deployment
deployment = record {
  in_db = λ t. same t weth_gateway || same t cape || same t p2p_pair_staking;
  conduit = "conduit";
}

abbrev before : State
before = record {
  roles = λ t r a. same t acl_manager && str_eq a "deployer";
  owner = λ t. "deployer";
  potential_owner = λ t. "";
  proxy_admin = λ t. "deployer";
  acl_admin = λ t. "deployer";
}

abbrev start : Script
start = record { state = before; sent = []; encoded = [] }

abbrev all_accepted : Accepts
all_accepted x s = true

deployer-ne : before.owner addresses_provider ≢ admins.para_space_admin
deployer-ne h = cc ((eq_iff "deployer" "multisig").1 h)

risk-ne : admins.risk_admin ≢ before.owner addresses_provider
risk-ne h = cc ((eq_iff "risk" "deployer").1 h)

abbrev calls : List Tx
calls = plan before.roles deployment admins "guard" "deployer"

-- The calls, in the order of the source.
calls_test :
    calls
    ≡ tx addresses_provider_registry (transfer_ownership "multisig")
      ∷ tx addresses_provider (set_acl_admin "multisig")
      ∷ tx addresses_provider (transfer_ownership "multisig")
      ∷ tx acl_manager (add_pool_admin "multisig")
      ∷ tx acl_manager (remove_pool_admin "deployer")
      ∷ tx acl_manager (add_asset_listing_admin "multisig")
      ∷ tx acl_manager (remove_asset_listing_admin "deployer")
      ∷ tx acl_manager (add_risk_admin "risk")
      ∷ tx acl_manager (remove_risk_admin "deployer")
      ∷ tx acl_manager (grant_role default_admin "multisig")
      ∷ tx acl_manager (revoke_role default_admin "deployer")
      ∷ tx reserves_setup_helper (transfer_ownership "multisig")
      ∷ tx conduit_controller (conduit_ownership "conduit" "multisig")
      ∷ tx zone_controller (transfer_ownership "multisig")
      ∷ tx weth_gateway (transfer_ownership "gateway")
      ∷ tx cape (change_admin "guard")
      ∷ tx p2p_pair_staking (change_admin "multisig")
      ∷ tx p2p_pair_staking (transfer_ownership "gateway")
      ∷ []
unfolding plan
calls_test = refl

step_23_sends_example :
    step_23 live all_accepted deployment admins start ≡ send_all all_accepted calls start
step_23_sends_example =
    step_23_sends all_accepted deployment admins "guard" [] start deployer-ne risk-ne refl

step_23_encodes_example :
    (cs : List Tx) × (step_23 live all_accepted deployment admins start
      ≡ send_all all_accepted cs start)
    × (step_23 kept all_accepted deployment admins start
        ≡ some (record start { encoded = [] ++ map misdirect cs }))
step_23_encodes_example =
    step_23_encodes all_accepted deployment admins "guard" [] start deployer-ne risk-ne refl

abbrev sent : Script
sent = record { state = apply_all calls before; sent = calls; encoded = [] }

step_23_ends : step_23 live all_accepted deployment admins start ≡ some sent
unfolding plan send_all apply_all
step_23_ends = step_23_sends_example

step_23-IsHandedOver_example :
    IsHandedOver sent.state "multisig" "deployer" "risk" × (sent.sent ≡ [] ++ calls)
step_23-IsHandedOver_example =
    step_23-IsHandedOver all_accepted deployment admins "guard" [] start sent deployer-ne risk-ne
      refl step_23_ends
