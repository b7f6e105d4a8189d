-- ===== src/Ownership/Plans.antt =====
-- The calls of `step_23` as one list.
use paraspace_core.Prelude.{if◌then◌else◌, String, Bool, not, List, [], ◌∷◌, ◌++◌, str_eq}
use paraspace_core.Ownership.{
  addresses_provider_registry, addresses_provider, acl_manager, reserves_setup_helper,
  conduit_controller, zone_controller, weth_gateway, wpunk_gateway, yape, cape, p2p_pair_staking,
  helper_contract, time_lock, nft_floor_oracle, Target, Role, default_admin, asset_listing_admin,
  risk_admin, updater, transfer_ownership, set_acl_admin, change_admin, conduit_ownership,
  add_pool_admin, remove_pool_admin, add_asset_listing_admin, remove_asset_listing_admin,
  add_risk_admin, remove_risk_admin, grant_role, revoke_role, Tx, tx,
}
use paraspace_core.Ownership.Steps.{Admins, Deployment}
use paraspace_core.Ownership.Broadcast.{only}

-- The role changes, by what the chain answered to the four questions when the step began.
abbrev pub admin_plan : String → String → List Tx
admin_plan new old =
    tx acl_manager (grant_role default_admin new)
    ∷ tx acl_manager (revoke_role default_admin old)
    ∷ []

abbrev pub risk_plan : Bool → Bool → String → String → String → List Tx
risk_plan risk_held old_risk new old risk =
    only (not risk_held) (tx acl_manager (add_risk_admin risk))
    ++ (only old_risk (tx acl_manager (remove_risk_admin old)) ++ admin_plan new old)

abbrev pub acl_plan : Bool → Bool → Bool → Bool → String → String → String → List Tx
acl_plan new_lists old_lists risk_held old_risk new old risk =
    tx acl_manager (add_pool_admin new)
    ∷ tx acl_manager (remove_pool_admin old)
    ∷ (only (not new_lists) (tx acl_manager (add_asset_listing_admin new))
        ++ (only old_lists (tx acl_manager (remove_asset_listing_admin old))
            ++ risk_plan risk_held old_risk new old risk))

abbrev pub provider_plan : String → List Tx
provider_plan new =
    tx addresses_provider_registry (transfer_ownership new)
    ∷ tx addresses_provider (set_acl_admin new)
    ∷ tx addresses_provider (transfer_ownership new)
    ∷ []

abbrev pub conduit_plan : String → String → List Tx
conduit_plan conduit new =
    tx conduit_controller (conduit_ownership conduit new)
    ∷ tx zone_controller (transfer_ownership new)
    ∷ []

-- `changeAdmin` of a proxy, and then a new owner behind it unless that is the proxy's admin.
abbrev pub proxied_plan : Target → String → String → List Tx
proxied_plan t new gateway =
    tx t (change_admin new)
    ∷ (if not (str_eq gateway new) then tx t (transfer_ownership gateway) ∷ [] else [])

abbrev pub oracle_plan : String → String → List Tx
oracle_plan new old =
    tx nft_floor_oracle (grant_role updater new)
    ∷ tx nft_floor_oracle (revoke_role updater old)
    ∷ tx nft_floor_oracle (grant_role default_admin new)
    ∷ tx nft_floor_oracle (revoke_role default_admin old)
    ∷ []

-- The sections of the contracts that a deployment may lack.
abbrev pub late_plan : Deployment → Admins → String → String → List Tx
late_plan d admins emergency old =
    only (d.in_db weth_gateway) (tx weth_gateway (transfer_ownership admins.gateway_admin))
    ++ (only (d.in_db wpunk_gateway) (tx wpunk_gateway (transfer_ownership admins.gateway_admin))
        ++ (only (d.in_db yape) (tx yape (change_admin emergency))
            ++ (only (d.in_db cape) (tx cape (change_admin emergency))
                ++ ((if d.in_db p2p_pair_staking
                      then proxied_plan p2p_pair_staking admins.para_space_admin
                          admins.gateway_admin
                      else [])
                    ++ ((if d.in_db helper_contract
                          then proxied_plan helper_contract admins.para_space_admin
                              admins.gateway_admin
                          else [])
                        ++ (only (d.in_db time_lock)
                              (tx time_lock (change_admin admins.para_space_admin))
                            ++ (if d.in_db nft_floor_oracle
                                then oracle_plan admins.para_space_admin old
                                else [])))))))

-- The sections after the role changes.
abbrev pub rest_plan : Deployment → Admins → String → String → List Tx
rest_plan d admins emergency old =
    tx reserves_setup_helper (transfer_ownership admins.para_space_admin) ∷ []
    ++ (conduit_plan d.conduit admins.para_space_admin ++ late_plan d admins emergency old)

-- Every call of the hand-over, from the roles before it.
unfoldable pub plan :
    (Target → Role → String → Bool) → Deployment → Admins → String → String → List Tx
plan roles d admins emergency old =
    provider_plan admins.para_space_admin
    ++ (acl_plan (roles acl_manager asset_listing_admin admins.para_space_admin)
          (roles acl_manager asset_listing_admin old)
          (roles acl_manager risk_admin admins.risk_admin) (roles acl_manager risk_admin old)
          admins.para_space_admin old admins.risk_admin
        ++ rest_plan d admins emergency old)
