-- ===== src/Ownership/Steps.antt =====
-- The sections of `step_23`, in the order of scripts/deployments/steps/23_renounceOwnership.ts.
-- Each has its `DRY_RUN` branch first, as the source does.
use paraspace_core.Prelude.{
  if◌then◌else◌, String, Bool, true, false, not, none, some, List, [], ◌∷◌, str_eq,
}
use paraspace_core.Timelock.{Way}
use paraspace_core.Ownership.{
  Target, addresses_provider_registry, addresses_provider, acl_manager, reserves_setup_helper,
  conduit_controller, zone_controller, weth_gateway, wpunk_gateway, yape, cape, p2p_pair_staking,
  helper_contract, time_lock, nft_floor_oracle, default_admin, asset_listing_admin, risk_admin,
  updater, transfer_ownership, set_acl_admin, change_admin, conduit_ownership, add_pool_admin,
  remove_pool_admin, add_asset_listing_admin, remove_asset_listing_admin, add_risk_admin,
  remove_risk_admin, grant_role, revoke_role, Action, Accepts, ◌▸◌, when, fork, when_role, send,
  deliver,
}

pub record Admins : Type 0 where
  pub para_space_admin : String
  pub emergency_admins : List String
  pub gateway_admin : String
  pub risk_admin : String

-- `getContractAddressInDb(id)` is truthy, for the contracts whose section depends on it, and the
-- address of the conduit.
pub record Deployment : Type 0 where
  pub in_db : Target → Bool
  pub conduit : String

-- An array's element 0; ethers refuses to encode `undefined` as an address.
abbrev pub with_first : List String → (String → Action) → Action
with_first [] f s = none
with_first (a ∷ rest) f s = f a s

module _ (way : Way) (accepts : Accepts) where
  unfoldable pub transfer_provider : String → Action
  transfer_provider new =
      fork way
        (deliver way accepts addresses_provider_registry (transfer_ownership new)
          ▸ deliver way accepts addresses_provider (set_acl_admin new)
          ▸ deliver way accepts addresses_provider (transfer_ownership new))
        (send accepts addresses_provider_registry (transfer_ownership new)
          ▸ send accepts addresses_provider (set_acl_admin new)
          ▸ send accepts addresses_provider (transfer_ownership new))

  unfoldable pub transfer_acl : String → String → String → Action
  transfer_acl new old risk =
      fork way
        (deliver way accepts acl_manager (add_pool_admin new)
          ▸ deliver way accepts acl_manager (remove_pool_admin old)
          ▸ when_role acl_manager asset_listing_admin new false
              (deliver way accepts acl_manager (add_asset_listing_admin new))
          ▸ when_role acl_manager asset_listing_admin old true
              (deliver way accepts acl_manager (remove_asset_listing_admin old))
          ▸ when_role acl_manager risk_admin risk false
              (deliver way accepts acl_manager (add_risk_admin risk))
          ▸ when_role acl_manager risk_admin old true
              (deliver way accepts acl_manager (remove_risk_admin old))
          ▸ deliver way accepts acl_manager (grant_role default_admin new)
          ▸ deliver way accepts acl_manager (revoke_role default_admin old))
        (send accepts acl_manager (add_pool_admin new)
          ▸ send accepts acl_manager (remove_pool_admin old)
          ▸ when_role acl_manager asset_listing_admin new false
              (send accepts acl_manager (add_asset_listing_admin new))
          ▸ when_role acl_manager asset_listing_admin old true
              (send accepts acl_manager (remove_asset_listing_admin old))
          ▸ when_role acl_manager risk_admin risk false
              (send accepts acl_manager (add_risk_admin risk))
          ▸ when_role acl_manager risk_admin old true
              (send accepts acl_manager (remove_risk_admin old))
          ▸ send accepts acl_manager (grant_role default_admin new)
          ▸ send accepts acl_manager (revoke_role default_admin old))

  unfoldable pub transfer_setup_helper : String → Action
  transfer_setup_helper new =
      fork way (deliver way accepts reserves_setup_helper (transfer_ownership new))
        (send accepts reserves_setup_helper (transfer_ownership new))

  -- The dry run gives the zone controller's call to the conduit controller's address.
  unfoldable pub transfer_conduit : String → String → Action
  transfer_conduit conduit new =
      fork way
        (deliver way accepts conduit_controller (conduit_ownership conduit new)
          ▸ deliver way accepts conduit_controller (transfer_ownership new))
        (send accepts conduit_controller (conduit_ownership conduit new)
          ▸ send accepts zone_controller (transfer_ownership new))

  unfoldable pub transfer_weth_gateway : Deployment → String → Action
  transfer_weth_gateway d gateway = when (d.in_db weth_gateway) (
      fork way (deliver way accepts weth_gateway (transfer_ownership gateway))
        (send accepts weth_gateway (transfer_ownership gateway)))

  unfoldable pub transfer_punk_gateway : Deployment → String → Action
  transfer_punk_gateway d gateway = when (d.in_db wpunk_gateway) (
      fork way (deliver way accepts wpunk_gateway (transfer_ownership gateway))
        (send accepts wpunk_gateway (transfer_ownership gateway)))

  unfoldable pub transfer_yape : Deployment → List String → Action
  transfer_yape d emergency = when (d.in_db yape) (
      with_first emergency λ a.
        fork way (deliver way accepts yape (change_admin a)) (send accepts yape (change_admin a)))

  unfoldable pub transfer_cape : Deployment → List String → Action
  transfer_cape d emergency = when (d.in_db cape) (
      with_first emergency λ a.
        fork way (deliver way accepts cape (change_admin a)) (send accepts cape (change_admin a)))

  unfoldable pub transfer_p2p : Deployment → String → String → Action
  transfer_p2p d new gateway = when (d.in_db p2p_pair_staking) (
      fork way
        (deliver way accepts p2p_pair_staking (change_admin new)
          ▸ when (not (str_eq gateway new))
              (deliver way accepts p2p_pair_staking (transfer_ownership gateway)))
        (send accepts p2p_pair_staking (change_admin new)
          ▸ when (not (str_eq gateway new))
              (send accepts p2p_pair_staking (transfer_ownership gateway))))

  unfoldable pub transfer_helper : Deployment → String → String → Action
  transfer_helper d new gateway = when (d.in_db helper_contract) (
      fork way
        (deliver way accepts helper_contract (change_admin new)
          ▸ when (not (str_eq gateway new))
              (deliver way accepts helper_contract (transfer_ownership gateway)))
        (send accepts helper_contract (change_admin new)
          ▸ when (not (str_eq gateway new))
              (send accepts helper_contract (transfer_ownership gateway))))

  unfoldable pub transfer_time_lock : Deployment → String → Action
  transfer_time_lock d new = when (d.in_db time_lock) (
      fork way (deliver way accepts time_lock (change_admin new))
        (send accepts time_lock (change_admin new)))

  unfoldable pub transfer_oracle : Deployment → String → String → Action
  transfer_oracle d new old = when (d.in_db nft_floor_oracle) (
      fork way
        (deliver way accepts nft_floor_oracle (grant_role updater new)
          ▸ deliver way accepts nft_floor_oracle (revoke_role updater old)
          ▸ deliver way accepts nft_floor_oracle (grant_role default_admin new)
          ▸ deliver way accepts nft_floor_oracle (revoke_role default_admin old))
        (send accepts nft_floor_oracle (grant_role updater new)
          ▸ send accepts nft_floor_oracle (revoke_role updater old)
          ▸ send accepts nft_floor_oracle (grant_role default_admin new)
          ▸ send accepts nft_floor_oracle (revoke_role default_admin old)))

  -- The sections after the role changes.
  unfoldable pub hand_over_rest : Deployment → Admins → String → Action
  hand_over_rest d admins old =
      transfer_setup_helper admins.para_space_admin
      ▸ transfer_conduit d.conduit admins.para_space_admin
      ▸ transfer_weth_gateway d admins.gateway_admin
      ▸ transfer_punk_gateway d admins.gateway_admin
      ▸ transfer_yape d admins.emergency_admins
      ▸ transfer_cape d admins.emergency_admins
      ▸ transfer_p2p d admins.para_space_admin admins.gateway_admin
      ▸ transfer_helper d admins.para_space_admin admins.gateway_admin
      ▸ transfer_time_lock d admins.para_space_admin
      ▸ transfer_oracle d admins.para_space_admin old

  -- All sections, for an old administrator that differs from the new one.
  unfoldable pub hand_over : Deployment → Admins → String → Action
  hand_over d admins old =
      transfer_provider admins.para_space_admin
      ▸ transfer_acl admins.para_space_admin old admins.risk_admin
      ▸ hand_over_rest d admins old

  -- The whole step: the old administrator is the owner of the addresses provider.
  unfoldable pub step_23 : Deployment → Admins → Action
  step_23 d admins s =
      if str_eq (s.state.owner addresses_provider) admins.para_space_admin
      then some s
      else hand_over d admins (s.state.owner addresses_provider) s
