-- ===== src/Ownership.antt =====
-- The ownership hand-over of scripts/deployments/steps/23_renounceOwnership.ts: the contracts that
-- the step calls, the state that the calls change, and how a script hands a call over.
pub mod Steps
pub mod Broadcast
pub mod Plans
pub mod Handover
pub mod DryRun
pub mod Outcome
mod Tests
use paraspace_core.Prelude.{
  ◌==◌, if◌then◌else◌, ℕ, String, Bool, true, false, ◌&&◌, Option, none, some, List, [], ◌∷◌, ◌++◌,
  str_eq,
}
use paraspace_core.Timelock.{Way, live, kept, raw}

-- A proxy and the contract behind it have one address.
pub data Target : Type 0 where
  addresses_provider_registry addresses_provider acl_manager reserves_setup_helper : Target
  conduit_controller zone_controller weth_gateway wpunk_gateway yape cape : Target
  p2p_pair_staking helper_contract time_lock nft_floor_oracle : Target

abbrev pub index : Target → ℕ
index addresses_provider_registry = 0
index addresses_provider = 1
index acl_manager = 2
index reserves_setup_helper = 3
index conduit_controller = 4
index zone_controller = 5
index weth_gateway = 6
index wpunk_gateway = 7
index yape = 8
index cape = 9
index p2p_pair_staking = 10
index helper_contract = 11
index time_lock = 12
index nft_floor_oracle = 13

pub data Role : Type 0 where
  default_admin pool_admin asset_listing_admin risk_admin updater : Role

abbrev pub role_index : Role → ℕ
role_index default_admin = 0
role_index pool_admin = 1
role_index asset_listing_admin = 2
role_index risk_admin = 3
role_index updater = 4

-- The functions that the step calls. `conduit_ownership` is `transferOwnership(conduit, owner)` of
-- the conduit controller, and `transfer_ownership` the function of one argument.
pub data Call : Type 0 where
  transfer_ownership set_acl_admin change_admin : String → Call
  conduit_ownership : String → String → Call
  add_pool_admin remove_pool_admin : String → Call
  add_asset_listing_admin remove_asset_listing_admin : String → Call
  add_risk_admin remove_risk_admin : String → Call
  grant_role revoke_role : Role → String → Call

pub record Tx : Type 0 where
  pub target : Target
  pub call : Call

abbrev pub tx : Target → Call → Tx
tx t c = record { target = t; call = c }

-- What the calls change. Conduits and zones name a potential owner, who has to accept.
pub record State : Type 0 where
  pub roles : Target → Role → String → Bool
  pub owner : Target → String
  pub potential_owner : Target → String
  pub proxy_admin : Target → String
  pub acl_admin : Target → String

abbrev pub same : Target → Target → Bool
same t u = index t == index u

abbrev pub set_role :
    Target → Role → String → Bool → (Target → Role → String → Bool) → Target → Role → String → Bool
set_role t r a b roles u q x =
    if same u t && role_index q == role_index r && str_eq x a then b else roles u q x

abbrev pub set_at : Target → String → (Target → String) → Target → String
set_at t a f u = if same u t then a else f u

-- The effect of a call that the contract accepts.
unfoldable pub apply : Target → Call → State → State
apply t (transfer_ownership a) s =
    if same t zone_controller
    then record s { potential_owner = set_at t a s.potential_owner }
    else record s { owner = set_at t a s.owner }
apply t (set_acl_admin a) s = record s { acl_admin = set_at t a s.acl_admin }
apply t (change_admin a) s = record s { proxy_admin = set_at t a s.proxy_admin }
apply t (conduit_ownership conduit a) s = record s {
  potential_owner = set_at t a s.potential_owner;
}
apply t (add_pool_admin a) s = record s { roles = set_role t pool_admin a true s.roles }
apply t (remove_pool_admin a) s = record s { roles = set_role t pool_admin a false s.roles }
apply t (add_asset_listing_admin a) s = record s {
  roles = set_role t asset_listing_admin a true s.roles;
}
apply t (remove_asset_listing_admin a) s = record s {
  roles = set_role t asset_listing_admin a false s.roles;
}
apply t (add_risk_admin a) s = record s { roles = set_role t risk_admin a true s.roles }
apply t (remove_risk_admin a) s = record s { roles = set_role t risk_admin a false s.roles }
apply t (grant_role r a) s = record s { roles = set_role t r a true s.roles }
apply t (revoke_role r a) s = record s { roles = set_role t r a false s.roles }

-- A script in progress: the chain, the calls sent, and the calls that were encoded instead.
pub record Script : Type 0 where
  pub state : State
  pub sent : List Tx
  pub encoded : List Tx

-- A step of a script; `none` is an exception, which ends the process with exit code 1.
abbrev pub Action : Type 0
Action = Script → Option Script

-- Whether a contract accepts a call in a state, or reverts.
abbrev pub Accepts : Type 0
Accepts = Tx → State → Bool

infixr 3 ◌▸◌
abbrev pub ◌▸◌ : Action → Action → Script → Option Script
◌▸◌ f g s = elim (f s) [ none ↦ none | some t ↦ g t ]

abbrev pub done : Action
done s = some s

abbrev pub when : Bool → Action → Script → Option Script
when b f s = if b then f s else some s

-- The `if (DRY_RUN) … else …` of a section.
abbrev pub fork : Way → Action → Action → Script → Option Script
fork live f g s = g s
fork kept f g s = f s
fork raw f g s = f s

-- A branch on what the chain answers at this point of the script.
abbrev pub when_role : Target → Role → String → Bool → Action → Script → Option Script
when_role t r a true f s = if s.state.roles t r a then f s else some s
when_role t r a false f s = if s.state.roles t r a then some s else f s

-- `await waitForTx(await contract.f(…))`
abbrev pub send : Accepts → Target → Call → Script → Option Script
send accepts t c s =
    if accepts (tx t c) s.state
    then some (record s { state = apply t c s.state; sent = s.sent ++ tx t c ∷ [] })
    else none

-- The call is kept: a dry run in a mode that sends nothing.
abbrev pub encode : Target → Call → Script → Option Script
encode t c s = some (record s { encoded = s.encoded ++ tx t c ∷ [] })

-- `await dryRunEncodedData(contract.address, encodedData)`: the mode `run` sends it at once.
abbrev pub deliver : Way → Accepts → Target → Call → Script → Option Script
deliver live accepts t c = encode t c
deliver kept accepts t c = encode t c
deliver raw accepts t c = send accepts t c
