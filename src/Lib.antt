-- ===== src/Lib.antt =====
-- The deployment and governance tooling of ParaSpace: how the administration of the contracts is handed
-- over, how planned calls go through the time lock, how the parameters of the reserves are set, how a
-- set of token ids becomes the criteria of an order, how the reserves of a market are initialised and
-- configured from its tables, how the implementations of the pool are
-- upgraded, and which price aggregator a token gets.
--
-- The parts and the code that they model:
--   Prelude      names of the libraries passed on; Boolean tests, lists and integers over the native
--                numbers
--   Chunk        `chunk` of helpers/misc-utils.ts, by which proposals are split into transactions
--   Ownership    scripts/deployments/steps/23_renounceOwnership.ts: `step_23` with one definition per
--                section (Ownership/Steps), on a state of roles, owners and administrators
--   Timelock     contracts/governance/ExecutorWithTimelock.sol (Timelock/Contract), the buffer of
--                planned calls and the dry runs of helpers/contracts-helpers.ts (Timelock/Buffer),
--                and the tasks of tasks/dev/timeLock.ts (Timelock/Tasks)
--   Reserves     the functions of contracts/protocol/pool/PoolConfigurator.sol that set a reserve's
--                parameters (Reserves/Configurator), and the tasks of tasks/dev/reserveConfigurator.ts
--                (Reserves/Tasks)
--   Merkle       helpers/seaport-helpers/criteria.ts: the Merkle tree over the token ids of a Seaport
--                order with criteria, and the proofs of its leaves
--   Market       the tables of market-config: interest rate, auction and time lock strategies
--                (Market/Rates, Market/Auctions, Market/TimeLocks), the parameters of the reserves (Market/Params), and
--                the configuration of each network's market (Market/Common, Market/Configs); the
--                contract of a time lock strategy, contracts/misc/DefaultTimeLockStrategy.sol
--                (Market/Release)
--   Setup        helpers/init-helpers.ts and contracts/deployments/ReservesSetupHelper.sol: the
--                strategies that are at hand or deployed (Setup/Registry), the rows and inputs
--                (Setup/Init), the token implementations and the chunks (Setup/Tokens), and the
--                configuration of the reserves (Setup/Helper), over Reserves and Market
--   Upgrade      scripts/upgrade/pool.ts (Upgrade/Scripts) over the proxy of
--                contracts/protocol/libraries/paraspace-upgradeability/lib/ParaProxyLib.sol
--                (Upgrade/Proxy)
--   Oracles      helpers/oracles-helpers.ts: the price aggregators of the tokens
--   Network      helpers/misc-utils.ts, helpers/hardhat-constants.ts and helper-hardhat-config.ts: the
--                chain ids and the predicates on the network
--
-- A script is a function on the state of the chain with a record of what it sent, encoded or proposed.
-- A call that a contract rejects ends it: `none` in Ownership, where the process exits, and `thrown`
-- with the effects so far in the tasks. With DRY_RUN set, a script hands calls to `dryRunEncodedData`
-- in place of sending them. Ownership and Reserves take the `Way` of a call: live, kept, or raw, where
-- the mode `run` sends the encoded call at once in a raw transaction; `way_of` gives the way of a mode.
-- Kept calls are recorded as they are given; what becomes of them is Timelock/Buffer: an entry of the
-- buffer, a proposal to the Safe or a printed line. The dry runs of Setup and Upgrade are those that
-- keep the calls. In Timelock the time moves on with each transaction that is accepted.
--
-- What the models take as parameters: whether a contract accepts a call (`Accepts` in Ownership),
-- keccak256 and the encoders of ethers (`Codec`, and the two hashes of Merkle), whether the call of an
-- executed action succeeds, `utils.getAddress`, the addresses of deployments, whether the proxies of a
-- reserve's tokens can be created, and which addresses have code. Numbers are natural numbers, those of
-- the tables what their texts denote; the contract's sums of 256 bits revert where they do not fit, and the
-- pool's setters have the bounds of their bit fields. Loops are recursion on the list that the
-- source goes through. Only the loop that builds the layers of a Merkle tree takes fuel, the
-- number of leaves; each layer is about half as long as the one before, and the theorem on the tree
-- shows that it is enough. An address is text, and two addresses are the same if the texts are.
--
-- Not modelled: the deployment of contracts, the contracts' logic beyond those named, the marketplaces'
-- encoders, reading and writing files, and what is only printed. Gas, transaction fees and the time
-- that passes while a task only reads are left out, and so are executed actions whose call acts on the
-- time lock itself or comes back to it, and reserves that were dropped from the pool's list.
pub mod Prelude
pub mod Chunk
pub mod Ownership
pub mod Timelock
pub mod Reserves
pub mod Merkle
pub mod Market
pub mod Setup
pub mod Upgrade
pub mod Oracles
pub mod Network
