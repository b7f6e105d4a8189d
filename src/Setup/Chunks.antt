-- ===== src/Setup/Chunks.antt =====
-- The chunks of reserves that `initReservesByHelper` sends: none ends the script.
use paraspace_core.Prelude.{ℕ, String, Bool, true, ◌&&◌, List, [], ◌∷◌, ◌++◌, ◌≡◌}
use paraspace_core.Setup.Init.{XTokenType, InitReserveInput}
use paraspace_core.Setup.Tokens.{Chain, Progress}
use paraspace_core.Setup.Fillings.{are_inputs_ready, symbols, assets}

module _ (chain : Chain) (impl_at : ℕ → String) (type_of : String → XTokenType) where
  -- Chunk after chunk, what an implementation needs is among the tokens of the chunks before.
  abbrev pub are_in_order : List String → List (List InitReserveInput) → Bool
  are_in_order tokens [] = true
  are_in_order tokens (inputs ∷ rest) =
      are_inputs_ready chain impl_at type_of tokens inputs
      && are_in_order (tokens ++ symbols chain impl_at type_of inputs) rest

  -- The tokens and assets chain impl_at type_of that the chain has after the reserves.
  abbrev pub AreInitialised : List InitReserveInput → Progress → Progress → Type 0
  AreInitialised inputs p q =
      (q.x_tokens ≡ p.x_tokens ++ symbols chain impl_at type_of inputs)
      × (q.listed ≡ p.listed ++ assets chain impl_at type_of inputs)
