-- ===== src/Setup/Collected.antt =====
-- What the loop of `configureReservesByHelper` collects.
use paraspace_core.Prelude.{
  if◌then◌else◌, String, Bool, true, false, Option, none, some, List, ◌∷◌, ◌≡◌, refl, All,
}
use paraspace_core.Market.{ReserveParams}
use paraspace_core.Reserves.{Pool}
use paraspace_core.Setup.{ConfigureReserveInput}
use paraspace_core.Setup.Helper.{to_input, is_skipped, already_enabled, add_input}

-- A row adds nothing or its own input.
pub add_input-All :
    (P : ConfigureReserveInput → Type 0) (p : Pool) (o : Option String) (r : ReserveParams)
    (others : List ConfigureReserveInput)
    → ((token : String) → o ≡ some token → P (to_input token r))
    → All P others
    → All P (add_input p o r others)
add_input-All P p none r others here rest = rest
add_input-All P p (some token) r others here rest = choose (is_skipped r) (already_enabled p token)
  where
    choose :
        (b c : Bool) → All P (if b then others else if c then others else to_input token r ∷ others)
    choose true c = rest
    choose false true = rest
    choose false false = (here token refl, rest)
