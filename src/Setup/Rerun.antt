-- ===== src/Setup/Rerun.antt =====
-- A second run of `configureReservesByHelper` after a complete one.
use paraspace_core.Prelude.{
  if◌then◌else◌, ◌==◌, String, str_eq, Bool, true, false, Option, none, some, List, [], ◌∷◌, ◌≡◌,
  ◌∙◌, refl, ap, inl, inr, Bool-cases, All, eq_refl,
}
use paraspace_core.Market.{ReserveParams}
use paraspace_core.Reserves.{Reserve, Pool}
use paraspace_core.Setup.{ConfigureReserveInput, World, Setting, address_of}
use paraspace_core.Setup.Helper.{
  to_input, is_skipped, already_enabled, add_input, collect_inputs, helper_access, submit_inputs,
  configure_reserves_by_helper,
}
use paraspace_core.Setup.Collected.{add_input-All}
use paraspace_core.Setup.Writes.{configured}
use paraspace_core.Setup.Configured.{loan, after, configure_all, IsReady}
use paraspace_core.Setup.Batches.{granted, submit_inputs-configures}

-- The reserve or the input Enables the asset as collateral.
abbrev Enables : ConfigureReserveInput → Type 0
Enables i = i.liquidation_threshold == 0 ≡ false

abbrev IsEnabled : Reserve → Type 0
IsEnabled r = r.liquidation_threshold == 0 ≡ false

configured-if :
    (b : Bool) (i : ConfigureReserveInput) (r : Reserve)
    → Enables i
    → IsEnabled r
    → IsEnabled (if b then configured i (loan i) r else r)
unfolding configured
configured-if true i r h e = h
configured-if false i r h e = e

after-stays :
    (inputs : List ConfigureReserveInput) (k : String) (r : Reserve)
    → All Enables inputs
    → IsEnabled r
    → IsEnabled (after inputs k r)
unfolding after
after-stays [] k r h e = e
after-stays (i ∷ rest) k r (h, hs) e =
    after-stays rest k (if str_eq k i.asset then configured i (loan i) r else r) hs
      (configured-if (str_eq k i.asset) i r h e)

-- Every reserve of the table is a collateral.
abbrev pub AllEnable : List (String × ReserveParams) → Type 0
AllEnable rows = All (λ row. (row.1).liquidation_threshold == 0 ≡ false) rows

collect_inputs-enable :
    (p : Pool) (tokens : List (String × String)) (rows : List (String × ReserveParams))
    → AllEnable rows
    → All Enables (collect_inputs p tokens rows)
unfolding collect_inputs
collect_inputs-enable p tokens [] h = tt
collect_inputs-enable p tokens ((symbol, r) ∷ rows) (h, hs) =
    add_input-All Enables p (address_of tokens symbol) r (collect_inputs p tokens rows)
      (λ token e. h) (collect_inputs-enable p tokens rows hs)

-- One more row leaves an enabled reserve enabled.
add_input-keeps :
    (p : Pool) (o : Option String) (r : ReserveParams) (others : List ConfigureReserveInput)
    (k : String) (x : Reserve)
    → r.liquidation_threshold == 0 ≡ false
    → All Enables others
    → IsEnabled (after others k x)
    → IsEnabled (after (add_input p o r others) k x)
unfolding configured after
add_input-keeps p none r others k x h hs e = e
add_input-keeps p (some token) r others k x h hs e = go (is_skipped r) (already_enabled p token)
  where
    own :
        (b : Bool)
        → IsEnabled (
            after others k
              (if b then configured (to_input token r) (loan (to_input token r)) x else x))
    own true = after-stays others k (configured (to_input token r) (loan (to_input token r)) x) hs h
    own false = e

    go :
        (b c : Bool)
        → IsEnabled
            (after (if b then others else if c then others else to_input token r ∷ others) k x)
    go true c = e
    go false true = e
    go false false = own (str_eq k token)

-- The row's own token is enabled.
add_input-Enables :
    (p : Pool) (token : String) (r : ReserveParams) (others : List ConfigureReserveInput)
    → is_skipped r ≡ false
    → r.liquidation_threshold == 0 ≡ false
    → All Enables others
    → IsEnabled (after (add_input p (some token) r others) token (p.reserve token))
unfolding configured after
add_input-Enables p token r others kept h hs =
    let i = to_input token r in
    let x = p.reserve token in
    elim (Bool-cases (x.liquidation_threshold == 0)) [
      | inr e ↦
          add_input-keeps p (some token) r others token x h hs (after-stays others token x hs e)
      | inl e ↦
          let own : IsEnabled (after others token (configured i (loan i) x)) =
            after-stays others token (configured i (loan i) x) hs h in
          rw (kept, e, eq_refl token) own
    ]

-- What a complete run leaves behind for a row of the table.
abbrev Settled :
    (String → Reserve → Reserve) → Pool → List (String × String) → String × ReserveParams → Type 0
Settled f p tokens row =
    (token : String)
    → address_of tokens row.0 ≡ some token
    → is_skipped row.1 ≡ false
    → IsEnabled (f token (p.reserve token))

Settled-later :
    (p : Pool) (tokens : List (String × String)) (o : Option String) (r : ReserveParams)
    (others : List ConfigureReserveInput) (rows : List (String × ReserveParams))
    → r.liquidation_threshold == 0 ≡ false
    → All Enables others
    → All (Settled (after others) p tokens) rows
    → All (Settled (after (add_input p o r others)) p tokens) rows
Settled-later p tokens o r others [] h hs k = tt
Settled-later p tokens o r others (row ∷ rows) h hs (k, ks) = (
  (λ token known kept.
      add_input-keeps p o r others token (p.reserve token) h hs (k token known kept)),
  Settled-later p tokens o r others rows h hs ks,
)

collect_inputs-settles :
    (p : Pool) (tokens : List (String × String)) (rows : List (String × ReserveParams))
    → AllEnable rows
    → All (Settled (after (collect_inputs p tokens rows)) p tokens) rows
unfolding collect_inputs
collect_inputs-settles p tokens [] h = tt
collect_inputs-settles p tokens ((symbol, r) ∷ rows) (h, hs) =
    let others = collect_inputs p tokens rows in
    let rest = collect_inputs-enable p tokens rows hs in
    (
      (λ token known kept. rw known (add_input-Enables p token r others kept h rest)),
      Settled-later p tokens (address_of tokens symbol) r others rows h rest
          (collect_inputs-settles p tokens rows hs),
    )

Settled-nothing :
    (q : Pool) (tokens : List (String × String)) (rows : List (String × ReserveParams))
    → All (Settled (λ k x. x) q tokens) rows
    → collect_inputs q tokens rows ≡ []
unfolding collect_inputs
Settled-nothing q tokens [] h = refl
Settled-nothing q tokens ((symbol, r) ∷ rows) (h, hs) =
    ap (add_input q (address_of tokens symbol) r) (Settled-nothing q tokens rows hs)
    ∙ nothing (address_of tokens symbol) h
  where
    nothing :
        (o : Option String)
        → ((token : String) → o ≡ some token → is_skipped r ≡ false → IsEnabled (q.reserve token))
        → add_input q o r [] ≡ []
    nothing none h = refl
    nothing (some token) h = elim (Bool-cases (is_skipped r)) [
      | inl t ↦ rw t refl
      | inr t ↦ rw (t, h token refl t) refl
    ]

-- Where every reserve of a table is to be a collateral, a second run over the table, on the pool
-- that the first run's inputs leave, finds nothing to configure.
pub collect_inputs-rerun :
    (p : Pool) (tokens : List (String × String)) (rows : List (String × ReserveParams))
    → AllEnable rows
    → collect_inputs (configure_all (collect_inputs p tokens rows) p) tokens rows ≡ []
collect_inputs-rerun p tokens rows h =
    Settled-nothing (configure_all (collect_inputs p tokens rows) p) tokens rows
      (collect_inputs-settles p tokens rows h)

-- Where the configurator accepts every input and every reserve of the table is to be a collateral,
-- a live run by the owner of the helper contract who administers the roles comes to its end, and
-- the same run again from there changes nothing.
pub configure_reserves_by_helper-again :
    (s : Setting) (rows : List (String × ReserveParams)) (tokens : List (String × String))
    (w : World)
    → s.dry_run ≡ false
    → s.administers_roles ≡ true
    → str_eq s.signer s.helper_owner ≡ true
    → All
        (IsReady (helper_access s (granted s w).pool_admins) w.pool)
        (collect_inputs w.pool tokens rows)
    → AllEnable rows
    → (v : World) × (configure_reserves_by_helper s rows tokens w ≡ some v)
      × (configure_reserves_by_helper s rows tokens v ≡ some v)
unfolding configure_reserves_by_helper submit_inputs
configure_reserves_by_helper-again s rows tokens w live roles owned ready enabled =
    let inputs = collect_inputs w.pool tokens rows in
    let run = submit_inputs-configures s inputs w live roles owned ready in
    let v = run.0 in
    let none_left : collect_inputs v.pool tokens rows ≡ [] =
      ap (λ p. collect_inputs p tokens rows) run.2
      ∙ collect_inputs-rerun w.pool tokens rows enabled in
    (v, run.1, ap (λ l. submit_inputs s l v) none_left)
