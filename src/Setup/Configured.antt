-- ===== src/Setup/Configured.antt =====
-- The helper contract's calls, one after the other, amount to one update of the reserves.
use paraspace_core.Prelude.{
  if◌then◌else◌, ℕ, String, str_eq, true, some, List, [], ◌∷◌, ◌>>=◌, pos, negsuc, ◌≡◌, ◌∙◌, refl,
  ap, All,
}
use paraspace_core.Reserves.{Reserve, Pool, Access}
use paraspace_core.Setup.{ConfigureReserveInput}
use paraspace_core.Setup.Helper.{configure_reserve, configure_loop}
use paraspace_core.Setup.Writes.{
  write, IsAcceptable, HasReserve, configured, write-HasReserve, to_uint-pos,
  configure_reserve-writes,
}

-- The loan to value that is encoded.
abbrev pub loan : ConfigureReserveInput → ℕ
loan i = elim (i.base_ltv) [ pos n ↦ n | negsuc n ↦ 0 ]

-- A reserve after a batch: every input for its address applies, in order.
unfoldable pub after : List ConfigureReserveInput → String → Reserve → Reserve
after [] k r = r
after (i ∷ rest) k r = after rest k (if str_eq k i.asset then configured i (loan i) r else r)

abbrev pub configure_all : List ConfigureReserveInput → Pool → Pool
configure_all inputs p = record p { reserve = λ k. after inputs k (p.reserve k) }

abbrev pub IsReady : Access → Pool → ConfigureReserveInput → Type 0
IsReady acl p i = HasReserve p i.asset × IsAcceptable acl i (loan i)

still-IsReady :
    (acl : Access) (a : String) (f : Reserve → Reserve) (p : Pool)
    (inputs : List ConfigureReserveInput)
    → All (IsReady acl p) inputs
    → All (IsReady acl (write a f p)) inputs
still-IsReady acl a f p [] h = tt
still-IsReady acl a f p (i ∷ rest) ((h, ok), hs) =
    ((write-HasReserve a i.asset f p h, ok), still-IsReady acl a f p rest hs)

-- Where the helper is a pool admin, every input has a reserve and the configurator accepts its
-- numbers, the calls of the helper contract all succeed, and leave every reserve as one simultaneous update
-- does: as the inputs for its address describe it.
pub configure_loop-refines :
    (acl : Access) (inputs : List ConfigureReserveInput) (p : Pool)
    → acl.is_pool_admin ≡ true
    → All (IsReady acl p) inputs
    → configure_loop acl inputs p ≡ some (configure_all inputs p)
unfolding configure_loop after
configure_loop-refines acl [] p admin h = refl
configure_loop-refines acl (i ∷ rest) p admin ((h, ok), hs) =
    ap (λ m. m >>= configure_loop acl rest)
      (to_uint-pos i.base_ltv (loan i) (λ n. configure_reserve acl i n p) ok.is_loan
        ∙ configure_reserve-writes acl i (loan i) p admin h ok)
    ∙ configure_loop-refines acl rest (write i.asset (configured i (loan i)) p) admin
        (still-IsReady acl i.asset (configured i (loan i)) p rest hs)
