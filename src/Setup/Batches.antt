-- ===== src/Setup/Batches.antt =====
-- The run of `configureReservesByHelper`: its batches, the role it lends to the helper contract, and
-- a second run.
use paraspace_core.Prelude.{
  if◌then◌else◌, String, str_eq, Bool, true, false, Option, none, some, List, [], ◌∷◌, ◌++◌, ◌>>=◌,
  ◌≡◌, ◌∙◌, refl, sym, ap, subst, fun_ext, inl, inr, Bool-cases, All, concat, eq_iff, eq_refl,
  arith,
}
use paraspace_core.Chunk.{chunk}
use paraspace_core.Chunk.Laws.{concat-chunk}
use paraspace_core.Market.{ReserveParams}
use paraspace_core.Reserves.{Reserve, Pool, Access}
use paraspace_core.Reserves.Configurator.{guard}
use paraspace_core.Setup.{
  SetupCall, ConfigureReserveInput, World, Setting, add_pool_admin, remove_pool_admin,
  configure_reserves_call,
}
use paraspace_core.Setup.Helper.{
  helper_access, configure_loop, caught, is_encodable, configure_chunk, configure_chunks, encode,
  change_admin, submit_inputs, collect_inputs, configure_reserves_by_helper, enable_chunks,
}
use paraspace_core.Setup.Writes.{configured}
use paraspace_core.Setup.Configured.{after, loan, configure_all, IsReady, configure_loop-refines}

pub All-split {ℓ κ} :
    {A : Type ℓ} (P : A → Type κ) (xs ys : List A) → All P (xs ++ ys) → All P xs × All P ys
All-split P [] ys h = (tt, h)
All-split P (x ∷ xs) ys (p, h) = let t = All-split P xs ys h in ((p, t.0), t.1)

after-append :
    (xs ys : List ConfigureReserveInput) (k : String) (r : Reserve)
    → after (xs ++ ys) k r ≡ after ys k (after xs k r)
unfolding after
after-append [] ys k r = refl
after-append (i ∷ xs) ys k r =
    after-append xs ys k (if str_eq k i.asset then configured i (loan i) r else r)

configure_all-append :
    (xs ys : List ConfigureReserveInput) (p : Pool)
    → configure_all ys (configure_all xs p) ≡ configure_all (xs ++ ys) p
configure_all-append xs ys p =
    ap (λ m. record p { reserve = m }) (fun_ext (λ k. sym (after-append xs ys k (p.reserve k))))

configure_all-IsReady :
    (acl : Access) (xs ys : List ConfigureReserveInput) (p : Pool)
    → All (IsReady acl p) ys
    → All (IsReady acl (configure_all xs p)) ys
configure_all-IsReady acl xs [] p h = tt
configure_all-IsReady acl xs (i ∷ ys) p ((h, ok), hs) =
    ((record { nonzero = h.nonzero; listed = h.listed }, ok), configure_all-IsReady acl xs ys p hs)

module _ (s : Setting) (live : s.dry_run ≡ false)
    (owned : str_eq s.signer s.helper_owner ≡ true) where
  configure_chunk-sets :
      (inputs : List ConfigureReserveInput) (w : World)
      → w.pool_admins s.helper ≡ true
      → All (IsReady (helper_access s w.pool_admins) w.pool) inputs
      → configure_chunk s inputs w ≡ record w { pool = configure_all inputs w.pool }
  unfolding configure_chunk
  configure_chunk-sets inputs w admin h =
      rw (live, owned, configure_loop-refines (helper_access s w.pool_admins) inputs w.pool admin h)
        refl

  configure_chunks-sets :
      (chunks : List (List ConfigureReserveInput)) (w : World)
      → w.pool_admins s.helper ≡ true
      → All (IsReady (helper_access s w.pool_admins) w.pool) (concat chunks)
      → configure_chunks s chunks w ≡ record w { pool = configure_all (concat chunks) w.pool }
  unfolding configure_chunks after
  configure_chunks-sets [] w admin h = refl
  configure_chunks-sets (inputs ∷ chunks) w admin h =
      let parts =
        All-split (IsReady (helper_access s w.pool_admins) w.pool) inputs (concat chunks) h in
      let v = record w { pool = configure_all inputs w.pool } in
      ap (configure_chunks s chunks) (configure_chunk-sets inputs w admin parts.0)
      ∙ configure_chunks-sets chunks v admin (
          configure_all-IsReady (helper_access s w.pool_admins) inputs (concat chunks) w.pool
            parts.1)
      ∙ ap (λ p. record w { pool = p }) (configure_all-append inputs (concat chunks) w.pool)

-- The chain while the helper contract is a pool admin.
abbrev pub granted : Setting → World → World
granted s w = record w { pool_admins = λ a. if str_eq a s.helper then true else w.pool_admins a }

given_back :
    (helper : String) (admins : String → Bool)
    → admins helper ≡ false
    → (a : String)
    → (if str_eq a helper then false else (if str_eq a helper then true else admins a)) ≡ admins a
given_back helper admins h a = elim (Bool-cases (str_eq a helper)) [
  | inl t ↦ let e : a ≡ helper = (eq_iff a helper).0 t in rw (t, e) (sym h)
  | inr t ↦ rw t refl
]

configure_chunk-admins :
    (s : Setting) (inputs : List ConfigureReserveInput) (w : World)
    → (configure_chunk s inputs w).pool_admins ≡ w.pool_admins
unfolding configure_chunk
configure_chunk-admins s inputs w = elim (Bool-cases s.dry_run) [
  | inl t ↦ rw t (encoded (is_encodable inputs))
  | inr t ↦ rw t (
      kept (str_eq s.signer s.helper_owner)
        (configure_loop (helper_access s w.pool_admins) inputs w.pool))
]
  where
    encoded :
        (b : Bool)
        → (caught w (guard b (some (encode (configure_reserves_call inputs) w)))).pool_admins
          ≡ w.pool_admins
    encoded false = refl
    encoded true = refl

    kept :
        (b : Bool) (o : Option Pool)
        → (caught w (guard b (o >>= (λ p. some (record w { pool = p }))))).pool_admins
          ≡ w.pool_admins
    kept false o = refl
    kept true none = refl
    kept true (some p) = refl

configure_chunks-admins :
    (s : Setting) (chunks : List (List ConfigureReserveInput)) (w : World)
    → (configure_chunks s chunks w).pool_admins ≡ w.pool_admins
unfolding configure_chunks
configure_chunks-admins s [] w = refl
configure_chunks-admins s (inputs ∷ chunks) w =
    configure_chunks-admins s chunks (configure_chunk s inputs w)
    ∙ configure_chunk-admins s inputs w

abbrev pub SameAdmins : World → World → Type 0
SameAdmins w v = (a : String) → v.pool_admins a ≡ w.pool_admins a

abbrev admin_call : Setting → Bool → SetupCall
admin_call s b = if b then add_pool_admin s.helper else remove_pool_admin s.helper

change_admin-dry :
    (s : Setting) (b : Bool) (w : World)
    → s.dry_run ≡ true
    → change_admin s b w ≡ some (encode (admin_call s b) w)
change_admin-dry s b w h = rw h refl

abbrev with_role : Setting → Bool → World → World
with_role s b w = record w { pool_admins = λ a. if str_eq a s.helper then b else w.pool_admins a }

change_admin-live :
    (s : Setting) (b : Bool) (w : World)
    → s.dry_run ≡ false
    → s.administers_roles ≡ true
    → change_admin s b w ≡ some (with_role s b w)
change_admin-live s b w h roles = rw (h, roles) refl

module _ (s : Setting) (i : ConfigureReserveInput) (inputs : List ConfigureReserveInput)
    (w : World) where
  abbrev chunks_of : List (List ConfigureReserveInput)
  chunks_of = chunk (i ∷ inputs) enable_chunks

  submit_inputs-dry :
      s.dry_run ≡ true
      → submit_inputs s (i ∷ inputs) w
        ≡ some (
            encode
              (admin_call s false)
              (configure_chunks s chunks_of (encode (admin_call s true) w)))
  unfolding submit_inputs
  submit_inputs-dry h =
      ap (λ m. m >>= (λ v. some (configure_chunks s chunks_of v)) >>= change_admin s false)
        (change_admin-dry s true w h)
      ∙ change_admin-dry s false (configure_chunks s chunks_of (encode (admin_call s true) w)) h

  submit_inputs-live :
      s.dry_run ≡ false
      → s.administers_roles ≡ true
      → submit_inputs s (i ∷ inputs) w
        ≡ some (with_role s false (configure_chunks s chunks_of (granted s w)))
  unfolding submit_inputs
  submit_inputs-live h roles =
      ap (λ m. m >>= (λ v. some (configure_chunks s chunks_of v)) >>= change_admin s false)
        (change_admin-live s true w h roles)
      ∙ change_admin-live s false (configure_chunks s chunks_of (granted s w)) h roles

pub submit_inputs-admins :
    (s : Setting) (inputs : List ConfigureReserveInput) (w : World)
    → s.administers_roles ≡ true
    → w.pool_admins s.helper ≡ false
    → (v : World) × (submit_inputs s inputs w ≡ some v) × SameAdmins w v
unfolding submit_inputs
submit_inputs-admins s [] w roles outside = (w, refl, λ a. refl)
submit_inputs-admins s (i ∷ inputs) w roles outside = elim (Bool-cases s.dry_run) [
  | inl t ↦ (
    encode (admin_call s false)
        (configure_chunks s (chunks_of s i inputs w) (encode (admin_call s true) w)),
    submit_inputs-dry s i inputs w t,
    λ a.
        ap (λ m. m a)
          (configure_chunks-admins s (chunks_of s i inputs w) (encode (admin_call s true) w)),
  )
  | inr t ↦ (
    with_role s false (configure_chunks s (chunks_of s i inputs w) (granted s w)),
    submit_inputs-live s i inputs w t roles,
    λ a.
        ap (λ m. if str_eq a s.helper then false else m a)
          (configure_chunks-admins s (chunks_of s i inputs w) (granted s w))
        ∙ given_back s.helper w.pool_admins outside a,
  )
]

-- Where the signer administers the roles and the helper contract is no pool admin, the configuration
-- of any reserves comes to its end, live or dry, also when batches fail, and no account is a pool
-- admin that was not one before, nor the other way round.
pub configure_reserves_by_helper-lends :
    (s : Setting) (reserves : List (String × ReserveParams)) (tokens : List (String × String))
    (w : World)
    → s.administers_roles ≡ true
    → w.pool_admins s.helper ≡ false
    → (v : World) × (configure_reserves_by_helper s reserves tokens w ≡ some v) × SameAdmins w v
unfolding configure_reserves_by_helper
configure_reserves_by_helper-lends s reserves tokens w roles outside =
    submit_inputs-admins s (collect_inputs w.pool tokens reserves) w roles outside

pub submit_inputs-configures :
    (s : Setting) (inputs : List ConfigureReserveInput) (w : World)
    → s.dry_run ≡ false
    → s.administers_roles ≡ true
    → str_eq s.signer s.helper_owner ≡ true
    → All (IsReady (helper_access s (granted s w).pool_admins) w.pool) inputs
    → (v : World) × (submit_inputs s inputs w ≡ some v) × (v.pool ≡ configure_all inputs w.pool)
unfolding submit_inputs after
submit_inputs-configures s [] w live roles owned h = (w, refl, refl)
submit_inputs-configures s (i ∷ inputs) w live roles owned h =
    let chunks = chunk (i ∷ inputs) enable_chunks in
    let whole : concat chunks ≡ i ∷ inputs =
      concat-chunk enable_chunks (i ∷ inputs) (omega arith) in
    let g = granted s w in
    let admin : g.pool_admins s.helper ≡ true = rw (eq_refl s.helper) refl in
    let ready : All (IsReady (helper_access s g.pool_admins) g.pool) (concat chunks) =
      subst (All (IsReady (helper_access s g.pool_admins) g.pool)) (sym whole) h in
    (
      with_role s false (configure_chunks s chunks g),
      submit_inputs-live s i inputs w live roles,
      ap (λ v. v.pool) (configure_chunks-sets s live owned chunks g admin ready)
          ∙ ap (λ l. configure_all l w.pool) whole,
    )
