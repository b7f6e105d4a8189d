-- ===== src/Ownership/Outcome.antt =====
-- What the hand-over leaves behind on the chain when it runs to its end.
use paraspace_core.Prelude.{
  if◌then◌else◌, String, Bool, true, false, not, some, List, [], ◌∷◌, ◌++◌, ◌≡◌, ◌≢◌, refl, sym, ap,
  subst, fun_ext, ◌∙◌, inl, inr, Bool-cases, arith, str_eq, eq_iff, eq_refl, All, All-append,
}
use paraspace_core.Timelock.{live}
use paraspace_core.Ownership.{
  addresses_provider_registry, addresses_provider, acl_manager, reserves_setup_helper,
  conduit_controller, zone_controller, weth_gateway, wpunk_gateway, yape, cape, p2p_pair_staking,
  helper_contract, time_lock, nft_floor_oracle, Target, Role, default_admin, pool_admin,
  asset_listing_admin, risk_admin, Call, transfer_ownership, set_acl_admin, change_admin,
  conduit_ownership, add_pool_admin, remove_pool_admin, add_asset_listing_admin,
  remove_asset_listing_admin, add_risk_admin, remove_risk_admin, grant_role, revoke_role, Accepts,
  Tx, tx, State, same, set_role, Script, apply,
}
use paraspace_core.Ownership.Steps.{Admins, Deployment, step_23}
use paraspace_core.Ownership.Broadcast.{send_all-eq-some, apply_all}
use paraspace_core.Ownership.Plans.{
  provider_plan, conduit_plan, acl_plan, late_plan, rest_plan, plan,
}
use paraspace_core.Ownership.Handover.{step_23_sends}

apply_all-append :
    (xs ys : List Tx) (s : State) → apply_all (xs ++ ys) s ≡ apply_all ys (apply_all xs s)
unfolding apply_all
apply_all-append [] ys s = refl
apply_all-append (x ∷ xs) ys s = apply_all-append xs ys (apply x.target x.call s)

-- One contract's part of the state.
record View : Type 0 where
  roles : Role → String → Bool
  owner : String
  potential_owner : String
  proxy_admin : String
  acl_admin : String

abbrev view : Target → State → View
view t s = record {
  roles = s.roles t;
  owner = s.owner t;
  potential_owner = s.potential_owner t;
  proxy_admin = s.proxy_admin t;
  acl_admin = s.acl_admin t;
}

abbrev Avoids : Target → List Tx → Type 0
Avoids t xs = All (λ x. same t x.target ≡ false) xs

view-set_role :
    (t u : Target) (r : Role) (a : String) (b : Bool) (s : State)
    → same t u ≡ false
    → view t (record s { roles = set_role u r a b s.roles }) ≡ view t s
view-set_role t u r a b s h =
    let kept : set_role u r a b s.roles t ≡ s.roles t = fun_ext λ q. fun_ext λ x. rw h in
    ap (λ (f : Role → String → Bool). record (view t s) { roles = f }) kept

view-apply :
    (t u : Target) (c : Call) (s : State) → same t u ≡ false → view t (apply u c s) ≡ view t s
unfolding apply
view-apply t u (transfer_ownership a) s h = elim (Bool-cases (same u zone_controller)) [
  | inl e ↦ rw e (rw h)
  | inr e ↦ rw e (rw h)
]
view-apply t u (set_acl_admin a) s h = rw h
view-apply t u (change_admin a) s h = rw h
view-apply t u (conduit_ownership c a) s h = rw h
view-apply t u (add_pool_admin a) s h = view-set_role t u pool_admin a true s h
view-apply t u (remove_pool_admin a) s h = view-set_role t u pool_admin a false s h
view-apply t u (add_asset_listing_admin a) s h = view-set_role t u asset_listing_admin a true s h
view-apply t u (remove_asset_listing_admin a) s h =
    view-set_role t u asset_listing_admin a false s h
view-apply t u (add_risk_admin a) s h = view-set_role t u risk_admin a true s h
view-apply t u (remove_risk_admin a) s h = view-set_role t u risk_admin a false s h
view-apply t u (grant_role r a) s h = view-set_role t u r a true s h
view-apply t u (revoke_role r a) s h = view-set_role t u r a false s h

view-apply_all :
    (t : Target) (xs : List Tx) (s : State) → Avoids t xs → view t (apply_all xs s) ≡ view t s
unfolding apply_all
view-apply_all t [] s h = refl
view-apply_all t (x ∷ xs) s (h, k) =
    view-apply_all t xs (apply x.target x.call s) k ∙ view-apply t x.target x.call s h

-- What is done stays done while later calls go to other contracts.
settled :
    (t : Target) (xs ys : List Tx) (s : State)
    → Avoids t ys
    → view t (apply_all (xs ++ ys) s) ≡ view t (apply_all xs s)
settled t xs ys s h =
    ap (view t) (apply_all-append xs ys s) ∙ view-apply_all t ys (apply_all xs s) h

Avoids-guarded :
    (t : Target) (b : Bool) (xs : List Tx) → Avoids t xs → Avoids t (if b then xs else [])
Avoids-guarded t true xs h = h
Avoids-guarded t false xs h = tt

-- The contracts that the last sections do not touch.
abbrev IsEarly : Target → Type 0
IsEarly t =
    (same t weth_gateway ≡ false)
    × (same t wpunk_gateway ≡ false)
    × (same t yape ≡ false)
    × (same t cape ≡ false)
    × (same t p2p_pair_staking ≡ false)
    × (same t helper_contract ≡ false)
    × (same t time_lock ≡ false)
    × (same t nft_floor_oracle ≡ false)

late-Avoids :
    (t : Target) (d : Deployment) (admins : Admins) (emergency old : String)
    → IsEarly t
    → Avoids t (late_plan d admins emergency old)
late-Avoids t d admins emergency old (a, b, c, e, f, g, h, k) =
    let P = λ (x : Tx). same t x.target ≡ false in
    let differs = not (str_eq admins.gateway_admin admins.para_space_admin) in
    All-append P _ _ (Avoids-guarded t (d.in_db weth_gateway) _ (a, tt)) (
      All-append P _ _ (Avoids-guarded t (d.in_db wpunk_gateway) _ (b, tt)) (
        All-append P _ _ (Avoids-guarded t (d.in_db yape) _ (c, tt)) (
          All-append P _ _ (Avoids-guarded t (d.in_db cape) _ (e, tt)) (
            All-append P _ _
              (Avoids-guarded t (d.in_db p2p_pair_staking) _
                (f, Avoids-guarded t differs _ (f, tt)))
              (All-append P _ _
                (Avoids-guarded t (d.in_db helper_contract) _
                  (g, Avoids-guarded t differs _ (g, tt)))
                (All-append P _ _ (Avoids-guarded t (d.in_db time_lock) _ (h, tt))
                  (Avoids-guarded t (d.in_db nft_floor_oracle) _ (k, (k, (k, (k, tt)))))))))))

pub record HasAclRoles (roles : Role → String → Bool) (new old risk : String) : Type 0 where
  pub new_default : roles default_admin new ≡ true
  pub new_pool : roles pool_admin new ≡ true
  pub new_listing : roles asset_listing_admin new ≡ true
  pub risk_held : roles risk_admin risk ≡ true
  pub old_default : roles default_admin old ≡ false
  pub old_pool : roles pool_admin old ≡ false
  pub old_listing : roles asset_listing_admin old ≡ false
  pub old_risk : roles risk_admin old ≡ false

acl-HasAclRoles :
    (b c d e : Bool) (new old risk : String) (s : State)
    → old ≢ new
    → risk ≢ old
    → s.roles acl_manager asset_listing_admin new ≡ b
    → s.roles acl_manager asset_listing_admin old ≡ c
    → s.roles acl_manager risk_admin risk ≡ d
    → s.roles acl_manager risk_admin old ≡ e
    → HasAclRoles ((apply_all (acl_plan b c d e new old risk) s).roles acl_manager) new old risk
unfolding apply_all apply
acl-HasAclRoles b c d e new old risk s h k p q r w = ground (
  arith,
  eq_iff old new,
  eq_iff new old,
  eq_iff risk old,
  eq_iff old risk,
  eq_refl new,
  eq_refl old,
  eq_refl risk,
)

acl-Avoids :
    (t : Target) (b c d e : Bool) (new old risk : String)
    → same t acl_manager ≡ false
    → Avoids t (acl_plan b c d e new old risk)
acl-Avoids t b c d e new old risk h =
    let P = λ (x : Tx). same t x.target ≡ false in
    (
      h,
      (
        h,
        All-append P _ _ (Avoids-guarded t (not b) _ (h, tt)) (
            All-append P _ _ (Avoids-guarded t c _ (h, tt)) (
              All-append P _ _ (Avoids-guarded t (not d) _ (h, tt))
                (All-append P _ _ (Avoids-guarded t e _ (h, tt)) (h, (h, tt))))),
      ),
    )

-- The chain after the hand-over.
pub record IsHandedOver (s : State) (new old risk : String) : Type 0 where
  pub acl : HasAclRoles (s.roles acl_manager) new old risk
  pub registry_owner : s.owner addresses_provider_registry ≡ new
  pub provider_owner : s.owner addresses_provider ≡ new
  pub provider_acl_admin : s.acl_admin addresses_provider ≡ new
  pub helper_owner : s.owner reserves_setup_helper ≡ new
  pub conduit_successor : s.potential_owner conduit_controller ≡ new
  pub zone_successor : s.potential_owner zone_controller ≡ new

module _ (d : Deployment) (admins : Admins) (emergency old : String) (s : State) where
  open admins use {para_space_admin as new, risk_admin as risk}

  roles_plan : List Tx
  roles_plan =
      acl_plan (s.roles acl_manager asset_listing_admin new)
        (s.roles acl_manager asset_listing_admin old) (s.roles acl_manager risk_admin risk)
        (s.roles acl_manager risk_admin old) new old risk

  provided : State
  provided = apply_all (provider_plan new) s

  finished : State
  finished = apply_all (plan s.roles d admins emergency old) s

  provider_settled :
      (t : Target)
      → IsEarly t
      → same t acl_manager ≡ false
      → same t reserves_setup_helper ≡ false
      → same t conduit_controller ≡ false
      → same t zone_controller ≡ false
      → view t finished ≡ view t provided
  unfolding finished provided roles_plan plan
  provider_settled t e a p q r =
      let P = λ (x : Tx). same t x.target ≡ false in
      let rest : Avoids t (rest_plan d admins emergency old) =
        (p, (q, (r, late-Avoids t d admins emergency old e))) in
      settled t (provider_plan new) (roles_plan ++ rest_plan d admins emergency old) s (
        All-append P roles_plan (rest_plan d admins emergency old)
          (acl-Avoids t _ _ _ _ new old risk a) rest)

  roles_settled : view acl_manager finished ≡ view acl_manager (apply_all roles_plan provided)
  unfolding finished provided roles_plan plan apply_all
  roles_settled = settled acl_manager roles_plan (rest_plan d admins emergency old) provided (
    refl,
    (
      refl,
      (
        refl,
        late-Avoids acl_manager d admins emergency old
            (refl, refl, refl, refl, refl, refl, refl, refl),
      ),
    ),
  )

  -- The three calls between the role changes and the contracts that a deployment may lack.
  core_plan : List Tx
  core_plan = tx reserves_setup_helper (transfer_ownership new) ∷ conduit_plan d.conduit new

  core_settled :
      (t : Target)
      → IsEarly t
      → view t finished ≡ view t (apply_all core_plan (apply_all roles_plan provided))
  unfolding finished provided roles_plan core_plan plan apply_all
  core_settled t e =
      ap (view t) (apply_all-append roles_plan (rest_plan d admins emergency old) provided)
      ∙ settled t core_plan (late_plan d admins emergency old) (apply_all roles_plan provided)
          (late-Avoids t d admins emergency old e)

  plan-IsHandedOver : old ≢ new → risk ≢ old → IsHandedOver finished new old risk
  unfolding provided roles_plan core_plan apply_all apply
  plan-IsHandedOver h k = record {
    acl =
        subst (λ r. HasAclRoles r new old risk) (sym (ap (λ (v : View). v.roles) roles_settled))
          (acl-HasAclRoles _ _ _ _ new old risk provided h k refl refl refl refl);
    registry_owner =
        ap (λ (v : View). v.owner)
          (provider_settled addresses_provider_registry
            (refl, refl, refl, refl, refl, refl, refl, refl) refl refl refl refl);
    provider_owner =
        ap (λ (v : View). v.owner)
          (provider_settled addresses_provider (refl, refl, refl, refl, refl, refl, refl, refl) refl
            refl refl refl);
    provider_acl_admin =
        ap (λ (v : View). v.acl_admin)
          (provider_settled addresses_provider (refl, refl, refl, refl, refl, refl, refl, refl) refl
            refl refl refl);
    helper_owner =
        ap (λ (v : View). v.owner)
          (core_settled reserves_setup_helper (refl, refl, refl, refl, refl, refl, refl, refl));
    conduit_successor =
        ap (λ (v : View). v.potential_owner)
          (core_settled conduit_controller (refl, refl, refl, refl, refl, refl, refl, refl));
    zone_successor =
        ap (λ (v : View). v.potential_owner)
          (core_settled zone_controller (refl, refl, refl, refl, refl, refl, refl, refl));
  }

-- A run of the step outside a dry run that ends without an exception has sent every call of `plan`,
-- in order. Then the new administrator owns the registry and the addresses provider, is its ACL
-- admin, owns the setup helper, is the successor to be accepted by the conduit and zone controllers,
-- and holds the default, pool and asset-listing admin roles; the risk administrator holds the risk
-- role; and the old administrator, the provider's owner before, holds none of these roles. It is
-- asked that the old administrator differs from both, and that there is an emergency administrator.
pub step_23-IsHandedOver :
    (accepts : Accepts) (d : Deployment) (admins : Admins) (emergency : String)
    (others : List String) (s t : Script)
    → s.state.owner addresses_provider ≢ admins.para_space_admin
    → admins.risk_admin ≢ s.state.owner addresses_provider
    → admins.emergency_admins ≡ emergency ∷ others
    → step_23 live accepts d admins s ≡ some t
    → IsHandedOver t.state admins.para_space_admin
        (s.state.owner addresses_provider)
        admins.risk_admin
      × (t.sent
          ≡ s.sent ++ plan s.state.roles d admins emergency (s.state.owner addresses_provider))
unfolding finished
step_23-IsHandedOver accepts d admins emergency others s t h k e ended =
    let old = s.state.owner addresses_provider in
    let sends = step_23_sends accepts d admins emergency others s h k e in
    let (reached, sent) =
      send_all-eq-some accepts (plan s.state.roles d admins emergency old) s t
        (sym sends ∙ ended) in
    (
      subst (λ u. IsHandedOver u admins.para_space_admin old admins.risk_admin) (sym reached)
          (plan-IsHandedOver d admins emergency old s.state h k),
      sent,
    )
