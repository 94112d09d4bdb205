-- ===== src/Subscriptions/Gates.antt =====
-- What the gates of a subscription let through.
use Prim.Native.String.{String}
use svforb.Common.{
  ℕ, ◌≡◌, ◌↔◌, ◌⊎◌, ◌<◌, inl, inr, true, false, not, ◌||◌, Option, none, some, List, ◌==◌, ok,
  is_ok, arith, Option-cases, Bool-cases,
}
use svforb.Prisma.{OrgType}
use svforb.Store.{Db, SiteAccess}
use svforb.Claims.{Caller}
use svforb.Subscriptions.{
  SubscriptionStatus, trialing, Method, get, head, options, Subscription, get_entitlements,
  unlimited_free, without_plan, with_plan, subscription_of, assert_entitled, assert_can_add_site,
  assert_can_add_user_to_site, assert_feature, has_feature, RequestContext, intercept,
  requires_billing, is_free_forever, billable, free_forever, entitling, is_safe, count_where,
  is_site_of,
}

-- Every type of organisation is either free for ever or has to have a plan.
free_or_billable : (t : OrgType) → free_forever t ≡ not (billable t)
unfolding free_forever billable
free_or_billable t = ground arith

-- The subscription that a caller's organisation needs, if it needs one.
pub data Standing (caller : Caller) (subs : List Subscription) : Type 0 where
  free :
      (requires_billing caller.org_type ≡ false) ⊎ (caller.org_id ≡ none)
      → get_entitlements caller subs ≡ unlimited_free
      → Standing caller subs
  unpaid :
      requires_billing caller.org_type ≡ true
      → (org : ℕ) → caller.org_id ≡ some org
      → subscription_of org subs ≡ none
      → get_entitlements caller subs ≡ without_plan
      → Standing caller subs
  on_plan :
      requires_billing caller.org_type ≡ true
      → (org : ℕ) → caller.org_id ≡ some org
      → (s : Subscription) → subscription_of org subs ≡ some s
      → get_entitlements caller subs ≡ with_plan s
      → Standing caller subs

not_free_when_billed : (t : Option OrgType) → requires_billing t ≡ true → is_free_forever t ≡ false
unfolding requires_billing is_free_forever free_forever billable
not_free_when_billed t h = ground arith

pub Standing-cases : (caller : Caller) (subs : List Subscription) → Standing caller subs
unfolding get_entitlements
Standing-cases caller subs = elim (Bool-cases (requires_billing caller.org_type)) [
  | inr exempt ↦ free (inl exempt) (ground arith)
  | inl billed ↦
      let paying = not_free_when_billed caller.org_type billed in
      elim (Option-cases caller.org_id) [
        | inl nobody ↦ free (inr nobody) (ground arith)
        | inr (org, known) ↦ elim (Option-cases (subscription_of org subs)) [
          | inl missing ↦ unpaid billed org known missing (ground arith)
          | inr (s, found) ↦ on_plan billed org known s found (ground arith)
        ]
      ]
]

-- A feature is shown as included exactly when its use is let through.
pub has_feature-eq-assert_feature :
    (caller : Caller) (feature : String) (subs : List Subscription)
    → has_feature caller feature subs ≡ is_ok (assert_feature caller feature subs)
unfolding has_feature assert_feature assert_entitled
has_feature-eq-assert_feature caller feature subs = ground arith

-- What lets a request pass the gate.
pub data MayPass (r : RequestContext) (subs : List Subscription) : Type 0 where
  not_http : r.is_http ≡ false → MayPass r subs
  skipped : r.skips_check ≡ true → MayPass r subs
  safe : (r.method ≡ get) ⊎ ((r.method ≡ head) ⊎ (r.method ≡ options)) → MayPass r subs
  anonymous : r.user ≡ none → MayPass r subs
  administers : r.is_platform_admin ≡ true → MayPass r subs
  without_billing :
      (u : Caller)
      → r.user ≡ some u
      → (requires_billing u.org_type ≡ false) ⊎ (u.org_id ≡ none)
      → MayPass r subs
  paying :
      (u : Caller) (org : ℕ) (s : Subscription)
      → r.user ≡ some u
      → u.org_id ≡ some org
      → subscription_of org subs ≡ some s
      → (s.status ≡ trialing) ⊎ (s.status ≡ SubscriptionStatus.active)
      → MayPass r subs

entitling-cases :
    (s : SubscriptionStatus) → entitling s ≡ true → (s ≡ trialing) ⊎ (s ≡ SubscriptionStatus.active)
unfolding entitling
entitling-cases s h = ground arith

safe_methods : (m : Method) → is_safe m ≡ true → (m ≡ get) ⊎ ((m ≡ head) ⊎ (m ≡ options))
unfolding is_safe
safe_methods m h = ground arith

ungated :
    (r : RequestContext) (subs : List Subscription)
    → (not r.is_http || r.skips_check || is_safe r.method) ≡ true
    → MayPass r subs
ungated r subs h = elim (Bool-cases r.is_http) [
  | inr other ↦ not_http other
  | inl http ↦ elim (Bool-cases r.skips_check) [
    | inl skips ↦ skipped skips
    | inr gated ↦ safe (safe_methods r.method (ground arith))
  ]
]

intercept-MayPass :
    (r : RequestContext) (subs : List Subscription) → intercept r subs ≡ ok tt → MayPass r subs
unfolding intercept assert_entitled with_plan
intercept-MayPass r subs done =
    elim (Bool-cases (not r.is_http || r.skips_check || is_safe r.method)) [
      | inl outside ↦ ungated r subs outside
      | inr gated ↦ elim (Option-cases r.user) [
        | inl nobody ↦ anonymous nobody
        | inr (u, signed_in) ↦ elim (Bool-cases r.is_platform_admin) [
          | inl admin ↦ administers admin
          | inr ordinary ↦ elim (Standing-cases u subs) [
            | free exempt e ↦ without_billing u signed_in exempt
            | unpaid billed org known missing e ↦ absurd (ground arith)
            | on_plan billed org known s found e ↦
                paying u org s signed_in known found (entitling-cases s.status (ground arith))
          ]
        ]
      ]
    ]

MayPass-intercept :
    (r : RequestContext) (subs : List Subscription) → MayPass r subs → intercept r subs ≡ ok tt
unfolding intercept assert_entitled with_plan get_entitlements entitling is_safe
MayPass-intercept r subs (not_http e) = ground arith
MayPass-intercept r subs (skipped e) = ground arith
MayPass-intercept r subs (safe (inl e)) = ground arith
MayPass-intercept r subs (safe (inr (inl e))) = ground arith
MayPass-intercept r subs (safe (inr (inr e))) = ground arith
MayPass-intercept r subs (anonymous nobody) = ground arith
MayPass-intercept r subs (administers admin) = ground arith
MayPass-intercept r subs (without_billing u signed_in (inl exempt)) = ground arith
MayPass-intercept r subs (without_billing u signed_in (inr nobody)) = ground arith
MayPass-intercept r subs (paying u org s signed_in known found (inl live)) = ground arith
MayPass-intercept r subs (paying u org s signed_in known found (inr live)) = ground arith

-- A request reaches its handler exactly when one of these holds: it does not come over HTTP, its
-- route skips the check, or its method is GET, HEAD or OPTIONS; nobody has signed in; the user
-- administers the platform; the user is of no organisation, or of a type that needs no plan; the
-- subscription of the user's organisation is on trial or active.
pub intercept_iff :
    (r : RequestContext) (subs : List Subscription) → (intercept r subs ≡ ok tt) ↔ MayPass r subs
intercept_iff r subs = (intercept-MayPass r subs, MayPass-intercept r subs)

-- What a plan without a limit, or with room below it, says of a count.
abbrev pub HasRoom : Option ℕ → ℕ → Type 0
HasRoom none current = Unit {0}
HasRoom (some most) current = current < most

module _ (caller : Caller) (subs : List Subscription) (db : Db) (org : ℕ)
    (billed : requires_billing caller.org_type ≡ true) (known : caller.org_id ≡ some org) where
  -- Where an organisation that has to pay may add a site, it has a plan that is on trial or active
  -- and covers one site more than the organisation has.
  pub assert_can_add_site-HasRoom :
      assert_can_add_site caller subs db ≡ ok tt
      → (s : Subscription) × (subscription_of org subs ≡ some s)
        × (entitling s.status ≡ true)
        × HasRoom s.plan.max_sites (count_where (is_site_of (some org)) db.sites.rows)
  unfolding assert_can_add_site assert_entitled with_plan
  assert_can_add_site-HasRoom done = elim (Standing-cases caller subs) [
    | free (inl exempt) e ↦ absurd (ground arith)
    | free (inr nobody) e ↦ absurd (ground arith)
    | unpaid _ org' known' missing e ↦ absurd (ground arith)
    | on_plan _ org' known' s found e ↦ (
      s,
      ground arith,
      ground arith,
      elim (Option-cases s.plan.max_sites) [
        | inl unlimited ↦ rw unlimited tt
        | inr (most, limited) ↦ rw limited (ground arith)
      ],
    )
  ]

  -- Where an organisation that has to pay may give one more user access to a site, it has a plan
  -- that is on trial or active and covers one user more than have access to that site.
  pub assert_can_add_user-HasRoom :
      (site : ℕ)
      → assert_can_add_user_to_site caller site subs db ≡ ok tt
      → (s : Subscription) × (subscription_of org subs ≡ some s)
        × (entitling s.status ≡ true)
        × HasRoom s.plan.max_user_per_site
            (count_where (λ (a : SiteAccess). a.site_id == site) db.site_access)
  unfolding assert_can_add_user_to_site assert_entitled with_plan
  assert_can_add_user-HasRoom site done = elim (Standing-cases caller subs) [
    | free (inl exempt) e ↦ absurd (ground arith)
    | free (inr nobody) e ↦ absurd (ground arith)
    | unpaid _ org' known' missing e ↦ absurd (ground arith)
    | on_plan _ org' known' s found e ↦ (
      s,
      ground arith,
      ground arith,
      elim (Option-cases s.plan.max_user_per_site) [
        | inl unlimited ↦ rw unlimited tt
        | inr (most, limited) ↦ rw limited (ground arith)
      ],
    )
  ]
