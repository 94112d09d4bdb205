-- ===== src/Subscriptions.antt =====
-- src/modules/subscriptions: what the plan of an organisation lets it do
-- (subscription.constants.ts, services/subscription-access.service.ts) and the gate before every
-- write (interceptors/subscription.interceptor.ts). Prices, trials and names of plans, which are
-- only shown, are not modelled.
pub mod Gates
mod Tests
use Prim.Native.String.{String, compare}
use Prim.Native.Nat.{Ordering}
use svforb.Common.{
  ℕ, suc, zero, Bool, true, false, not, ◌&&◌, ◌||◌, Option, none, some, List, [], ◌∷◌, ◌==◌, leb,
  ◌+◌, Result, ok, err, ◌>>=◌, ◌>>◌, throw_if, forbidden, payment_required, if◌then◌else◌, map, any,
}
use svforb.Common.Table.{Table}
use svforb.Prisma.{
  OrgType, business_single, business_multi, charity, charity_single, charity_multi, farmer_producer,
  farmer_consumer,
}
use svforb.Store.{Db, Site, SiteAccess}
use svforb.Claims.{Caller}

-- enum SubscriptionStatus
pub data SubscriptionStatus : Type 0 where
  trialing active past_due cancelled expired : SubscriptionStatus

-- model PlanFeature
pub record PlanFeature : Type 0 where
  pub key : String
  pub included : Bool

-- model SubscriptionPlan; no limit is `none`
pub record SubscriptionPlan : Type 0 where
  pub max_sites : Option ℕ
  pub max_user_per_site : Option ℕ
  pub plan_features : List PlanFeature

-- model OrgSubscription, with its plan
pub record Subscription : Type 0 where
  pub organisation_id : ℕ
  pub status : SubscriptionStatus
  pub plan : SubscriptionPlan

pub free_forever : OrgType → Bool
free_forever charity = true
free_forever charity_single = true
free_forever charity_multi = true
free_forever farmer_consumer = true
free_forever _ = false

pub billable : OrgType → Bool
billable business_single = true
billable business_multi = true
billable farmer_producer = true
billable _ = false

pub entitling : SubscriptionStatus → Bool
entitling trialing = true
entitling active = true
entitling _ = false

pub requires_billing : Option OrgType → Bool
unfolding billable
requires_billing none = false
requires_billing (some t) = billable t

pub is_free_forever : Option OrgType → Bool
unfolding free_forever
is_free_forever none = false
is_free_forever (some t) = free_forever t

-- interface Entitlements
pub record Entitlements : Type 0 where
  pub billing_required : Bool
  pub entitled : Bool
  pub status : Option SubscriptionStatus
  pub max_sites : Option ℕ
  pub max_user_per_site : Option ℕ
  pub features : List String

-- `{ billingRequired: false, entitled: true, ...UNLIMITED_FREE }`
abbrev pub unlimited_free : Entitlements
unlimited_free = record {
  billing_required = false;
  entitled = true;
  status = none;
  max_sites = none;
  max_user_per_site = none;
  features = [];
}

pub subscription_of : ℕ → List Subscription → Option Subscription
subscription_of org [] = none
subscription_of org (s ∷ subs) =
    let later = subscription_of org subs in if s.organisation_id == org then some s else later

-- The keys of the features that are included.
pub included_keys : List PlanFeature → List String
included_keys [] = []
included_keys (f ∷ fs) = let rest = included_keys fs in if f.included then f.key ∷ rest else rest

abbrev pub without_plan : Entitlements
without_plan = record unlimited_free {
  billing_required = true;
  entitled = false;
  max_sites = some 0;
  max_user_per_site = some 0;
}

pub with_plan : Subscription → Entitlements
unfolding entitling
with_plan s = record {
  billing_required = true;
  entitled = entitling s.status;
  status = some s.status;
  max_sites = s.plan.max_sites;
  max_user_per_site = s.plan.max_user_per_site;
  features = included_keys s.plan.plan_features;
}

pub get_entitlements : Caller → List Subscription → Entitlements
get_entitlements caller subs =
    if is_free_forever caller.org_type || not (requires_billing caller.org_type)
    then unlimited_free
    else elim caller.org_id [
      | none ↦ unlimited_free
      | some org ↦ elim (subscription_of org subs) [ none ↦ without_plan | some s ↦ with_plan s ]
    ]

-- The message of `assertEntitled`, by the status of a subscription that has lapsed.
abbrev pub reason : SubscriptionStatus → String
reason past_due = "Your last payment failed."
reason _ = "Your subscription has lapsed. Please choose a plan to continue."

abbrev pub refusal : Option SubscriptionStatus → String
refusal none = "Please choose a plan to continue."
refusal (some s) = reason s

pub assert_entitled : Caller → List Subscription → Result Entitlements
assert_entitled caller subs =
    let ent = get_entitlements caller subs in
    if not ent.billing_required || ent.entitled
    then ok ent
    else err (payment_required (refusal ent.status))

abbrev pub count_where : {A : Type 0} → (A → Bool) → List A → ℕ
count_where p [] = 0
count_where p (x ∷ xs) = (if p x then 1 else 0) + count_where p xs

-- `if (!billingRequired || max === null) return; if (current >= max) throw ...`
abbrev pub assert_room : Bool → Option ℕ → ℕ → String → Result (Unit {0})
assert_room required none current message = ok tt
assert_room required (some most) current message =
    throw_if (required && leb most current) (forbidden message)

-- `where: { organisationId: caller.orgId }`, on sites
abbrev pub is_site_of : Option ℕ → ℕ × Site → Bool
is_site_of none row = true
is_site_of (some org) row = row.1.organisation_id == org

pub assert_can_add_site : Caller → List Subscription → Db → Result (Unit {0})
assert_can_add_site caller subs db = do
  ent ← assert_entitled caller subs
  assert_room ent.billing_required ent.max_sites
      (count_where (is_site_of caller.org_id) db.sites.rows)
      "Your plan includes no more sites. Upgrade your plan to add more."

pub assert_can_add_user_to_site : Caller → ℕ → List Subscription → Db → Result (Unit {0})
assert_can_add_user_to_site caller site subs db = do
  ent ← assert_entitled caller subs
  assert_room ent.billing_required ent.max_user_per_site
      (count_where (λ (a : SiteAccess). a.site_id == site) db.site_access)
      "Your plan includes no more users per site. Upgrade your plan to add more."

abbrev same_text : String → String → Bool
same_text a b = elim (compare a b) [ Ordering.eq ↦ true | _ ↦ false ]

pub includes : List String → String → Bool
includes [] feature = false
includes (f ∷ fs) feature = same_text f feature || includes fs feature

pub assert_feature : Caller → String → List Subscription → Result (Unit {0})
assert_feature caller feature subs = do
  ent ← assert_entitled caller subs
  throw_if (ent.billing_required && not (includes ent.features feature))
      (forbidden "Your plan does not include this feature. Upgrade to unlock it.")

pub has_feature : Caller → String → List Subscription → Bool
has_feature caller feature subs =
    let ent = get_entitlements caller subs in
    not ent.billing_required || ent.entitled && includes ent.features feature

-- The methods of HTTP; `SAFE_METHODS` are the first three.
pub data Method : Type 0 where
  get head options post put patch delete : Method

pub is_safe : Method → Bool
is_safe get = true
is_safe head = true
is_safe options = true
is_safe _ = false

-- What the interceptor reads of a request.
pub record RequestContext : Type 0 where
  pub is_http : Bool
  pub skips_check : Bool
  pub method : Method
  pub user : Option Caller
  pub is_platform_admin : Bool

pub intercept : RequestContext → List Subscription → Result (Unit {0})
unfolding is_safe requires_billing
intercept r subs =
    if not r.is_http || r.skips_check || is_safe r.method then ok tt else elim r.user [
      | none ↦ ok tt
      | some user ↦
          if r.is_platform_admin || not (requires_billing user.org_type)
          then ok tt
          else (do ent ← assert_entitled user subs; ok tt)
    ]
