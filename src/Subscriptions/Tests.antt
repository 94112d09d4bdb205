-- ===== src/Subscriptions/Tests.antt =====
-- subscriptions: runs at concrete inputs. Organisation 1 is on a plan of two sites with two users
-- each; organisation 2 did not pay.
use svforb.Common.{
  ◌≡◌, ◌↔◌, refl, true, false, none, some, List, [], ◌∷◌, ok, err, is_ok, payment_required,
}
use svforb.Common.Table.{Table}
use svforb.Prisma.{business_single, SiteRole}
use svforb.Store.{Db, Site}
use svforb.Claims.{Caller}
use svforb.Subscriptions.{
  Subscription, SubscriptionPlan, SubscriptionStatus, past_due, post, get, RequestContext,
  intercept, assert_can_add_site, assert_can_add_user_to_site, assert_feature, has_feature,
  subscription_of, entitling, requires_billing, get_entitlements, assert_entitled, with_plan,
  is_free_forever, includes, included_keys,
}
use svforb.Subscriptions.Gates.{
  MayPass, HasRoom, intercept_iff, has_feature-eq-assert_feature, assert_can_add_site-HasRoom,
}

abbrev two_sites : SubscriptionPlan
two_sites = record {
  max_sites = some 2;
  max_user_per_site = some 2;
  plan_features =
      (record { key = "surplus_listing"; included = true })
      ∷ (record { key = "esg_reports"; included = false })
      ∷ [];
}

abbrev paid : Subscription
paid = record { organisation_id = 1; status = SubscriptionStatus.active; plan = two_sites }

abbrev lapsed : Subscription
lapsed = record { organisation_id = 2; status = past_due; plan = two_sites }

abbrev subscriptions : List Subscription
subscriptions = lapsed ∷ paid ∷ []

abbrev baker : Caller
baker = record {
  user_id = 10;
  org_id = some 1;
  org_type = some business_single;
  site_id = none;
  is_super_admin = true;
  is_org_admin = false;
  enterprise_role = none;
}

abbrev debtor : Caller
debtor = record baker { org_id = some 2 }

abbrev empty {ℓ} : {A : Type ℓ} → Table A
empty = record { next = 1; rows = [] }

abbrev site : Site
site = record { organisation_id = 1; is_active = true; timezone = none }

abbrev db : Db
db = record {
  listings = empty;
  food_items = empty;
  claims = empty;
  pickups = empty;
  organisations = empty;
  connections = empty;
  days = empty;
  sites = record { next = 3; rows = (2, site) ∷ [] };
  users = empty;
  site_access =
      (record { user_id = 10; site_id = 2; organisation_id = 1; site_role = SiteRole.staff }) ∷ [];
  supports = [];
  activities = [];
}

abbrev write_by : Caller → RequestContext
write_by user = record {
  is_http = true;
  skips_check = false;
  method = post;
  user = some user;
  is_platform_admin = false;
}

debtor-refused :
    intercept (write_by debtor) subscriptions ≡ err (payment_required "Your last payment failed.")
unfolding intercept assert_entitled get_entitlements is_free_forever requires_billing
    subscription_of with_plan
debtor-refused = refl

debtor-reads : intercept (record (write_by debtor) { method = get }) subscriptions ≡ ok tt
unfolding intercept
debtor-reads = refl

second_site : assert_can_add_site baker subscriptions db ≡ ok tt
unfolding assert_can_add_site assert_entitled get_entitlements is_free_forever requires_billing
    subscription_of with_plan
second_site = refl

second_user : assert_can_add_user_to_site baker 2 subscriptions db ≡ ok tt
unfolding assert_can_add_user_to_site assert_entitled get_entitlements is_free_forever
    requires_billing subscription_of with_plan
second_user = refl

lists-surplus : has_feature baker "surplus_listing" subscriptions ≡ true
unfolding has_feature get_entitlements is_free_forever requires_billing subscription_of with_plan
    includes included_keys
lists-surplus = refl

intercept_iff_example :
    (intercept (write_by baker) subscriptions ≡ ok tt) ↔ MayPass (write_by baker) subscriptions
intercept_iff_example = intercept_iff (write_by baker) subscriptions

has_feature-eq-assert_feature_example :
    has_feature baker "esg_reports" subscriptions
    ≡ is_ok (assert_feature baker "esg_reports" subscriptions)
has_feature-eq-assert_feature_example =
    has_feature-eq-assert_feature baker "esg_reports" subscriptions

assert_can_add_site-HasRoom_example :
    (s : Subscription) × (subscription_of 1 subscriptions ≡ some s)
    × (entitling s.status ≡ true)
    × HasRoom s.plan.max_sites 1
unfolding requires_billing
assert_can_add_site-HasRoom_example =
    assert_can_add_site-HasRoom baker subscriptions db 1 refl refl second_site
