-- ===== src/Enterprise/Scope/Narrowing.antt =====
-- enterprise-scope.service.ts: the sites that `resolveFilters` gives, against a description of them
-- site by site.
use svforb.Common.{
  ℕ, ◌≡◌, refl, Bool, true, false, not, ◌&&◌, ◌||◌, Option, none, some, List, ◌==◌, includes,
  is_none, arith, ok, is_ok, >>=-eq-ok, Option-cases, Result-cases, Bool-cases, inl, inr,
}
use svforb.Enterprise.Directory.{Directory, ScopeType, group, cluster, territory, site}
use svforb.Enterprise.Scope.{JwtPayload, resolve, assert_enterprise, org_sites, is_enterprise}
use svforb.Enterprise.Scope.Reach.{get_allowed_site_ids}
use svforb.Enterprise.Scope.Filters.{ScopeFilters, add_filter, narrow, visible, resolve_filters}
use svforb.Enterprise.Scope.Membership.{
  includes-distinct, includes-keep, includes-select, holds, belongs, is_own, is_ok-resolve,
  includes-resolve,
}

-- What the filters so far select: every site if there is none.
abbrev selects : Option (List ℕ) → ℕ → Bool
selects none s = true
selects (some ids) s = includes ids s

-- The site is in the dimension that a filter names, if it names one.
abbrev pub passes : Directory → ℕ → ScopeType → Option ℕ → ℕ → Bool
passes d org t none s = true
passes d org t (some id) s = holds d org t id s

add_filter-selects :
    (org : ℕ) (t : ScopeType) (id : Option ℕ) (d : Directory) (sofar : Option (List ℕ)) (s : ℕ)
    {after : Option (List ℕ)}
    → add_filter org t id d sofar ≡ ok after
    → (selects after s ≡ (selects sofar s && passes d org t id s))
      × (is_none after ≡ (is_none sofar && is_none id))
unfolding add_filter
add_filter-selects org t none d sofar s {after} h = (ground arith, ground arith)
add_filter-selects org t (some id) d sofar s {after} h =
    let (r, done, e) =
      >>=-eq-ok (resolve org t (some id) d) (λ r. ok (some (narrow sofar r.site_ids))) h in
    let same : after ≡ some (narrow sofar r.site_ids) = ground arith in
    let held = includes-resolve org t id d s done in
    elim (Option-cases sofar) [
      | inl first ↦ (ground (arith, includes-distinct r.site_ids s), ground arith)
      | inr (ids, more) ↦
          (ground (arith, includes-keep (λ x. includes r.site_ids x) ids s), ground arith)
    ]

abbrev pub passes_all : Directory → ℕ → ScopeFilters → ℕ → Bool
passes_all d org f s =
    passes d org group f.group_id s
    && passes d org territory f.territory_id s
    && passes d org cluster f.cluster_id s
    && passes d org site f.site_id s

abbrev pub no_filter : ScopeFilters → Bool
no_filter f =
    is_none f.group_id && is_none f.territory_id && is_none f.cluster_id && is_none f.site_id

-- The site is open to the caller. Where nothing is closed, it is only asked to be one of the
-- organisation's if no filter is given.
abbrev pub is_open : JwtPayload → Directory → ℕ → ScopeFilters → ℕ → Bool
is_open caller d org f s = elim (get_allowed_site_ids caller d) [
  | none ↦ not (no_filter f) || belongs org d s
  | some allowed ↦ includes allowed s
]

visible_lem :
    (selected allowed : Option (List ℕ)) (all_sites : List ℕ) (s : ℕ)
    → includes (visible selected allowed all_sites) s ≡ (
        selects selected s && (elim allowed [
          | none ↦ not (is_none selected) || includes all_sites s
          | some ids ↦ includes ids s
        ]))
visible_lem none none all_sites s = refl
visible_lem none (some ids) all_sites s = refl
visible_lem (some selected) none all_sites s = ground arith
visible_lem (some selected) (some ids) all_sites s =
    includes-keep (λ id. includes ids id) selected s

-- The steps of a successful call.
record Resolved (caller : JwtPayload) (f : ScopeFilters) (d : Directory) (org : ℕ) (out : List ℕ)
    : Type 0 where
  by_group : Option (List ℕ)
  by_territory : Option (List ℕ)
  by_cluster : Option (List ℕ)
  selected : Option (List ℕ)
  step_group : add_filter org group f.group_id d none ≡ ok by_group
  step_territory : add_filter org territory f.territory_id d by_group ≡ ok by_territory
  step_cluster : add_filter org cluster f.cluster_id d by_territory ≡ ok by_cluster
  step_site : add_filter org site f.site_id d by_cluster ≡ ok selected
  result : visible selected (get_allowed_site_ids caller d) (org_sites org d.sites.rows) ≡ out

resolve_filters-Resolved :
    (caller : JwtPayload) (f : ScopeFilters) (d : Directory) (org : ℕ) {out : List ℕ}
    → caller.org_id ≡ some org
    → resolve_filters caller f d ≡ ok out
    → Resolved caller f d org out
unfolding resolve_filters assert_enterprise
resolve_filters-Resolved caller f d org {out} member h =
    elim (Result-cases (add_filter org group f.group_id d none)) [
      | inl (x, e) ↦ absurd (ground arith)
      | inr (by_group, eg) ↦
          elim (Result-cases (add_filter org territory f.territory_id d by_group)) [
            | inl (x, e) ↦ absurd (ground arith)
            | inr (by_territory, et) ↦
                elim (Result-cases (add_filter org cluster f.cluster_id d by_territory)) [
                  | inl (x, e) ↦ absurd (ground arith)
                  | inr (by_cluster, ec) ↦
                      elim (Result-cases (add_filter org site f.site_id d by_cluster)) [
                        | inl (x, e) ↦ absurd (ground arith)
                        | inr (selected, es) ↦ record {
                          by_group = by_group;
                          by_territory = by_territory;
                          by_cluster = by_cluster;
                          selected = selected;
                          step_group = eg;
                          step_territory = et;
                          step_cluster = ec;
                          step_site = es;
                          result = ground arith;
                        }
                      ]
                ]
          ]
    ]

-- If the filters resolve, for a caller of the organisation, then a site is in the result exactly if
-- it is in each dimension that a filter names and is open to the caller.
pub resolve_filters_refines :
    (caller : JwtPayload) (f : ScopeFilters) (d : Directory) (org s : ℕ) {out : List ℕ}
    → caller.org_id ≡ some org
    → resolve_filters caller f d ≡ ok out
    → includes out s ≡ (passes_all d org f s && is_open caller d org f s)
resolve_filters_refines caller f d org s {out} member h =
    let r = resolve_filters-Resolved caller f d org member h in
    let g = add_filter-selects org group f.group_id d none s r.step_group in
    let t = add_filter-selects org territory f.territory_id d r.by_group s r.step_territory in
    let c = add_filter-selects org cluster f.cluster_id d r.by_territory s r.step_cluster in
    let l = add_filter-selects org site f.site_id d r.by_cluster s r.step_site in
    let v = visible_lem r.selected (get_allowed_site_ids caller d) (org_sites org d.sites.rows) s in
    let all_sites =
      includes-select (λ row. row.1.organisation_id == org) (λ row. row.0) d.sites.rows s in
    let result = r.result in ground arith

abbrev pub is_named_own : Directory → ℕ → ScopeType → Option ℕ → Bool
is_named_own d org t none = true
is_named_own d org t (some id) = is_own d org t id

is_ok-add_filter :
    (org : ℕ) (t : ScopeType) (id : Option ℕ) (d : Directory) (sofar : Option (List ℕ))
    → is_ok (add_filter org t id d sofar) ≡ is_named_own d org t id
unfolding add_filter
is_ok-add_filter org t none d sofar = refl
is_ok-add_filter org t (some id) d sofar =
    let own = is_ok-resolve org t id d in
    elim (Result-cases (resolve org t (some id) d)) [
      | inl (x, e) ↦ ground arith
      | inr (r, e) ↦ ground arith
    ]

-- For a caller of an organisation the filters resolve exactly if the organisation is on the
-- Enterprise plan and each dimension that a filter names is the organisation's.
pub is_ok-resolve_filters :
    (caller : JwtPayload) (f : ScopeFilters) (d : Directory) (org : ℕ)
    → caller.org_id ≡ some org
    → is_ok (resolve_filters caller f d) ≡ (
        is_enterprise org d.subscriptions
        && is_named_own d org group f.group_id
        && is_named_own d org territory f.territory_id
        && is_named_own d org cluster f.cluster_id
        && is_named_own d org site f.site_id)
unfolding resolve_filters assert_enterprise
is_ok-resolve_filters caller f d org member =
    elim (Result-cases (add_filter org group f.group_id d none)) [
      | inl (x, e) ↦ ground (arith, is_ok-add_filter org group f.group_id d none)
      | inr (g, eg) ↦ elim (Result-cases (add_filter org territory f.territory_id d g)) [
        | inl (x, e) ↦ ground (
          arith,
          is_ok-add_filter org group f.group_id d none,
          is_ok-add_filter org territory f.territory_id d g,
        )
        | inr (t, et) ↦ elim (Result-cases (add_filter org cluster f.cluster_id d t)) [
          | inl (x, e) ↦ ground (
            arith,
            is_ok-add_filter org group f.group_id d none,
            is_ok-add_filter org territory f.territory_id d g,
            is_ok-add_filter org cluster f.cluster_id d t,
          )
          | inr (c, ec) ↦ ground (
            arith,
            is_ok-add_filter org group f.group_id d none,
            is_ok-add_filter org territory f.territory_id d g,
            is_ok-add_filter org cluster f.cluster_id d t,
            is_ok-add_filter org site f.site_id d c,
          )
        ]
      ]
    ]

abbrev pub no_filters : ScopeFilters
no_filters = record { group_id = none; territory_id = none; cluster_id = none; site_id = none }

-- What the organisation's dimensions hold are sites of the organisation.
abbrev pub IsTidy : Directory → ℕ → Type 0
IsTidy d org =
    (t : ScopeType) (id s : ℕ)
    → is_own d org t id ≡ true
    → holds d org t id s ≡ true
    → belongs org d s ≡ true

passes-belongs :
    (d : Directory) (org : ℕ) (t : ScopeType) (id : Option ℕ) (s : ℕ)
    → IsTidy d org
    → is_none id ≡ false
    → is_named_own d org t id ≡ true
    → passes d org t id s ≡ true
    → belongs org d s ≡ true
passes-belongs d org t none s tidy named own h = absurd (cc)
passes-belongs d org t (some id) s tidy named own h = tidy t id s own h

-- Filters never widen what a caller sees: where the organisation's dimensions only hold its own
-- sites, each site that filters give is also given without any.
pub resolve_filters_narrow :
    (caller : JwtPayload) (f : ScopeFilters) (d : Directory) (org s : ℕ) {out all_out : List ℕ}
    → caller.org_id ≡ some org
    → IsTidy d org
    → resolve_filters caller f d ≡ ok out
    → resolve_filters caller no_filters d ≡ ok all_out
    → includes out s ≡ true
    → includes all_out s ≡ true
resolve_filters_narrow caller f d org s {out} {all_out} member tidy h h_all inside =
    let before = resolve_filters_refines caller f d org s member h in
    let after = resolve_filters_refines caller no_filters d org s member h_all in
    let own = is_ok-resolve_filters caller f d org member in
    elim (Option-cases (get_allowed_site_ids caller d)) [
      | inr (allowed, e) ↦ ground arith
      | inl e ↦ elim (Bool-cases (is_none f.group_id)) [
        | inr named ↦ ground (arith, passes-belongs d org group f.group_id s tidy named)
        | inl g ↦ elim (Bool-cases (is_none f.territory_id)) [
          | inr named ↦ ground (arith, passes-belongs d org territory f.territory_id s tidy named)
          | inl t ↦ elim (Bool-cases (is_none f.cluster_id)) [
            | inr named ↦ ground (arith, passes-belongs d org cluster f.cluster_id s tidy named)
            | inl c ↦ elim (Bool-cases (is_none f.site_id)) [
              | inr named ↦ ground (arith, passes-belongs d org site f.site_id s tidy named)
              | inl l ↦ ground arith
            ]
          ]
        ]
      ]
    ]
