-- ===== src/Enterprise/Pagination/Tests.antt =====
-- enterprise.pagination.ts: runs at concrete inputs.
use svforb.Common.{ℕ, ◌*◌, ◌≡◌, refl, none, some, ok, err, bad_request, ◌-◌}
use svforb.Common.Int.{pos, negsuc}
use svforb.Enterprise.Pagination.{
  PageRequest, page_request, days_7, resolve_period, previous_period,
}

abbrev page_of : ℕ → PageRequest
page_of p = record { page = p; page_size = 25; skip = (p - 1) * 25; take = 25 }

page_tests :
    (page_request (some (negsuc 3)) none ≡ ok (page_of 1))
    × (page_request none (some (pos 30)) ≡ err (bad_request "pageSize must be one of 25, 50, 100"))
unfolding page_request
page_tests = (refl, refl)

period_tests :
    (resolve_period 1000 (λ days t. t - days) (some days_7) none none
      ≡ ok (record { from = 993; to = 1000 }))
    × (resolve_period 1000 (λ days t. t - days) none (some (some 9)) (some (some 5))
        ≡ err (bad_request "from must not be after to"))
    × (previous_period (record { from = 50; to = 80 }) ≡ some (record { from = 20; to = 50 }))
unfolding resolve_period previous_period
period_tests = (refl, refl, refl)
