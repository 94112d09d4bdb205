-- ===== src/Enterprise/Pagination/Pages.antt =====
-- enterprise.pagination.ts: the pages of a table.
use svforb.Common.{
  ℕ, ◌+◌, ◌*◌, ◌≤◌, ◌<◌, ◌≡◌, true, Option, List, ◌==◌, ok, arith, includes, Bool-cases, inl, inr,
}
use native.Mathlib.Nat.{mul-le-mul_right}
use svforb.Common.Int.{ℤ}
use svforb.Enterprise.Pagination.{PageRequest, page_sizes, page_request, ceil_div, paginate}

-- A page request that is accepted has a page of at least 1 and one of the page sizes, and skips
-- the pages before it.
pub page_request-ok :
    (page page_size : Option ℤ) (req : PageRequest)
    → page_request page page_size ≡ ok req
    → (1 ≤ req.page)
      × (includes page_sizes req.page_size ≡ true)
      × (req.take ≡ req.page_size)
      × (req.skip + req.page_size ≡ req.page * req.page_size)
unfolding page_request
page_request-ok page page_size req h = ground arith

ceil_bounds : (a b : ℕ) → 1 ≤ b → (a ≤ ceil_div a b * b) × (ceil_div a b * b < a + b)
ceil_bounds a b h = (omega arith, omega arith)

times_mono : (p q s : ℕ) → p ≤ q → p * s ≤ q * s
times_mono p q s h = mul-le-mul_right s h

module _ {ℓ} {A : Type ℓ} (rows : List A) (total : ℕ) (req : PageRequest) where
  -- For a request as `pageRequest` makes it, on a page of at least 1 and at most the last one:
  -- the rows are numbered from the one after the pages before it, at most a page size of them, up
  -- to the last row on the last page.
  pub paginate_lem :
      1 ≤ req.page
      → 1 ≤ req.page_size
      → req.take ≡ req.page_size
      → req.skip + req.page_size ≡ req.page * req.page_size
      → req.page ≤ (paginate rows total req).total_pages
      → ((paginate rows total req).from ≤ (paginate rows total req).to)
        × ((paginate rows total req).to ≤ total)
        × ((paginate rows total req).to < (paginate rows total req).from + req.page_size)
        × (req.page ≡ (paginate rows total req).total_pages → (paginate rows total req).to ≡ total)
  unfolding paginate
  paginate_lem p s t k h = elim (Bool-cases (total == 0)) [
    | inl none_there ↦ absurd (ground arith)
    | inr there ↦
        let pages = ceil_div total req.page_size in
        let in_range : req.page ≤ pages = ground arith in
        let c = ceil_bounds total req.page_size s in
        let m = times_mono req.page pages req.page_size in_range in
        let first = times_mono 1 req.page req.page_size p in
        rw there (
          ground arith,
          ground arith,
          ground arith,
          λ last.
              let same : pages ≤ req.page = ground arith in
              let n = times_mono pages req.page req.page_size same in ground arith,
        )
  ]

  -- Where there are rows and a page skips them all, the page is numbered from a row after the row
  -- it is numbered to.
  pub paginate_past_end :
      1 ≤ total → total ≤ req.skip → (paginate rows total req).to < (paginate rows total req).from
  unfolding paginate
  paginate_past_end p h = ground arith
