-- ===== src/Claims/Service.antt =====
-- The claim service as a whole: what each of its operations does to the weights and to the status
-- of a claim.
pub mod Weights
pub mod Statuses
use svforb.Common.{ℕ, Bool, Option, List, [], ◌∷◌, Result, ok, err, ◌>>=◌, ◌>>◌}
use svforb.Store.{Db}
use svforb.Claims.{Caller, CreateClaimDto, claim_listing}
use svforb.Claims.Lifecycle.{confirm_claim, cancel_claim, mark_collected}
use svforb.Claims.Feedback.{rate_claim, submit_provider_feedback, rate_driver}

-- A request to the service, with the time at which it is served.
pub data Request : Type 0 where
  claim : ℕ → Caller → CreateClaimDto → Request
  confirm : ℕ → Caller → ℕ → Request
  cancel : Caller → ℕ → Request
  collect : ℕ → Caller → ℕ → Option ℕ → Request
  rate : Caller → ℕ → ℕ → Request
  feedback : ℕ → Caller → ℕ → Bool → Option ℕ → Request
  rate_pickup : Caller → ℕ → ℕ → Request

-- The database after a request.
unfoldable pub perform : Request → Db → Result Db
perform (claim now caller dto) db = do out ← claim_listing now caller dto db; ok out.1
perform (confirm now caller id) db = confirm_claim now caller id db
perform (cancel caller id) db = cancel_claim caller id db
perform (collect now caller id stars) db = do out ← mark_collected now caller id stars db; ok out.1
perform (rate caller id stars) db = rate_claim caller id stars db
perform (feedback now caller id did_collect stars) db =
    submit_provider_feedback now caller id did_collect stars db
perform (rate_pickup caller id stars) db = rate_driver caller id stars db

abbrev or_unchanged : Result Db → Db → Db
or_unchanged (ok db') db = db'
or_unchanged (err e) db = db

-- A sequence of requests; one that throws changes nothing.
unfoldable pub serve : List Request → Db → Db
serve [] db = db
serve (r ∷ rs) db = serve rs (or_unchanged (perform r db) db)
