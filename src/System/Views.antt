-- ===== src/System/Views.antt =====
-- What the inbox shows after any requests.
use ktayl_underwriting.Prelude.{ℕ, ◌≡◌, refl, ◌∙◌, ◌&&◌, true, Option, List, [], ◌∷◌, leb}
use ktayl_underwriting.Enums.{Outcome}
use ktayl_underwriting.Store.Rows.{Decision, Env, empty, ok}
use ktayl_underwriting.Workbench.Schemas.{SubmissionListItem}
use ktayl_underwriting.Workbench.Latest.{HasOwnTimes}
use ktayl_underwriting.Workbench.InboxSpec.{inbox, inbox_shown}
use ktayl_underwriting.Workbench.InboxSpec.Refines.{list_submissions-inbox}
use ktayl_underwriting.Bind.Interfaces.{PolicyClient, Publisher}
use ktayl_underwriting.Api.Routes.{reply}
use ktayl_underwriting.Api.Reads
use ktayl_underwriting.System.Run.{Request, run}
use ktayl_underwriting.System.Runs.{run-Reach}
use ktayl_underwriting.System.Draws.{Distinct}
use ktayl_underwriting.System.Keys.{IsFair, Reach-IsKeyed, empty-IsKeyed}
use ktayl_underwriting.System.References.{run-IsReferenced}

Distinct-HasOwnTimes :
    (f : ℕ → ℕ) (ds : List Decision)
    → Distinct f (λ (d : Decision). d.decided_at) ds
    → HasOwnTimes ds
Distinct-HasOwnTimes f [] h = tt
Distinct-HasOwnTimes f (d ∷ ds) h = (h.0, Distinct-HasOwnTimes f ds h.1)

-- Where no id and no time is given twice: whatever requests are served, starting from empty tables, the list route
-- answers every query whose limit is from 1 to 200 and whose offset is at most 1,000,000 with status 200 and the page
-- of the inbox: of the submissions whose latest decision has the asked outcome, newest first, each with that outcome
-- and whether it is bound.
pub run-list_submissions :
    {W : Type 0} (env : Env) (client : PolicyClient W) (publisher : Publisher W) (rs : List Request)
    (w : W) (outcome : Option Outcome) (limit offset : ℕ)
    → IsFair env
    → leb 1 limit && leb limit 200 && leb offset 1_000_000 ≡ true
    → (items : List SubmissionListItem) × (inbox
          (run env client publisher rs (empty, w)).0
          outcome
          limit
          offset
        ≡ ok items)
      × (Reads.list_submissions (run env client publisher rs (empty, w)).0 outcome limit offset
          ≡ reply 200 items)
unfolding Reads.list_submissions
run-list_submissions env client publisher rs w outcome limit offset fair valid =
    let db = (run env client publisher rs (empty, w)).0 in
    let keyed =
      Reach-IsKeyed fair (run-Reach env client publisher rs (empty, w)) (empty-IsKeyed env) in
    let own = Distinct-HasOwnTimes env.now db.decisions keyed.decisions.distinct in
    let (items, e) =
      inbox_shown db outcome limit offset (run-IsReferenced env client publisher rs w).shown in
    (items, e, rw (valid, list_submissions-inbox db outcome limit offset own ∙ e) refl)
