-- ===== src/Workbench/Latest.antt =====
-- The joins of `list_submissions` of app/submission/service.py, and the latest decision.
use ktayl_underwriting.Prelude.{
  ℕ, ◌≡◌, ◌≢◌, refl, ap, subst, Bool, true, false, Option, none, some, List, [], ◌∷◌, map, arith,
  ltb, ◌==◌, select, All, select-All, inl, inr, Bool-cases, Option-cases,
}
use ktayl_underwriting.Store.Rows.{Submission, Decision, Db}
use ktayl_underwriting.Store.Newest.{newest, later_of}
use ktayl_underwriting.Store.Queries.{latest_decision}
use ktayl_underwriting.Workbench.Inbox.{max_decided_at, join_latest, join_all}

abbrev after : Decision → Decision → Bool
after a b = ltb b.decided_at a.decided_at

abbrev time_of : Option Decision → Option ℕ
time_of none = none
time_of (some d) = some d.decided_at

abbrev at : ℕ → Decision → Bool
at t d = d.decided_at == t

-- Each decision has a time of its own.
abbrev pub HasOwnTimes : List Decision → Type 0
HasOwnTimes [] = Unit
HasOwnTimes (d ∷ ds) = All (λ e. d.decided_at ≢ e.decided_at) ds × HasOwnTimes ds

HasOwnTimes-select :
    (p : Decision → Bool) (ds : List Decision) → HasOwnTimes ds → HasOwnTimes (select p ds)
HasOwnTimes-select p [] h = tt
HasOwnTimes-select p (d ∷ ds) h = elim (Bool-cases (p d)) [
  | inl hit ↦
      rw hit (select-All (λ e. d.decided_at ≢ e.decided_at) p ds h.0, HasOwnTimes-select p ds h.1)
  | inr miss ↦ rw miss (HasOwnTimes-select p ds h.1)
]

max_decided_at-newest : (ds : List Decision) → max_decided_at ds ≡ time_of (newest after ds)
max_decided_at-newest [] = refl
max_decided_at-newest (d ∷ ds) = ground (arith, max_decided_at-newest ds)

select-other :
    (d : Decision) (ds : List Decision)
    → All (λ e. d.decided_at ≢ e.decided_at) ds
    → select (at d.decided_at) ds ≡ []
select-other d [] h = refl
select-other d (e ∷ ds) h = ground (arith, h.0, select-other d ds h.1)

select-newest :
    (ds : List Decision) {d : Decision}
    → HasOwnTimes ds
    → newest after ds ≡ some d
    → select (at d.decided_at) ds ≡ d ∷ []
select-newest [] h e = absurd (cc)
select-newest (x ∷ []) {d} h e = ground arith
select-newest (x ∷ y ∷ ys) {d} h e =
    let z = later_of after y (newest after ys) in
    let ih = select-newest (y ∷ ys) {d = z} h.1 refl in
    elim (Bool-cases (after z x)) [
      | inl newer ↦
          let same : z ≡ d = ground (arith, e, newer) in
          let miss : at z.decided_at x ≡ false = ground (arith, newer) in
          subst (λ v. select (at v.decided_at) (x ∷ y ∷ ys) ≡ v ∷ []) same (rw miss ih)
      | inr older ↦
          let same : x ≡ d = ground (arith, e, older) in
          let hit : at x.decided_at x ≡ true = ground arith in
          subst (λ v. select (at v.decided_at) (x ∷ y ∷ ys) ≡ v ∷ []) same
            (rw hit (ap (◌∷◌ x) (select-other x (y ∷ ys) h.0)))
    ]

pub join_latest_lem :
    (db : Db) (s : Submission)
    → HasOwnTimes db.decisions
    → join_latest db s ≡ (s, latest_decision db s.id) ∷ []
unfolding join_latest latest_decision
join_latest_lem db s h =
    let own = select (λ (d : Decision). d.submission_id == s.id) db.decisions in
    let times = max_decided_at-newest own in
    elim (Option-cases (newest after own)) [
      | inl unassessed ↦ rw (times, unassessed, join_latest) refl
      | inr (d, found) ↦
          rw (times, found, join_latest)
            (ap (map (λ (d : Decision). (s, some d))) (
              select-newest own (HasOwnTimes-select (λ x. x.submission_id == s.id) db.decisions h)
                found))
    ]

pub join_all_lem :
    (db : Db) (ss : List Submission)
    → HasOwnTimes db.decisions
    → join_all db ss ≡ map (λ (s : Submission). (s, latest_decision db s.id)) ss
join_all_lem db [] h = refl
join_all_lem db (s ∷ ss) h = rw (join_latest_lem db s h, join_all_lem db ss h) refl
