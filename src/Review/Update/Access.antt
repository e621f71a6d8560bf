-- ===== src/Review/Update/Access.antt =====
-- What a request may change, by its answer and by the state of the review.
use course_discovery_ed_uhk.Base.{
  ℕ, ◌≡◌, ◌≢◌, ◌⊎◌, true, List, [], ◌∷◌, ◌++◌, arith, all, present_and,
}
use course_discovery_ed_uhk.Run.{status_eq}
use course_discovery_ed_uhk.Review.{State, Email}
use course_discovery_ed_uhk.Review.Update.{
  Request, Response, done, handle_internal_review, in_review, is_internal_transition,
  is_internal_review_field, update,
}

-- At most one e-mail has been sent.
abbrev pub SendsOne : List Email → List Email → Type 0
SendsOne mail mail' = (mail' ≡ mail) ⊎ ((email : Email) × (mail' ≡ mail ++ email ∷ []))

-- The rows and the counter of keys are as they were, and at most one e-mail has been sent.
pub record IsRolledBack (s s' : State) : Type 0 where
  pub draft : s'.draft ≡ s.draft
  pub official : s'.official ≡ s.official
  pub next_id : s'.next_id ≡ s.next_id
  pub mail : SendsOne s.mail s'.mail

-- An answer that is not `done` leaves what was there.
abbrev IsSafe : State → Response × State → Type 0
IsSafe s (response, s') = response ≢ done → IsRolledBack s s'

-- While a run is in review, only staff changes it, only by moving it to internal review or to
-- Reviewed, and with no field but the internal ones.
pub update-in_review :
    (now days : ℕ) (request : Request) (s : State)
    → in_review s.draft ≡ true
    → (update now days request s).1 ≢ s
    → (request.is_staff ≡ true)
      × (present_and is_internal_transition request.status ≡ true)
      × (all is_internal_review_field request.keys ≡ true)
unfolding update handle_internal_review
update-in_review now days request s r h = ground arith
