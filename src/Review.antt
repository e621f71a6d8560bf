-- ===== src/Review.antt =====
-- The life of one course run, from a draft through the reviews to publication: CourseRun.save,
-- handle_status_change and publish (course_discovery/apps/course_metadata/models.py).
-- The state is the draft row, the row of its official version if there is one, the counter of new
-- keys, and the e-mails sent. `save` is called with the status that the row had when it was loaded,
-- which is `_old_status`. The marketing site, Studio, ecommerce and the LMS are not part of the
-- state, nor are the other runs that `publish` may unpublish (Course/Unpublish) and the url slug
-- that it adds.
pub mod Update
use course_discovery_ed_uhk.Base.{
  ℕ, Bool, true, false, ◌&&◌, ◌||◌, not, Option, none, some, List, [], ◌∷◌, ◌++◌, ◌==◌, leb,
  if◌then◌else◌, present_and,
}
use course_discovery_ed_uhk.Run.{
  CourseRun, CourseRunStatus, unpublished, legal_review, internal_review, reviewed, published,
  status_eq,
}
use course_discovery_ed_uhk.Run.Official.{update_or_create_official_version}

-- The four e-mails of course_discovery/apps/course_metadata/emails.py that a change of status sends.
pub data Email : Type 0 where
  for_legal_review for_internal_review for_reviewed for_go_live : Email

pub record State : Type 0 where
  pub draft : CourseRun
  pub official : Option CourseRun
  pub next_id : ℕ
  pub mail : List Email

abbrev pub send : Bool → Email → State → State
send send_emails email s = if send_emails then record s { mail = s.mail ++ email ∷ [] } else s

unfoldable pub make_official : State → State
make_official s =
    let (official, next_id) = update_or_create_official_version s.next_id s.draft s.official in
    record s { official = some official; next_id = next_id }

abbrev pub announce : ℕ → CourseRun → CourseRun
announce now run = record run { announcement = some now; status = published }

-- `publish` on the official version: both rows are announced and published, and saving the draft
-- sends the e-mail if its status has changed.
unfoldable pub publish : ℕ → Bool → State → State
publish now send_emails s = elim s.official [
  | none ↦ s
  | some official ↦
      let s' = record s { official = some (announce now official); draft = announce now s.draft } in
      if s.draft.status == published then s' else send send_emails for_go_live s'
]

abbrev pub go_live_is_due : ℕ → CourseRun → Bool
go_live_is_due now run = present_and (λ date. leb date now) run.go_live_date

-- The branches of `handle_status_change` for a draft whose status has changed.
unfoldable pub on_status : ℕ → Bool → CourseRunStatus → State → State
unfolding make_official publish
on_status now send_emails legal_review s = send send_emails for_legal_review s
on_status now send_emails internal_review s = send send_emails for_internal_review s
on_status now send_emails reviewed s =
    let s' = make_official s in
    if go_live_is_due now s.draft then publish now true s' else send send_emails for_reviewed s'
on_status now send_emails published s = send send_emails for_go_live s
on_status now send_emails unpublished s = s

unfoldable pub handle_status_change : ℕ → Bool → CourseRunStatus → State → State
unfolding on_status
handle_status_change now send_emails old_status s =
    if old_status == s.draft.status
    then s
    else if not s.draft.draft
    then s
    else on_status now send_emails s.draft.status s

-- `save` on the draft row.
unfoldable pub save_draft : ℕ → Bool → CourseRun → State → State
unfolding handle_status_change
save_draft now send_emails run s =
    handle_status_change now send_emails s.draft.status (record s { draft = run })
