-- ===== src/Salesforce/Linked.antt =====
-- What is in Salesforce hangs together (course_discovery/apps/course_metadata/salesforce.py).
use course_discovery_ed_uhk.Base.{
  String, ◌≡◌, ap, Bool, true, false, ◌||◌, not, Option, List, [], ◌∷◌, arith, if◌then◌else◌,
  is_some,
}
use course_discovery_ed_uhk.Salesforce.{
  Organization, Request, Util, State, Call, missing_case, returned, raised, state_of,
}
use course_discovery_ed_uhk.Salesforce.Keeps.{
  Keeps, and_then_keeps, send_keeps, if_keeps, option_keeps, wrapper-Keeps, organization-Keeps,
  and_then_gives,
}
use course_discovery_ed_uhk.Salesforce.Objects.{
  has_id, set_organization, set_course, set_course_run, set_case, create_publisher_organization,
  send_course, make_course, create_course, ensure_course, send_course_run, make_course_run,
  create_course_run, send_case, make_case, create_case_for_course, send_comment, make_comment,
  create_comment_for_course_case, update_publisher_organization, update_course, update_course_run,
}

-- A run in Salesforce has its course there, a course its organization, and a case its course.
pub record IsLinked (s : State) : Type 0 where
  pub run : (not (is_some s.course_run.salesforce_id) || is_some s.course.salesforce_id) ≡ true
  pub course : (not (is_some s.course.salesforce_id) || has_id s.organization) ≡ true
  pub case_id : (not (is_some s.course.salesforce_case_id) || is_some s.course.salesforce_id) ≡ true

IsLinked-log :
    (s : State) (request : Request) → IsLinked s → IsLinked (record s { sent = request ∷ s.sent })
IsLinked-log s request k = record { run = k.run; course = k.course; case_id = k.case_id }

-- Where the course is not in Salesforce yet.
record IsUnlinked (s : State) : Type 0 where
  linked : IsLinked s
  missing : is_some s.course.salesforce_id ≡ false

IsUnlinked-log :
    (s : State) (request : Request)
    → IsUnlinked s
    → IsUnlinked (record s { sent = request ∷ s.sent })
IsUnlinked-log s request k = record {
  linked = IsLinked-log s request k.linked;
  missing = k.missing;
}

vacuous : (a b c : Bool) → (not a || b) ≡ true → b ≡ false → (not a || c) ≡ true
vacuous a b c h p = ground arith

certain : (a b : Bool) → b ≡ true → (not a || b) ≡ true
certain a b p = ground arith

set_course_keeps :
    (id : Option String) (s : State)
    → IsUnlinked s
    → has_id s.organization ≡ true
    → IsLinked (set_course id s)
set_course_keeps id s k p = record {
  run = vacuous _ _ _ k.linked.run k.missing;
  course = certain _ _ p;
  case_id = vacuous _ _ _ k.linked.case_id k.missing;
}

set_organization_keeps :
    (organization : Organization) (id : Option String) (s : State)
    → IsLinked s
    → has_id s.organization ≡ false
    → IsLinked (set_organization organization id s)
set_organization_keeps organization id s k p = record {
  run = k.run;
  course = vacuous _ _ _ k.course p;
  case_id = k.case_id;
}

set_organization_missing :
    (organization : Organization) (id : Option String) (s : State)
    → IsUnlinked s
    → has_id s.organization ≡ false
    → IsUnlinked (set_organization organization id s)
set_organization_missing organization id s k p = record {
  linked = set_organization_keeps organization id s k.linked p;
  missing = k.missing;
}

module _ (util : Util) where
  abbrev KeepsLinks : (State → Call) → Type 0
  KeepsLinks method = Keeps IsLinked IsLinked-log method

  create_publisher_organization_keeps : KeepsLinks (create_publisher_organization util)
  create_publisher_organization_keeps =
      organization-Keeps IsLinked IsLinked-log util set_organization_keeps

  send_course_keeps : (s : State) → IsUnlinked s → IsLinked (state_of (send_course util s))
  unfolding send_course
  send_course_keeps s k =
      if_keeps IsLinked IsLinked-log (has_id s.organization) _ _
        (λ p.
          send_keeps IsLinked IsLinked-log util _ set_course s k.linked
            (λ id. set_course_keeps id _ (IsUnlinked-log s _ k) p))
        (λ _. k.linked)

  create_course_keeps : KeepsLinks (create_course util)
  unfolding create_course make_course
  create_course_keeps = wrapper-Keeps IsLinked IsLinked-log util (make_course util) (λ s k.
      if_keeps IsLinked IsLinked-log (is_some s.course.salesforce_id) (returned s) _ (λ _. k)
        (λ p.
          and_then_gives IsUnlinked IsLinked (create_publisher_organization util s)
            (send_course util)
            (organization-Keeps IsUnlinked IsUnlinked-log util set_organization_missing s
              (record { linked = k; missing = p }))
            (λ _ h. h.linked) send_course_keeps))

  ensure_course_keeps : KeepsLinks (ensure_course util)
  unfolding ensure_course
  ensure_course_keeps s k =
      if_keeps IsLinked IsLinked-log (is_some s.course.salesforce_id) (returned s)
        (create_course util s) (λ _. k) (λ _. create_course_keeps s k)

  create_course_run_keeps : KeepsLinks (create_course_run util)
  unfolding create_course_run make_course_run send_course_run
  create_course_run_keeps = wrapper-Keeps IsLinked IsLinked-log util (make_course_run util) (λ s k.
      if_keeps IsLinked IsLinked-log (is_some s.course_run.salesforce_id) (returned s) _ (λ _. k)
        (λ _.
          and_then_keeps IsLinked IsLinked-log (ensure_course util s) (send_course_run util)
            (ensure_course_keeps s k)
            (λ t h.
              if_keeps IsLinked IsLinked-log (is_some t.course.salesforce_id) _ (returned t)
                (λ p.
                  send_keeps IsLinked IsLinked-log util _ set_course_run t h
                    (λ id. record { run = certain _ _ p; course = h.course; case_id = h.case_id }))
                (λ _. h))))

  create_case_for_course_keeps : KeepsLinks (create_case_for_course util)
  unfolding create_case_for_course make_case send_case
  create_case_for_course_keeps = wrapper-Keeps IsLinked IsLinked-log util (make_case util) (λ s k.
      if_keeps IsLinked IsLinked-log (is_some s.course.salesforce_case_id) (returned s) _ (λ _. k)
        (λ _.
          and_then_keeps IsLinked IsLinked-log (ensure_course util s) (send_case util)
            (ensure_course_keeps s k)
            (λ t h.
              option_keeps IsLinked IsLinked-log t.course.salesforce_id (returned t) _ (λ _. h)
                (λ course e. send_keeps IsLinked IsLinked-log util _ set_case t h (λ id. record {
                  run = h.run;
                  course = h.course;
                  case_id = certain _ _ (ap is_some e);
                })))))

  create_comment_for_course_case_keeps :
      (body : String) → KeepsLinks (create_comment_for_course_case util body)
  unfolding create_comment_for_course_case make_comment send_comment
  create_comment_for_course_case_keeps body =
      wrapper-Keeps IsLinked IsLinked-log util (make_comment util body) (λ s k.
        and_then_keeps IsLinked IsLinked-log
          (if is_some s.course.salesforce_case_id
            then returned s
            else create_case_for_course util s)
          (send_comment util body)
          (if_keeps IsLinked IsLinked-log (is_some s.course.salesforce_case_id) (returned s)
            (create_case_for_course util s) (λ _. k) (λ _. create_case_for_course_keeps s k))
          (λ t h.
            option_keeps IsLinked IsLinked-log t.course.salesforce_case_id (raised missing_case t) _
              (λ _. h)
              (λ parent e.
                send_keeps IsLinked IsLinked-log util _ (λ _ t. t) t h (λ _. IsLinked-log t _ h))))

  update_publisher_organization_keeps : KeepsLinks (update_publisher_organization util)
  unfolding update_publisher_organization
  update_publisher_organization_keeps = wrapper-Keeps IsLinked IsLinked-log util _ (λ s k.
      option_keeps IsLinked IsLinked-log s.organization (returned s) _ (λ _. k)
        (λ organization e.
          option_keeps IsLinked IsLinked-log organization.salesforce_id (returned s) _ (λ _. k)
            (λ id d.
              send_keeps IsLinked IsLinked-log util _ (λ _ t. t) s k (λ _. IsLinked-log s _ k))))

  update_course_keeps : KeepsLinks (update_course util)
  unfolding update_course
  update_course_keeps = wrapper-Keeps IsLinked IsLinked-log util _ (λ s k.
      option_keeps IsLinked IsLinked-log s.course.salesforce_id (create_course util s) _
        (λ _. create_course_keeps s k)
        (λ id d. send_keeps IsLinked IsLinked-log util _ (λ _ t. t) s k (λ _. IsLinked-log s _ k)))

  update_course_run_keeps : KeepsLinks (update_course_run util)
  unfolding update_course_run
  update_course_run_keeps = wrapper-Keeps IsLinked IsLinked-log util _ (λ s k.
      option_keeps IsLinked IsLinked-log s.course_run.salesforce_id (create_course_run util s) _
        (λ _. create_course_run_keeps s k)
        (λ id d. send_keeps IsLinked IsLinked-log util _ (λ _ t. t) s k (λ _. IsLinked-log s _ k)))

pub data Method : Type 0 where
  an_organization a_course a_course_run a_case : Method
  a_comment : String → Method
  an_organization_again a_course_again a_course_run_again : Method

-- The public methods that write.
unfoldable pub call : Util → Method → State → Call
unfolding create_publisher_organization create_course create_course_run create_case_for_course
    create_comment_for_course_case update_publisher_organization update_course update_course_run
call util an_organization = create_publisher_organization util
call util a_course = create_course util
call util a_course_run = create_course_run util
call util a_case = create_case_for_course util
call util (a_comment body) = create_comment_for_course_case util body
call util an_organization_again = update_publisher_organization util
call util a_course_again = update_course util
call util a_course_run_again = update_course_run util

-- One call after another, whether they raise or not.
unfoldable pub call_all : Util → List Method → State → State
unfolding call
call_all util [] s = s
call_all util (m ∷ ms) s = call_all util ms (state_of (call util m s))

call-IsLinked :
    (util : Util) (m : Method) (s : State) → IsLinked s → IsLinked (state_of (call util m s))
unfolding call
call-IsLinked util an_organization = create_publisher_organization_keeps util
call-IsLinked util a_course = create_course_keeps util
call-IsLinked util a_course_run = create_course_run_keeps util
call-IsLinked util a_case = create_case_for_course_keeps util
call-IsLinked util (a_comment body) = create_comment_for_course_case_keeps util body
call-IsLinked util an_organization_again = update_publisher_organization_keeps util
call-IsLinked util a_course_again = update_course_keeps util
call-IsLinked util a_course_run_again = update_course_run_keeps util

-- Where a run in Salesforce has its course there, a course its organization and a case its course,
-- it stays so through every sequence of calls, whatever Salesforce answers, whichever call raises,
-- and also where a call is made again after a new login.
pub call_all-IsLinked :
    (util : Util) (ms : List Method) (s : State) → IsLinked s → IsLinked (call_all util ms s)
unfolding call_all
call_all-IsLinked util [] s k = k
call_all-IsLinked util (m ∷ ms) s k = call_all-IsLinked util ms _ (call-IsLinked util m s k)
