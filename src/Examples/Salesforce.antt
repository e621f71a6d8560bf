-- ===== src/Examples/Salesforce.antt =====
-- Examples for what is sent to Salesforce.
use course_discovery_ed_uhk.Base.{refl, true, none, some, [], ◌∷◌, is_empty, if◌then◌else◌}
use course_discovery_ed_uhk.Run.{unpublished}
use course_discovery_ed_uhk.Salesforce.{State, Util, accepted, expired_session}
use course_discovery_ed_uhk.Salesforce.Linked.{
  IsLinked, a_course_run, a_comment, a_course_again, call_all, call_all-IsLinked,
}

-- Salesforce gives every object the id 7, once a session is there.
abbrev pub util : Util
util = record {
  enabled = true;
  has_client = true;
  case_record_type_id = none;
  answer = λ sent request. if is_empty sent then expired_session else accepted (some "7");
}

abbrev pub start : State
start = record {
  organization = some (record { name = "edX"; key = "edx"; salesforce_id = none });
  course = record {
    title = "Demo";
    key = "edx+demo";
    salesforce_id = none;
    salesforce_case_id = none;
  };
  official_version = none;
  course_run = record {
    title = "Demo";
    key = "edx/demo/1T2020";
    start = none;
    end = none;
    status = unpublished;
    go_live_date = none;
    has_ofac_restrictions = none;
    salesforce_id = none;
  };
  sent = [];
}

call_all-IsLinked_example :
    IsLinked (call_all util (a_course_run ∷ a_comment "Hello" ∷ a_course_again ∷ []) start)
call_all-IsLinked_example =
    call_all-IsLinked util (a_course_run ∷ a_comment "Hello" ∷ a_course_again ∷ []) start
      (record { run = refl; course = refl; case_id = refl })
