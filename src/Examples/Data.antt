-- ===== src/Examples/Data.antt =====
-- The rows that the examples share. A moment is a number of microseconds; the examples take `now` to
-- be day 100.
use course_discovery_ed_uhk.Base.{ℕ, ◌*◌, String, true, false, Option, none, some, [], ◌∷◌}
use course_discovery_ed_uhk.Run.{
  Seat, CourseRun, CourseRunType, unpublished, published, audit, verified,
}

abbrev pub at_day : ℕ → ℕ
at_day d = d * 86_400_000_000

abbrev pub now : ℕ
now = at_day 100

abbrev pub verified_audit : CourseRunType
verified_audit = record {
  slug = "verified-audit";
  is_marketable = true;
  tracks = some verified ∷ some audit ∷ [];
}

abbrev pub seat : ℕ → String → ℕ → Option ℕ → Seat
seat id type price deadline = record {
  id = id;
  type = type;
  price = price;
  currency = "USD";
  stored_upgrade_deadline = deadline;
  upgrade_deadline_override = none;
  sku = none;
  draft_version = none;
}

abbrev pub audit_seat : Seat
audit_seat = seat 1 audit 0 none

abbrev pub verified_seat : Seat
verified_seat = seat 2 verified 4900 (some (at_day 150))

-- An official run that began on day 90 and ends on day 200.
abbrev pub open_run : CourseRun
open_run = record {
  id = 10;
  key = "course-v1:edX+DemoX+1T2020";
  draft = false;
  status = published;
  start = some (at_day 90);
  end = some (at_day 200);
  go_live_date = none;
  enrollment_start = none;
  enrollment_end = none;
  announcement = none;
  weeks_to_complete = some 6;
  hidden = false;
  slug = "demo-1t2020";
  type = verified_audit;
  staff = [];
  seats = audit_seat ∷ verified_seat ∷ [];
}

-- One that ended on day 50, and one without a start.
abbrev pub ended_run : CourseRun
ended_run = record open_run { id = 11; start = some (at_day 1); end = some (at_day 50) }

abbrev pub undated_run : CourseRun
undated_run = record open_run { id = 12; start = none }

abbrev pub draft_run : CourseRun
draft_run = record open_run { id = 20; draft = true; status = unpublished }
