-- ===== src/Examples/Loaders.antt =====
-- Examples for the ecommerce loader.
use course_discovery_ed_uhk.Base.{
  ℕ, String, ◌≡◌, refl, true, false, none, some, Option, List, [], ◌∷◌, ◌==◌, string_eq,
}
use course_discovery_ed_uhk.Run.{audit, verified}
use course_discovery_ed_uhk.Loaders.Ecommerce.{
  Seat, Catalog, Entitlement, EntitlementBody, State, cents,
}
use course_discovery_ed_uhk.Loaders.Ecommerce.Seats.{update_or_create}
use course_discovery_ed_uhk.Loaders.Ecommerce.Ingest.{Attempt, result, other_error}
use course_discovery_ed_uhk.Loaders.Ecommerce.Deletes.{is_listed}
use course_discovery_ed_uhk.Run.SeatUpdate.{subtract_deadline_delta}
use course_discovery_ed_uhk.Loaders.Courses.{
  Body, Instance, null, format_course_run_data, get_pacing_type, update_course_run,
  update_attributes, update_instance, update_deadlines, update_verified_deadline, end_updated,
}
use course_discovery_ed_uhk.Loaders.Courses.Settled.{update_course_run_idem}
use course_discovery_ed_uhk.Examples.Data.{at_day, open_run}
use course_discovery_ed_uhk.Examples.Types.{types}

abbrev catalog : Catalog
catalog = record {
  types = types;
  currencies = "USD" ∷ [];
  seat_types = (verified, 1) ∷ (audit, 2) ∷ [];
  course_types = 1 ∷ 2 ∷ [];
  iexact = λ a b. a == b;
  sku_in = is_listed;
}

abbrev old : Entitlement
old = record {
  course = "c1";
  mode = 1;
  partner = 3;
  price = 4900;
  currency = "USD";
  sku = some "OLD";
}

abbrev state : State
state = record {
  runs = [];
  courses = record { uuid = "c1"; type = 0 } ∷ record { uuid = "c2"; type = 2 } ∷ [];
  entitlements = old ∷ [];
  draft_courses = [];
  entitlement_skus = [];
  enrollment_skus = [];
  processing_failure_occurred = false;
  course_run_count = 0;
  entitlement_count = 0;
  enrollment_code_count = 0;
}

abbrev body : EntitlementBody
body = record {
  course_uuid = some "c2";
  certificate_type = some verified;
  stockrecords =
      record {
        price_currency = some "USD";
        price_excl_tax = some (cents 9900);
        partner_sku = some "NEW";
      }
      ∷ [];
}

-- The second page is lost in the first attempt; the second one deletes the old entitlement.
abbrev first_attempt : Attempt
first_attempt = record {
  course_runs = record { count = 0; first_page = some []; pages = [] };
  entitlements = record { count = 2; first_page = some (body ∷ []); pages = other_error ∷ [] };
  enrollment_codes = record { count = 0; first_page = some []; pages = [] };
}

abbrev second_attempt : Attempt
second_attempt = record first_attempt {
  entitlements = record {
    count = 2;
    first_page = some (body ∷ []);
    pages = result (body ∷ []) ∷ [];
  };
}

abbrev seat : String → ℕ → Option String → Seat
seat type price bulk_sku = record {
  type = type;
  credit_provider = none;
  currency = "USD";
  price = price;
  sku = none;
  upgrade_deadline = none;
  credit_hours = none;
  bulk_sku = bulk_sku;
}

abbrev seats : List Seat
seats = seat audit 0 none ∷ seat verified 4900 (some "BULK") ∷ []

updated :
    update_or_create (seat verified 9900 none) seats
    ≡ some (seat audit 0 none ∷ seat verified 9900 (some "BULK") ∷ [])
unfolding update_or_create
updated = refl

abbrev run_body : Body
run_body = record {
  id = "course-v1:edX+DemoX+1T2020";
  start = some (at_day 90);
  end = some (at_day 210);
  enrollment_start = none;
  enrollment_end = none;
  hidden = none;
  license = none;
  name = some "Demo";
  pacing = some "self";
  short_description = none;
  video = none;
  mobile_available = some true;
}

-- A row without any values, with the seats of the open run.
abbrev blank : Instance
blank = record { attributes = λ _. null; seats = open_run.seats }

update_course_run_idem_example :
    let fields = format_course_run_data false run_body in
    let done = update_course_run 10 fields (some blank) (some blank) in
    update_course_run 10 fields done.official done.draft
    ≡ record { official = done.official; draft = done.draft; effects = []; raised = false }
update_course_run_idem_example =
    update_course_run_idem 10 false run_body (some blank) (some blank) (
      unfold update_course_run end_updated update_deadlines update_verified_deadline update_instance
        format_course_run_data get_pacing_type subtract_deadline_delta update_attributes in
      refl)
