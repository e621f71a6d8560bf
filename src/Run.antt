-- ===== src/Run.antt =====
-- The CourseRun and Seat models (course_discovery/apps/course_metadata/models.py) with the fields
-- that their methods read. A date and time is the number of microseconds since 1 January of year 1,
-- UTC, as `datetime` counts them; a price is a number of cents; a row is known by its primary key.
-- `type` may be NULL in the database and "should always be set": here it is.
use course_discovery_ed_uhk.Base.{
  ℕ, String, ◌≡◌, ◌↔◌, Bool, true, false, Option, List, arith, Eq, or_else,
}
pub mod Dates
pub mod Seats
pub mod Market
pub mod Official
pub mod SeatUpdate

pub data CourseRunStatus : Type 0 where
  unpublished legal_review internal_review reviewed published : CourseRunStatus

abbrev pub status_beq : CourseRunStatus → CourseRunStatus → Bool
status_beq unpublished unpublished = true
status_beq legal_review legal_review = true
status_beq internal_review internal_review = true
status_beq reviewed reviewed = true
status_beq published published = true
status_beq _ _ = false

pub status_beq_iff : (a b : CourseRunStatus) → (status_beq a b ≡ true) ↔ (a ≡ b)
status_beq_iff a b = ground arith

instance abbrev pub status_eq : Eq CourseRunStatus
status_eq = record { equals = status_beq; equals_iff = status_beq_iff }

-- `Seat`; `type` is the slug of the seat type, which is the column's foreign key.
pub record Seat : Type 0 where
  pub id : ℕ
  pub type : String
  pub price : ℕ
  pub currency : String
  pub stored_upgrade_deadline : Option ℕ
  pub upgrade_deadline_override : Option ℕ
  pub sku : Option String
  pub draft_version : Option ℕ

abbrev pub audit : String
audit = "audit"

abbrev pub verified : String
verified = "verified"

abbrev pub professional : String
professional = "professional"

abbrev pub credit : String
credit = "credit"

-- the getter and the setter of the property `upgrade_deadline`
abbrev pub upgrade_deadline : Seat → Option ℕ
upgrade_deadline seat = or_else seat.upgrade_deadline_override seat.stored_upgrade_deadline

abbrev pub set_upgrade_deadline : Option ℕ → Seat → Seat
set_upgrade_deadline value seat = record seat { stored_upgrade_deadline = value }

pub record CourseRunType : Type 0 where
  pub slug : String
  pub is_marketable : Bool
  pub tracks : List (Option String)

pub record CourseRun : Type 0 where
  pub id : ℕ
  pub key : String
  pub draft : Bool
  pub status : CourseRunStatus
  pub start : Option ℕ
  pub end : Option ℕ
  pub go_live_date : Option ℕ
  pub enrollment_start : Option ℕ
  pub enrollment_end : Option ℕ
  pub announcement : Option ℕ
  pub weeks_to_complete : Option ℕ
  pub hidden : Bool
  pub slug : String
  pub type : CourseRunType
  pub staff : List ℕ
  pub seats : List Seat
