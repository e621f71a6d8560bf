-- ===== src/Lib.antt =====
-- Verification of the course catalogue (course_discovery/apps): what course runs go through from a
-- draft to publication, which of them a course shows, and how drafts and official versions agree.
--
-- The parts and their files. Paths are from the root of the repository.
--   Base                 Boolean tests, lists and sorting over the native numbers.
--   Run                  CourseRun and Seat (course_metadata/models.py) as records; a moment is a
--                        number of microseconds, a price a number of cents, a row its key.
--   Run/Dates            has_ended, has_enrollment_ended, is_enrollable, is_current, availability,
--                        and CourseRunQuerySet.active and enrollable (course_metadata/query.py).
--   Run/Seats            the paid seats of a run and until when it can be upgraded.
--   Run/Market           is_marketable, and the marketable and available querysets.
--   Run/Official         update_or_create_official_version and set_official_state.
--   Run/SeatUpdate       update_or_create_seats, with the errors that it raises.
--   Course/Advertised    Course.advertised_course_run.
--   Course/Unpublish     Course.unpublish_inactive_runs over the rows of the runs.
--   Course/Slugs         Course.set_active_url_slug and active_url_slug.
--   Course/Entitlement   the entitlement that the seats of a course allow (course_metadata/utils.py).
--   Course/Drafts        set_draft_state and ensure_draft_world: the drafts of a course.
--   Course/Types         calculate_course_type (course_metadata/data_loaders/course_type.py) and the
--                        loop of the command backpopulate_course_type.
--   Course/Update        what CourseViewSet.update_course does to the entitlements of a draft
--                        course (api/v1/views/courses.py).
--   Course/Creation      CourseViewSet.create (api/v1/views/courses.py) and create_run_helper
--                        (api/v1/views/course_runs.py).
--   Services             what is sent to ecommerce and to the LMS (course_metadata/utils.py), with
--                        their answers as parameters.
--   Loaders              the ecommerce loader (EcommerceApiDataLoader in
--                        course_metadata/data_loaders/api.py): its pages, the rows that it writes,
--                        and its attempts as calls that return or raise. Loaders/Courses has
--                        how CoursesApiDataLoader updates a run, and Loaders/Analytics the
--                        counts of enrollments (data_loaders/analytics_api.py).
--   Publishers           the publishers of course runs and programs (course_metadata/publishers.py);
--                        Drupal is a parameter that answers to the requests.
--   Studio               the name of the next run (StudioAPI in api/utils.py). Its recursion has no
--                        bound in the code and runs on one fuel more than there are runs.
--                        Studio/Requests has what is sent to Studio for a run.
--   Salesforce           SalesforceUtil (course_metadata/salesforce.py); Salesforce is a parameter. Linked and
--                        Posted are about its calls, and Comments is the creation of a
--                        comment by CommentViewSet (api/v1/views/comments.py).
--   Search               update_index and remove_unused_indexes
--                        (edx_haystack_extensions/management/commands).
--   People               the nodes of people on the marketing site (course_metadata/people.py), and
--                        course_metadata/management/commands/delete_person_dups.py.
--   Review               CourseRun.save, handle_status_change and publish as functions on a state:
--                        the draft, its official version, the next key, and the e-mails sent.
--   Review/Update        CourseRunViewSet.update, _update_course_run and handle_internal_review
--                        (api/v1/views/course_runs.py), publish_live_course_runs, the unpublishing,
--                        and what CourseViewSet.update_course does to a run, as events on that state.
--   Program              weeks to complete, one-click purchase and, in Program/Prices, the total price
--                        by currency (course_metadata/models.py).
--   Signals              the search for circular references among curricula
--                        (course_metadata/signals.py). Its recursion has no bound in the code and
--                        runs on fuel here; more fuel than the rank of the programs is enough.
--   Signals/ExternalKeys the receivers that refuse a second use of an external key.
--   Editors              CourseEditor: who can edit a course, one by one and as a query
--                        whose conditions are about the rows of its joins.
--   Examples             concrete runs, courses and requests.
--
-- The requests use the reviews, which use the official versions; the requests also use the seat
-- updates and the dates. Every other loop is structural recursion on a list. What the
-- serializer assigns, whether a reviewable field has changed, and whether a call of another
-- service raises are fields of a request, and the slugs of other courses are a Boolean argument.
--
-- The drafts use the official versions and the missing entitlements, which the updates and the
-- services use too.
--
-- Not modelled: how comments are read back from Salesforce, the REST serializers, the admin,
-- the search indexes, the e-mail texts,
-- the filters, permissions and pagination of the API, the views of the search, the
-- login to the marketing site, and the insides of Studio, of ecommerce and of the LMS; of the data
-- loaders, that for programs, and the ecommerce loader where it is thread safe.
pub mod Base
pub mod Run
pub mod Course
pub mod Review
pub mod Program
pub mod Signals
pub mod Editors
pub mod Services
pub mod Loaders
pub mod Publishers
pub mod Studio
pub mod Salesforce
pub mod Search
pub mod People
pub mod Examples
