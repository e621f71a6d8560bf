-- ===== src/Salesforce/Posted.antt =====
-- A comment is never dropped: create_comment_for_course_case
-- (course_discovery/apps/course_metadata/salesforce.py).
use course_discovery_ed_uhk.Base.{
  String, ◌≡◌, refl, subst, Bool, true, false, Option, none, some, List, ◌∷◌, if◌then◌else◌,
}
use course_discovery_ed_uhk.Salesforce.{
  Request, Answer, accepted, expired_session, os_error, other_error, Util, State, Call,
  session_expired, os_failure, failure, not_configured, missing_case, returned, raised, and_then,
  receive, send, log_in, retry, request_wrapper, create_feed_item_request,
}
use course_discovery_ed_uhk.Salesforce.Objects.{
  send_comment, make_comment, create_comment_for_course_case,
}

-- What holds of the state where a call returns.
abbrev Ends : (State → Type 0) → Call → Type 0
Ends P (returned s) = P s
Ends P (raised e s) = Unit

and_then-Ends :
    (P : State → Type 0) (c : Call) (f : State → Call)
    → ((s : State) → Ends P (f s))
    → Ends P (and_then c f)
unfolding and_then
and_then-Ends P (returned s) f h = h s
and_then-Ends P (raised e s) f h = tt

receive-Ends :
    (P : State → Type 0) (write : Option String → State → State) (s : State) (answer : Answer)
    → ((id : Option String) → P (write id s))
    → Ends P (receive write s answer)
unfolding receive
receive-Ends P write s (accepted id) h = h id
receive-Ends P write s expired_session h = tt
receive-Ends P write s os_error h = tt
receive-Ends P write s other_error h = tt

retry-Ends :
    (P : State → Type 0) (util : Util) (method : State → Call) (c : Call)
    → ((s : State) → Ends P (method s))
    → Ends P c
    → Ends P (retry util method c)
unfolding retry
retry-Ends P util method (returned s) h k = k
retry-Ends P util method (raised session_expired s) h k = and_then-Ends P (log_in util s) method h
retry-Ends P util method (raised os_failure s) h k = and_then-Ends P (log_in util s) method h
retry-Ends P util method (raised failure s) h k = tt
retry-Ends P util method (raised not_configured s) h k = tt
retry-Ends P util method (raised missing_case s) h k = tt

if_Ends :
    (P : State → Type 0) (b : Bool) (c d : Call) → Ends P c → Ends P d → Ends P (if b then c else d)
if_Ends P true c d h k = h
if_Ends P false c d h k = k

wrapper-Ends :
    (P : State → Type 0) (util : Util) (method : State → Call) (s : State)
    → util.enabled ≡ true
    → ((t : State) → Ends P (method t))
    → Ends P (request_wrapper util method s)
unfolding request_wrapper
wrapper-Ends P util method s p h =
    rw p (if_Ends P util.has_client _ _ (retry-Ends P util method (method s) h (h s)) tt)

-- The course has a case, and the comment is the last thing that was sent, to that case.
pub record IsPosted (body : String) (s : State) : Type 0 where
  pub parent : String
  pub before : List Request
  pub case_id : s.course.salesforce_case_id ≡ some parent
  pub sent : s.sent ≡ create_feed_item_request parent body ∷ before

option-Ends :
    (P : State → Type 0) {A : Type 0} (o : Option A) (d : Call) (f : A → Call)
    → Ends P d
    → ((x : A) → o ≡ some x → Ends P (f x))
    → Ends P (elim o [ none ↦ d | some x ↦ f x ])
option-Ends P none d f h k = h
option-Ends P (some x) d f h k = k x refl

send_comment-Ends :
    (util : Util) (body : String) (s : State) → Ends (IsPosted body) (send_comment util body s)
unfolding send_comment send
send_comment-Ends util body s =
    option-Ends (IsPosted body) s.course.salesforce_case_id (raised missing_case s) _ tt
      (λ parent p.
        receive-Ends (IsPosted body) (λ _ t. t) _ (util.answer s.sent _)
          (λ _. record { parent = parent; before = s.sent; case_id = p; sent = refl }))

create_comment-Ends :
    (util : Util) (body : String) (s : State)
    → util.enabled ≡ true
    → Ends (IsPosted body) (create_comment_for_course_case util body s)
unfolding create_comment_for_course_case make_comment
create_comment-Ends util body s p =
    wrapper-Ends (IsPosted body) util (make_comment util body) s p (λ t.
      and_then-Ends (IsPosted body) _ (send_comment util body) (λ u. send_comment-Ends util body u))

-- Where the partner has a configuration of Salesforce and create_comment_for_course_case returns, the
-- course has a case, and the comment is the last thing that was sent, as a comment on that case: in
-- every other case, an exception says that it was not posted.
pub create_comment_for_course_case-IsPosted :
    (util : Util) (body : String) (s t : State)
    → util.enabled ≡ true
    → create_comment_for_course_case util body s ≡ returned t
    → IsPosted body t
create_comment_for_course_case-IsPosted util body s t p e =
    subst (Ends (IsPosted body)) e (create_comment-Ends util body s p)
