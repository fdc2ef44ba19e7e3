-- ===== src/Lib.antt =====
-- Employee and truck control: the verification library.
--
-- The program is a Django site for the gate of a plant. Employees punch the clock with a finger: a
-- reader at a kiosk (biometric/listener.py, biometric/service.py) captures a template and names an
-- employee, and the attendance service (attendance/service.py) turns each scan into the event that is
-- due: entry, start of lunch, end of lunch, exit. A scheduled command flags records that were left
-- open, and the staff corrects them on a review page (attendance/views.py). Kiosks reach the site by a
-- device token (biometric/auth.py), enrol fingers that the staff asked for and fetch the templates
-- (biometric/api_views.py, employees/views.py). The program at the kiosk (kiosk_agent.py) keeps the
-- templates, reports scans and serves the enrolments and the shutdown that the site asks for. Logins are
-- limited (employee_truck_control/rate_limit.py); accounts have roles, and what they change is logged
-- (accounts/). Drivers are assigned to trucks (trucks/), and visitors are registered with their visits
-- (visitors/). The list pages poll for new rows and changed rows. Shared validators check documents
-- and uploads (employee_truck_control/validators.py).
--
-- Which file models what:
-- - Base: shared names; Base/Tests (Boolean tests), Base/Lists and Base/Updates (queries and updates of
--   tables), Base/Counts (how an update changes a count), Base/Texts (texts as code points), Base/Dicts
--   (dictionaries), Base/Integers.
-- - Employees/Model: the row of employees/models.py. Employees/Manage: Employee.clean, EmployeeForm and
--   the pages that create and edit.
-- - Attendance/Record: AttendanceRecord and PresenceEvent of attendance/models.py with clean; Record/
--   Order: what clean accepts. Attendance/Store: the tables, the monad of a call (it reads the clock,
--   queries, saves, raises; what was saved before a raise stays saved) and save. Attendance/Service:
--   every method of AttendanceService up to toggle_for_employee, under its name; record_lunch_start,
--   record_lunch_end, record_exit, auto_close_if_stale and the cooldown continue in start_lunch,
--   end_lunch, leave, close_stale and hold_off once the row is read, and advance is the choice at the
--   end of toggle_for_employee. Below it: Rows and Invariant (valid tables), Saves, Scans, Cycle, Steps
--   and Toggle (what a scan does), Refusals, Sweep (the command of attendance/management/commands/
--   auto_close_stale_attendance.py), Labels. Attendance/Review and Review/Answers: the post of
--   AttendancePendingReviewView. Attendance/History: all sequences of operations.
-- - RateLimit: LoginRateLimitMiddleware, call for __call__; RateLimit/Counter: one counter of failures,
--   which the kiosk authentication keeps too; RateLimit/Bound and RateLimit/Reset: sequences of logins.
-- - Biometric/Auth: DeviceTokenAuthMixin.dispatch and KioskDevice.authenticate; Auth/Access (whom it lets
--   in), Auth/Throttle (sequences of requests).
-- - Biometric/Enroll: BiometricTemplate and BiometricEnrollRequest of biometric/models.py, enroll, next and
--   sync for the posts and gets of the three kiosk views, cancel_pending and delete_biometric of
--   employees/views.py; Enroll/Page: EmployeeEnrollView.post. Enroll/Valid, Saves and Steps: what holds of
--   the tables at all times; Rows and Answers: what an enrolment does; Sync; Race.
-- - Biometric/Listener: BiometricListener._listener_loop as pass and run, and _reconnect_with_backoff;
--   Listener/Presses, Listener/Backoff.
-- - Biometric/Service: identify, capture_blocking, _wait_for_release and capture_registration of
--   BiometricService; Service/Identify, Service/Capture.
-- - Trucks/Model: Truck of trucks/models.py, clean and what save sets (prepared); Trucks/Assignment:
--   TruckAssignment with clean (check), its form (form_ok), and the posts assign and unassign of trucks/views.py;
--   Assignment/Valid, Assignment/Answers. Trucks/Photos: TruckPhoto, save_truck_photos, and the posts of the
--   truck pages as to photos; Trucks/Brands: the post of TruckBrandModelManageView.
-- - Live: the list pages' polls and updates: the new rows up to a limit, the rows that changed, and which of
--   them leave the page; Live/Pages: the filters of each page; Order, Polls, Follow: what a page that
--   polls again and again is given.
-- - Kiosk: the program kiosk_agent.py. Kiosk/Base64 and Codec: the base64 of the standard library as the
--   agent uses it; Scan (with Answers): KioskScanReportView of biometric/api_views.py; Agent (Notices): what
--   the agent does with a captured template; Cache (RoundTrip): the agent's templates, from enrolment
--   through the sync back to the kiosk; Queue (Resumes, Ticks): the enrolment poll, the shutdown check
--   (biometric/daemon.py) and the main loop; Local: process_biometric_event of AttendanceService.
-- - Accounts: the rows and tables of accounts/models.py; Manage: the views of accounts/views.py; Serve: the
--   mixins and the views as one handler of requests; Pages: the live updates; Valid, Keeps, Logged, Requests,
--   Allowed: what holds of the tables, the log and the replies.
-- - Visitors: Visitor, its form and pages; Accepted and Valid: what the pages accept; Visits (Departs): visits
--   and departures; History: the history of entries and exits of attendance/views.py.
-- - Validators: the functions of employee_truck_control/validators.py, with true for a return and false
--   for a ValidationError; Validators/Cpf, Validators/Files.
-- - The Examples modules: runs on small inputs, and the theorems at concrete arguments.
--
-- How the code is modelled. An instant is a number of microseconds since an epoch, a date a number of
-- days. The clock is a sequence of readings or a reading given to the operation; localtime, lower,
-- upper, the decimal value of a character, the hash of a token and the reader's library are arguments, and
-- so are the database's case-insensitive search, the framework's normal forms of user names and mails, its
-- check of a mail and an image, and the conversions between local dates and instants. A table is a list of rows, the
-- newest first, and a query that orders by a time takes the newer row of two with the same time where
-- it asks for the latest, the older where it asks for the earliest. Keys are counted up. A handler's
-- reply is a data type with one constructor for each way out, also for an exception that nothing
-- catches. Bodies of requests and captures of the sensor are given as the standard library or the
-- device reads them. Requests are handled one after the other, but where a theorem says otherwise.
--
-- Loops over rows, ticks or attempts are structural recursion. The waiting loops of Biometric/Service
-- run on fuel, one unit for each pass; a pass sleeps for the polling interval, so that one more pass
-- than there are intervals in the timeout is enough, which a theorem shows.
--
-- Not modelled: created_at and updated_at, which the framework sets, but where a live page orders by
-- them; messages to the user and the logger; templates, reports, badges and exports, which only format
-- queries; the calendar of the attendance; the documentation pages and protected media; mails,
-- passwords, sessions, encryption and the device's library; the management of threads, windows and
-- sounds at the kiosk; the commands for backup.
pub mod Base
pub mod Employees
pub mod Attendance
pub mod RateLimit
pub mod Biometric
pub mod Trucks
pub mod Validators
pub mod Live
pub mod Kiosk
pub mod Accounts
pub mod Visitors
