-- ===== src/Kiosk/Agent.antt =====
-- What the kiosk does with a finger on the reader (`on_template` and the notices of kiosk_agent.py). The
-- site behind the requests is the endpoint of Kiosk/Scan.
pub mod Notices
use truck.Base.{
  ℕ, Bool, true, false, not, Option, none, some, List, [], ◌∷◌, String, Text, codes, text_eq,
  if◌then◌else◌, ℤ, pos,
}
use truck.Attendance.Record.{Direction, dir_in, dir_out}
use truck.Attendance.Store.{Db}
use truck.Biometric.Service.{Sdk, identify}
use truck.Kiosk.Scan.{
  Scanned, Reply, bad_request, server_error, employee_not_found, duplicate, employee_inactive,
  registered, scan_of, post,
}

-- What becomes of a request: it is lost, or its reply is (a `RequestException` in both cases); the site
-- refuses the device with status 401, or with 429 and no name; or it answers.
pub data Link : Type 0 where
  down reply_lost unauthorized throttled up : Link

-- `body.get("employee_name", f"Funcionário #{employee_id}")`
pub data Name : Type 0 where
  named : Text → Name
  numbered : ℕ → Name

-- The notices that are queued. The time of a success is shown in local time.
pub data Notice : Type 0 where
  success : Name → Direction → Bool → String → Option ℕ → Notice
  denied : Name → ℕ → Notice

-- The replies that `resp.ok` or a status of 429 let through.
unfoldable pub notice_of : Reply → Option Notice
notice_of (registered s) =
    some (success (named s.employee_name) s.direction s.is_lunch s.label s.timestamp)
notice_of (duplicate name wait) = some (denied (named name) wait)
notice_of bad_request = none
notice_of server_error = none
notice_of employee_not_found = none
notice_of (employee_inactive reason) = none

module _ (clock localtime : ℕ → ℕ) where
  -- The request and what is shown of its reply.
  unfoldable pub report : Link → ℕ → Db → Option Notice × Db
  report down e db = (none, db)
  report reply_lost e db = (none, (post clock localtime (scan_of (pos e)) db).1)
  report unauthorized e db = (none, db)
  report throttled e db = (some (denied (numbered e) 0), db)
  report up e db =
      let (reply, db') = post clock localtime (scan_of (pos e)) db in (notice_of reply, db')

  abbrev pub report_named : Link → Option ℕ → Db → Option Notice × Db
  report_named link none db = (none, db)
  report_named link (some e) db = report link e db

  -- `on_template`, with the reader's library and its memory.
  unfoldable pub on_template :
      {M : Type 0}
      → Sdk M
      → Bool
      → ℕ
      → List ℕ
      → List (ℕ × List ℕ)
      → M
      → Link
      → Db
      → Option Notice × Db
  on_template sdk has_sdk min_score template cache m link db =
      report_named link (identify sdk has_sdk min_score template cache m).0 db

-- `_SCAN_ANNOUNCEMENTS.get(label, ...)`
unfoldable pub announcement : String → Direction → String
announcement label direction =
    if text_eq (codes label) (codes "Entrada")
    then "ENTRADA REGISTRADA"
    else if text_eq (codes label) (codes "Saída")
    then "SAÍDA REGISTRADA"
    else if text_eq (codes label) (codes "Saída para o Almoço")
    then "SAÍDA PARA O ALMOÇO REGISTRADA"
    else if text_eq (codes label) (codes "Retorno do Almoço")
    then "RETORNO DO ALMOÇO REGISTRADO"
    else elim direction [ dir_in ↦ "ENTRADA REGISTRADA" | dir_out ↦ "SAÍDA REGISTRADA" ]

pub data Color : Type 0 where
  amber green red : Color

-- The color, the title and the large line of the fullscreen notice; a denied one shows the seconds.
pub data Screen : Type 0 where
  registered_screen : Color → Name → String → Option ℕ → Screen
  denied_screen : Color → Name → ℕ → Screen

abbrev pub color_of : Direction → Bool → Color
color_of dir_in true = amber
color_of dir_out true = amber
color_of dir_in false = green
color_of dir_out false = red

-- One turn of `_notify_worker`.
unfoldable pub screen : Notice → Screen
screen (success name direction is_lunch label at) =
    registered_screen (color_of direction is_lunch) name (announcement label direction) at
screen (denied name wait) = denied_screen amber name wait
