-- ===== src/Kiosk/Agent/Notices.antt =====
-- What a notice of the kiosk says of the site (kiosk_agent.py).
use truck.Base.{
  ℕ, ◌≡◌, refl, Bool, ◌⊎◌, inl, inr, Option, none, some, List, Option-cases, String, pos, ap,
}
use truck.Attendance.Store.{Db}
use truck.Attendance.Service.{presence_label}
use truck.Attendance.Service.Invariant.{IsValid}
use truck.Attendance.Service.Saves.{IsMonotone}
use truck.Attendance.Service.Scans.{
  Scan, entrada, saida_almoco, retorno_almoco, saida, direction_of, lunch_of,
}
use truck.Attendance.Service.Toggle.{due}
use truck.Biometric.Service.{Sdk, identify}
use truck.Kiosk.Scan.{
  Reply, bad_request, server_error, employee_not_found, duplicate, employee_inactive, registered,
  scan_of, post,
}
use truck.Kiosk.Scan.Answers.{Registers, Denies, unknown, is_inactive, too_soon, post-Reports}
use truck.Kiosk.Agent.{
  Link, down, reply_lost, unauthorized, throttled, up, Name, named, numbered, Notice, success,
  denied, notice_of, report, on_template, announcement, Color, amber, green, red, registered_screen,
  screen,
}

-- The phrase and the color of each kind of scan.
abbrev pub phrase : Scan → String
phrase entrada = "ENTRADA REGISTRADA"
phrase saida_almoco = "SAÍDA PARA O ALMOÇO REGISTRADA"
phrase retorno_almoco = "RETORNO DO ALMOÇO REGISTRADO"
phrase saida = "SAÍDA REGISTRADA"

abbrev pub color : Scan → Color
color entrada = green
color saida_almoco = amber
color retorno_almoco = amber
color saida = red

screen_scan :
    (s : Scan) (name : Name) (at : Option ℕ)
    → screen (
        success name
          (direction_of s)
          (lunch_of s)
          (presence_label (direction_of s) (lunch_of s))
          at)
      ≡ registered_screen (color s) name (phrase s) at
unfolding screen announcement presence_label
screen_scan entrada name at = refl
screen_scan saida_almoco name at = refl
screen_scan retorno_almoco name at = refl
screen_scan saida name at = refl

-- A refused scan is shown with the name and the wait if it came too soon, and else not at all.
abbrev pub Refused : Reply → Option Notice → Type 0
Refused (duplicate name wait) n = n ≡ some (denied (named name) wait)
Refused employee_not_found n = n ≡ none
Refused (employee_inactive reason) n = n ≡ none
Refused bad_request n = ⊥
Refused server_error n = ⊥
Refused (registered s) n = ⊥

module _ (clock localtime : ℕ → ℕ) where
  -- What is shown of a scan that the site answers.
  abbrev pub Told : ℕ → Db → Option Notice × Db → Type 0
  Told e db (n, db') =
      ((reply : Reply) × (r : Registers clock e (due clock localtime e db) db (reply, db'))
        × (notice : Notice) × (n ≡ some notice)
        × (screen notice
            ≡ registered_screen (color (due clock localtime e db)) (named r.employee.name)
                (phrase (due clock localtime e db)) r.said.timestamp))
      ⊎ ((reply : Reply) × Denies clock e db (reply, db') × Refused reply n)

  -- What a notice says of the site, for the employee that the reader named.
  abbrev pub Shows : Link → Option ℕ → Db → Option Notice × Db → Type 0
  Shows link none db r = r ≡ (none, db)
  Shows down (some e) db r = r ≡ (none, db)
  Shows unauthorized (some e) db r = r ≡ (none, db)
  Shows throttled (some e) db r = r ≡ (some (denied (numbered e) 0), db)
  Shows reply_lost (some e) db (n, db') =
      (n ≡ none)
      × ((reply : Reply) × (Registers clock e (due clock localtime e db) db (reply, db')
            ⊎ Denies clock e db (reply, db')))
  Shows up (some e) db r = Told e db r

  Registers-Told :
      (e : ℕ) (db : Db) (x : Reply × Db)
      → Registers clock e (due clock localtime e db) db x
      → Told e db (notice_of x.0, x.1)
  unfolding notice_of
  Registers-Told e db (reply, db') r =
      let scan = due clock localtime e db in
      let s = r.said in
      inl (
        reply,
        r,
        success (named s.employee_name) s.direction s.is_lunch s.label s.timestamp,
        ap notice_of r.reply,
        rw (r.employee_name, r.direction, r.is_lunch, r.label)
            (screen_scan scan (named r.employee.name) s.timestamp),
      )

  Denies-Told :
      (e : ℕ) (db : Db) (x : Reply × Db) → Denies clock e db x → Told e db (notice_of x.0, x.1)
  unfolding notice_of
  Denies-Told e db x (unknown h) = inr (_, unknown h, refl)
  Denies-Told e db x (is_inactive emp f i) = inr (_, is_inactive emp f i, refl)
  Denies-Told e db x (too_soon emp ev wait f l k w) = inr (_, too_soon emp ev wait f l k w, refl)

  Answers-Told :
      (e : ℕ) (db : Db) (x : Reply × Db)
      → Registers clock e (due clock localtime e db) db x ⊎ Denies clock e db x
      → Told e db (notice_of x.0, x.1)
  Answers-Told e db x (inl r) = Registers-Told e db x r
  Answers-Told e db x (inr d) = Denies-Told e db x d

  report-Shows :
      IsMonotone clock
      → (link : Link) (e : ℕ) (db : Db) → IsValid clock db
      → Shows link (some e) db (report clock localtime link e db)
  unfolding report
  report-Shows mono down e db v = refl
  report-Shows mono unauthorized e db v = refl
  report-Shows mono throttled e db v = refl
  report-Shows mono reply_lost e db v = (
    refl,
    (
      (post clock localtime (scan_of (pos e)) db).0,
      post-Reports clock localtime mono (scan_of (pos e)) db v,
    ),
  )
  report-Shows mono up e db v =
      Answers-Told e db (post clock localtime (scan_of (pos e)) db)
        (post-Reports clock localtime mono (scan_of (pos e)) db v)

  -- A finger is shown as registered only if the site answered that it recorded the scan that was due for
  -- the employee whom the reader named; the screen then has the name, the phrase and the color of that
  -- scan. It is shown as denied if it came too soon, and nothing was written then, and also if the site
  -- throttles the device, without a name and with no seconds to wait. Nothing is shown, and nothing is
  -- written, for an unknown finger, a device that is not accepted, an unknown or inactive employee and a
  -- request that is lost; if only the reply is lost, the scan is shown to nobody but may be recorded.
  pub on_template-Shows :
      IsMonotone clock
      → {M : Type 0} (sdk : Sdk M) (has_sdk : Bool) (min_score : ℕ) (template : List ℕ)
        (cache : List (ℕ × List ℕ)) (m : M) (link : Link) (db : Db)
      → IsValid clock db
      → Shows link
          (identify sdk has_sdk min_score template cache m).0
          db
          (on_template clock localtime sdk has_sdk min_score template cache m link db)
  unfolding on_template
  on_template-Shows mono sdk has_sdk min_score template cache m link db v =
      elim (Option-cases (identify sdk has_sdk min_score template cache m).0) [
        | inl n ↦ rw n refl
        | inr (e, f) ↦ rw f (report-Shows mono link e db v)
      ]
