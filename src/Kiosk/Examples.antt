-- ===== src/Kiosk/Examples.antt =====
-- A morning at a kiosk: Ana is enrolled, her finger is read, and the reader goes missing.
use truck.Base.{
  ℕ, ◌+◌, ◌*◌, ◌%◌, ◌-◌, ◌≡◌, refl, Bool, true, false, none, some, [], ◌∷◌, arith, codes, pos, ltb,
}
use truck.Employees.Model.{Employee}
use truck.Attendance.Record.{day}
use truck.Attendance.Service.{minute, last_event}
use truck.Attendance.Service.Invariant.{IsValid}
use truck.Attendance.Service.Saves.{IsMonotone}
use truck.Attendance.Store
use truck.Biometric.Enroll
use truck.Biometric.Enroll.Valid
use truck.Biometric.Service.{Sdk, identify}
use truck.Kiosk.Base64.{b64encode, b64decode, a2b_base64}
use truck.Kiosk.Scan.{scan_of, post}
use truck.Kiosk.Scan.Answers.{Reports, post-Reports}
use truck.Kiosk.Agent.{up, on_template}
use truck.Kiosk.Agent.Notices.{Shows, on_template-Shows}
use truck.Kiosk.Cache.{parse_enroll, refresh_loop, rows, refresh}
use truck.Kiosk.Cache.RoundTrip.{Arrives, enroll-Arrives}
use truck.Kiosk.Queue.{
  Tick, Daemon, pending, has_none, template, on_tick, timeout, check_and_fulfill, run,
}
use truck.Kiosk.Queue.Ticks.{Ticked, Lasts, on_tick-Lasts}

encoded : b64encode (77 ∷ 97 ∷ []) ≡ codes "TWE="
unfolding b64encode
encoded = refl

refused : b64decode true (codes "TW E=") ≡ none
unfolding b64decode a2b_base64
refused = refl

skipped : b64decode false (codes "TW E=") ≡ some (77 ∷ 97 ∷ [])
unfolding b64decode a2b_base64
skipped = refl

-- A damaged template ends the thread, so that the good rows that come next are not taken.
stale : refresh_loop (rows ((7, codes "TWE") ∷ []) ∷ rows ((7, codes "TWE=") ∷ []) ∷ []) [] ≡ []
unfolding refresh_loop refresh b64decode a2b_base64
stale = refl

abbrev ana : Employee
ana = record {
  pk = 7;
  name = codes "Ana";
  role = codes "Motorista";
  department = [];
  phone = [];
  rg = [];
  cpf = [];
  is_foreigner = false;
  foreign_document_number = [];
  foreign_document_type = [];
  address = [];
  cep = [];
  hire_date = 19000;
  is_driver = true;
  is_active = true;
  photo = none;
  document_photo = none;
}

-- One reading of the clock a minute, from 08:00 in São Paulo on.
abbrev clock : ℕ → ℕ
clock n = 20000 * day + (11 * 60 + n) * minute

abbrev localtime : ℕ → ℕ
localtime t = (t + day - 180 * minute) % day

clock_mono : IsMonotone clock
clock_mono i j h = omega arith

abbrev site : truck.Attendance.Store.Db
site = record { employees = ana ∷ []; records = []; events = []; next_record = 1; reads = 0 }

site-IsValid : IsValid clock site
unfolding last_event
site-IsValid = record { rows = tt; past = tt; punched = λ e. tt }

post-Reports_example :
    Reports clock localtime (scan_of (pos 7)) site (post clock localtime (scan_of (pos 7)) site)
post-Reports_example = post-Reports clock localtime clock_mono (scan_of (pos 7)) site site-IsValid

abbrev library : Sdk Bool
library = record {
  db_clear = λ m. (true, true);
  db_add = λ e t m. (true, m);
  db_identify = λ t m. some (7, 60);
}

on_template-Shows_example :
    Shows clock localtime up
      (identify library true 50 (6 ∷ []) ((7, 5 ∷ []) ∷ []) true).0
      site
      (on_template clock localtime library true 50 (6 ∷ []) ((7, 5 ∷ []) ∷ []) true up site)
on_template-Shows_example =
    on_template-Shows clock localtime clock_mono library true 50 (6 ∷ []) ((7, 5 ∷ []) ∷ []) true up
      site site-IsValid

abbrev tables : truck.Biometric.Enroll.Db
tables = record { employees = ana ∷ []; templates = []; requests = []; next_request = 1 }

tables-IsValid : truck.Biometric.Enroll.Valid.IsValid tables
tables-IsValid = record {
  one_template = λ e. omega arith;
  one_pending = λ e. omega arith;
  clean_templates = tt;
  keys_below = tt;
  one_key = λ i. omega arith;
}

enroll-Arrives_example :
    Arrives 7 (1 ∷ 200 ∷ []) (pos 0) truck.Biometric.Enroll.absent 4 100 tables (
      truck.Biometric.Enroll.enroll
        (parse_enroll (pos 7) (b64encode (1 ∷ 200 ∷ [])) (pos 0) truck.Biometric.Enroll.absent)
        4
        100
        tables)
enroll-Arrives_example =
    enroll-Arrives 7 (1 ∷ 200 ∷ []) (pos 0) truck.Biometric.Enroll.absent 4 100 tables
      tables-IsValid tt (omega arith, (omega arith, tt)) refl refl

-- The reader is missing when a request is found, and is back afterwards.
abbrev unplugged : Tick
unplugged = record {
  now = 10;
  alive = false;
  next = pending 1 7;
  reader = record { connects = false; capture = template (1 ∷ []); reconnects = false };
}

abbrev plugged_in : Tick
plugged_in = record {
  now = 20;
  alive = true;
  next = has_none;
  reader = record { connects = true; capture = timeout; reconnects = true };
}

abbrev daemon : Daemon
daemon = record { next_check = 0; agent = record { listening = true; connected = true } }

deaf : (run 5 (unplugged ∷ plugged_in ∷ []) daemon).1.agent.listening ≡ false
unfolding run on_tick check_and_fulfill
deaf = refl

on_tick-Lasts_example :
    Ticked 5 unplugged daemon (ltb 10 0) (on_tick 5 unplugged daemon)
    × Lasts 5 (on_tick 5 unplugged daemon).1 (plugged_in ∷ [])
on_tick-Lasts_example = on_tick-Lasts 5 unplugged daemon (plugged_in ∷ []) (tt, tt)
