-- ===== src/Biometric/Auth/Access.antt =====
-- Whom the kiosk authentication lets in (biometric/auth.py).
use truck.Base.{
  ℕ, ◌≡◌, ◌≢◌, refl, ap, Bool, Option, List, [], ◌∷◌, ◌==◌, if◌then◌else◌, Mem, first-Mem, update,
  true, false, ◌&&◌, none, some, inl, inr, arith, Text, text_eq, text_eq-eq, truthy, lookup,
  lookup-pop_self, lookup-pop_ne, lookup-insert_self, lookup-insert_ne, Bool-cases, Option-cases,
  and_true, first-select,
}
use truck.RateLimit.Counter.{is_blocked, count_failure}
use truck.Biometric.Auth.{
  limits, KioskDevice, Request, State, Clock, Outcome, too_many, unauthorized, unicode_error,
  dispatched, client_ip, raw_token, is_ascii, device_for, stamp, seen, authenticate, record_failure,
  admit, verify, respond, dispatch,
}

stamp-update :
    (pk at : ℕ) (ip : Option Text) (ds : List KioskDevice)
    → stamp pk at ip ds
      ≡ update (λ x. x.pk == pk) (λ x. record x { last_seen_at = some at; last_seen_ip = ip }) ds
stamp-update pk at ip [] = refl
stamp-update pk at ip (d ∷ ds) =
    ap (λ l. (if d.pk == pk then record d { last_seen_at = some at; last_seen_ip = ip } else d) ∷ l)
      (stamp-update pk at ip ds)

module _ (hash : Text → Text) where
  abbrev Others : Text → State → State → Type 0
  Others ip s s' = (i : Text) → i ≢ ip → lookup i s'.failures ≡ lookup i s.failures

  -- The device is an active row of the table with the token's hash, and it and the rows with its key
  -- carry the time and the address of the request; the other rows are as before.
  pub record Admitted (c : Clock) (ip token : Text) (ds : List KioskDevice) (d : KioskDevice)
      (ds' : List KioskDevice) : Type 0 where
    pub row : KioskDevice
    pub known : Mem row ds
    pub token_hash : row.token_hash ≡ hash token
    pub active : row.is_active ≡ true
    pub device : d ≡ record row { last_seen_at = some c.wall; last_seen_ip = some ip }
    pub stamped :
        ds'
        ≡ update
            (λ x. x.pk == row.pk)
            (λ x. record x { last_seen_at = some c.wall; last_seen_ip = some ip })
            ds

  -- What an outcome of a request from `ip` with `token` says.
  abbrev pub Answers : Clock → Text → Text → State → Outcome × State → Type 0
  Answers c ip token s (too_many n, s') =
      (s' ≡ s) × (is_blocked c.arrived (lookup ip s.failures) ≡ true)
  Answers c ip token s (unauthorized, s') =
      (is_blocked c.arrived (lookup ip s.failures) ≡ false)
      × (truthy token ≡ true → device_for hash token s.devices ≡ none)
      × (s'.devices ≡ s.devices)
      × (lookup ip s'.failures ≡ some (count_failure limits c.failed (lookup ip s.failures)))
      × Others ip s s'
  Answers c ip token s (unicode_error, s') = (s' ≡ s) × (is_ascii token ≡ false)
  Answers c ip token s (dispatched d, s') =
      (is_blocked c.arrived (lookup ip s.failures) ≡ false)
      × (truthy token ≡ true)
      × Admitted c ip token s.devices d s'.devices
      × (lookup ip s'.failures ≡ none)
      × Others ip s s'

  module _ (c : Clock) (ip token : Text) (s : State) where
    unknown :
        is_blocked c.arrived (lookup ip s.failures) ≡ false
        → (truthy token ≡ true → device_for hash token s.devices ≡ none)
        → Answers c ip token s (admit hash c.failed ip s (none, s.devices))
    unfolding record_failure
    unknown b n = (
      b,
      n,
      refl,
      lookup-insert_self ip (count_failure limits c.failed (lookup ip s.failures)) s.failures,
      λ i ne.
          lookup-insert_ne ip i (count_failure limits c.failed (lookup ip s.failures)) s.failures
            ne,
    )

    known :
        (d : KioskDevice)
        → is_blocked c.arrived (lookup ip s.failures) ≡ false
        → truthy token ≡ true
        → device_for hash token s.devices ≡ some d
        → Answers c ip token s
            (admit hash c.failed ip s (seen hash c.wall (some ip) s.devices (some d)))
    known d b t f =
        let p : KioskDevice → Bool = λ x. text_eq x.token_hash (hash token) && x.is_active in
        let (h, a) =
          and_true (text_eq d.token_hash (hash token)) d.is_active (first-select p s.devices d f) in
        (
          b,
          t,
          record {
            row = d;
            known = first-Mem p s.devices d f;
            token_hash = text_eq-eq d.token_hash (hash token) h;
            active = a;
            device = refl;
            stamped = stamp-update d.pk c.wall (some ip) s.devices;
          },
          lookup-pop_self ip s.failures,
          λ i ne. lookup-pop_ne ip i s.failures ne,
        )

    verify-Answers :
        is_blocked c.arrived (lookup ip s.failures) ≡ false
        → Answers c ip token s (verify hash c ip token s)
    unfolding verify authenticate
    verify-Answers b = elim (Bool-cases (is_ascii token)) [
      | inr a ↦ rw a (refl, a)
      | inl a ↦ rw a (elim (Bool-cases (truthy token)) [
        | inr e ↦ rw e (unknown b (λ t. ground arith))
        | inl t ↦ rw t (elim (Option-cases (device_for hash token s.devices)) [
          | inl n ↦ rw n (unknown b (λ u. n))
          | inr (d, f) ↦ rw f (known d b t f)
        ])
      ])
    ]

    respond-Answers : Answers c ip token s (respond hash c ip token s (lookup ip s.failures))
    respond-Answers = elim (Option-cases (lookup ip s.failures)) [
      | inl n ↦ rw n (verify-Answers (rw n refl))
      | inr (e, f) ↦ rw f (elim (Bool-cases (is_blocked c.arrived (some e))) [
        | inl b ↦ rw b (refl, rw f b)
        | inr b ↦ rw b (verify-Answers (rw f b))
      ])
    ]

  -- A request is answered 429 only if its address is blocked, and then nothing changes. It is
  -- answered 401 only if no active device has its token, and then the failure is counted and no
  -- device changes. It reaches the view only with the token of an active device of the table, from an
  -- address that is not blocked: then that row, as the view gets it and in the table, carries the time
  -- and the address of the request, the other rows are as before, and the failures of the address are
  -- forgotten. A token that is not ASCII raises, and nothing is counted. The
  -- failures of other addresses stay as they are.
  pub dispatch-Answers :
      (c : Clock) (r : Request) (s : State)
      → Answers c (client_ip r) (raw_token r) s (dispatch hash c r s)
  unfolding dispatch
  dispatch-Answers c r s = respond-Answers c (client_ip r) (raw_token r) s
