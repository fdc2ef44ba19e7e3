-- ===== src/Kiosk/Queue/Ticks.antt =====
-- The ticks of the kiosk's main loop (kiosk_agent.py).
use truck.Base.{
  ℕ, ◌+◌, ◌≡◌, refl, ◌∙◌, Bool, true, false, Option, none, List, [], ◌∷◌, All, Bool-cases, inl, inr,
  ltb,
}
use truck.Kiosk.Queue.{
  Agent, Next, request_failed, has_none, pending, Reader, Submitted, check_and_fulfill, Daemon,
  Tick, since_last, on_tick, run,
}
use truck.Kiosk.Queue.Resumes.{Resumes, check_and_fulfill-Resumes}

-- A check would find no request.
abbrev pub IsEmpty : Next → Type 0
IsEmpty request_failed = Unit
IsEmpty has_none = Unit
IsEmpty (pending r e) = ⊥

abbrev pub IsIdle : Tick → Type 0
IsIdle t = IsEmpty t.next

empty_check : (n : Next) (r : Reader) (a : Agent) → IsEmpty n → check_and_fulfill n r a ≡ (none, a)
unfolding check_and_fulfill
empty_check request_failed r a i = refl
empty_check has_none r a i = refl
empty_check (pending q e) r a i = absurd i

module _ (enroll_poll : ℕ) where
  -- A tick before the time of the next check does nothing. One that is due does the check, and the next
  -- one is due a polling interval later.
  abbrev pub Ticked : Tick → Daemon → Bool → Option Submitted × Daemon → Type 0
  Ticked t d true x = x ≡ (none, record d { agent = since_last t.alive d.agent })
  Ticked t d false (s, d') =
      Resumes t.next t.reader (since_last t.alive d.agent) (s, d'.agent)
      × (d'.next_check ≡ t.now + enroll_poll)

  abbrev pub Lasts : Daemon → List Tick → Type 0
  Lasts d ts =
      ((run enroll_poll ts d).1.agent.listening ≡ d.agent.listening)
      × ((run enroll_poll ts d).0 ≡ [])

  tick-Ticked :
      (t : Tick) (d : Daemon) → Ticked t d (ltb t.now d.next_check) (on_tick enroll_poll t d)
  unfolding on_tick
  tick-Ticked t d = elim (Bool-cases (ltb t.now d.next_check)) [
    | inl early ↦ rw early refl
    | inr late ↦
        rw late (check_and_fulfill-Resumes t.next t.reader (since_last t.alive d.agent), refl)
  ]

  kept : (alive : Bool) (a : Agent) → (since_last alive a).listening ≡ a.listening
  kept alive a = elim (Bool-cases a.listening) [ inl t ↦ rw t refl | inr f ↦ rw f refl ]

  idle_tick :
      (t : Tick) (d : Daemon)
      → IsIdle t
      → ((on_tick enroll_poll t d).1.agent.listening ≡ d.agent.listening)
        × ((on_tick enroll_poll t d).0 ≡ none)
  unfolding on_tick
  idle_tick t d i = elim (Bool-cases (ltb t.now d.next_check)) [
    | inl early ↦ rw early (kept t.alive d.agent, refl)
    | inr late ↦ rw late (
        rw (empty_check t.next t.reader (since_last t.alive d.agent) i)
          (kept t.alive d.agent, refl))
  ]

  idle-Lasts : (ts : List Tick) (d : Daemon) → All IsIdle ts → Lasts d ts
  unfolding run
  idle-Lasts [] d h = (refl, refl)
  idle-Lasts (t ∷ ts) d (i, h) =
      let one = idle_tick t d i in
      let rest = idle-Lasts ts (on_tick enroll_poll t d).1 h in (rest.0 ∙ one.0, rw one.1 rest.1)

  -- What a tick does, and that the kiosk stays as it leaves it: while the ticks find no request, the
  -- listener runs exactly if it ran before, and nothing is submitted. So a kiosk whose reader was missing
  -- at the end of a check ignores the fingers, though the reader is back, until there is a request.
  pub on_tick-Lasts :
      (t : Tick) (d : Daemon) (ts : List Tick)
      → All IsIdle ts
      → Ticked t d (ltb t.now d.next_check) (on_tick enroll_poll t d)
        × Lasts (on_tick enroll_poll t d).1 ts
  on_tick-Lasts t d ts h = (tick-Ticked t d, idle-Lasts ts (on_tick enroll_poll t d).1 h)
