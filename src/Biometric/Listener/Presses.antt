-- ===== src/Biometric/Listener/Presses.antt =====
-- One callback for each press of a finger (biometric/listener.py).
use truck.Base.{ℕ, ◌≡◌, refl, sym, ap, Bool, true, false, Option, none, some, List, [], ◌∷◌, ◌++◌}
use mathlib.Core.Path.{subst}
use truck.Biometric.Listener.{
  Capture, hardware_error, unexpected, read, Tick, State, Block, goes_on, raised, append, poll,
  reconnect_with_backoff, reconnect_delay_initial, pass, run, listener_loop,
}

-- What the loop sees: a finger's template, or `none` for a sensor without a finger and for a
-- reconnection. A capture that raises is not seen.
abbrev pub seen : Capture → List (Option (List ℕ))
seen hardware_error = []
seen unexpected = []
seen (read none) = none ∷ []
seen (read (some [])) = none ∷ []
seen (read (some (b ∷ t))) = some (b ∷ t) ∷ []

abbrev pub stays : Capture → Bool
stays hardware_error = false
stays unexpected = true
stays (read o) = true

abbrev pub signals : Bool → List Tick → List (Option (List ℕ))
signals c [] = []
signals true (t ∷ ts) = seen t.capture ++ signals (stays t.capture) ts
signals false (t ∷ ts) =
    none ∷ signals (reconnect_with_backoff reconnect_delay_initial t.attempts).0 ts

-- The presses: the runs of templates between the gaps.
abbrev pub into_first : List ℕ → List (List (List ℕ)) → List (List (List ℕ))
into_first t [] = (t ∷ []) ∷ []
into_first t (p ∷ ps) = (t ∷ p) ∷ ps

abbrev pub presses : List (Option (List ℕ)) → List (List (List ℕ))
presses [] = [] ∷ []
presses (none ∷ s) = [] ∷ presses s
presses (some t ∷ s) = into_first t (presses s)

-- The first template of each press.
abbrev pub firsts : List (List (List ℕ)) → List (List ℕ)
firsts [] = []
firsts ([] ∷ ps) = firsts ps
firsts ((t ∷ p) ∷ ps) = t ∷ firsts ps

abbrev tail : List (List (List ℕ)) → List (List (List ℕ))
tail [] = []
tail (p ∷ ps) = ps

-- What is still to be delivered.
abbrev due : Bool → List (Option (List ℕ)) → List (List ℕ)
due true s = firsts (presses s)
due false s = firsts (tail (presses s))

tail_first : (t : List ℕ) (ps : List (List (List ℕ))) → tail (into_first t ps) ≡ tail ps
tail_first t [] = refl
tail_first t (p ∷ ps) = refl

firsts_first :
    (t : List ℕ) (ps : List (List (List ℕ))) → firsts (into_first t ps) ≡ t ∷ firsts (tail ps)
firsts_first t [] = refl
firsts_first t (p ∷ ps) = refl

append_due :
    (ds : List (List ℕ)) (t : List ℕ) (l : List (List ℕ)) → append ds t ++ l ≡ ds ++ (t ∷ l)
append_due [] t l = refl
append_due (d ∷ ds) t l = ap (λ m. d ∷ m) (append_due ds t l)

append_nil : (ds : List (List ℕ)) → ds ++ [] ≡ ds
append_nil [] = refl
append_nil (d ∷ ds) = ap (λ m. d ∷ m) (append_nil ds)

due_nil : (armed : Bool) → due armed [] ≡ []
due_nil true = refl
due_nil false = refl

due_gap : (armed : Bool) (s : List (Option (List ℕ))) → due armed (none ∷ s) ≡ due true s
due_gap true s = refl
due_gap false s = refl

abbrev at : Bool → Bool → List (List ℕ) → State
at c armed ds = record { connected = c; armed = armed; delivered = ds }

-- The block was run through and gave the callback these templates.
abbrev pub Delivered : Block → List (List ℕ) → Type 0
Delivered (goes_on s) ds = s.delivered ≡ ds
Delivered (raised s) ds = ⊥

-- The rest of the run delivers what is due.
abbrev Delivers : List Tick → Type 0
Delivers ts =
    (c armed : Bool) (ds : List (List ℕ))
    → Delivered (run ts (at c armed ds)) (ds ++ due armed (signals c ts))

-- What a block leaves to the rest of the run.
abbrev onward : List Tick → Block → Block
onward ts b = elim b [ goes_on s ↦ run ts s | raised s ↦ raised s ]

first_one :
    (ts : List Tick) (ds : List (List ℕ)) (b : ℕ) (t : List ℕ)
    → Delivers ts
    → Delivered
        (run ts (at true false (append ds (b ∷ t))))
        (ds ++ firsts (into_first (b ∷ t) (presses (signals true ts))))
first_one ts ds b t ih = rw (firsts_first (b ∷ t) (presses (signals true ts))) (
    subst (Delivered (run ts (at true false (append ds (b ∷ t)))))
      (append_due ds (b ∷ t) (due false (signals true ts))) (ih true false (append ds (b ∷ t))))

poll-Delivers :
    (ts : List Tick) (armed : Bool) (ds : List (List ℕ)) (c : Capture) (raises : Bool)
    → Delivers ts
    → Delivered
        (onward ts (poll c raises (at true armed ds)))
        (ds ++ due armed (seen c ++ signals (stays c) ts))
unfolding poll
poll-Delivers ts armed ds hardware_error raises ih = ih false armed ds
poll-Delivers ts armed ds unexpected raises ih = ih true armed ds
poll-Delivers ts armed ds (read none) raises ih =
    rw (due_gap armed (signals true ts)) (ih true true ds)
poll-Delivers ts armed ds (read (some [])) raises ih =
    rw (due_gap armed (signals true ts)) (ih true true ds)
poll-Delivers ts true ds (read (some (b ∷ t))) true ih = first_one ts ds b t ih
poll-Delivers ts true ds (read (some (b ∷ t))) false ih = first_one ts ds b t ih
poll-Delivers ts false ds (read (some (b ∷ t))) raises ih =
    rw (tail_first (b ∷ t) (presses (signals true ts))) (ih true false ds)

run-Delivers : (ts : List Tick) → Delivers ts
unfolding run pass
run-Delivers [] c armed ds = rw (due_nil armed) (sym (append_nil ds))
run-Delivers (t ∷ ts) true armed ds =
    poll-Delivers ts armed ds t.capture t.callback_raises (run-Delivers ts)
run-Delivers (t ∷ ts) false armed ds =
    let c = (reconnect_with_backoff reconnect_delay_initial t.attempts).0 in
    rw (due_gap armed (signals c ts)) (run-Delivers ts c true ds)

-- Whatever the reader does, and whether the callback returns or raises, no exception ends the loop,
-- and the callback is given exactly the first template of each press, in order: a press is a run of
-- captures with a template, which ends when the sensor reads no finger or the reader is reconnected. A
-- capture that raises neither starts nor ends a press.
pub listener_loop_delivers :
    (ts : List Tick) (c : Bool) → Delivered (listener_loop ts c) (firsts (presses (signals c ts)))
unfolding listener_loop
listener_loop_delivers ts c = run-Delivers ts c true []
