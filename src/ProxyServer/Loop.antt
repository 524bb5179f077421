-- ===== src/ProxyServer/Loop.antt =====
-- The phases of the accept loop of src/ProxyServer/ProxyServer.cpp, step by step and over a sequence
-- of steps.
use single_flight_proxy_serv.Prelude.{
  ℕ, zero, suc, ◌+◌, ◌≤◌, ◌≡◌, refl, ap, Bool, true, false, List, [], ◌∷◌, arith, if◌then◌else◌,
}
use single_flight_proxy_serv.Session.{ErrorCode, success}
use single_flight_proxy_serv.ProxyServer.{
  Phase, do_accept_called, test_passed, waiting, accepted, starts_session, session_part_done, ended,
  Happening, accepts, continues, completes, accept_completed,
}

-- Where a step leads the accept loop.
abbrev pub moved_from : Bool → Phase → Phase
moved_from on do_accept_called = if on then test_passed else ended
moved_from on test_passed = waiting
moved_from on waiting = waiting
moved_from on (accepted success) = if on then starts_session else session_part_done
moved_from on (accepted ec) = session_part_done
moved_from on starts_session = session_part_done
moved_from on session_part_done = if on then do_accept_called else ended
moved_from on ended = ended

-- The sessions that a step at this phase starts.
abbrev pub starting : Phase → ℕ
starting starts_session = 1
starting phase = 0

abbrev pub moved : Happening → Bool → Phase → Phase
moved (accepts ec) on phase = accept_completed ec phase
moved continues on phase = moved_from on phase
moved (completes e) on phase = phase

abbrev pub begun : Happening → Phase → ℕ
begun continues phase = starting phase
begun h phase = 0

-- The same over a sequence.
abbrev pub walk : List Happening → Bool → Phase → Phase
walk [] on phase = phase
walk (h ∷ hs) on phase = walk hs on (moved h on phase)

abbrev pub total : List Happening → Bool → Phase → ℕ
total [] on phase = 0
total (h ∷ hs) on phase = begun h phase + total hs on (moved h on phase)

-- No accept completes.
abbrev pub IsQuiet : List Happening → Type 0
IsQuiet [] = Unit {0}
IsQuiet (accepts ec ∷ hs) = ⊥
IsQuiet (continues ∷ hs) = IsQuiet hs
IsQuiet (completes e ∷ hs) = IsQuiet hs

-- The steps that the accept loop takes.
abbrev pub loop_steps : List Happening → ℕ
loop_steps [] = 0
loop_steps (accepts ec ∷ hs) = loop_steps hs
loop_steps (continues ∷ hs) = suc (loop_steps hs)
loop_steps (completes e ∷ hs) = loop_steps hs

abbrev pub after_steps : ℕ → Phase → Phase
after_steps zero phase = phase
after_steps (suc n) phase = after_steps n (moved_from true phase)

abbrev pub begun_in : ℕ → Phase → ℕ
begun_in zero phase = 0
begun_in (suc n) phase = starting phase + begun_in n (moved_from true phase)

pub walk-IsQuiet :
    (hs : List Happening) (phase : Phase)
    → IsQuiet hs
    → (walk hs true phase ≡ after_steps (loop_steps hs) phase)
      × (total hs true phase ≡ begun_in (loop_steps hs) phase)
walk-IsQuiet [] phase q = (refl, refl)
walk-IsQuiet (accepts ec ∷ hs) phase q = absurd q
walk-IsQuiet (continues ∷ hs) phase q =
    let (e, f) = walk-IsQuiet hs (moved_from true phase) q in (e, ap (λ n. starting phase + n) f)
walk-IsQuiet (completes e ∷ hs) phase q =
    let (e, f) = walk-IsQuiet hs phase q in (e, omega (arith, f))

rests : (n : ℕ) → (after_steps n waiting ≡ waiting) × (begun_in n waiting ≡ 0)
rests zero = (refl, refl)
rests (suc n) = let (e, f) = rests n in (e, omega (arith, f))

-- The session that a completed accept starts.
abbrev pub admitted : ErrorCode → ℕ
admitted success = 1
admitted ec = 0

five_more : (n : ℕ) → 5 + n ≡ suc (suc (suc (suc (suc n))))
five_more n = omega arith

pub returns_to_waiting :
    (n : ℕ) (ec : ErrorCode)
    → (after_steps (5 + n) (accepted ec) ≡ waiting) × (begun_in (5 + n) (accepted ec) ≡ admitted ec)
returns_to_waiting n success =
    let (there, none_begun) = rests n in rw (five_more n) (there, omega (arith, none_begun))
returns_to_waiting n ec =
    let (there, none_begun) = rests (suc n) in rw (five_more n) (there, omega (arith, none_begun))

accept_starts_nothing :
    (ec : ErrorCode) (phase : Phase) → 0 + starting (accept_completed ec phase) ≤ starting phase
unfolding accept_completed
accept_starts_nothing ec waiting = omega arith
accept_starts_nothing ec _ = omega arith

pub stops_starting :
    (h : Happening) (phase : Phase)
    → begun h phase + starting (moved h false phase) ≤ starting phase
unfolding accept_completed
stops_starting (accepts ec) phase = accept_starts_nothing ec phase
stops_starting continues (accepted success) = omega arith
stops_starting continues (accepted ec) = omega arith
stops_starting continues _ = omega arith
stops_starting (completes e) phase = omega arith

pub total_off : (hs : List Happening) (phase : Phase) → total hs false phase ≤ starting phase
total_off [] phase = omega arith
total_off (h ∷ hs) phase = omega (arith, stops_starting h phase, total_off hs (moved h false phase))
