-- ===== src/MainLoop/Waits.antt =====
-- lib.rs, Daemon::run: how long it does not look for a shutdown, and that it then ends.
use kmflow.Prelude.{
  Bool-cases, List, [], ap, arith, false, inl, inr, refl, suc, sym, take, true, zero, ℕ, ◌*◌, ◌++◌,
  ◌+◌, ◌∙◌, ◌∷◌, ◌≡◌, ◌≢◌, ◌≤◌,
}
use kmflow.Proto.{KmflowConfig}
use kmflow.Connection.{ConnectionState, active}
use kmflow.Tls.{KnownPeers}
use kmflow.Reconnect.{Ending, World, connect_to, gave_up, session, skipped, unreachable}
use kmflow.Reconnect.Backoff.{connect_to_lem, delays}
use kmflow.Reconnect.Busy.{active_call, active_or_not}
use kmflow.MainLoop.{
  Main, Wake, accept_failed, accepted, after_connect, asked, handle_accepted_peer, handle_address,
  main_run, moved, on_wake, shutdown, spawn, total,
}

-- The seconds that one call of connect_to can sleep.
abbrev pub longest_call : ℕ
longest_call = 151

total-take : (n : ℕ) (ns : List ℕ) → total (take n ns) ≤ total ns
total-take zero ns = omega arith
total-take (suc n) [] = omega arith
total-take (suc n) (k ∷ ns) = omega (arith, total-take n ns)

idle_call_sleeps :
    (w : World) (s : ConnectionState) (known : KnownPeers)
    → s ≢ active
    → total (connect_to w s known).sleeps ≤ longest_call
idle_call_sleeps w s known idle = elim (connect_to_lem w s known idle) [
  | inl (n, f, few, before, here, ends, sleeps, knows) ↦ rw sleeps (total-take n delays)
  | inr (e, before, last, ends, sleeps, knows) ↦ rw sleeps (omega arith)
]

call_sleeps :
    (w : World) (s : ConnectionState) (known : KnownPeers)
    → total (connect_to w s known).sleeps ≤ longest_call
call_sleeps w s known = elim (active_or_not s) [
  | inl busy ↦ rw (active_call w s known busy) (omega arith)
  | inr idle ↦ idle_call_sleeps w s known idle
]

-- The addresses among the wakes.
abbrev pub asked_count : List Wake → ℕ
asked_count [] = 0
asked_count (asked w ∷ wakes) = suc (asked_count wakes)
asked_count (_ ∷ wakes) = asked_count wakes

module _ (config : KmflowConfig) where
  after_connect_waits : (e : Ending) (m : Main) → (after_connect config e m).waited ≡ m.waited
  unfolding after_connect spawn
  after_connect_waits skipped m = refl
  after_connect_waits (session f) m = refl
  after_connect_waits (gave_up e) m = refl
  after_connect_waits unreachable m = refl

  on_wake_waits :
      (wake : Wake) (wakes : List Wake) (m : Main)
      → (on_wake config wake m).waited + longest_call * asked_count wakes
        ≤ m.waited + longest_call * asked_count (wake ∷ wakes)
  unfolding on_wake handle_accepted_peer spawn handle_address
  on_wake_waits shutdown wakes m = omega arith
  on_wake_waits (accepted r w now f) wakes m = omega arith
  on_wake_waits accept_failed wakes m = omega arith
  on_wake_waits (asked w) wakes m = omega (
    arith,
    call_sleeps w m.state m.known,
    after_connect_waits (connect_to w m.state m.known).ending (record m {
      state = (connect_to w m.state m.known).state;
      known = (connect_to w m.state m.known).known;
      waited = m.waited + total (connect_to w m.state m.known).sleeps;
    }),
  )
  on_wake_waits (moved s) wakes m = omega arith

  stopped_run : (wakes : List Wake) (m : Main) → m.stopped ≡ true → main_run config wakes m ≡ m
  unfolding main_run
  stopped_run [] m h = refl
  stopped_run (wake ∷ wakes) m h = rw h refl

  running_run :
      (wake : Wake) (wakes : List Wake) (m : Main)
      → m.stopped ≡ false
      → main_run config (wake ∷ wakes) m ≡ main_run config wakes (on_wake config wake m)
  unfolding main_run
  running_run wake wakes m h = rw h refl

  -- The loop ends at a list of wakes, within a time, and the longer list makes no difference.
  abbrev EndsWithin : List Wake → List Wake → ℕ → Main → Type 0
  EndsWithin wakes longer time m =
      (main_run config longer m ≡ main_run config wakes m)
      × ((main_run config wakes m).stopped ≡ true)
      × ((main_run config wakes m).waited ≤ time)

  stopped_ends :
      (wakes longer : List Wake) (m : Main) (time : ℕ)
      → m.stopped ≡ true
      → m.waited ≤ time
      → EndsWithin wakes longer time m
  stopped_ends wakes longer m time h small =
      let rest = stopped_run wakes m h in
      (
        stopped_run longer m h ∙ sym rest,
        ap (λ (n : Main). n.stopped) rest ∙ h,
        omega (arith, ap (λ (n : Main). n.waited) rest),
      )

  running_ends :
      (wake : Wake) (wakes longer : List Wake) (m : Main) (time : ℕ)
      → m.stopped ≡ false
      → EndsWithin wakes longer time (on_wake config wake m)
      → EndsWithin (wake ∷ wakes) (wake ∷ longer) time m
  running_ends wake wakes longer m time going (same, ends, bound) =
      let one = running_run wake wakes m going in
      (
        running_run wake longer m going ∙ same ∙ sym one,
        ap (λ (n : Main). n.stopped) one ∙ ends,
        omega (arith, bound, ap (λ (n : Main). n.waited) one),
      )

  last_wake :
      (later : List Wake) (m : Main) (time : ℕ)
      → m.waited ≤ time
      → EndsWithin [] later time (on_wake config shutdown m)
  unfolding on_wake main_run
  last_wake later m time small = stopped_ends [] later (on_wake config shutdown m) time refl small

  within_longer :
      (wakes longer : List Wake) (m : Main) (time more : ℕ)
      → time ≤ more
      → EndsWithin wakes longer time m
      → EndsWithin wakes longer more m
  within_longer wakes longer m time more h (same, ends, bound) = (same, ends, omega arith)

  -- Whatever wakes the loop before a shutdown and after it: once it sees the shutdown it has ended and
  -- what comes after changes nothing; and up to then it has slept at most 151 seconds for each address
  -- that it was asked to connect to, during which it sees no shutdown.
  pub shutdown_ends :
      (before later : List Wake) (m : Main)
      → let ended = main_run config (before ++ shutdown ∷ []) m in
        (main_run config (before ++ shutdown ∷ later) m ≡ ended)
        × (ended.stopped ≡ true)
        × (ended.waited ≤ m.waited + longest_call * asked_count before)
  shutdown_ends [] later m = elim (Bool-cases m.stopped) [
    | inl over ↦ stopped_ends (shutdown ∷ []) (shutdown ∷ later) m _ over (omega arith)
    | inr going ↦
        running_ends shutdown [] later m (m.waited + longest_call * 0) going
          (last_wake later m (m.waited + longest_call * 0) (omega arith))
  ]
  shutdown_ends (wake ∷ before) later m = elim (Bool-cases m.stopped) [
    | inl over ↦
        stopped_ends (wake ∷ (before ++ shutdown ∷ [])) (wake ∷ (before ++ shutdown ∷ later)) m _
          over (omega arith)
    | inr going ↦
        let m' = on_wake config wake m in
        running_ends wake (before ++ shutdown ∷ []) (before ++ shutdown ∷ later) m _ going (
          within_longer (before ++ shutdown ∷ []) (before ++ shutdown ∷ later) m'
            (m'.waited + longest_call * asked_count before) _ (on_wake_waits wake before m)
            (shutdown_ends before later m'))
  ]
