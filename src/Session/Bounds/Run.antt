-- ===== src/Session/Bounds/Run.antt =====
-- lib.rs, peer_session: every sequence of inputs is handled to its end.
use kmflow.Prelude.{Bool, List, Option, [], arith, refl, some, ℕ, ◌++◌, ◌>>=◌, ◌∷◌, ◌≡◌}
use kmflow.Prelude.Machine.{half_i32_nat, u32_as_i32-of_lt}
use kmflow.Proto.{InputEvent, ScreenInfo}
use kmflow.Edge.Regions.{IsScreen}
use kmflow.Daemon.{initial}
use kmflow.Session.{Action, Clock, Outcome, SessionContext}
use kmflow.Session.Loop.{
  Input, Loop, Mode, arrive, capture_closed, captured, clipboard_outgoing, clipboard_received,
  close_capture, conclude, conclude_captured, control, datagram, dispatch, ended, main,
  receive_only, run, shutdown, step, take_captured,
}
use kmflow.Session.Bounds.{IsValid}
use kmflow.Session.Bounds.Handlers.{
  Ends, on_captured_total, on_control-IsValid, on_datagram_total, receive_only_control-IsValid,
  receive_only_datagram_total,
}

-- What a turn must return.
abbrev pub Turns : ScreenInfo → Option (Loop × List Action) → Type 0
Turns screen r = (t : Loop × List Action) × (r ≡ some t) × IsValid screen t.0.daemon

module _ (ctx : SessionContext) (v : IsScreen ctx.local_screen) where
  take_captured_total :
      (clk : Clock) (sent : Bool) (l : Loop) (queue : List InputEvent)
      → IsValid ctx.local_screen l.daemon
      → Turns ctx.local_screen (take_captured ctx clk sent l queue)
  unfolding take_captured
  take_captured_total clk sent l [] h = ((l, []), refl, h)
  take_captured_total clk sent l (event ∷ queue) h =
      let (r, e, k) = on_captured_total ctx v clk sent l.daemon event queue h in
      (conclude_captured l r, rw (e, ◌>>=◌) refl, k)

  concluded :
      (l : Loop) (r : Option Outcome)
      → Ends ctx.local_screen r
      → Turns ctx.local_screen (r >>= λ o. some (conclude l o))
  concluded l r (o, e, k) = (conclude l o, rw (e, ◌>>=◌) refl, k)

  close_capture_daemon :
      (l : Loop) (queue : List InputEvent) → (close_capture l queue).daemon ≡ l.daemon
  unfolding close_capture
  close_capture_daemon l [] = refl
  close_capture_daemon l (e ∷ es) = refl

  dispatch_total :
      (clk : Clock) (l : Loop) (m : Mode) (input : Input)
      → IsValid ctx.local_screen l.daemon
      → Turns ctx.local_screen (dispatch ctx clk l m input)
  unfolding dispatch
  dispatch_total clk l ended input h = ((l, []), refl, h)
  dispatch_total clk l main shutdown h = (_, refl, h)
  dispatch_total clk l main (clipboard_outgoing p b) h = (_, refl, h)
  dispatch_total clk l main (clipboard_received p) h = (_, refl, h)
  dispatch_total clk l main (arrive event) h = (_, refl, h)
  dispatch_total clk l main (captured sent) h = take_captured_total clk sent l l.queue h
  dispatch_total clk l main capture_closed h = (_, refl, rw (close_capture_daemon l l.queue) h)
  dispatch_total clk l main (datagram result) h =
      concluded l _ (on_datagram_total ctx v clk l.daemon result h)
  dispatch_total clk l main (control result) h =
      (_, refl, on_control-IsValid ctx v clk l.daemon result h)
  dispatch_total clk l receive_only shutdown h = (_, refl, h)
  dispatch_total clk l receive_only (clipboard_outgoing p b) h = (_, refl, h)
  dispatch_total clk l receive_only (clipboard_received p) h = (_, refl, h)
  dispatch_total clk l receive_only (arrive event) h = (_, refl, h)
  dispatch_total clk l receive_only (captured sent) h = (_, refl, h)
  dispatch_total clk l receive_only capture_closed h = (_, refl, h)
  dispatch_total clk l receive_only (datagram result) h =
      concluded l _ (receive_only_datagram_total ctx v clk l.daemon result h)
  dispatch_total clk l receive_only (control result) h =
      (_, refl, receive_only_control-IsValid ctx v l.daemon result h)

  -- On a screen whose sides are positive and fit an i32, from a valid state: every sequence of inputs
  -- is handled to its end without a panic, and the state then is valid, that is, the cursor is on
  -- the screen, no key or button is listed twice and the counter is a u32.
  pub run_total :
      (l : Loop) (inputs : List (Clock × Input))
      → IsValid ctx.local_screen l.daemon
      → Turns ctx.local_screen (run ctx l inputs)
  unfolding run step
  run_total l [] h = ((l, []), refl, h)
  run_total l ((clk, input) ∷ inputs) h =
      let (t, e, k) = dispatch_total clk l l.mode input h in
      let (t', e', k') = run_total t.0 inputs k in ((t'.0, t.1 ++ t'.1), rw (e, ◌>>=◌, e') refl, k')

-- The state with which the daemon starts is valid.
pub initial-IsValid :
    (screen : ScreenInfo) (now : ℕ) → IsScreen screen → IsValid screen (initial screen now)
unfolding initial
initial-IsValid screen now v =
    rw
      (
        u32_as_i32-of_lt screen.width v.width_i32,
        u32_as_i32-of_lt screen.height v.height_i32,
        half_i32_nat screen.width,
        half_i32_nat screen.height,
      )
      (record {
        column = omega arith;
        row = omega arith;
        tracked = (tt, tt);
        counter = omega arith;
      })
