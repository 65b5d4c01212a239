-- ===== src/Session/Captured.antt =====
-- lib.rs, the branch of the main loop that receives a captured local event.
use kmflow.Prelude.{
  Bool, List, Option, [], false, if◌then◌else◌, some, suc, true, zero, ℕ, ◌&&◌, ◌++◌, ◌-◌, ◌>>=◌,
  ◌∷◌,
}
use kmflow.Proto.{EventFrame, InputEvent, mouse_move, release_focus}
use kmflow.Edge.{hits}
use kmflow.Daemon.{
  DaemonState, center_cursor, check_emergency_hotkey, flush_pressed_keys, next_seq, track_key_state,
}
use kmflow.Session.{
  Clock, Outcome, SessionContext, event_batch_limit, proceed, release_frame, send_control,
  send_datagram, set_grab, stop, switch_to_remote,
}
use kmflow.Session.Cursor.{move_cursor}

-- Ctrl+Alt+Esc while the focus is remote: take it back and release what is held at the peer.
unfoldable pub on_emergency : Clock → DaemonState → Outcome
on_emergency clk s =
    let s' = record s { focus_is_remote = false } in
    let releases = flush_pressed_keys s' in
    let (s'', seq) = next_seq s' in
    record {
      state = s'';
      actions =
          set_grab false ∷ (release_frame clk seq releases ++ send_control release_focus ∷ []);
      flow = proceed;
    }

-- `try_recv` until the batch is full or the channel empty: the tracked state, what was taken, and
-- what the channel still holds.
unfoldable pub drain :
    ℕ → DaemonState → List InputEvent → DaemonState × List InputEvent × List InputEvent
drain zero s queue = (s, [], queue)
drain (suc room) s [] = (s, [], [])
drain (suc room) s (ev ∷ queue) =
    let (s', batch, left_over) = drain room (track_key_state s ev) queue in
    (s', ev ∷ batch, left_over)

-- Focus is remote: send the event, and those that wait behind it, in one frame. `sent` is whether
-- the datagram could be sent.
unfoldable pub forward :
    Clock → Bool → DaemonState → InputEvent → List InputEvent → Outcome × List InputEvent
forward clk sent s event queue =
    let (s', more, left_over) = drain (event_batch_limit - 1) s queue in
    let (s'', seq) = next_seq s' in
    let frame : EventFrame = record {
      seq = seq;
      timestamp_us = clk.now_us;
      events = event ∷ more;
    } in
    (
      record {
        state = s'';
        actions = send_datagram frame ∷ [];
        flow = if sent then proceed else stop;
      },
      left_over,
    )

-- The focus goes to the peer: grab, re-centre, tell the peer.
unfoldable pub leave_screen : SessionContext → DaemonState → Outcome
leave_screen ctx s = record {
  state = center_cursor ctx.local_screen (record s { focus_is_remote = true });
  actions = set_grab true ∷ send_control switch_to_remote ∷ [];
  flow = proceed;
}

-- Focus is local: follow the cursor to the edge.
unfoldable pub track_local : SessionContext → DaemonState → InputEvent → Option Outcome
track_local ctx s (mouse_move dx dy) = do
  s' ← move_cursor ctx.local_screen s dx dy
  some (
      if hits ctx.edge_detector s'.cursor_x s'.cursor_y
      then leave_screen ctx s'
      else record { state = s'; actions = []; flow = proceed })
track_local ctx s _ = some (record { state = s; actions = []; flow = proceed })

unfoldable pub on_captured :
    SessionContext
    → Clock
    → Bool
    → DaemonState
    → InputEvent
    → List InputEvent
    → Option (Outcome × List InputEvent)
on_captured ctx clk sent s event queue =
    let s' = track_key_state s event in
    if check_emergency_hotkey s' && s'.focus_is_remote
    then some (on_emergency clk s', queue)
    else if s'.focus_is_remote
    then some (forward clk sent s' event queue)
    else (do o ← track_local ctx s' event; some (o, queue))
