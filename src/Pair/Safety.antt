-- ===== src/Pair/Safety.antt =====
-- Two daemons: they are not both without their input at rest.
use kmflow.Session.Turns.{step-FocusMove}
use kmflow.Prelude.{
  Bool-cases, List, [], ap, arith, false, if◌then◌else◌, inl, inr, refl, some, true, ℕ, ◌++◌, ◌+◌,
  ◌∷◌, ◌≡◌, ◌≢◌, ◌≤◌, ◌⊎◌,
}
use kmflow.Proto.{ControlCommand, switch_focus}
use kmflow.Daemon.{DaemonState, center_cursor}
use kmflow.Session.{
  Action, Clock, SessionContext, deliver_clipboard, emit, send_control, send_datagram, set_grab,
  write_stream,
}
use kmflow.Session.Received.{on_control, take_focus}
use kmflow.Session.ReceiveOnly.{receive_only_control, take_focus_ungrabbed}
use kmflow.Session.Loop.{Loop, Mode, clean_up, control, dispatch, ended, main, receive_only, step}
use kmflow.Session.Focus.{is_switch, switches}
use kmflow.Pair.{
  NodeStep, Pair, PairStep, Reach, a_steps, b_steps, cleans, controls, cut_off, here, next,
  receives, works,
}

abbrev pub count_switches : List ControlCommand → ℕ
count_switches [] = 0
count_switches (cmd ∷ cmds) = (if is_switch cmd then 1 else 0) + count_switches cmds

count_switches-append :
    (xs ys : List ControlCommand)
    → count_switches (xs ++ ys) ≡ count_switches xs + count_switches ys
count_switches-append [] ys = omega arith
count_switches-append (x ∷ xs) ys = omega (arith, count_switches-append xs ys)

switches-controls : (actions : List Action) → switches actions ≡ count_switches (controls actions)
switches-controls [] = refl
switches-controls (send_control cmd ∷ actions) =
    ap (λ n. (if is_switch cmd then 1 else 0) + n) (switches-controls actions)
switches-controls (send_datagram f ∷ actions) = switches-controls actions
switches-controls (set_grab g ∷ actions) = switches-controls actions
switches-controls (emit e ∷ actions) = switches-controls actions
switches-controls (write_stream s ∷ actions) = switches-controls actions
switches-controls (deliver_clipboard p ∷ actions) = switches-controls actions

-- A live loop that receives a message: a switch leaves the focus local.
message_focus :
    (ctx : SessionContext) (clk : Clock) (l : Loop) (m : Mode) (cmd : ControlCommand)
    (t : Loop × List Action)
    → m ≢ ended
    → dispatch ctx clk l m (control (some cmd)) ≡ some t
    → is_switch cmd ≡ true
    → t.0.daemon.focus_is_remote ≡ false
unfolding dispatch on_control take_focus receive_only_control take_focus_ungrabbed center_cursor
message_focus ctx clk l main (switch_focus p) t live h sw = ground arith
message_focus ctx clk l receive_only (switch_focus p) t live h sw = ground arith
message_focus ctx clk l ended cmd t live h sw = absurd (live refl)
message_focus ctx clk l m cmd t live h sw = absurd (cc)

focus_taken :
    (ctx : SessionContext) (clk : Clock) (l : Loop) (cmd : ControlCommand) (t : Loop × List Action)
    → l.mode ≢ ended
    → step ctx clk l (control (some cmd)) ≡ some t
    → is_switch cmd ≡ true
    → t.0.daemon.focus_is_remote ≡ false
unfolding step
focus_taken ctx clk l cmd t live h sw = message_focus ctx clk l l.mode cmd t live h sw

clean_up_focus : (clk : Clock) (s : DaemonState) → (clean_up clk s).0.focus_is_remote ≡ false
unfolding clean_up
clean_up_focus clk s = refl

-- What a step of one daemon does to the count of switches under way.
node_moves :
    (ctx : SessionContext) (l l' : Loop) (inbox inbox' sent : List ControlCommand)
    → NodeStep false ctx l inbox l' inbox' sent
    → l'.daemon.focus_is_remote ≡ true
    → (count_switches inbox ≤ count_switches inbox')
      × ((l.daemon.focus_is_remote ≡ true) ⊎ (1 ≤ count_switches sent))
node_moves ctx l l' inbox inbox' sent (works clk input actions m st i e) remote =
    let moved = step-FocusMove ctx clk l input (l', actions) st in
    ground (arith, i, e, switches-controls actions, moved)
node_moves ctx l l' inbox inbox' sent (receives clk cmd actions live i st e) remote =
    let moved = step-FocusMove ctx clk l (control (some cmd)) (l', actions) st in
    elim (Bool-cases (is_switch cmd)) [
      | inl switch ↦ absurd (cc (focus_taken ctx clk l cmd (l', actions) live st switch))
      | inr other ↦ ground (arith, i, e, switches-controls actions, moved, other)
    ]
node_moves ctx l l' inbox inbox' sent (cut_off clk input actions cmd rest cut live m br i st e)
      remote =
    absurd (cc cut)
node_moves ctx l l' inbox inbox' sent (cleans clk m e i n) remote =
    absurd (ground (arith, e, clean_up_focus clk l.daemon))

-- While both daemons have given their input away, a switch is under way to one of them.
abbrev pub IsGuarded : Pair → Type 0
IsGuarded p =
    p.a.daemon.focus_is_remote ≡ true
    → p.b.daemon.focus_is_remote ≡ true
    → 1 ≤ count_switches p.to_a + count_switches p.to_b

PairStep-IsGuarded :
    (ctx_a ctx_b : SessionContext) (p q : Pair)
    → PairStep false ctx_a ctx_b p q
    → IsGuarded p
    → IsGuarded q
PairStep-IsGuarded ctx_a ctx_b p q (a_steps sent n out same) g ra rb =
    let moved = node_moves ctx_a p.a q.a p.to_a q.to_a sent n ra in
    ground (arith, moved, g, out, same, count_switches-append p.to_b sent)
PairStep-IsGuarded ctx_a ctx_b p q (b_steps sent n out same) g ra rb =
    let moved = node_moves ctx_b p.b q.b p.to_b q.to_b sent n rb in
    ground (arith, moved, g, out, same, count_switches-append p.to_a sent)

-- As long as no receive of a control message is cut off half-way by another branch of the select:
-- if at the start, while both daemons have their focus at the other, a SwitchFocus is under way to
-- one of them, then so it is after any interleaving of the turns of the two loops: once the control
-- streams are empty, at least one of the two machines has its own input.
pub Reach-IsGuarded :
    (ctx_a ctx_b : SessionContext) (start p : Pair)
    → IsGuarded start
    → Reach false ctx_a ctx_b start p
    → IsGuarded p
Reach-IsGuarded ctx_a ctx_b start p g here = g
Reach-IsGuarded ctx_a ctx_b start p g (next {p = q} r st) =
    PairStep-IsGuarded ctx_a ctx_b q p st (Reach-IsGuarded ctx_a ctx_b start q g r)
