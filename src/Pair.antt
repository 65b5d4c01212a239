-- ===== src/Pair.antt =====
-- Two daemons with a session between them (crates/kmflow-daemon/src/lib.rs, peer_session on both
-- sides): the turns of their loops interleave in any order, and the control stream carries what was
-- sent, in order. recv_control reads a message's length and then its body inside the select of the
-- loop, so another branch that becomes ready between them drops what was read. Datagrams may be lost,
-- reordered or invented: any of them may be an input.
pub mod Safety
use kmflow.Prelude.{Bool, List, [], false, some, true, ◌++◌, ◌∷◌, ◌≡◌, ◌≢◌}
use kmflow.Proto.{ControlCommand}
use kmflow.Session.{Action, Clock, SessionContext, send_control}
use kmflow.Session.Loop.{Input, Loop, arrive, clean_up, control, ended, step}

-- The messages that a turn puts on the control stream.
abbrev pub controls : List Action → List ControlCommand
controls [] = []
controls (send_control cmd ∷ actions) = cmd ∷ controls actions
controls (_ ∷ actions) = controls actions

-- A message that was received is an input of its own kind of step.
abbrev pub is_message : Input → Bool
is_message (control (some _)) = true
is_message _ = false

-- The captured event is put in its channel by another thread; all other inputs are branches.
abbrev pub is_branch : Input → Bool
is_branch (arrive event) = false
is_branch _ = true

-- A step of one daemon: its loop, what waits for it on the control stream, and what it sends. `cuts`
-- is whether a branch may be taken while a message is half read. That message is lost, and what the
-- loop reads from then on is out of step: any messages, or none.
pub data NodeStep (cuts : Bool) (ctx : SessionContext) (l : Loop) (inbox : List ControlCommand)
    (l' : Loop) (inbox' sent : List ControlCommand) : Type 0 where
  works :
      (clk : Clock) (input : Input) (actions : List Action)
      → is_message input ≡ false
      → step ctx clk l input ≡ some (l', actions)
      → inbox' ≡ inbox
      → sent ≡ controls actions
      → NodeStep cuts ctx l inbox l' inbox' sent
  receives :
      (clk : Clock) (cmd : ControlCommand) (actions : List Action)
      → l.mode ≢ ended
      → inbox ≡ cmd ∷ inbox'
      → step ctx clk l (control (some cmd)) ≡ some (l', actions)
      → sent ≡ controls actions
      → NodeStep cuts ctx l inbox l' inbox' sent
  cut_off :
      (clk : Clock) (input : Input) (actions : List Action) (cmd : ControlCommand)
      (rest : List ControlCommand)
      → cuts ≡ true
      → l.mode ≢ ended
      → is_message input ≡ false
      → is_branch input ≡ true
      → inbox ≡ cmd ∷ rest
      → step ctx clk l input ≡ some (l', actions)
      → sent ≡ controls actions
      → NodeStep cuts ctx l inbox l' inbox' sent
  cleans :
      (clk : Clock)
      → l.mode ≡ ended
      → l' ≡ record l { daemon = (clean_up clk l.daemon).0 }
      → inbox' ≡ inbox
      → sent ≡ []
      → NodeStep cuts ctx l inbox l' inbox' sent

pub record Pair : Type 0 where
  pub a : Loop
  pub b : Loop
  pub to_a : List ControlCommand
  pub to_b : List ControlCommand

module _ (cuts : Bool) (ctx_a ctx_b : SessionContext) where
  pub data PairStep (p q : Pair) : Type 0 where
    a_steps :
        (sent : List ControlCommand)
        → NodeStep cuts ctx_a p.a p.to_a q.a q.to_a sent
        → q.to_b ≡ p.to_b ++ sent
        → q.b ≡ p.b
        → PairStep p q
    b_steps :
        (sent : List ControlCommand)
        → NodeStep cuts ctx_b p.b p.to_b q.b q.to_b sent
        → q.to_a ≡ p.to_a ++ sent
        → q.a ≡ p.a
        → PairStep p q

  pub data Reach (start : Pair) : Pair → Type 0 where
    here : Reach start start
    next : {p q : Pair} → Reach start p → PairStep p q → Reach start q
