-- ===== src/MainLoop/Trusted.antt =====
-- lib.rs, Daemon::run: a session begins only with a peer whose fingerprint is on file.
use kmflow.Proto.{KmflowConfig}
use kmflow.Prelude.{All, Bool, List, [], arith, inl, inr, refl, some, true, ℕ, ◌+◌, ◌∷◌, ◌≡◌, ◌≢◌}
use kmflow.Connection.{ConnectionState, active}
use kmflow.Tls.{KnownPeers, is_known, trust_on_first_use}
use kmflow.Tls.{KnownPeers, is_known, trust_on_first_use}
use kmflow.Tls.Trust.{trust_on_first_use_keeps, trust_on_first_use_once}
use kmflow.Reconnect.Backoff.{connect_to_lem}
use kmflow.Reconnect.{Ending, Trace, World, connect_to, gave_up, session, skipped, unreachable}
use kmflow.Reconnect.Busy.{active_call, active_or_not}
use kmflow.MainLoop.{
  Main, Spawned, Wake, accept_failed, accepted, after_connect, asked, handle_accepted_peer,
  handle_address, main_run, moved, on_wake, shutdown, spawn,
}

-- The file can be read and written.
abbrev pub CanKeep : Wake → Type 0
CanKeep (accepted readable writable now fingerprint) = (readable ≡ true) × (writable ≡ true)
CanKeep (asked w) = (w.readable ≡ true) × (w.writable ≡ true)
CanKeep _ = Unit {0}

abbrev pub Knows : KnownPeers → List ℕ → Type 0
Knows file fingerprint = is_known true file fingerprint ≡ some true

abbrev pub AllKnown : KnownPeers → List Spawned → Type 0
AllKnown file = All (λ s. Knows file s.fingerprint)

known_after :
    (readable writable : Bool) (now : ℕ) (file : KnownPeers) (fingerprint : List ℕ)
    (sessions : List Spawned)
    → AllKnown file sessions
    → AllKnown (trust_on_first_use readable writable now file fingerprint) sessions
known_after readable writable now file fingerprint [] h = tt
known_after readable writable now file fingerprint (s ∷ sessions) h = (
  trust_on_first_use_keeps readable writable now file fingerprint s.fingerprint h.0,
  known_after readable writable now file fingerprint sessions h.1,
)

newly_known :
    (readable writable : Bool) (now : ℕ) (file : KnownPeers) (fingerprint : List ℕ)
    → readable ≡ true
    → writable ≡ true
    → Knows (trust_on_first_use readable writable now file fingerprint) fingerprint
newly_known readable writable now file fingerprint hr hw =
    rw (hr, hw) (trust_on_first_use_once now now file fingerprint).0

-- What a call of connect_to leaves on file: what it found, and the peer it ends in a session with.
abbrev pub Leaves : KnownPeers → List Spawned → Trace → Type 0
Leaves known sessions t =
    AllKnown t.known sessions
    × ((fingerprint : List ℕ) → t.ending ≡ session fingerprint → Knows t.known fingerprint)

idle_call-Leaves :
    (w : World) (s : ConnectionState) (known : KnownPeers) (sessions : List Spawned)
    → s ≢ active
    → w.readable ≡ true
    → w.writable ≡ true
    → AllKnown known sessions
    → Leaves known sessions (connect_to w s known)
idle_call-Leaves w s known sessions idle hr hw h = elim (connect_to_lem w s known idle) [
  | inl (n, f, few, before, here, ends, sleeps, knows) ↦ (
    rw knows (known_after w.readable w.writable (w.now_us (1 + n)) known f sessions h),
    λ fingerprint e.
        let same : fingerprint ≡ f = cc (ends, e) in
        rw (knows, same) (newly_known w.readable w.writable (w.now_us (1 + n)) known f hr hw),
  )
  | inr (e, before, last, ends, sleeps, knows) ↦
      (rw knows h, λ fingerprint e'. absurd (cc (ends, e')))
]

call-Leaves :
    (w : World) (s : ConnectionState) (known : KnownPeers) (sessions : List Spawned)
    → w.readable ≡ true
    → w.writable ≡ true
    → AllKnown known sessions
    → Leaves known sessions (connect_to w s known)
call-Leaves w s known sessions hr hw h = elim (active_or_not s) [
  | inl busy ↦ rw (active_call w s known busy) (h, λ fingerprint e. absurd (cc e))
  | inr idle ↦ idle_call-Leaves w s known sessions idle hr hw h
]

-- Every session was begun with a peer that the file knows.
abbrev pub IsTrusted : Main → Type 0
IsTrusted m = AllKnown m.known m.sessions

module _ (config : KmflowConfig) where
  after_connect-IsTrusted :
      (e : Ending) (m : Main)
      → IsTrusted m
      → ((fingerprint : List ℕ) → e ≡ session fingerprint → Knows m.known fingerprint)
      → IsTrusted (after_connect config e m)
  unfolding after_connect spawn
  after_connect-IsTrusted skipped m h k = h
  after_connect-IsTrusted (session f) m h k = (k f refl, h)
  after_connect-IsTrusted (gave_up e) m h k = h
  after_connect-IsTrusted unreachable m h k = h

  on_wake-IsTrusted :
      (wake : Wake) (m : Main) → CanKeep wake → IsTrusted m → IsTrusted (on_wake config wake m)
  unfolding on_wake handle_accepted_peer spawn handle_address
  on_wake-IsTrusted shutdown m c h = h
  on_wake-IsTrusted (accepted r w now f) m c h =
      (newly_known r w now m.known f c.0 c.1, known_after r w now m.known f m.sessions h)
  on_wake-IsTrusted accept_failed m c h = h
  on_wake-IsTrusted (asked w) m c h =
      let (kept, met) = call-Leaves w m.state m.known m.sessions c.0 c.1 h in
      after_connect-IsTrusted _ _ kept met
  on_wake-IsTrusted (moved s) m c h = h

  -- If the file of known peers can be read and written whenever a peer is met: after any wakes of the
  -- loop, the fingerprint of every peer that a session was begun with is in the file, if this was so
  -- before.
  pub main_run-IsTrusted :
      (wakes : List Wake) (m : Main)
      → All CanKeep wakes
      → IsTrusted m
      → IsTrusted (main_run config wakes m)
  unfolding main_run
  main_run-IsTrusted [] m c h = h
  main_run-IsTrusted (wake ∷ wakes) m c h = ground (
    arith,
    h,
    main_run-IsTrusted wakes (on_wake config wake m) c.1 (on_wake-IsTrusted wake m c.0 h),
  )
