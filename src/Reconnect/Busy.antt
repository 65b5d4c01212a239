-- ===== src/Reconnect/Busy.antt =====
-- lib.rs, connect_to: a call while the connection is active.
use kmflow.Prelude.{[], inl, inr, refl, ◌≡◌, ◌≢◌, ◌⊎◌}
use kmflow.Connection.{
  ConnectionState, active, connected, disconnected, discovering, pairing, reconnecting, suspended,
}
use kmflow.Tls.{KnownPeers}
use kmflow.Reconnect.{World, connect_to, skipped}

pub active_or_not : (s : ConnectionState) → (s ≡ active) ⊎ (s ≢ active)
active_or_not active = inl refl
active_or_not disconnected = inr (λ e. cc e)
active_or_not discovering = inr (λ e. cc e)
active_or_not pairing = inr (λ e. cc e)
active_or_not connected = inr (λ e. cc e)
active_or_not reconnecting = inr (λ e. cc e)
active_or_not suspended = inr (λ e. cc e)

-- A call while the connection is active does nothing.
pub active_call :
    (w : World) (s : ConnectionState) (known : KnownPeers)
    → s ≡ active
    → connect_to w s known ≡ record { ending = skipped; sleeps = []; state = s; known = known }
unfolding connect_to
active_call w s known e = rw e refl
