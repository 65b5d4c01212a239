-- ===== src/Reconnect/Backoff.antt =====
-- lib.rs, connect_to: how it ends, and how long it sleeps.
use kmflow.Prelude.{
  ==_iff, Bool-cases, List, [], ap, arith, inl, inr, min, refl, suc, sym, take, zero, ℕ, ◌*◌, ◌+◌,
  ◌<◌, ◌==◌, ◌∙◌, ◌∷◌, ◌≡◌, ◌≢◌, ◌≤◌, ◌⊎◌,
}
use kmflow.Connection.{
  ConnectionState, active, connected, disconnected, discovering, pairing, reconnecting, suspended,
  transition_to,
}
use kmflow.Tls.{KnownPeers, trust_on_first_use}
use kmflow.Reconnect.{
  Attempt, Trace, World, answered, attempts, connect_to, gave_up, reconnect_base_delay,
  reconnect_max_delay, refused, session,
}

-- The delays of a call: 1, 2, 4, 8, 16 and then 30 seconds.
abbrev pub delays : List ℕ
delays = 1 ∷ 2 ∷ 4 ∷ 8 ∷ 16 ∷ 30 ∷ 30 ∷ 30 ∷ 30 ∷ []

abbrev pub delays_from : ℕ → ℕ → List ℕ
delays_from zero delay = []
delays_from (suc n) delay = delay ∷ delays_from n (min (delay * 2) reconnect_max_delay)

schedule : delays_from 9 reconnect_base_delay ≡ delays
schedule = refl

abbrev pub Refused : World → ℕ → Type 0
Refused w k = (e : ℕ) × (w.connect k ≡ refused e)

module _ (w : World) (left attempt delay : ℕ) (s : ConnectionState) (known : KnownPeers) where
  abbrev again : Trace
  again =
      attempts w left (suc attempt) (min (delay * 2) reconnect_max_delay)
        (w.others attempt (transition_to s reconnecting).0) known

  attempt_answered :
      (fingerprint : List ℕ)
      → w.connect attempt ≡ answered fingerprint
      → attempts w (suc left) attempt delay s known ≡ record {
        ending = session fingerprint;
        sleeps = [];
        state = s;
        known = trust_on_first_use w.readable w.writable (w.now_us attempt) known fingerprint;
      }
  unfolding attempts
  attempt_answered fingerprint h = ground (arith, h)

  attempt-Refused :
      Refused w attempt
      → attempt < 10
      → attempts w (suc left) attempt delay s known ≡ record again { sleeps = delay ∷ again.sleeps }
  unfolding attempts
  attempt-Refused (e, h) early = ground (arith, h)

  last_refused :
      (e : ℕ)
      → w.connect attempt ≡ refused e
      → attempt ≡ 10
      → attempts w (suc left) attempt delay s known
        ≡ record { ending = gave_up e; sleeps = []; state = s; known = known }
  unfolding attempts
  last_refused e h late = ground (arith, h)

-- After `n` refusals an attempt that is not beyond the last one is answered.
attempts-answered :
    (w : World) (n left attempt delay : ℕ) (s : ConnectionState) (known : KnownPeers)
    (fingerprint : List ℕ)
    → ((k : ℕ) → attempt ≤ k → k < attempt + n → Refused w k)
    → w.connect (attempt + n) ≡ answered fingerprint
    → n < left
    → attempt + left ≡ 11
    → let t = attempts w left attempt delay s known in
      (t.ending ≡ session fingerprint)
      × (t.sleeps ≡ delays_from n delay)
      × (t.known
          ≡ trust_on_first_use w.readable w.writable (w.now_us (attempt + n)) known fingerprint)
attempts-answered w n zero attempt delay s known fingerprint fails here h k = absurd (omega arith)
attempts-answered w zero (suc left) attempt delay s known fingerprint fails here h k =
    let e : attempt + 0 ≡ attempt = omega arith in
    let answer : w.connect attempt ≡ answered fingerprint = rw e at here in
    rw (e, attempt_answered w left attempt delay s known fingerprint answer) (refl, refl, refl)
attempts-answered w (suc n) (suc left) attempt delay s known fingerprint fails here h k =
    let shift : attempt + suc n ≡ suc attempt + n = omega arith in
    let (ends, sleeps, knows) =
      attempts-answered w n left (suc attempt) (min (delay * 2) reconnect_max_delay)
        (w.others attempt (transition_to s reconnecting).0) known fingerprint
        (λ j lo hi. fails j (omega arith) (omega arith)) (rw shift at here) (omega arith)
        (omega arith) in
    rw
      (
        attempt-Refused w left attempt delay s known (fails attempt (omega arith) (omega arith))
            (omega arith),
        shift,
      )
      (ends, ap (◌∷◌ delay) sleeps, knows)

-- All attempts that are left are refused.
attempts-refused :
    (w : World) (left attempt delay : ℕ) (s : ConnectionState) (known : KnownPeers) (e : ℕ)
    → ((k : ℕ) → attempt ≤ k → k < 10 → Refused w k)
    → w.connect 10 ≡ refused e
    → attempt + left ≡ 10
    → let t = attempts w (suc left) attempt delay s known in
      (t.ending ≡ gave_up e) × (t.sleeps ≡ delays_from left delay) × (t.known ≡ known)
attempts-refused w zero attempt delay s known e fails last k =
    let here : attempt ≡ 10 = omega arith in
    let refusal : w.connect attempt ≡ refused e = ap w.connect here ∙ last in
    rw (last_refused w zero attempt delay s known e refusal here) (refl, refl, refl)
attempts-refused w (suc left) attempt delay s known e fails last k =
    let (ends, sleeps, knows) =
      attempts-refused w left (suc attempt) (min (delay * 2) reconnect_max_delay)
        (w.others attempt (transition_to s reconnecting).0) known e
        (λ j lo hi. fails j (omega arith) hi) last (omega arith) in
    rw
      (attempt-Refused w (suc left) attempt delay s known
        (fails attempt (omega arith) (omega arith)) (omega arith))
      (ends, ap (◌∷◌ delay) sleeps, knows)

connects :
    (w : World) (s : ConnectionState) (known : KnownPeers)
    → s ≢ active
    → connect_to w s known ≡ attempts w 10 1 1 s known
unfolding connect_to
connects w active known idle = absurd (idle refl)
connects w disconnected known idle = refl
connects w discovering known idle = refl
connects w pairing known idle = refl
connects w connected known idle = refl
connects w suspended known idle = refl
connects w reconnecting known idle = refl

take-delays_from : (n m delay : ℕ) → n ≤ m → take n (delays_from m delay) ≡ delays_from n delay
take-delays_from zero m delay h = refl
take-delays_from (suc n) zero delay h = absurd (omega arith)
take-delays_from (suc n) (suc m) delay h =
    ap (◌∷◌ delay) (take-delays_from n m (min (delay * 2) reconnect_max_delay) (omega arith))

attempt_cases : (a : Attempt) → ((f : List ℕ) × (a ≡ answered f)) ⊎ ((e : ℕ) × (a ≡ refused e))
attempt_cases (answered f) = inl (f, refl)
attempt_cases (refused e) = inr (e, refl)

extend :
    (w : World) (attempt bound : ℕ)
    → (e : ℕ) × (w.connect attempt ≡ refused e)
    → ((k : ℕ) → suc attempt ≤ k → k < bound → Refused w k)
    → (k : ℕ) → attempt ≤ k
    → k < bound
    → Refused w k
extend w attempt bound (e, h) rest k lo hi = elim (Bool-cases (attempt == k)) [
  | inl same ↦ (e, ap w.connect (sym ((==_iff attempt k).0 same)) ∙ h)
  | inr differs ↦ rest k (ground arith) hi
]

-- The first attempt that is answered, among `m` from `attempt` on, if there is one.
first_answer :
    (w : World) (m attempt : ℕ)
    → ((n : ℕ) × (f : List ℕ) × (n < m)
        × (w.connect (attempt + n) ≡ answered f)
        × ((k : ℕ) → attempt ≤ k → k < attempt + n → Refused w k))
      ⊎ ((k : ℕ) → attempt ≤ k → k < attempt + m → Refused w k)
first_answer w zero attempt = inr (λ k lo hi. absurd (omega arith))
first_answer w (suc m) attempt = elim (attempt_cases (w.connect attempt)) [
  | inl (f, here) ↦
      let e : attempt + 0 ≡ attempt = omega arith in
      inl (0, f, omega arith, ap w.connect e ∙ here, λ k lo hi. absurd (omega arith))
  | inr refusal ↦ elim (first_answer w m (suc attempt)) [
    | inl (n, f, h, here, before) ↦
        let e : attempt + suc n ≡ suc attempt + n = omega arith in
        inl (
          suc n,
          f,
          omega arith,
          ap w.connect e ∙ here,
          λ k lo hi.
              extend w attempt (attempt + suc n) refusal (λ j l u. before j l (omega arith)) k lo
                hi,
        )
    | inr none_of ↦ inr (λ k lo hi.
        extend w attempt (attempt + suc m) refusal (λ j l u. none_of j l (omega arith)) k lo hi)
  ]
]

-- A call while the connection is not active ends in one of two ways, whatever other tasks do to the
-- state: in a session with the peer of the first of ten attempts that is answered, and that peer is
-- then treated as met; or, if none is, in the error of the tenth. Between the attempts it sleeps
-- 1, 2, 4, 8, 16 and then 30 seconds each time, and after the last it does not sleep.
pub connect_to_lem :
    (w : World) (s : ConnectionState) (known : KnownPeers)
    → s ≢ active
    → let t = connect_to w s known in
      ((n : ℕ) × (fingerprint : List ℕ) × (n < 10)
        × ((k : ℕ) → 1 ≤ k → k ≤ n → Refused w k)
        × (w.connect (1 + n) ≡ answered fingerprint)
        × (t.ending ≡ session fingerprint)
        × (t.sleeps ≡ take n delays)
        × (t.known ≡ trust_on_first_use w.readable w.writable (w.now_us (1 + n)) known fingerprint))
      ⊎ ((e : ℕ) × ((k : ℕ) → 1 ≤ k → k < 10 → Refused w k)
          × (w.connect 10 ≡ refused e)
          × (t.ending ≡ gave_up e)
          × (t.sleeps ≡ delays)
          × (t.known ≡ known))
connect_to_lem w s known idle = elim (first_answer w 10 1) [
  | inl (n, f, h, here, before) ↦
      let (ends, sleeps, knows) = attempts-answered w n 10 1 1 s known f before here h refl in
      inl (
        n,
        f,
        h,
        λ k lo hi. before k lo (omega arith),
        here,
        ap (λ (t : Trace). t.ending) (connects w s known idle) ∙ ends,
        ap (λ (t : Trace). t.sleeps) (connects w s known idle)
            ∙ sleeps
            ∙ sym (take-delays_from n 9 1 (omega arith)),
        ap (λ (t : Trace). t.known) (connects w s known idle) ∙ knows,
      )
  | inr none_of ↦
      let (e, last) = none_of 10 (omega arith) (omega arith) in
      let (ends, sleeps, knows) =
        attempts-refused w 9 1 1 s known e (λ k lo hi. none_of k lo (omega arith)) last refl in
      inr (
        e,
        λ k lo hi. none_of k lo (omega arith),
        last,
        ap (λ (t : Trace). t.ending) (connects w s known idle) ∙ ends,
        ap (λ (t : Trace). t.sleeps) (connects w s known idle) ∙ sleeps,
        ap (λ (t : Trace). t.known) (connects w s known idle) ∙ knows,
      )
]
