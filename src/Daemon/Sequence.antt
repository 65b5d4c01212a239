-- ===== src/Daemon/Sequence.antt =====
-- lib.rs: sequence numbers.
use kmflow.Prelude.{
  List, [], ap, arith, get_elem?, some, suc, zero, ℕ, ◌%◌, ◌+◌, ◌<◌, ◌∙◌, ◌∷◌, ◌≡◌, ◌≢◌, ◌≤◌,
}
use kmflow.Prelude.Machine.{two32}
use kmflow.Daemon.{DaemonState, next_seq}

-- The numbers that the next calls give.
unfoldable pub next_seqs : ℕ → DaemonState → DaemonState × List ℕ
next_seqs zero s = (s, [])
next_seqs (suc n) s =
    let (s', seq) = next_seq s in let (s'', seqs) = next_seqs n s' in (s'', seq ∷ seqs)

-- The i-th of the next numbers is the counter plus i + 1, modulo 2^32.
pub next_seqs-get :
    (n i : ℕ) (s : DaemonState)
    → i < n
    → get_elem? (next_seqs n s).1 i ≡ some ((s.seq_counter + i + 1) % two32)
unfolding next_seqs next_seq
next_seqs-get zero i s h = absurd (omega arith)
next_seqs-get (suc n) zero s h = ap some (omega arith)
next_seqs-get (suc n) (suc i) s h =
    next_seqs-get n i (next_seq s).0 (omega arith) ∙ ap some (omega arith)

-- Of the next 2^32 numbers no two are the same.
next_seqs-distinct :
    (n i j : ℕ) (s : DaemonState)
    → i < j
    → j < n
    → n ≤ two32
    → get_elem? (next_seqs n s).1 i ≢ get_elem? (next_seqs n s).1 j
next_seqs-distinct n i j s hij hj hn e =
    let a : some ((s.seq_counter + i + 1) % two32) ≡ some ((s.seq_counter + j + 1) % two32) =
      cc (next_seqs-get n i s (omega arith), next_seqs-get n j s hj) in
    let b : (s.seq_counter + i + 1) % two32 ≡ (s.seq_counter + j + 1) % two32 = cc in omega arith
