-- ===== src/Ipc/Addresses.antt =====
-- lib.rs, handle_ipc_request: which address a pair request leads to.
use kmflow.Text.Search.{before_first-append, contains_text-absent, contains_text-append}
use kmflow.Text.Decimal.{decimal-without, decimal_some, parse_digits-decimal}
use kmflow.Lan.Private.{dotted}
use kmflow.Connection.{ConnectionState}
use kmflow.Handshake.{Peers}
use kmflow.Ipc.{
  Printing, Target, after_first, answer_pair, handle_ipc_request, pair, pair_address, parse_port,
  parse_socket_addr, parse_v4, v4,
}
use kmflow.Lan.{dot, parse_group, parse_groups, parse_ipv4, split, split_from}
use kmflow.Prelude.{
  All, All-append, Bool-cases, List, Option, [], ap, arith, false, inl, inr, length, ltb, refl,
  some, suc, true, zero, ℕ, ◌%◌, ◌*◌, ◌++◌, ◌+◌, ◌/◌, ◌<◌, ◌∙◌, ◌∷◌, ◌≡◌, ◌≢◌, ◌≤◌,
}
use kmflow.Text.{bytes_beq, decimal, decimal_digits, parse_digits}

one_digit : (more n : ℕ) → n < 10 → decimal_digits more n ≡ (48 + n) ∷ []
unfolding decimal_digits
one_digit zero n h = ground arith
one_digit (suc more) n h = ground arith

more_digits :
    (more n : ℕ)
    → 10 ≤ n
    → decimal_digits (suc more) n ≡ decimal_digits more (n / 10) ++ ((48 + n % 10) ∷ [])
unfolding decimal_digits
more_digits more n h = ground arith

group_read : (more a : ℕ) → a < 256 → parse_group (decimal_digits (suc (suc more)) a) ≡ some a
unfolding parse_group parse_digits bytes_beq
group_read more a h = elim (Bool-cases (ltb a 10)) [
  | inl one ↦ rw (one_digit (suc (suc more)) a (ground arith)) (ground arith)
  | inr many ↦ elim (Bool-cases (ltb a 100)) [
    | inl two ↦
        rw (more_digits (suc more) a (ground arith), one_digit (suc more) (a / 10) (ground arith))
          (ground arith)
    | inr three ↦
        rw
          (
            more_digits (suc more) a (ground arith),
            more_digits more (a / 10) (ground arith),
            one_digit more (a / 10 / 10) (ground arith),
          )
          (ground arith)
  ]
]

-- A printed number below 256 is a group of an address: three digits at most, no leading zero.
pub parse_group-decimal : (a : ℕ) → a < 256 → parse_group (decimal a) ≡ some a
unfolding decimal
parse_group-decimal a h = group_read 17 a h

split_part :
    (sep : ℕ) (part rest : List ℕ)
    → All (λ c. c ≢ sep) part
    → split sep (part ++ sep ∷ rest) ≡ part ∷ split sep rest
unfolding split split_from
split_part sep [] rest h = ground arith
split_part sep (c ∷ part) rest h = ground (arith, split_part sep part rest h.1)

split_whole : (sep : ℕ) (part : List ℕ) → All (λ c. c ≢ sep) part → split sep part ≡ part ∷ []
unfolding split split_from
split_whole sep [] h = refl
split_whole sep (c ∷ part) h = ground (arith, split_whole sep part h.1)

after_first-append :
    (sep : ℕ) (part rest : List ℕ)
    → All (λ c. c ≢ sep) part
    → after_first sep (part ++ sep ∷ rest) ≡ some rest
unfolding after_first
after_first-append sep [] rest h = ground arith
after_first-append sep (c ∷ part) rest h = ground (arith, after_first-append sep part rest h.1)

parse_port-decimal : (port : ℕ) → port < 65536 → parse_port (decimal port) ≡ some port
unfolding parse_port
parse_port-decimal port h =
    digits (decimal port) (decimal_some port) ∙ parse_digits-decimal 65536 port h (omega arith)
  where
    digits : (xs : List ℕ) → 1 ≤ length xs → parse_port xs ≡ parse_digits 65536 0 xs
    digits [] some_digit = absurd (omega arith)
    digits (x ∷ xs) some_digit = refl

abbrev pub ipv4_target : ℕ → ℕ → ℕ → ℕ → ℕ → Target
ipv4_target a b c d port = v4 (record { ip = a * 16777216 + b * 65536 + c * 256 + d; port = port })

module _ (a b c d : ℕ) (ha : a < 256) (hb : b < 256) (hc : c < 256) (hd : d < 256) where
  dotted_without_colon : All (λ k. k ≢ b':') (dotted a b c d)
  dotted_without_colon =
      All-append (λ d. d ≢ b':') (decimal a) _
        (decimal-without b':' a (λ k. ground arith) (omega arith))
        (
          λ e. omega arith,
          All-append (λ d. d ≢ b':') (decimal b) _
              (decimal-without b':' b (λ k. ground arith) (omega arith))
              (
                λ e. omega arith,
                All-append (λ d. d ≢ b':') (decimal c) _
                    (decimal-without b':' c (λ k. ground arith) (omega arith))
                    (λ e. omega arith, decimal-without b':' d (λ k. ground arith) (omega arith)),
              ),
        )

  parse_ipv4-dotted : parse_ipv4 (dotted a b c d) ≡ some (a * 16777216 + b * 65536 + c * 256 + d)
  unfolding parse_ipv4 parse_groups
  parse_ipv4-dotted =
      rw
        (
          split_part dot (decimal a) (decimal b ++ dot ∷ (decimal c ++ dot ∷ decimal d))
              (decimal-without dot a (λ k. ground arith) (omega arith)),
          split_part dot (decimal b) (decimal c ++ dot ∷ decimal d)
              (decimal-without dot b (λ k. ground arith) (omega arith)),
          split_part dot (decimal c) (decimal d)
              (decimal-without dot c (λ k. ground arith) (omega arith)),
          split_whole dot (decimal d) (decimal-without dot d (λ k. ground arith) (omega arith)),
          parse_group-decimal a ha,
          parse_group-decimal b hb,
          parse_group-decimal c hc,
          parse_group-decimal d hd,
        )
        refl

  parse_v4-dotted :
      (port : ℕ)
      → port < 65536
      → parse_v4 (dotted a b c d ++ b':' ∷ decimal port) ≡ some (ipv4_target a b c d port)
  unfolding parse_v4
  parse_v4-dotted port hp =
      rw
        (
          before_first-append b':' (dotted a b c d) (decimal port) dotted_without_colon,
          parse_ipv4-dotted,
          after_first-append b':' (dotted a b c d) (decimal port) dotted_without_colon,
          parse_port-decimal port hp,
        )
        refl

socket_read :
    (parse_v6 : List ℕ → Option Target) (addr full : List ℕ) (t : Target)
    → pair_address addr ≡ full
    → parse_v4 full ≡ some t
    → parse_socket_addr parse_v6 (pair_address addr) ≡ some t
unfolding parse_socket_addr
socket_read parse_v6 addr full t e h = ground (arith, ap parse_v4 e, h)

-- A pair request for an IPv4 address, with a port or without one, makes the daemon connect to that
-- address and port, or to the default port 4242, if the daemon still takes requests; it changes
-- nothing else.
pub handle_ipc_request-pair :
    (printing : Printing) (parse_v6 : List ℕ → Option Target) (state : ConnectionState)
    (peers : Peers) (a b c d port : ℕ) (ha : a < 256) (hb : b < 256) (hc : c < 256) (hd : d < 256)
    → port < 65536
    → let handle = handle_ipc_request printing parse_v6 true state peers in
      let with_port = handle (pair (dotted a b c d ++ b':' ∷ decimal port)) in
      let without_port = handle (pair (dotted a b c d)) in
      (with_port.connect ≡ some (ipv4_target a b c d port))
      × (with_port.shutdown ≡ false)
      × (without_port.connect ≡ some (ipv4_target a b c d 4242))
      × (without_port.shutdown ≡ false)
unfolding handle_ipc_request pair_address parse_socket_addr answer_pair
handle_ipc_request-pair printing parse_v6 state peers a b c d port ha hb hc hd hp =
    let colon_found = contains_text-append (dotted a b c d) (b':' ∷ []) (decimal port) in
    let with_port =
      socket_read parse_v6 (dotted a b c d ++ b':' ∷ decimal port)
        (dotted a b c d ++ b':' ∷ decimal port) (ipv4_target a b c d port)
        (ground (arith, colon_found)) (parse_v4-dotted a b c d ha hb hc hd port hp) in
    let without_port =
      socket_read parse_v6 (dotted a b c d) (dotted a b c d ++ b':' ∷ decimal 4242)
        (ipv4_target a b c d 4242)
        (ground (
          arith,
          contains_text-absent b':' [] (dotted a b c d) (dotted_without_colon a b c d ha hb hc hd),
        ))
        (parse_v4-dotted a b c d ha hb hc hd 4242 (omega arith)) in
    (
      ap (λ r. (answer_pair printing true (dotted a b c d ++ b':' ∷ decimal port) r).connect)
          with_port,
      ap (λ r. (answer_pair printing true (dotted a b c d ++ b':' ∷ decimal port) r).shutdown)
          with_port,
      ap (λ r. (answer_pair printing true (dotted a b c d) r).connect) without_port,
      ap (λ r. (answer_pair printing true (dotted a b c d) r).shutdown) without_port,
    )
