-- ===== src/Lan.antt =====
-- crates/kmflow-net/src/discovery.rs, find_lan_info: which interface of `ip -4 -o addr show` is
-- announced on. The text of the command is ASCII bytes.
pub mod Private
use kmflow.Prelude.{
  Bool, List, Option, [], false, if◌then◌else◌, leb, length, ltb, none, some, ℕ, ◌&&◌, ◌*◌, ◌+◌,
  ◌>>=◌, ◌||◌, ◌∷◌,
}
use kmflow.Prelude.Eq.{nat_eq, ◌==◌}
use kmflow.Text.{
  bytes_eq, ascii, before_first, parse_digits, parse_unsigned, starts_with, strip_prefix,
}

abbrev pub dot : ℕ
dot = b'.'

abbrev is_space : ℕ → Bool
is_space c = c == 32 || (leb 9 c && leb c 13)

-- A part that is complete, in front of the parts behind it, unless it is empty.
abbrev push_word : List ℕ → List (List ℕ) → List (List ℕ)
push_word [] words = words
push_word (c ∷ word) words = (c ∷ word) ∷ words

-- The first word, and the words behind it.
unfoldable pub words_from : List ℕ → List ℕ × List (List ℕ)
words_from [] = ([], [])
words_from (c ∷ text) =
    let (word, words) = words_from text in
    if is_space c then ([], push_word word words) else (c ∷ word, words)

unfoldable pub split_whitespace : List ℕ → List (List ℕ)
unfolding words_from
split_whitespace text = let (word, words) = words_from text in push_word word words

-- `split(sep)`: the first part, and the parts behind it.
unfoldable pub split_from : ℕ → List ℕ → List ℕ × List (List ℕ)
split_from sep [] = ([], [])
split_from sep (c ∷ text) =
    let (part, parts) = split_from sep text in
    if c == sep then ([], part ∷ parts) else (c ∷ part, parts)

unfoldable pub split : ℕ → List ℕ → List (List ℕ)
unfolding split_from
split sep text = let (part, parts) = split_from sep text in part ∷ parts

unfoldable pub trim_end_matches : ℕ → List ℕ → List ℕ
trim_end_matches sep [] = []
trim_end_matches sep (c ∷ text) =
    let rest = trim_end_matches sep text in if c == sep && rest == [] then [] else c ∷ rest

-- `parse::<Ipv4Addr>`: four groups of one to three digits below 256, none with a leading zero.
abbrev leading_zero : List ℕ → Bool
leading_zero (c ∷ d ∷ text) = c == 48
leading_zero _ = false

unfoldable pub parse_group : List ℕ → Option ℕ
parse_group group =
    if ltb 3 (length group) || leading_zero group || group == []
    then none
    else parse_digits 256 0 group

unfoldable pub parse_groups : List (List ℕ) → Option ℕ
unfolding parse_group
parse_groups (a ∷ b ∷ c ∷ d ∷ []) = do
  a ← parse_group a
  b ← parse_group b
  c ← parse_group c
  d ← parse_group d
  some (a * 16777216 + b * 65536 + c * 256 + d)
parse_groups _ = none

unfoldable pub parse_ipv4 : List ℕ → Option ℕ
unfolding parse_groups split
parse_ipv4 text = parse_groups (split dot text)

abbrev pub in_16_to_31 : Option ℕ → Bool
in_16_to_31 none = false
in_16_to_31 (some n) = leb 16 n && leb n 31

abbrev pub second_group : Option (List ℕ) → Bool
second_group none = false
second_group (some rest) = in_16_to_31 (parse_unsigned 256 (before_first dot rest))

unfoldable pub is_172_private : List ℕ → Bool
is_172_private addr = second_group (strip_prefix (ascii "172.") addr)

unfoldable pub is_private : List ℕ → Bool
unfolding is_172_private
is_private addr =
    starts_with addr (ascii "192.168.") || starts_with addr (ascii "10.") || is_172_private addr

unfoldable pub is_skipped : List ℕ → Bool
is_skipped iface =
    iface == ascii "lo"
    || starts_with iface (ascii "docker")
    || starts_with iface (ascii "br-")
    || starts_with iface (ascii "veth")
    || starts_with iface (ascii "virbr")

pub record LanInfo : Type 0 where
  pub local_addr : ℕ
  pub broadcast_addr : ℕ

-- The word behind the first "brd".
unfoldable pub broadcast_of : List (List ℕ) → Option (List ℕ)
broadcast_of [] = none
broadcast_of (k ∷ []) = none
broadcast_of (k ∷ v ∷ parts) =
    let rest = broadcast_of (v ∷ parts) in if k == ascii "brd" then some v else rest

unfoldable pub lan_info_of : List ℕ → List (List ℕ) → Option LanInfo
unfolding broadcast_of
lan_info_of addr_str parts = do
  brd_str ← broadcast_of parts
  local_addr ← parse_ipv4 addr_str
  broadcast_addr ← parse_ipv4 brd_str
  some (record { local_addr = local_addr; broadcast_addr = broadcast_addr })

-- What one line offers: its second word is the interface, its fourth the address.
unfoldable pub line_info : List (List ℕ) → Option LanInfo
unfolding is_skipped is_private lan_info_of
line_info (index ∷ name ∷ family ∷ addr_cidr ∷ p ∷ q ∷ parts) =
    let iface = trim_end_matches b':' name in
    let addr_str = before_first b'/' addr_cidr in
    if is_skipped iface
    then none
    else if is_private addr_str
    then lan_info_of addr_str (index ∷ name ∷ family ∷ addr_cidr ∷ p ∷ q ∷ parts)
    else none
line_info _ = none

unfoldable pub first_info : List (List ℕ) → Option LanInfo
unfolding line_info split_whitespace
first_info [] = none
first_info (line ∷ lines) =
    let rest = first_info lines in
    elim (line_info (split_whitespace line)) [ none ↦ rest | some info ↦ some info ]

unfoldable pub find_lan_info : List ℕ → Option LanInfo
unfolding first_info split
find_lan_info stdout = first_info (split 10 stdout)
