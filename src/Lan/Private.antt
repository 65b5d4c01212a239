-- ===== src/Lan/Private.antt =====
-- discovery.rs: the addresses that count as private.
use kmflow.Text.Search.{before_first-append, strip_prefix-append, strip_prefix_part}
use kmflow.Prelude.{
  Bool, List, [], ap, arith, if◌then◌else◌, leb, none, refl, some, sym, ℕ, ◌&&◌, ◌++◌, ◌<◌, ◌||◌,
  ◌∙◌, ◌∷◌, ◌≡◌,
}
use kmflow.Prelude.Eq.{nat_eq, ◌==◌}
use kmflow.Text.{
  bytes_eq, ascii, before_first, bytes_beq_iff, decimal, is_some, parse_unsigned, starts_with,
  strip_prefix,
}
use kmflow.Text.Decimal.{decimal-injective, decimal-without, decimal_limit, parse_unsigned-decimal}
use kmflow.Lan.{dot, in_16_to_31, is_172_private, is_private, second_group}

-- An address as it is printed.
abbrev pub dotted : ℕ → ℕ → ℕ → ℕ → List ℕ
dotted a b c d = decimal a ++ dot ∷ (decimal b ++ dot ∷ (decimal c ++ dot ∷ decimal d))

-- The private ranges of RFC 1918: 10/8, 172.16/12 and 192.168/16.
abbrev pub rfc1918 : ℕ → ℕ → Bool
rfc1918 a b = a == 10 || (a == 172 && (leb 16 b && leb b 31)) || (a == 192 && b == 168)

group_test :
    (n a : ℕ) (rest : List ℕ)
    → n < decimal_limit
    → a < decimal_limit
    → strip_prefix (decimal n ++ dot ∷ []) (decimal a ++ dot ∷ rest)
      ≡ (if a == n then some rest else none)
group_test n a rest hn ha =
    let same : a ≡ n → decimal n ≡ decimal a = λ e. ap decimal (sym e) in
    ground (
      arith,
      strip_prefix_part dot (decimal a) rest (decimal n)
          (decimal-without dot a (λ k. ground arith) ha)
          (decimal-without dot n (λ k. ground arith) hn),
      bytes_beq_iff (decimal n) (decimal a),
      decimal-injective n a hn ha,
      same,
    )

-- The literals of the source are printed numbers.
ten : ascii "10." ≡ decimal 10 ++ dot ∷ []
unfolding decimal
ten = refl

one_seven_two : ascii "172." ≡ decimal 172 ++ dot ∷ []
unfolding decimal
one_seven_two = refl

one_nine_two : ascii "192.168." ≡ (decimal 192 ++ dot ∷ []) ++ (decimal 168 ++ dot ∷ [])
unfolding decimal
one_nine_two = refl

module _ (a b c d : ℕ) (ha : a < 256) (hb : b < 256) where
  second_read :
      in_16_to_31
        (parse_unsigned 256 (before_first dot (decimal b ++ dot ∷ (decimal c ++ dot ∷ decimal d))))
      ≡ (leb 16 b && leb b 31)
  second_read =
      rw
        (
          before_first-append dot (decimal b) (decimal c ++ dot ∷ decimal d)
              (decimal-without dot b (λ k. ground arith) (omega arith)),
          parse_unsigned-decimal 256 b hb (omega arith),
        )
        refl

  test_10 : starts_with (dotted a b c d) (ascii "10.") ≡ (a == 10)
  unfolding starts_with
  test_10 =
      ap (λ p. is_some (strip_prefix p (dotted a b c d))) ten
      ∙ ap is_some (
          group_test 10 a (decimal b ++ dot ∷ (decimal c ++ dot ∷ decimal d)) (omega arith)
            (omega arith))
      ∙ ground arith

  test_172 : is_172_private (dotted a b c d) ≡ (a == 172 && (leb 16 b && leb b 31))
  unfolding is_172_private
  test_172 =
      ap (λ p. second_group (strip_prefix p (dotted a b c d))) one_seven_two
      ∙ ap second_group (
          group_test 172 a (decimal b ++ dot ∷ (decimal c ++ dot ∷ decimal d)) (omega arith)
            (omega arith))
      ∙ ground (arith, second_read)

  test_192 : starts_with (dotted a b c d) (ascii "192.168.") ≡ (a == 192 && b == 168)
  unfolding starts_with
  test_192 =
      ap (λ p. is_some (strip_prefix p (dotted a b c d))) one_nine_two
      ∙ ap is_some
          (strip_prefix-append (decimal 192 ++ dot ∷ []) (decimal 168 ++ dot ∷ []) (dotted a b c d))
      ∙ ground (
        arith,
        group_test 192 a (decimal b ++ dot ∷ (decimal c ++ dot ∷ decimal d)) (omega arith)
            (omega arith),
        group_test 168 b (decimal c ++ dot ∷ decimal d) (omega arith) (omega arith),
      )

-- Of the addresses a.b.c.d that are printed, those of RFC 1918 count as private and no others.
is_private-dotted : (a b c d : ℕ) → a < 256 → b < 256 → is_private (dotted a b c d) ≡ rfc1918 a b
unfolding is_private
is_private-dotted a b c d ha hb =
    ground (arith, test_10 a b c d ha hb, test_172 a b c d ha hb, test_192 a b c d ha hb)
