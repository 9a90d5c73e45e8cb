-- ===== src/Math/U256/Shift.antt =====
-- The shifts of `U256Muldiv`, and the leading zeros of a word.
use Prim.Native.Nat.{bit_or}
use fluid_solana_programs.Base.{
  ℕ, zero, suc, ◌+◌, ◌-◌, ◌*◌, ◌/◌, ◌%◌, ◌^◌, ltb, leb, ◌==◌, if◌then◌else◌,
}
use fluid_solana_programs.Math.U256.{U256Muldiv, word, new}

abbrev pub shift_word_left : U256Muldiv → U256Muldiv
shift_word_left n = record { item0 = 0; item1 = n.item0; item2 = n.item1; item3 = n.item2 }

abbrev pub shift_word_right : U256Muldiv → U256Muldiv
shift_word_right n = record { item0 = n.item1; item1 = n.item2; item2 = n.item3; item3 = 0 }

-- `a << s | b >> (64 - s)` on words, for 0 < s < 64.
abbrev join_left : ℕ → ℕ → ℕ → ℕ
join_left s a b = bit_or (a * 2 ^ s % word) (b / 2 ^ (64 - s))

-- `a >> s | b << (64 - s)` on words, for 0 < s < 64.
abbrev join_right : ℕ → ℕ → ℕ → ℕ
join_right s a b = bit_or (a / 2 ^ s) (b * 2 ^ (64 - s) % word)

-- A shift by less than a word. The loops read words that they have not yet written.
abbrev shift_bits_left : U256Muldiv → ℕ → U256Muldiv
shift_bits_left n s = record {
  item0 = n.item0 * 2 ^ s % word;
  item1 = join_left s n.item1 n.item0;
  item2 = join_left s n.item2 n.item1;
  item3 = join_left s n.item3 n.item2;
}

abbrev shift_bits_right : U256Muldiv → ℕ → U256Muldiv
shift_bits_right n s = record {
  item0 = join_right s n.item0 n.item1;
  item1 = join_right s n.item1 n.item2;
  item2 = join_right s n.item2 n.item3;
  item3 = n.item3 / 2 ^ s;
}

-- The `while` loop that shifts by whole words: as often as 64 goes into the amount, at most 3 times.
words_left : ℕ → U256Muldiv → U256Muldiv
words_left zero n = n
words_left (suc k) n = words_left k (shift_word_left n)

words_right : ℕ → U256Muldiv → U256Muldiv
words_right zero n = n
words_right (suc k) n = words_right k (shift_word_right n)

unfoldable pub shift_left : U256Muldiv → ℕ → U256Muldiv
unfolding words_left
shift_left n amount =
    if leb 256 amount
    then new 0 0
    else if amount % 64 == 0
    then words_left (amount / 64) n
    else shift_bits_left (words_left (amount / 64) n) (amount % 64)

unfoldable pub shift_right : U256Muldiv → ℕ → U256Muldiv
unfolding words_right
shift_right n amount =
    if leb 256 amount
    then new 0 0
    else if amount % 64 == 0
    then words_right (amount / 64) n
    else shift_bits_right (words_right (amount / 64) n) (amount % 64)

unfoldable pub zeros_above : ℕ → ℕ → ℕ
zeros_above zero w = 0
zeros_above (suc k) w = let rest = zeros_above k w in if ltb w (2 ^ k) then rest + 1 else 0

-- Rust's `u64::leading_zeros`.
unfoldable pub leading_zeros : ℕ → ℕ
unfolding zeros_above
leading_zeros w = zeros_above 64 w
