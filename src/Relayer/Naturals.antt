-- ===== src/Relayer/Naturals.antt =====
-- Natural numbers in the place of JavaScript's, for the examples of the relayer, the SDK and the
-- subscriber.
use redstone_oracles_monorep.Prelude.{ℕ, ◌+◌, ◌-◌, ◌*◌, ◌/◌, max, not, ◌==◌, leb, ltb, ok}
use redstone_oracles_monorep.Relayer.Config.{Numbers}

-- Numbers that are natural numbers, subtraction being the distance.
abbrev pub naturals : Numbers
naturals = record {
  Float = ℕ;
  float_zero = 0;
  max_safe_integer = 9007199254740991;
  hundred = 100;
  two = 2;
  is_zero = λ a. a == 0;
  is_truthy = λ a. not (a == 0);
  at_least = λ a b. leb b a;
  less_than = λ a b. ltb a b;
  max_of = λ a b. max a b;
  quotient = λ a b. a / b;
  decimal_of = λ value decimals. value;
  cast_safe = λ a. ok a;
  safe_add = λ a b. ok (a + b);
  safe_sub = λ a b. ok ((a - b) + (b - a));
  safe_div = λ a b. ok (a / b);
  safe_mul = λ a b. ok (a * b);
  safe_abs = λ a. ok a;
}
