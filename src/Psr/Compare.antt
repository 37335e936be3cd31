-- ===== src/Psr/Compare.antt =====
-- The conditions that an instruction tests after a comparison, as comparisons of numbers.
use matar.Base.{refl, ap, ◌∙◌, beq}
use matar.Base.{ℕ, ◌^◌, ◌<◌, ◌≡◌, arith, Bool, ◌+◌, ◌-◌, ◌%◌, ◌||◌, not, leb, ltb, ◌==◌}
use matar.Alu.{sub}
use matar.Alu.Arith.{biased}
use matar.Bits.{get_bit}
use matar.Psr
use matar.Psr.{Psr, condition, eq, ne, cs, carry_clear, mi, pl, vs, vc, hi, ls, ge, lt, gt, le}
use matar.Psr.Flags.{HasFlags, set_flags-HasFlags}

-- The register after a comparison of `a` with `b`, as CMP leaves it.
abbrev pub compared : Psr → ℕ → ℕ → Psr
compared p a b =
    let r = sub a b in Psr.set_flags p r.carry r.overflow (get_bit r.value 31) (r.value == 0)

-- Whether the difference of the signed readings leaves `int32_t`.
abbrev pub difference_overflows : ℕ → ℕ → Bool
difference_overflows a b = ltb (biased a + 2 ^ 31) (biased b) || leb (biased b + 2 ^ 31) (biased a)

-- `cs`, `carry_clear`, `hi`, `ls` compare the words as unsigned numbers, `ge`, `lt`, `gt`, `le` as
-- signed ones; `mi` and `pl` read the sign of the difference modulo 2 ^ 32, `vs` and `vc` whether the
-- difference of the signed readings leaves `int32_t`.
pub record Compares (q : Psr) (a b : ℕ) : Type 0 where
  pub when_eq : condition q eq ≡ (a == b)
  pub when_ne : condition q ne ≡ not (a == b)
  pub when_cs : condition q cs ≡ leb b a
  pub when_carry_clear : condition q carry_clear ≡ ltb a b
  pub when_mi : condition q mi ≡ leb (2 ^ 31) ((a + 2 ^ 32 - b) % 2 ^ 32)
  pub when_pl : condition q pl ≡ ltb ((a + 2 ^ 32 - b) % 2 ^ 32) (2 ^ 31)
  pub when_vs : condition q vs ≡ difference_overflows a b
  pub when_vc : condition q vc ≡ not (difference_overflows a b)
  pub when_hi : condition q hi ≡ ltb b a
  pub when_ls : condition q ls ≡ leb a b
  pub when_ge : condition q ge ≡ leb (biased b) (biased a)
  pub when_lt : condition q lt ≡ ltb (biased a) (biased b)
  pub when_gt : condition q gt ≡ ltb (biased b) (biased a)
  pub when_le : condition q le ≡ leb (biased a) (biased b)

-- What CMP's result, carry and overflow say of the operands.
module _ (a b : ℕ) (ha : a < 2 ^ 32) (hb : b < 2 ^ 32) where
  no_borrow : (sub a b).carry ≡ leb b a
  unfolding sub
  no_borrow = refl

  zero_result : ((sub a b).value == 0) ≡ (a == b)
  unfolding sub
  zero_result = ground arith

  sign : get_bit (sub a b).value 31 ≡ leb (2 ^ 31) ((a + 2 ^ 32 - b) % 2 ^ 32)
  unfolding sub get_bit
  sign = ground arith

  overflows : (sub a b).overflow ≡ difference_overflows a b
  unfolding sub get_bit
  overflows = ground arith

  sign_is_overflow : beq (get_bit (sub a b).value 31) (sub a b).overflow ≡ leb (biased b) (biased a)
  unfolding sub get_bit
  sign_is_overflow = ground arith

module _ (p : Psr) (a b : ℕ) (ha : a < 2 ^ 32) (hb : b < 2 ^ 32) where
  flags :
      HasFlags p
        (compared p a b)
        (sub a b).carry
        (sub a b).overflow
        (get_bit (sub a b).value 31)
        ((sub a b).value == 0)
  flags =
      set_flags-HasFlags p (sub a b).carry (sub a b).overflow (get_bit (sub a b).value 31)
        ((sub a b).value == 0)

  at_z : Psr.z (compared p a b) ≡ (a == b)
  at_z = flags.has_z ∙ zero_result a b ha hb

  at_c : Psr.c (compared p a b) ≡ leb b a
  at_c = flags.has_c ∙ no_borrow a b ha hb

  at_n : Psr.n (compared p a b) ≡ leb (2 ^ 31) ((a + 2 ^ 32 - b) % 2 ^ 32)
  at_n = flags.has_n ∙ sign a b ha hb

  at_v : Psr.v (compared p a b) ≡ difference_overflows a b
  at_v = flags.has_v ∙ overflows a b ha hb

  at_nv : beq (Psr.n (compared p a b)) (Psr.v (compared p a b)) ≡ leb (biased b) (biased a)
  at_nv = rw (flags.has_n, flags.has_v) (sign_is_overflow a b ha hb)

  -- After a comparison of two words each condition holds as the comparison of the operands that
  -- it is named for.
  pub compared-Compares : Compares (compared p a b) a b
  unfolding condition
  compared-Compares = record {
    when_eq = at_z;
    when_ne = ap not at_z;
    when_cs = at_c;
    when_carry_clear = rw at_c (ground arith);
    when_mi = at_n;
    when_pl = rw at_n (ground arith);
    when_vs = at_v;
    when_vc = ap not at_v;
    when_hi = rw (at_c, at_z) (ground arith);
    when_ls = rw (at_c, at_z) (ground arith);
    when_ge = at_nv;
    when_lt = rw at_nv (ground arith);
    when_gt = rw (at_nv, at_z) (ground arith);
    when_le = rw (at_nv, at_z) (ground arith);
  }
