-- ===== src/Scanguard/Lengths.antt =====
-- internal/scanguard/scanguard.go: banLength. A time.Duration is an int64, here the number below 2^64
-- with the same bits.
use nina.Prelude.{
  ℕ, zero, suc, ◌+◌, ◌-◌, ◌*◌, ◌%◌, ◌^◌, ◌≤◌, ◌<◌, ◌≡◌, ◌∙◌, sym, ap, Bool, true, arith, ltb,
  if◌then◌else◌, Bool-cases, inl, inr,
}
use Prim.Native.Nat.{min}
use native.Mathlib.Nat.{mul-suc, mul_assoc, mul_comm, pow-suc}

-- `a < b` of two int64.
unfoldable pub int64_lt : ℕ → ℕ → Bool
int64_lt a b = ltb ((a + 2 ^ 63) % 2 ^ 64) ((b + 2 ^ 63) % 2 ^ 64)

-- The loop, with the rounds that are left of it.
unfoldable pub doubled : ℕ → ℕ → ℕ → ℕ
doubled zero d longest = d
doubled (suc rounds) d longest =
    if int64_lt d longest then doubled rounds (d * 2 % 2 ^ 64) longest else d

unfoldable pub ban_length : ℕ → ℕ → ℕ → ℕ
ban_length strikes base longest =
    let d = doubled (strikes - 1) base longest in if int64_lt longest d then longest else d

int64_lt-small : (a b : ℕ) → a < 2 ^ 63 → b < 2 ^ 63 → int64_lt a b ≡ ltb a b
unfolding int64_lt
int64_lt-small a b l m = ground arith

pub pow_pos : (k : ℕ) → 1 ≤ 2 ^ k
pow_pos zero = omega arith
pow_pos (suc k) = omega (arith, pow_pos k, pow-suc 2 k)

pub le-mul : (d k : ℕ) → 1 ≤ k → d ≤ d * k
le-mul d zero l = elim l [ ]
le-mul d (suc k) l = omega (arith, mul-suc d k)

-- Doubling stops at the first length that is not below the longest, if the rounds suffice.
doubled-min :
    (rounds d longest : ℕ)
    → longest < 2 ^ 62
    → d < 2 ^ 63
    → min (doubled rounds d longest) longest ≡ min (d * 2 ^ rounds) longest
unfolding doubled
doubled-min zero d longest l m = omega arith
doubled-min (suc r) d longest l m = elim (Bool-cases (ltb d longest)) [
  | inl t ↦ rw (int64_lt-small d longest m (omega (arith, l))) (
      rw t (
        ap (λ x. min (doubled r x longest) longest) (small t)
        ∙ doubled-min r (d * 2) longest l (ground (arith, t))
        ∙ ap (λ x. min x longest)
            (mul_assoc d 2 (2 ^ r) ∙ ap (λ x. d * x) (mul_comm 2 (2 ^ r) ∙ sym (pow-suc 2 r)))))
  | inr f ↦
      rw (int64_lt-small d longest m (omega (arith, l)))
        (rw f (ground (arith, f, le-mul d (2 ^ suc r) (pow_pos (suc r)))))
]
  where
    small : ltb d longest ≡ true → d * 2 % 2 ^ 64 ≡ d * 2
    small t = ground (arith, t, l)

doubled-lt :
    (rounds d longest : ℕ) → longest < 2 ^ 62 → d < 2 ^ 63 → doubled rounds d longest < 2 ^ 63
unfolding doubled
doubled-lt zero d longest l m = m
doubled-lt (suc r) d longest l m = elim (Bool-cases (ltb d longest)) [
  | inl t ↦
      rw (int64_lt-small d longest m (omega (arith, l)))
        (rw t (doubled-lt r (d * 2 % 2 ^ 64) longest l (ground (arith, t, l))))
  | inr f ↦ rw (int64_lt-small d longest m (omega (arith, l))) (rw f m)
]

-- A ban is the base doubled once per strike after the first, at most the longest: in spite of the
-- int64, as long as the longest is below 2^62 nanoseconds, which is 146 years.
pub ban_length-min :
    (strikes base longest : ℕ)
    → longest < 2 ^ 62
    → base < 2 ^ 63
    → ban_length strikes base longest ≡ min (base * 2 ^ (strikes - 1)) longest
unfolding ban_length
ban_length-min strikes base longest l m =
    rw
      (int64_lt-small longest (doubled (strikes - 1) base longest) (omega (arith, l))
        (doubled-lt (strikes - 1) base longest l m))
      (ground (arith, doubled-min (strikes - 1) base longest l m))
