-- ===== src/Delivery/Backoff.antt =====
-- The delays between attempts.
use snw_agent_link.Prelude.{
  ℕ, zero, suc, ◌+◌, ◌*◌, ◌^◌, ◌≤◌, ◌<◌, ◌≡◌, arith, ltb, Bool-cases, inl, inr, if◌then◌else◌,
}
use snw_agent_link.Prelude.Int.{ℤ, pos, pos_part, int64_limit}
use snw_agent_link.Time.{Duration}
use snw_agent_link.Delivery.{
  Conversion, indefinite, saturating, out_of_range, exact_limit, spacing, nearest, float64, scaled,
  capped, with_jitter, Config, Service, new_service, retry_exponent, retry_delay,
}

-- Delays and a batch size that are positive, and a limit that is no shorter than the base.
pub record IsUsable (s : Service) : Type 0 where
  pub batch : 1 ≤ s.batch_size
  pub base : 1 ≤ s.base_delay
  pub limit : s.base_delay ≤ s.max_delay

-- NewService makes a usable service of any configuration, with whatever signs its numbers have.
pub new_service-IsUsable : (int64n : ℕ → ℕ) (c : Config) → IsUsable (new_service int64n c)
unfolding new_service
new_service-IsUsable int64n c = record {
  batch = ground arith;
  base = ground arith;
  limit = ground arith;
}

pub retry_delay-le_max :
    (c : Conversion) (s : Service) (attempt : ℕ) → retry_delay c s attempt ≤ s.max_delay
unfolding retry_delay
retry_delay-le_max c s attempt = ground arith

abbrev pub min : ℕ → ℕ → ℕ
min a b = if ltb b a then b else a

-- A delay that is the base at the first attempt and twice as long at each one after it.
unfoldable pub doubling : ℕ → ℕ → ℕ
doubling base zero = base
doubling base (suc zero) = base
doubling base (suc (suc n)) = 2 * doubling base (suc n)

-- The doubling ends with the sixty-third attempt.
abbrev pub doubled : Service → ℕ → ℕ
doubled s attempt = doubling s.base_delay (min 63 attempt)

doubling-power : (base n : ℕ) → doubling base (suc n) ≡ base * 2 ^ n
unfolding doubling
doubling-power base zero = omega arith
doubling-power base (suc n) = rw (doubling-power base n) (grind arith)

doubling-exponent :
    (base attempt : ℕ) → doubling base (min 63 attempt) ≡ base * 2 ^ retry_exponent attempt
unfolding doubling retry_exponent
doubling-exponent base zero = omega arith
doubling-exponent base (suc n) = elim (Bool-cases (ltb 62 n)) [
  | inl e ↦ ground (arith, e, doubling-power base 62)
  | inr e ↦ ground (arith, e, doubling-power base n)
]

float64-exact : (n : ℕ) → n < exact_limit → float64 n ≡ n
unfolding float64 spacing nearest
float64-exact n h = ground (arith, h)

power_pos : (n : ℕ) → 1 ≤ 2 ^ n
power_pos zero = omega arith
power_pos (suc n) = omega (arith, power_pos n)

product_pos : (a b : ℕ) → 1 ≤ a → 1 ≤ b → 1 ≤ a * b
product_pos zero b h k = absurd (omega (arith, h))
product_pos (suc a) zero h k = absurd (omega (arith, k))
product_pos (suc a) (suc b) h k = omega arith

capped-min :
    (c : Conversion) (longest n : ℕ)
    → 1 ≤ n
    → longest < int64_limit
    → capped longest (if ltb n int64_limit then pos n else out_of_range c) ≡ min longest n
unfolding out_of_range
capped-min c longest zero h k = absurd (omega (arith, h))
capped-min indefinite longest (suc n) h k = ground arith
capped-min saturating longest (suc n) h k = ground arith

with_jitter-min :
    (longest delay k : ℕ) (jitter : Duration → ℤ)
    → delay ≡ k
    → with_jitter longest (pos_part (jitter delay)) delay ≡ min longest (k + pos_part (jitter k))
with_jitter-min longest delay k jitter e = rw e (ground arith)

-- With a base of at least one nanosecond and below 2 ^ 53, about 104 days, and a longest delay that is
-- an int64: the delay before an attempt is the base delay, doubled at each attempt after the first
-- and up to the sixty-third, or the longest delay if that is shorter; its jitter is added up to the
-- longest delay. No overflow of the conversion from a float64 changes this, on either processor.
pub retry_delay-min :
    (c : Conversion) (s : Service) (attempt : ℕ)
    → 1 ≤ s.base_delay
    → s.base_delay < exact_limit
    → s.max_delay < int64_limit
    → retry_delay c s attempt
      ≡ min s.max_delay (
          min s.max_delay (doubled s attempt)
          + pos_part (s.jitter (min s.max_delay (doubled s attempt))))
unfolding retry_delay scaled
retry_delay-min c s attempt base exact limit =
    let powers =
      product_pos s.base_delay (2 ^ retry_exponent attempt) base
        (power_pos (retry_exponent attempt)) in
    rw (doubling-exponent s.base_delay attempt, float64-exact s.base_delay exact)
      (with_jitter-min s.max_delay _ (min s.max_delay (s.base_delay * 2 ^ retry_exponent attempt))
        s.jitter
        (capped-min c s.max_delay (s.base_delay * 2 ^ retry_exponent attempt) powers limit))
