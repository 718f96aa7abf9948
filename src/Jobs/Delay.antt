-- ===== src/Jobs/Delay.antt =====
-- The backoff of app/jobs/retry.py.
use ai_game.Base.{ℕ, zero, suc, ◌-◌, ◌*◌, ◌^◌, ◌≤◌, ◌≡◌, refl, false, arith, ltb}
use native.Mathlib.Omega.{pow_step}
use ai_game.Jobs.Retry.{min, retry_delay_seconds}

-- The delay without its maximum.
abbrev growing : ℕ → ℕ → ℕ
growing base k = base * 2 ^ k

growing-suc : (base k : ℕ) → growing base (suc k) ≡ 2 * growing base k
growing-suc base k = rw (pow_step 2 k) (omega arith)

growing_least : (base k : ℕ) → base ≤ growing base k
growing_least base zero = omega arith
growing_least base (suc k) = omega (arith, growing-suc base k, growing_least base k)

delay_suc : (base max k : ℕ) → retry_delay_seconds (suc k) base max ≡ min (growing base k) max
unfolding retry_delay_seconds
delay_suc base max k =
    let before : suc k - 1 ≡ k = omega arith in
    let positive : ltb (suc k) 1 ≡ false = ground arith in rw (positive, before) refl

delay_one : (base max : ℕ) → base ≤ max → retry_delay_seconds 1 base max ≡ base
unfolding retry_delay_seconds
delay_one base max b = ground arith

bounded_doubling :
    (base max p q : ℕ)
    → base ≤ max
    → base ≤ p
    → q ≡ 2 * p
    → (min base max ≡ base)
      × (min q max ≡ min (2 * min p max) max)
      × (base ≤ min p max)
      × (min p max ≤ max)
bounded_doubling base max p q b l e = ground (arith, e)

-- With a base of at most the maximum, the first failure waits the base, each further one twice as long as
-- the one before but never longer than the maximum, and none shorter than the base.
pub retry_delay-doubles :
    (base max k : ℕ)
    → base ≤ max
    → (retry_delay_seconds 1 base max ≡ base)
      × (retry_delay_seconds (suc (suc k)) base max
          ≡ min (2 * retry_delay_seconds (suc k) base max) max)
      × (base ≤ retry_delay_seconds (suc k) base max)
      × (retry_delay_seconds (suc k) base max ≤ max)
retry_delay-doubles base max k b =
    let (_, twice, least, most) =
      bounded_doubling base max (growing base k) (growing base (suc k)) b (growing_least base k)
        (growing-suc base k) in
    (
      delay_one base max b,
      rw (delay_suc base max (suc k), delay_suc base max k) twice,
      rw (delay_suc base max k) least,
      rw (delay_suc base max k) most,
    )
