-- ===== src/Effect/Handlers/RateLimit.antt =====
-- effect/handlers/rate_limit.py: the clause of `make_rate_limit_handler`, a token bucket. `:clock/now`
-- and `:sleep` are actions that the clause is given. Time is in milliseconds and tokens are counted in
-- thousandths, where the source has floats, so that `refill_per_sec` tokens a second are as many
-- thousandths a millisecond.
use persistence_os.Base.{
  ℕ, zero, suc, ◌+◌, ◌-◌, ◌*◌, ◌≤◌, ◌<◌, ◌≡◌, refl, ap, ◌∙◌, true, false, ◌&&◌, ◌||◌, Option, none,
  some, List, [], ◌∷◌, if◌then◌else◌, ltb, num_eq, arith, Bool-cases, inl, inr, ok, err,
}
use Prim.Native.Nat.{◌/◌, ◌%◌, min, max}
use native.Mathlib.Nat.{add-mul, mul-div_cancel, mul-mod_left, zero-mul}
use persistence_os.Effect.Action.{Action, no_result, next, Cell, ◌>>=◌, ◌>>◌}

pub record Bucket : Type 0 where
  pub capacity : ℕ
  pub refill_per_sec : ℕ
  pub tokens : ℕ
  pub last : Option ℕ

-- `max(0.0, now - last)`, and nothing at the first call
abbrev pub elapsed : Option ℕ → ℕ → ℕ
elapsed none now = 0
elapsed (some t) now = now - t

-- `int(round(n / d))`: to the nearest, a half to the even neighbour.
unfoldable pub round_div : ℕ → ℕ → ℕ
round_div n d =
    let q = n / d in
    let r = 2 * (n % d) in if ltb d r || (num_eq d r && num_eq (q % 2) 1) then q + 1 else q

unfoldable pub refill : Bucket → ℕ → Bucket
refill b now = record b {
  tokens = min b.capacity (b.tokens + elapsed b.last now * b.refill_per_sec);
  last = some now;
}

-- What the lock guards: how long to sleep, 0 for not at all, and `none` for its RuntimeError.
unfoldable pub spend : Bucket → Option ℕ × Bucket
unfolding round_div
spend b =
    if ltb b.tokens 1000
    then if num_eq b.refill_per_sec 0
      then (none, b)
      else (some (max 1 (round_div (1000 - b.tokens) b.refill_per_sec)), record b { tokens = 0 })
    else (some 0, record b { tokens = b.tokens - 1000 })

unfoldable pub take_token : Bucket → ℕ → Option ℕ × Bucket
unfolding refill spend
take_token b now = spend (refill b now)

module _ {S X : Type 0} (bucket : Cell S Bucket) where
  unfoldable pub locked : ℕ → Action S X ℕ
  unfolding take_token
  locked now s =
      let r = take_token (bucket.get s) now in
      (elim r.0 [ none ↦ err no_result | some ms ↦ ok ms ], bucket.set r.1 s)

module _ {S X A R : Type 0} (bucket : Cell S Bucket) (clock_now : Action S X ℕ)
    (sleep : ℕ → Action S X (Unit {0})) where
  unfoldable pub clause : (A → Action S X R) → A → Action S X R
  unfolding locked ◌>>=◌ next
  clause k args = clock_now >>= λ now.
      locked bucket now >>= λ ms. if ltb 0 ms then (sleep ms >> k args) else k args

-- How far the clock moves forward between readings, in all.
abbrev pub ticks : Option ℕ → List ℕ → ℕ
ticks last [] = 0
ticks last (now ∷ rest) = elapsed last now + ticks (some now) rest

-- Whether a call passes without a sleep.
abbrev pub passed : Option ℕ → ℕ
passed none = 0
passed (some zero) = 1
passed (some (suc n)) = 0

-- How many of the calls at these readings of the clock pass without a sleep, and the bucket after them.
unfoldable pub passes : Bucket → List ℕ → ℕ × Bucket
passes b [] = (0, b)
passes b (now ∷ rest) =
    let r = take_token b now in let more = passes r.1 rest in (passed r.0 + more.0, more.1)

pub record IsSpent (b : Bucket) (r : Option ℕ × Bucket) : Type 0 where
  pub time : r.1.last ≡ b.last
  pub rate : r.1.refill_per_sec ≡ b.refill_per_sec
  pub size : r.1.capacity ≡ b.capacity
  pub paid : 1000 * passed r.0 + r.1.tokens ≤ b.tokens

awake : (n : ℕ) → passed (some (max 1 n)) ≡ 0
awake n = let e : max 1 n ≡ suc (max 1 n - 1) = omega arith in rw e refl

spend-IsSpent : (b : Bucket) → IsSpent b (spend b)
unfolding spend
spend-IsSpent b = elim (Bool-cases (ltb b.tokens 1000)) [
  | inl low ↦ elim (Bool-cases (num_eq b.refill_per_sec 0)) [
    | inl still ↦
        rw (low, still) (record { time = refl; rate = refl; size = refl; paid = omega arith })
    | inr flows ↦
        rw (low, flows)
          (record {
            time = refl;
            rate = refl;
            size = refl;
            paid = rw (awake (round_div (1000 - b.tokens) b.refill_per_sec)) (omega arith);
          })
  ]
  | inr high ↦ rw high (record { time = refl; rate = refl; size = refl; paid = ground arith })
]

refilled :
    (b : Bucket) (now : ℕ)
    → b.tokens ≤ b.capacity
    → ((refill b now).tokens ≤ b.capacity)
      × ((refill b now).tokens ≤ b.tokens + elapsed b.last now * b.refill_per_sec)
unfolding refill
refilled b now full = (omega arith, omega arith)

-- The calls that pass without a sleep spend at most what was in the bucket and what the forward
-- movement of the clock refills, less what is left, and the bucket never holds more than its
-- capacity, where it starts within it.
pub passes_bounded :
    (b : Bucket) (times : List ℕ)
    → b.tokens ≤ b.capacity
    → (1000 * (passes b times).0 + (passes b times).1.tokens
        ≤ b.tokens + ticks b.last times * b.refill_per_sec)
      × ((passes b times).1.tokens ≤ b.capacity)
unfolding passes take_token refill
passes_bounded b [] full = (omega arith, full)
passes_bounded b (now ∷ rest) full =
    let c = spend-IsSpent (refill b now) in
    let next_b = (take_token b now).1 in
    let filled = refilled b now full in
    let room : next_b.tokens ≤ next_b.capacity = omega (arith, c.paid, c.size, filled.0) in
    let (bound, within) = passes_bounded next_b rest room in
    let same : ticks next_b.last rest * next_b.refill_per_sec
        ≡ ticks (some now) rest * b.refill_per_sec =
      ap (λ l. ticks l rest * next_b.refill_per_sec) c.time
      ∙ ap (λ n. ticks (some now) rest * n) c.rate in
    (
      omega (
        arith,
        bound,
        same,
        c.paid,
        filled.1,
        add-mul (elapsed b.last now) (ticks (some now) rest) b.refill_per_sec,
      ),
      omega (arith, within, c.size),
    )

round_div_exact : (s r : ℕ) → 0 < r → round_div (s * r) r ≡ s
unfolding round_div
round_div_exact s r pos =
    let q : s * r / r ≡ s = mul-div_cancel s pos in
    let m : s * r % r ≡ 0 = mul-mod_left s r in rw (q, m) (ground arith)

spend_empty :
    (b : Bucket) (s : ℕ)
    → b.tokens ≡ 0
    → s * b.refill_per_sec ≡ 1000
    → ((spend b).0 ≡ some s) × ((spend b).1.tokens ≡ 0)
unfolding spend
spend_empty b s empty exact =
    let low : ltb b.tokens 1000 ≡ true = ground arith in
    let flows : num_eq b.refill_per_sec 0 ≡ false = ground arith in
    let pos : 0 < b.refill_per_sec = grind arith in
    let long : 0 < s = grind arith in
    let ms : round_div (1000 - b.tokens) b.refill_per_sec ≡ s =
      ap (λ n. round_div n b.refill_per_sec) (omega arith)
      ∙ round_div_exact s b.refill_per_sec pos in
    let some_time : max 1 (round_div (1000 - b.tokens) b.refill_per_sec) ≡ s =
      omega (arith, ms, long) in
    (rw (low, flows) (ap some some_time), rw (low, flows) refl)

spend_full : (b : Bucket) → 1000 ≤ b.tokens → (spend b).0 ≡ some 0
unfolding spend
spend_full b h = let high : ltb b.tokens 1000 ≡ false = ground arith in rw high refl

-- A call that meets an empty bucket sleeps for as long as one token takes to run in; a next call at
-- the end of that sleep passes without one, where that time is a whole number of milliseconds and
-- the capacity is at least one token.
pub credited_twice :
    (b : Bucket) (now s : ℕ)
    → b.last ≡ some now
    → b.tokens ≡ 0
    → s * b.refill_per_sec ≡ 1000
    → 1000 ≤ b.capacity
    → ((take_token b now).0 ≡ some s) × ((take_token (take_token b now).1 (now + s)).0 ≡ some 0)
unfolding take_token refill
credited_twice b now s at empty exact room =
    let still : elapsed b.last now ≡ 0 = ap (λ l. elapsed l now) at ∙ omega arith in
    let none_in : elapsed b.last now * b.refill_per_sec ≡ 0 =
      ap (λ n. n * b.refill_per_sec) still ∙ zero-mul b.refill_per_sec in
    let c = spend-IsSpent (refill b now) in
    let (slept, left) = spend_empty (refill b now) s (omega arith) exact in
    let b' = (spend (refill b now)).1 in
    let gone : elapsed b'.last (now + s) ≡ s = ap (λ l. elapsed l (now + s)) c.time ∙ omega arith in
    let run_in : elapsed b'.last (now + s) * b'.refill_per_sec ≡ 1000 =
      ap (λ n. n * b'.refill_per_sec) gone ∙ ap (λ n. s * n) c.rate ∙ exact in
    (slept, spend_full (refill b' (now + s)) (omega (arith, run_in, c.size)))
