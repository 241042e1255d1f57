-- ===== src/Sdk/Options/Valid.antt =====
-- What valid options promise, and the delays that they lead to.
use native.Mathlib.Nat.{pow-le-pow_right, mul-le-mul_left}
use mathlib.Core.Path.{subst}
use wu_kong_easy_sdk_csharp.Common.{
  ℕ, suc, ◌*◌, ◌^◌, ◌≤◌, ◌<◌, min, true, false, List, [], ◌∷◌, any, ◌≡◌, refl, arith, All,
}
use wu_kong_easy_sdk_csharp.Python.Int.{ℤ, pos, negsuc}
use wu_kong_easy_sdk_csharp.Sdk.Options.{
  Options, int_lt, bad_duration, durations, validate, Policy, delay,
}

-- A positive duration of at most Int32.MaxValue milliseconds.
abbrev pub Duration : ℤ → Type 0
Duration d = (n : ℕ) × (d ≡ pos n) × (0 < n) × (n ≤ 2147483647 * 10000)

-- A number that is at least `least`.
abbrev pub AtLeast : ℕ → ℤ → Type 0
AtLeast least z = (n : ℕ) × (z ≡ pos n) × (least ≤ n)

pub record Valid (o : Options) : Type 0 where
  pub connect_timeout : Duration o.connect_timeout
  pub request_timeout : Duration o.request_timeout
  pub ping_interval : Duration o.ping_interval
  pub pong_timeout : Duration o.pong_timeout
  pub initial_delay : Duration o.initial_reconnect_delay
  pub max_delay : Duration o.max_reconnect_delay
  pub attempts : AtLeast 0 o.max_reconnect_attempts
  pub pending : AtLeast 1 o.max_pending_requests
  pub queued : AtLeast 1 o.max_queued_events
  pub bytes : AtLeast 256 o.max_message_bytes
  pub ordered : initial_delay.0 ≤ max_delay.0

Duration-sound : (d : ℤ) → bad_duration d ≡ false → Duration d
Duration-sound (pos n) h = (n, refl, ground arith, ground arith)
Duration-sound (negsuc n) h = absurd (ground arith)

AtLeast-sound : (least : ℕ) (z : ℤ) → int_lt z (pos least) ≡ false → AtLeast least z
AtLeast-sound least (pos n) h = (n, refl, ground arith)
AtLeast-sound least (negsuc n) h = absurd (ground arith)

natural_order : (n m : ℕ) → int_lt (pos m) (pos n) ≡ false → n ≤ m
natural_order n m h = ground arith

-- The delays are in order.
ordered_sound : (a b : ℤ) (x : Duration a) (y : Duration b) → int_lt b a ≡ false → x.0 ≤ y.0
ordered_sound a b (n, e, p, r) (m, d, q, v) h =
    let k = subst (λ z. int_lt z (pos n) ≡ false) d (subst (λ z. int_lt b z ≡ false) e h) in
    natural_order n m k

durations_sound : (ds : List ℤ) → any bad_duration ds ≡ false → All Duration ds
durations_sound [] h = tt
durations_sound (d ∷ ds) h = (Duration-sound d (ground arith), durations_sound ds (ground arith))

-- `Validate` lets only options through whose durations are positive and at most Int32.MaxValue
-- milliseconds, whose bounds are at least 0, 1, 1 and 256, and whose delays are in order.
pub validate_sound : (o : Options) → validate o ≡ true → Valid o
unfolding validate
validate_sound o h =
    let in_order : int_lt o.max_reconnect_delay o.initial_reconnect_delay ≡ false = ground arith in
    let max_reconnect_attempts = AtLeast-sound 0 o.max_reconnect_attempts (ground arith) in
    let max_pending_requests = AtLeast-sound 1 o.max_pending_requests (ground arith) in
    let max_queued_events = AtLeast-sound 1 o.max_queued_events (ground arith) in
    let max_message_bytes = AtLeast-sound 256 o.max_message_bytes (ground arith) in
    let (connect, (request, (ping, (pong, (initial, (max, end)))))) =
      durations_sound (durations o) (ground arith) in
    record {
      connect_timeout = connect;
      request_timeout = request;
      ping_interval = ping;
      pong_timeout = pong;
      initial_delay = initial;
      max_delay = max;
      attempts = max_reconnect_attempts;
      pending = max_pending_requests;
      queued = max_queued_events;
      bytes = max_message_bytes;
      ordered = ordered_sound o.initial_reconnect_delay o.max_reconnect_delay initial max in_order;
    }

scaled : (d i j : ℕ) → i ≤ j → d * 2 ^ i ≤ d * 2 ^ j
scaled d i j h = mul-le-mul_left d (pow-le-pow_right (omega arith) h)

-- The delay never falls as the retries go on, and lies between those of the policy.
pub delay_bounds :
    (p : Policy) (n : ℕ)
    → p.initial_delay ≤ p.max_delay
    → (p.initial_delay ≤ delay p n) × (delay p n ≤ p.max_delay) × (delay p n ≤ delay p (suc n))
unfolding delay
delay_bounds p n h =
    let up = scaled p.initial_delay 0 (min n 30) (omega arith) in
    let next = scaled p.initial_delay (min n 30) (min (suc n) 30) (omega arith) in
    (omega (arith, up), omega arith, omega (arith, next))
