-- ===== src/Sdk/Options.antt =====
-- `WKIMOptions` of src/WuKongEasySDK/Models.cs, and the delay before a reconnection (`RunAsync` of
-- src/WuKongEasySDK/WKIM.cs). A TimeSpan is its number of ticks; the delays are whole milliseconds.
pub mod Valid
use wu_kong_easy_sdk_csharp.Common.{
  ℕ, zero, suc, ◌*◌, ◌^◌, ◌≤◌, min, Bool, true, false, not, ◌&&◌, ◌||◌, List, [], ◌∷◌, any, ltb,
  if◌then◌else◌, ◌≡◌, refl, arith,
}
use wu_kong_easy_sdk_csharp.Python.Int.{ℤ, pos, negsuc, positive}

pub record Options : Type 0 where
  pub connect_timeout : ℤ
  pub request_timeout : ℤ
  pub ping_interval : ℤ
  pub pong_timeout : ℤ
  pub auto_reconnect : Bool
  pub max_reconnect_attempts : ℤ
  pub initial_reconnect_delay : ℤ
  pub max_reconnect_delay : ℤ
  pub max_pending_requests : ℤ
  pub max_queued_events : ℤ
  pub max_message_bytes : ℤ

-- Int32.MaxValue milliseconds, in ticks of 100 nanoseconds
abbrev pub max_ticks : ℕ
max_ticks = 2147483647 * 10000

-- a < b
abbrev pub int_lt : ℤ → ℤ → Bool
int_lt (pos a) (pos b) = ltb a b
int_lt (pos a) (negsuc b) = false
int_lt (negsuc a) (pos b) = true
int_lt (negsuc a) (negsuc b) = ltb b a

abbrev pub bad_duration : ℤ → Bool
bad_duration d = not (positive d) || int_lt (pos max_ticks) d

abbrev pub durations : Options → List ℤ
durations o =
    o.connect_timeout ∷ o.request_timeout ∷ o.ping_interval ∷ o.pong_timeout
    ∷ o.initial_reconnect_delay ∷ o.max_reconnect_delay ∷ []

-- Whether `Validate` returns; if not, it throws.
unfoldable pub validate : Options → Bool
validate o =
    if any bad_duration (durations o)
    then false
    else not (
        int_lt o.max_reconnect_attempts (pos 0)
        || int_lt o.max_pending_requests (pos 1)
        || int_lt o.max_queued_events (pos 1)
        || int_lt o.max_message_bytes (pos 256)
        || int_lt o.max_reconnect_delay o.initial_reconnect_delay)

-- What the supervisor reads of valid options, the delays in milliseconds.
pub record Policy : Type 0 where
  pub auto_reconnect : Bool
  pub max_attempts : ℕ
  pub initial_delay : ℕ
  pub max_delay : ℕ

-- Math.Min(max, initial * Math.Pow(2, Math.Min(attempt, 30)))
unfoldable pub delay : Policy → ℕ → ℕ
delay p attempt = min p.max_delay (p.initial_delay * 2 ^ min attempt 30)
