-- ===== src/Delivery.antt =====
-- internal/delivery/service.go: the delivery of the messages that are due. The transport is an
-- interface of the source, and an argument here.
pub mod Backoff
pub mod Batch
pub mod Attempt
pub mod Exchange
pub mod Checked
pub mod Transport
pub mod Gate
use snw_agent_link.Prelude.{
  ℕ, zero, suc, ◌+◌, ◌-◌, ◌*◌, ◌/◌, ◌%◌, ◌^◌, ◌&&◌, ◌||◌, Bool, true, false, Option, none, some,
  List, [], ◌∷◌, String, ltb, ◌==◌, if◌then◌else◌,
}
use snw_agent_link.Prelude.Int.{ℤ, pos, negsuc, pos_part, int64_limit}
use snw_agent_link.Errors.{Error, Result, ok, err, refused}
use snw_agent_link.Time.{Time, Duration, minute}
use snw_agent_link.Secure.{Aead}
use snw_agent_link.Model.{OutboxMessage, DeliveryReceipt}
use snw_agent_link.Store.Tables.{Database}
use snw_agent_link.Store.Outbox.{list_due_outbox, schedule_outbox_retry, mark_outbox_delivered}

-- What an amd64 and an arm64 processor make of a float64 that is no int64.
pub data Conversion : Type 0 where
  indefinite saturating : Conversion

unfoldable pub out_of_range : Conversion → ℤ
out_of_range indefinite = negsuc 9223372036854775807
out_of_range saturating = pos 9223372036854775807

-- The whole numbers below it are floats as they are: 2 ^ 53.
abbrev pub exact_limit : ℕ
exact_limit = 9007199254740992

-- The distance of the floats next to a number: a power of two with which 53 bits reach it.
unfoldable pub spacing : ℕ → ℕ → ℕ → ℕ
spacing zero unit n = unit
spacing (suc fuel) unit n =
    let wider = spacing fuel (2 * unit) n in if ltb n (exact_limit * unit) then unit else wider

-- The multiple of the spacing that is nearest, of two the even one.
unfoldable pub nearest : ℕ → ℕ → ℕ
nearest unit n =
    let below = n / unit in
    let rest = n % unit in
    if ltb unit (2 * rest) || (2 * rest == unit && below % 2 == 1)
    then (below + 1) * unit
    else below * unit

-- `float64(n)` of an int64: eleven doublings of the spacing reach 2 ^ 64.
unfoldable pub float64 : ℕ → ℕ
unfolding spacing nearest
float64 n = nearest (spacing 11 1 n) n

-- `time.Duration(float64(base) * math.Pow(2, float64(exponent)))`: a float64 times a power of two is
-- exact.
unfoldable pub scaled : Conversion → Duration → ℕ → ℤ
unfolding out_of_range float64
scaled c base exponent =
    let product = float64 base * 2 ^ exponent in
    if ltb product int64_limit then pos product else out_of_range c

pub record Config : Type 0 where
  pub batch_size : ℤ
  pub base_delay : ℤ
  pub max_delay : ℤ
  pub jitter : Option (Duration → ℤ)

pub record Service : Type 0 where
  pub batch_size : ℕ
  pub base_delay : Duration
  pub max_delay : Duration
  pub jitter : Duration → ℤ

pub record ProcessResult : Type 0 where
  pub delivered : ℕ
  pub retried : ℕ

abbrev pub second : Duration
second = 1000000000

-- `if value <= 0 { value = fallback }`
abbrev or_default : ℤ → ℕ → ℕ
or_default value fallback = if pos_part value == 0 then fallback else pos_part value

-- `rand.Int64N` is a parameter.
unfoldable pub random_jitter : (ℕ → ℕ) → Duration → ℤ
random_jitter int64n delay = if delay / 4 == 0 then pos 0 else pos (int64n (delay / 4 + 1))

unfoldable pub new_service : (ℕ → ℕ) → Config → Service
unfolding random_jitter
new_service int64n c =
    let base = or_default c.base_delay second in
    let longest = or_default c.max_delay (15 * minute) in
    record {
      batch_size = or_default c.batch_size 100;
      base_delay = base;
      max_delay = if ltb longest base then base else longest;
      jitter = elim c.jitter [ some j ↦ j | none ↦ random_jitter int64n ];
    }

-- `if delay <= 0 || delay > service.maxDelay { delay = service.maxDelay }`
abbrev capped : Duration → ℤ → Duration
capped longest (negsuc n) = longest
capped longest (pos zero) = longest
capped longest (pos (suc n)) = if ltb longest (suc n) then longest else suc n

-- The jitter is added unless it would pass the limit; a jitter that is longer than the limit makes
-- the difference of the source negative.
abbrev with_jitter : Duration → Duration → Duration → Duration
with_jitter longest jitter delay = if ltb longest (delay + jitter) then longest else delay + jitter

unfoldable pub retry_exponent : ℕ → ℕ
retry_exponent attempt = if ltb 62 (attempt - 1) then 62 else attempt - 1

unfoldable pub retry_delay : Conversion → Service → ℕ → Duration
unfolding scaled retry_exponent
retry_delay c s attempt =
    let delay = capped s.max_delay (scaled c s.base_delay (retry_exponent attempt)) in
    with_jitter s.max_delay (pos_part (s.jitter delay)) delay

-- What the loop meets: ctx.Err() and the transport at each message, and the readings of time.Now()
-- in ScheduleOutboxRetry.
pub record Surroundings : Type 0 where
  pub context : ℕ → Option Error
  pub send : ℕ → OutboxMessage → Result String
  pub wall : ℕ → Time
  pub conversion : Conversion

abbrev pub counted : Result (Unit {0}) → ProcessResult → Result ProcessResult
counted (ok _) r = ok r
counted (err e) r = err e

abbrev pub receipt_of : Time → OutboxMessage → String → DeliveryReceipt
receipt_of now m remote = record {
  message_id = m.message_id;
  target_agent_id = m.target_agent_id;
  remote_receipt_id = remote;
  delivered_at = now;
}

-- One message of the loop, after its test of the context.
unfoldable pub process_one :
    Surroundings
    → Service
    → Time
    → ℕ
    → OutboxMessage
    → ProcessResult
    → Database
    → Result ProcessResult × Database
process_one w s now n m r d = elim (w.send n m) [
  | err e ↦
      let next = now + retry_delay w.conversion s (m.attempt_count + 1) in
      let (done, d') = schedule_outbox_retry (w.wall n) m.message_id next d in
      (counted done (record r { retried = r.retried + 1 }), d')
  | ok remote ↦
      let (done, d') = mark_outbox_delivered (receipt_of now m remote) d in
      (counted done (record r { delivered = r.delivered + 1 }), d')
]

-- The value and the error of a Go function that returns both.
abbrev pub Returned : Type 0
Returned = (ProcessResult × Option Error) × Database

-- The rest of the loop, unless the message ended it.
abbrev pub continued :
    Result ProcessResult → ProcessResult → Database → (ProcessResult → Returned) → Returned
continued (ok r') r d rest = rest r'
continued (err e) r d rest = ((r, some e), d)

unfoldable pub process :
    Surroundings → Service → Time → ℕ → List OutboxMessage → ProcessResult → Database → Returned
unfolding process_one
process w s now n [] r d = ((r, none), d)
process w s now n (m ∷ ms) r d = elim (w.context n) [
  | some e ↦ ((r, some e), d)
  | none ↦
      let (one, d') = process_one w s now n m r d in
      continued one r d' (λ r'. process w s now (n + 1) ms r' d')
]

-- ProcessDue of a service with a store and a transport; `now` is the reading of its clock.
unfoldable pub process_due : Option Aead → Surroundings → Service → Time → Database → Returned
unfolding process
process_due sealing w s now d =
    let none_yet : ProcessResult = record { delivered = 0; retried = 0 } in
    elim (list_due_outbox sealing now (pos s.batch_size) d) [
      | err e ↦ ((none_yet, some e), d)
      | ok ms ↦ process w s now 0 ms none_yet d
    ]
