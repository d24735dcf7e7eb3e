-- ===== src/Monitoring/Buffer.antt =====
-- src/monitoring/notification-buffer.ts: the bounded queue of notifications that clients read from a
-- cursor. `bytes_of` is the UTF-8 length of a notification's JSON text.
pub mod Invariant
pub mod Search
pub mod Reading
mod Tests
use deepseek_harness_relay_m.Base.{
  ℕ, zero, suc, ◌+◌, ◌-◌, ◌/◌, String, Bool, true, false, ◌||◌, ◌&&◌, not, Option, none, some, List,
  [], ◌∷◌, ◌++◌, map, ltb, leb, ◌==◌, nat_eq, if◌then◌else◌, or_else, length,
}
use deepseek_harness_relay_m.Base.Stamp.{Stamp}
use deepseek_harness_relay_m.Base.Result.{Result, ok, err}
use deepseek_harness_relay_m.Types.Json.{Fields}
use deepseek_harness_relay_m.Monitoring.Cursor.{Text, max_safe_integer, number_text, parse_cursor}

pub data NotificationKind : Type 0 where
  run_summary attention progress log : NotificationKind

pub record RunNotification : Type 0 where
  pub run_id : String
  pub kind : NotificationKind
  pub payload : Fields
  pub event_id : String
  pub cursor : Text
  pub occurred_at : Stamp

-- `PublishNotificationInput`, with the fresh event id and the time of the call.
pub record PublishInput : Type 0 where
  pub run_id : String
  pub kind : NotificationKind
  pub payload : Fields
  pub occurred_at : Option Stamp
  pub fresh_id : String
  pub now : Stamp

pub record BufferedNotification : Type 0 where
  pub notification : RunNotification
  pub cursor_number : ℕ
  pub bytes : ℕ

pub record Buffer : Type 0 where
  pub max_items : ℕ
  pub max_bytes : ℕ
  pub items : List BufferedNotification
  pub next_cursor : ℕ
  pub total_bytes : ℕ
  pub discarded_through : ℕ

pub data ResyncReason : Type 0 where
  queue_overflow cursor_expired : ResyncReason

pub record ResyncRequired : Type 0 where
  pub reason : ResyncReason
  pub discarded_through_cursor : Text
  pub latest_cursor : Text

pub record PublishResult : Type 0 where
  pub notification : RunNotification
  pub overflowed : Bool
  pub resync : Option ResyncRequired

pub record NotificationPage : Type 0 where
  pub notifications : List RunNotification
  pub next_cursor : Text

pub data ErrorCode : Type 0 where
  cursor_expired_error invalid_cursor notification_too_large : ErrorCode

pub record MonitoringError : Type 0 where
  pub code : ErrorCode
  pub latest_cursor : Text
  pub resync : Option ResyncRequired

-- `Number.isSafeInteger(n) && n >= 1`
abbrev is_limit : ℕ → Bool
is_limit n = leb 1 n && leb n max_safe_integer

-- The constructor; `none` is its `RangeError`.
pub create : ℕ → ℕ → Option Buffer
create max_items max_bytes =
    if not (is_limit max_items && is_limit max_bytes)
    then none
    else some (record {
      max_items = max_items;
      max_bytes = max_bytes;
      items = [];
      next_cursor = 1;
      total_bytes = 0;
      discarded_through = 0;
    })

pub latest_cursor : Buffer → Text
latest_cursor b = number_text (b.next_cursor - 1)

-- `#resync`
pub resync : Buffer → ResyncReason → ResyncRequired
resync b reason = record {
  reason = reason;
  discarded_through_cursor = number_text b.discarded_through;
  latest_cursor = latest_cursor b;
}

pub record Trimmed : Type 0 where
  pub left : List BufferedNotification
  pub total : ℕ
  pub discarded : ℕ
  pub overflowed : Bool

abbrev pub over : ℕ → ℕ → List BufferedNotification → ℕ → Bool
over max_items max_bytes items total = ltb max_items (length items) || ltb max_bytes total

-- The loop of `publish` that shifts the oldest items out.
pub trim : ℕ → ℕ → List BufferedNotification → ℕ → ℕ → Bool → Trimmed
trim max_items max_bytes [] total discarded overflowed = record {
  left = [];
  total = total;
  discarded = discarded;
  overflowed = overflowed;
}
trim max_items max_bytes (x ∷ xs) total discarded overflowed =
    let rest = trim max_items max_bytes xs (total - x.bytes) x.cursor_number true in
    if over max_items max_bytes (x ∷ xs) total
    then rest
    else record { left = x ∷ xs; total = total; discarded = discarded; overflowed = overflowed }

pub notification_of : Buffer → PublishInput → RunNotification
notification_of b input = record {
  run_id = input.run_id;
  kind = input.kind;
  payload = input.payload;
  event_id = input.fresh_id;
  cursor = number_text b.next_cursor;
  occurred_at = or_else input.occurred_at input.now;
}

-- The queue after `push` and the loop.
pub pushed : Buffer → RunNotification → ℕ → Trimmed
unfolding trim
pushed b n bytes =
    trim b.max_items b.max_bytes
      (b.items ++ record { notification = n; cursor_number = b.next_cursor; bytes = bytes } ∷ [])
      (b.total_bytes + bytes) b.discarded_through false

pub after_push : Buffer → Trimmed → Buffer
after_push b t = record b {
  items = t.left;
  next_cursor = b.next_cursor + 1;
  total_bytes = t.total;
  discarded_through = t.discarded;
}

pub publish :
    (RunNotification → ℕ) → Buffer → PublishInput → Result MonitoringError PublishResult × Buffer
unfolding notification_of after_push
publish bytes_of b input =
    let n = notification_of b input in
    let t = pushed b n (bytes_of n) in
    if ltb b.max_bytes (bytes_of n)
    then (
      err (record {
        code = notification_too_large;
        latest_cursor = latest_cursor b;
        resync = none;
      }),
      b,
    )
    else (
      ok (record {
        notification = n;
        overflowed = t.overflowed;
        resync = if t.overflowed then some (resync (after_push b t) queue_overflow) else none;
      }),
      after_push b t,
    )

abbrev pub get_elem? : List BufferedNotification → ℕ → Option BufferedNotification
get_elem? [] i = none
get_elem? (x ∷ xs) zero = some x
get_elem? (x ∷ xs) (suc i) = get_elem? xs i

abbrev pub drop : ℕ → List BufferedNotification → List BufferedNotification
drop zero xs = xs
drop (suc n) [] = []
drop (suc n) (x ∷ xs) = drop n xs

-- `item && item.cursorNumber <= cursor`
abbrev pub up_to : Option BufferedNotification → ℕ → Bool
up_to none cursor = false
up_to (some x) cursor = leb x.cursor_number cursor

-- The loop of `#firstAfter`, with fuel.
pub search : ℕ → List BufferedNotification → ℕ → ℕ → ℕ → ℕ
search zero items cursor low high = low
search (suc fuel) items cursor low high =
    let middle = low + (high - low) / 2 in
    let right = search fuel items cursor (middle + 1) high in
    let left = search fuel items cursor low middle in
    if ltb low high then (if up_to (get_elem? items middle) cursor then right else left) else low

-- `#firstAfter`: each round makes the range smaller, so its length is fuel enough.
pub first_after : List BufferedNotification → ℕ → ℕ
unfolding search
first_after items cursor = search (length items) items cursor 0 (length items)

abbrev pub notifications_of : List BufferedNotification → List RunNotification
notifications_of = map (λ x. x.notification)

pub read_from : Buffer → ℕ → Result MonitoringError NotificationPage
unfolding first_after
read_from b cursor =
    if ltb cursor b.discarded_through
    then err (record {
      code = cursor_expired_error;
      latest_cursor = latest_cursor b;
      resync = some (resync b cursor_expired);
    })
    else if ltb (b.next_cursor - 1) cursor
    then err (record { code = invalid_cursor; latest_cursor = latest_cursor b; resync = none })
    else ok (record {
      notifications = notifications_of (drop (first_after b.items cursor) b.items);
      next_cursor = latest_cursor b;
    })

pub read_parsed : Buffer → Option ℕ → Result MonitoringError NotificationPage
read_parsed b none =
    err (record { code = invalid_cursor; latest_cursor = latest_cursor b; resync = none })
read_parsed b (some cursor) = read_from b cursor

pub read : Buffer → Option Text → Result MonitoringError NotificationPage
unfolding read_from read_parsed
read b none = read_from b b.discarded_through
read b (some text) = read_parsed b (parse_cursor text)
