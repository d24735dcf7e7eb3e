-- ===== src/Monitoring/Buffer/Tests.antt =====
-- Runs of src/monitoring/notification-buffer.ts on a queue of two notifications.
use deepseek_harness_relay_m.Base.{ℕ, ◌≡◌, refl, none, some, [], ◌∷◌, arith}
use deepseek_harness_relay_m.Base.Result.{ok}
use deepseek_harness_relay_m.Base.Stamp.{iso}
use deepseek_harness_relay_m.Types.Json.{end}
use deepseek_harness_relay_m.Monitoring.Cursor.{number_text, parse_cursor-number_text}
use deepseek_harness_relay_m.Monitoring.Buffer.{
  NotificationKind, RunNotification, BufferedNotification, Buffer, PublishInput, notification_of,
  publish, latest_cursor, read,
}
use deepseek_harness_relay_m.Monitoring.Buffer.Invariant.{Inv, publish-Inv}
use deepseek_harness_relay_m.Monitoring.Buffer.Reading.{read-above, read-publish}

abbrev notification : ℕ → RunNotification
notification n = record {
  run_id = "r1";
  kind = NotificationKind.progress;
  payload = end;
  event_id = "e";
  cursor = number_text n;
  occurred_at = iso n;
}

abbrev buffered : ℕ → BufferedNotification
buffered n = record { notification = notification n; cursor_number = n; bytes = 40 }

-- Number 1 is dropped, 2 and 3 are kept.
abbrev buffer : Buffer
buffer = record {
  max_items = 2;
  max_bytes = 100;
  items = buffered 2 ∷ buffered 3 ∷ [];
  next_cursor = 4;
  total_bytes = 80;
  discarded_through = 1;
}

buffer-Inv : Inv buffer
buffer-Inv = record {
  some_items = omega arith;
  cursors = (refl, (refl, tt));
  next = refl;
  counted = refl;
  items_fit = omega arith;
  bytes_fit = omega arith;
}

abbrev input : PublishInput
input = record {
  run_id = "r1";
  kind = NotificationKind.attention;
  payload = end;
  occurred_at = none;
  fresh_id = "e4";
  now = iso 4;
}

abbrev bytes_of : RunNotification → ℕ
bytes_of n = 90

publish-Inv_example : Inv (publish bytes_of buffer input).1
publish-Inv_example = publish-Inv bytes_of buffer input buffer-Inv

read-above_example :
    read buffer (some (number_text 2))
    ≡ ok (record { notifications = notification 3 ∷ []; next_cursor = latest_cursor buffer })
read-above_example =
    read-above buffer (number_text 2) 2 buffer-Inv (parse_cursor-number_text 2 (omega arith))
      (omega arith) (omega arith)

read-publish_example :
    read (publish bytes_of buffer input).1 (some (latest_cursor buffer))
    ≡ ok (record {
      notifications = notification_of buffer input ∷ [];
      next_cursor = latest_cursor (publish bytes_of buffer input).1;
    })
read-publish_example = read-publish bytes_of buffer input buffer-Inv (omega arith) (omega arith)
