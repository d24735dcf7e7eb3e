-- ===== src/Monitoring/Buffer/Reading.antt =====
-- What a client of src/monitoring/notification-buffer.ts reads from a cursor.
use deepseek_harness_relay_m.Base.{
  ℕ, suc, ◌+◌, ◌-◌, ◌≤◌, ◌<◌, ◌≡◌, refl, sym, ap, ◌∙◌, subst, Bool, true, false, some, inl, inr,
  List, [], ◌∷◌, ◌++◌, arith, ltb, Bool-cases, length, filter, length-append,
}
use deepseek_harness_relay_m.Base.Result.{ok}
use deepseek_harness_relay_m.Monitoring.Cursor.{
  Text, parse_cursor, parse_cursor-number_text, max_safe_integer,
}
use deepseek_harness_relay_m.Monitoring.Buffer.{
  RunNotification, BufferedNotification, Buffer, PublishInput, over, trim, pushed, after_push,
  publish, notification_of, latest_cursor, first_after, notifications_of, read_from, read_parsed,
  read,
}
use deepseek_harness_relay_m.Monitoring.Buffer.Invariant.{
  From, Inv, publish-Inv, last_bytes, sum_bytes, pushed-IsTrimmed, From-append, last_bytes-append,
  sum_bytes-append,
}
use deepseek_harness_relay_m.Monitoring.Buffer.Search.{above, first_after-difference, drop-filter}

pub read_from-above :
    (b : Buffer) (c : ℕ)
    → Inv b
    → b.discarded_through ≤ c
    → c < b.next_cursor
    → read_from b c
      ≡ ok (record {
        notifications = notifications_of (filter (above c) b.items);
        next_cursor = latest_cursor b;
      })
unfolding read_from
read_from-above b c inv l u =
    let d = b.discarded_through in
    let low : ltb c d ≡ false = ground arith in
    let high : ltb (b.next_cursor - 1) c ≡ false = ground arith in
    let e : c ≡ d + (c - d) = omega arith in
    let place : first_after b.items c ≡ c - d =
      ap (first_after b.items) e
      ∙ first_after-difference b.items d (c - d) inv.cursors (omega (arith, inv.next)) in
    rw (low, high, place, drop-filter b.items d (c - d) c inv.cursors e)

-- A read from a cursor that the queue still covers, neither below the last discarded number nor
-- above the latest, returns the retained notifications with a number above it, all of them and in
-- order, and the latest cursor to go on from.
pub read-above :
    (b : Buffer) (text : Text) (c : ℕ)
    → Inv b
    → parse_cursor text ≡ some c
    → b.discarded_through ≤ c
    → c < b.next_cursor
    → read b (some text)
      ≡ ok (record {
        notifications = notifications_of (filter (above c) b.items);
        next_cursor = latest_cursor b;
      })
unfolding read read_parsed
read-above b text c inv e l u = rw e (read_from-above b c inv l u)

pub trim-filter :
    (items : List BufferedNotification) (max_items max_bytes d c total : ℕ) (o : Bool)
    → 0 < max_items
    → last_bytes items ≤ max_bytes
    → From d items
    → total ≡ sum_bytes items
    → suc c ≡ d + length items
    → filter (above c) (trim max_items max_bytes items total d o).left ≡ filter (above c) items
unfolding trim
trim-filter [] mi mb d c total o room fits from counted e = refl
trim-filter (x ∷ []) mi mb d c total o room fits from counted e =
    let h : over mi mb (x ∷ []) total ≡ false = ground arith in rw h
trim-filter (x ∷ y ∷ xs) mi mb d c total o room fits from counted e =
    let skip : ltb c x.cursor_number ≡ false = ground arith in
    elim (Bool-cases (over mi mb (x ∷ y ∷ xs) total)) [
      | inl h ↦
          rw (h, skip)
            (trim-filter (y ∷ xs) mi mb x.cursor_number c (total - x.bytes) true room fits
              (subst (λ n. From n (y ∷ xs)) (sym from.0) from.1) (omega arith) (omega arith))
      | inr h ↦ rw h
    ]

filter-newest :
    (items : List BufferedNotification) (d c : ℕ) (x : BufferedNotification)
    → From d items
    → c ≡ d + length items
    → c < x.cursor_number
    → filter (above c) (items ++ x ∷ []) ≡ x ∷ []
filter-newest [] d c x from e h = ground arith
filter-newest (y ∷ ys) d c x from e h =
    let old : ltb c y.cursor_number ≡ false = ground arith in
    rw old (filter-newest ys (suc d) c x from.1 (omega arith) h)

pushed-filter :
    (b : Buffer) (n : RunNotification) (bytes : ℕ)
    → Inv b
    → bytes ≤ b.max_bytes
    → filter (above (b.next_cursor - 1)) (pushed b n bytes).left
      ≡ record { notification = n; cursor_number = b.next_cursor; bytes = bytes } ∷ []
unfolding pushed
pushed-filter b n bytes inv fits =
    let x : BufferedNotification = record {
      notification = n;
      cursor_number = b.next_cursor;
      bytes = bytes;
    } in
    trim-filter (b.items ++ x ∷ []) b.max_items b.max_bytes b.discarded_through (b.next_cursor - 1)
      (b.total_bytes + bytes) false inv.some_items (omega (arith, last_bytes-append b.items x))
      (From-append b.discarded_through b.items x inv.cursors inv.next)
      (omega (arith, sum_bytes-append b.items x, inv.counted))
      (omega (arith, inv.next, length-append b.items (x ∷ [])))
    ∙ filter-newest b.items b.discarded_through (b.next_cursor - 1) x inv.cursors
        (omega (arith, inv.next)) (omega (arith, inv.next))

publish-after_push :
    (bytes_of : RunNotification → ℕ) (b : Buffer) (input : PublishInput)
    → bytes_of (notification_of b input) ≤ b.max_bytes
    → (publish bytes_of b input).1
      ≡ after_push b (pushed b (notification_of b input) (bytes_of (notification_of b input)))
unfolding publish
publish-after_push bytes_of b input fits =
    let h : ltb b.max_bytes (bytes_of (notification_of b input)) ≡ false = ground arith in rw h

parse_latest :
    (b : Buffer)
    → b.next_cursor - 1 ≤ max_safe_integer
    → parse_cursor (latest_cursor b) ≡ some (b.next_cursor - 1)
unfolding latest_cursor
parse_latest b h = parse_cursor-number_text (b.next_cursor - 1) h

-- A client that reads from what was the latest cursor before a publication gets the published
-- notification, alone, and the new latest cursor, however much the queue has dropped to make room
-- for it, if the notification is not larger than the byte limit and the cursors are still safe
-- integers.
pub read-publish :
    (bytes_of : RunNotification → ℕ) (b : Buffer) (input : PublishInput)
    → Inv b
    → bytes_of (notification_of b input) ≤ b.max_bytes
    → b.next_cursor ≤ max_safe_integer
    → let after = (publish bytes_of b input).1 in
      read after (some (latest_cursor b))
      ≡ ok (record {
        notifications = notification_of b input ∷ [];
        next_cursor = latest_cursor after;
      })
unfolding after_push
read-publish bytes_of b input inv fits safe =
    let n = notification_of b input in
    let t = pushed-IsTrimmed b n (bytes_of n) inv fits in
    let e = publish-after_push bytes_of b input fits in
    let after = after_push b (pushed b n (bytes_of n)) in
    let inv' : Inv after = subst Inv e (publish-Inv bytes_of b input inv) in
    let moved = t.moved in
    let grown =
      length-append b.items
        (record { notification = n; cursor_number = b.next_cursor; bytes = bytes_of n } ∷ []) in
    subst
      (λ a.
        read a (some (latest_cursor b))
        ≡ ok (record { notifications = n ∷ []; next_cursor = latest_cursor a }))
      (sym e)
      (read-above after (latest_cursor b) (b.next_cursor - 1) inv' (parse_latest b (omega arith))
          (omega (arith, t.moved, t.not_empty, inv.next, grown)) (omega (arith, inv.next))
        ∙ ap
            (λ l.
              ok (record { notifications = notifications_of l; next_cursor = latest_cursor after }))
            (pushed-filter b n (bytes_of n) inv fits))
