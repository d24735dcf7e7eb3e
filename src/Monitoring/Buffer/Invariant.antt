-- ===== src/Monitoring/Buffer/Invariant.antt =====
-- The invariant of src/monitoring/notification-buffer.ts: the cursors run without a hole, and both
-- limits hold.
use deepseek_harness_relay_m.Base.{
  ℕ, suc, ◌+◌, ◌-◌, ◌≤◌, ◌<◌, ◌≡◌, refl, Bool, true, false, ◌&&◌, not, some, inl, inr, Bool-cases,
  subst, sym, ap, or_else, List, [], ◌∷◌, ◌++◌, arith, ltb, nat_eq, length, length-append,
}
use deepseek_harness_relay_m.Monitoring.Buffer.{
  RunNotification, BufferedNotification, Buffer, PublishInput, Trimmed, create, is_limit, over,
  trim, pushed, after_push, publish, notification_of,
}

-- The cursors of the items are the numbers right above `n`, in order.
abbrev pub From : ℕ → List BufferedNotification → Type 0
From n [] = Unit
From n (x ∷ xs) = (x.cursor_number ≡ suc n) × From (suc n) xs

abbrev pub sum_bytes : List BufferedNotification → ℕ
sum_bytes [] = 0
sum_bytes (x ∷ xs) = x.bytes + sum_bytes xs

pub record Inv (b : Buffer) : Type 0 where
  pub some_items : 0 < b.max_items
  pub cursors : From b.discarded_through b.items
  pub next : b.next_cursor ≡ suc (b.discarded_through + length b.items)
  pub counted : b.total_bytes ≡ sum_bytes b.items
  pub items_fit : length b.items ≤ b.max_items
  pub bytes_fit : b.total_bytes ≤ b.max_bytes

-- What the loop leaves of a queue: its newest item stays, if that alone fits.
pub record IsTrimmed (max_items max_bytes : ℕ) (items : List BufferedNotification) (discarded : ℕ)
    (t : Trimmed) : Type 0 where
  pub cursors : From t.discarded t.left
  pub moved : t.discarded + length t.left ≡ discarded + length items
  pub counted : t.total ≡ sum_bytes t.left
  pub items_fit : length t.left ≤ max_items
  pub bytes_fit : t.total ≤ max_bytes
  pub not_empty : 0 < length t.left
  pub not_back : discarded ≤ t.discarded

abbrev pub last_bytes : List BufferedNotification → ℕ
last_bytes [] = 0
last_bytes (x ∷ []) = x.bytes
last_bytes (x ∷ y ∷ xs) = last_bytes (y ∷ xs)

keep-IsTrimmed :
    (items : List BufferedNotification) (max_items max_bytes discarded total : ℕ) (o : Bool)
    → over max_items max_bytes items total ≡ false
    → 0 < length items
    → From discarded items
    → total ≡ sum_bytes items
    → IsTrimmed max_items max_bytes items discarded
        (record { left = items; total = total; discarded = discarded; overflowed = o })
keep-IsTrimmed items mi mb d total o fits some_item from counted = record {
  cursors = from;
  moved = refl;
  counted = counted;
  items_fit = ground arith;
  bytes_fit = ground arith;
  not_empty = some_item;
  not_back = omega arith;
}

trim-IsTrimmed :
    (items : List BufferedNotification) (max_items max_bytes discarded total : ℕ) (o : Bool)
    → 0 < max_items
    → 0 < length items
    → last_bytes items ≤ max_bytes
    → From discarded items
    → total ≡ sum_bytes items
    → IsTrimmed max_items max_bytes items discarded
        (trim max_items max_bytes items total discarded o)
unfolding trim
trim-IsTrimmed [] mi mb d total o room some_item fits from counted = absurd (omega arith)
trim-IsTrimmed (x ∷ []) mi mb d total o room some_item fits from counted =
    let h : over mi mb (x ∷ []) total ≡ false = ground arith in
    rw h (keep-IsTrimmed (x ∷ []) mi mb d total o h some_item from counted)
trim-IsTrimmed (x ∷ y ∷ xs) mi mb d total o room some_item fits from counted =
    elim (Bool-cases (over mi mb (x ∷ y ∷ xs) total)) [
      | inl h ↦
          let ih : IsTrimmed mi mb (y ∷ xs) x.cursor_number
              (trim mi mb (y ∷ xs) (total - x.bytes) x.cursor_number true) =
            trim-IsTrimmed (y ∷ xs) mi mb x.cursor_number (total - x.bytes) true room (omega arith)
              fits (subst (λ n. From n (y ∷ xs)) (sym from.0) from.1) (omega arith) in
          rw h (record {
            cursors = ih.cursors;
            moved = omega (arith, ih.moved, from.0);
            counted = ih.counted;
            items_fit = ih.items_fit;
            bytes_fit = ih.bytes_fit;
            not_empty = ih.not_empty;
            not_back = omega (arith, ih.not_back, from.0);
          })
      | inr h ↦ rw h (keep-IsTrimmed (x ∷ y ∷ xs) mi mb d total o h some_item from counted)
    ]

pub From-append :
    (n : ℕ) (xs : List BufferedNotification) (x : BufferedNotification)
    → From n xs
    → x.cursor_number ≡ suc (n + length xs)
    → From n (xs ++ x ∷ [])
From-append n [] x from e = (omega arith, tt)
From-append n (y ∷ xs) x from e = (from.0, From-append (suc n) xs x from.1 (omega arith))

pub sum_bytes-append :
    (xs : List BufferedNotification) (x : BufferedNotification)
    → sum_bytes (xs ++ x ∷ []) ≡ sum_bytes xs + x.bytes
sum_bytes-append [] x = omega arith
sum_bytes-append (y ∷ xs) x = omega (arith, sum_bytes-append xs x)

pub last_bytes-append :
    (xs : List BufferedNotification) (x : BufferedNotification)
    → last_bytes (xs ++ x ∷ []) ≡ x.bytes
last_bytes-append [] x = refl
last_bytes-append (y ∷ []) x = refl
last_bytes-append (y ∷ z ∷ xs) x = last_bytes-append (z ∷ xs) x

pub pushed-IsTrimmed :
    (b : Buffer) (n : RunNotification) (bytes : ℕ)
    → Inv b
    → bytes ≤ b.max_bytes
    → IsTrimmed b.max_items b.max_bytes
        (b.items ++ record { notification = n; cursor_number = b.next_cursor; bytes = bytes } ∷ [])
        b.discarded_through
        (pushed b n bytes)
unfolding pushed
pushed-IsTrimmed b n bytes inv fits =
    let x : BufferedNotification = record {
      notification = n;
      cursor_number = b.next_cursor;
      bytes = bytes;
    } in
    trim-IsTrimmed (b.items ++ x ∷ []) b.max_items b.max_bytes b.discarded_through
      (b.total_bytes + bytes) false inv.some_items (omega (arith, length-append b.items (x ∷ [])))
      (omega (arith, last_bytes-append b.items x))
      (From-append b.discarded_through b.items x inv.cursors inv.next)
      (omega (arith, sum_bytes-append b.items x, inv.counted))

abbrev empty : ℕ → ℕ → Buffer
empty max_items max_bytes = record {
  max_items = max_items;
  max_bytes = max_bytes;
  items = [];
  next_cursor = 1;
  total_bytes = 0;
  discarded_through = 0;
}

empty-Inv : (max_items max_bytes : ℕ) → 0 < max_items → Inv (empty max_items max_bytes)
empty-Inv mi mb room = record {
  some_items = room;
  cursors = tt;
  next = refl;
  counted = refl;
  items_fit = omega arith;
  bytes_fit = omega arith;
}

-- A new queue has the invariant.
pub create-Inv :
    (max_items max_bytes : ℕ) (b : Buffer) → create max_items max_bytes ≡ some b → Inv b
unfolding create
create-Inv mi mb b e = elim (Bool-cases (not (is_limit mi && is_limit mb))) [
  | inl h ↦ ground arith
  | inr h ↦ subst Inv (ap (λ o. or_else o b) (rw h at e)) (empty-Inv mi mb (ground arith))
]

-- `publish` preserves the invariant, whatever it answers: both limits hold after it, the byte
-- count is that of the items, and the cursors of the items are the numbers from just above the
-- last discarded one up to the latest.
pub publish-Inv :
    (bytes_of : RunNotification → ℕ) (b : Buffer) (input : PublishInput)
    → Inv b
    → Inv (publish bytes_of b input).1
unfolding publish after_push
publish-Inv bytes_of b input inv =
    let n = notification_of b input in
    let x : BufferedNotification = record {
      notification = n;
      cursor_number = b.next_cursor;
      bytes = bytes_of n;
    } in
    elim (Bool-cases (ltb b.max_bytes (bytes_of n))) [
      | inl h ↦ rw h inv
      | inr h ↦
          let t = pushed-IsTrimmed b n (bytes_of n) inv (ground arith) in
          rw h (record {
            some_items = inv.some_items;
            cursors = t.cursors;
            next = omega (arith, t.moved, inv.next, length-append b.items (x ∷ []));
            counted = t.counted;
            items_fit = t.items_fit;
            bytes_fit = t.bytes_fit;
          })
    ]
