-- ===== src/Monitoring/Buffer/Search.antt =====
-- `#firstAfter` of src/monitoring/notification-buffer.ts, a binary search, against a search from the
-- front.
use deepseek_harness_relay_m.Base.{
  ℕ, zero, suc, ◌+◌, ◌-◌, ◌/◌, ◌≤◌, ◌<◌, ◌≡◌, refl, sym, Bool, false, inl, inr, List, [], ◌∷◌,
  arith, ltb, ltb→lt, Bool-cases, length, filter,
}
use deepseek_harness_relay_m.Monitoring.Buffer.{
  BufferedNotification, get_elem?, drop, up_to, search, first_after,
}
use deepseek_harness_relay_m.Monitoring.Buffer.Invariant.{From}

up_to-From :
    (items : List BufferedNotification) (d c m : ℕ)
    → From d items
    → m < length items
    → up_to (get_elem? items m) c ≡ ltb (d + m) c
up_to-From [] d c m from h = absurd (omega arith)
up_to-From (x ∷ xs) d c zero from h = ground arith
up_to-From (x ∷ xs) d c (suc m) from h = ground (arith, up_to-From xs (suc d) c m from.1)

search-difference :
    (fuel : ℕ) (items : List BufferedNotification) (d k low high : ℕ)
    → From d items
    → high ≤ length items
    → low ≤ k
    → k ≤ high
    → high - low ≤ fuel
    → search fuel items (d + k) low high ≡ k
unfolding search
search-difference zero items d k low high from h l u f = omega arith
search-difference (suc fuel) items d k low high from h l u f =
    let middle = low + (high - low) / 2 in
    elim (Bool-cases (ltb low high)) [
      | inr e ↦ rw e (ground arith)
      | inl e ↦
          let e' : low < high = ltb→lt low high e in
          let in_range : middle < high = omega arith in
          let test = up_to-From items d (d + k) middle from (omega arith) in
          elim (Bool-cases (ltb (d + middle) (d + k))) [
            | inl t ↦
                let t' : d + middle < d + k = ltb→lt (d + middle) (d + k) t in
                rw (e, test, t)
                  (search-difference fuel items d k (middle + 1) high from h (omega arith) u
                    (omega arith))
            | inr t ↦
                let t' : k ≤ middle = ground arith in
                rw (e, test, t)
                  (search-difference fuel items d k low middle from (omega arith) l t'
                    (omega arith))
          ]
    ]

-- On cursors that run without a hole from just above `d`, the search finds the place of the first
-- cursor above `d + k`, which is `k`.
pub first_after-difference :
    (items : List BufferedNotification) (d k : ℕ)
    → From d items
    → k ≤ length items
    → first_after items (d + k) ≡ k
unfolding first_after
first_after-difference items d k from h =
    search-difference (length items) items d k 0 (length items) from (omega arith) (omega arith) h
      (omega arith)

abbrev pub above : ℕ → BufferedNotification → Bool
above c x = ltb c x.cursor_number

filter-all :
    (items : List BufferedNotification) (d c : ℕ)
    → From d items
    → c ≤ d
    → filter (above c) items ≡ items
filter-all [] d c from h = refl
filter-all (x ∷ xs) d c from h = ground (arith, filter-all xs (suc d) c from.1)

pub drop-filter :
    (items : List BufferedNotification) (d k c : ℕ)
    → From d items
    → c ≡ d + k
    → drop k items ≡ filter (above c) items
drop-filter items d zero c from e = sym (filter-all items d c from (omega arith))
drop-filter [] d (suc k) c from e = refl
drop-filter (x ∷ xs) d (suc k) c from e =
    let h : ltb c x.cursor_number ≡ false = ground arith in
    rw h (drop-filter xs (suc d) k c from.1 (omega arith))
