-- ===== src/Broker/Reconciler/History.antt =====
-- `historyAfter` of src/relay-broker/run-reconciler.ts. The Host's pages are the argument `read`, by the
-- number before which a page ends.
use deepseek_harness_relay_m.Base.{
  ℕ, zero, suc, Bool, true, false, Option, none, some, List, [], ◌∷◌, ◌++◌, leb, ltb, ◌==◌, nat_eq,
  filter, if◌then◌else◌,
}
use deepseek_harness_relay_m.Base.Result.{Result, ok, err}
use deepseek_harness_relay_m.Types.{RpcEvent}
use deepseek_harness_relay_m.Events.RunEvents.Merge.{merge_events}

pub record Page : Type 0 where
  pub events : List RpcEvent
  pub has_more : Bool

pub data HistoryError {ℓ} (E : Type ℓ) : Type ℓ where
  no_progress too_many_pages : HistoryError E
  not_read : E → HistoryError E

-- The least number of a page; `none` is infinity.
unfoldable pub oldest : List RpcEvent → Option ℕ
oldest [] = none
oldest (e ∷ events) = elim (oldest events) [
  | none ↦ some e.seq
  | some n ↦ some (if ltb e.seq n then e.seq else n)
]

module _ {ℓ} {E : Type ℓ} (read : Option ℕ → Result E Page) (start : ℕ) where
  abbrev is_new : RpcEvent → Bool
  is_new e = ltb start e.seq

  -- `beforeSeq !== undefined && oldest >= beforeSeq`
  abbrev stuck : Option ℕ → ℕ → Bool
  stuck none n = false
  stuck (some before) n = leb before n

  -- The end of a round that goes on; `pages` are left after it.
  unfoldable pub next_round :
      ℕ
      → Option ℕ
      → ℕ
      → (Option ℕ → Result (HistoryError E) (List RpcEvent))
      → Result (HistoryError E) (List RpcEvent)
  next_round pages before n rest =
      if stuck before n
      then err no_progress
      else if pages == 0
      then err too_many_pages
      else rest (some n)

  abbrev is_last : Bool → Option ℕ → Bool
  is_last has_more none = true
  is_last has_more (some n) = if has_more then leb n start else true

  unfoldable pub after_page :
      ℕ
      → Option ℕ
      → List RpcEvent
      → Bool
      → Option ℕ
      → (Option ℕ → Result (HistoryError E) (List RpcEvent))
      → Result (HistoryError E) (List RpcEvent)
  unfolding next_round
  after_page pages before found has_more none rest = ok found
  after_page pages before found has_more (some n) rest =
      if is_last has_more (some n) then ok found else next_round pages before n rest

  unfoldable pub read_page :
      ℕ
      → Option ℕ
      → List RpcEvent
      → Result E Page
      → (List RpcEvent → Option ℕ → Result (HistoryError E) (List RpcEvent))
      → Result (HistoryError E) (List RpcEvent)
  unfolding after_page oldest
  read_page pages before found (err e) rest = err (not_read e)
  read_page pages before found (ok page) rest =
      let all = found ++ filter is_new page.events in
      after_page pages before all page.has_more (oldest page.events) (rest all)

  -- The loop, with the pages that may still be read.
  unfoldable pub pages_from : ℕ → Option ℕ → List RpcEvent → Result (HistoryError E) (List RpcEvent)
  unfolding read_page
  pages_from zero before found = ok found
  pages_from (suc pages) before found =
      read_page pages before found (read before) (λ all b. pages_from pages b all)

  unfoldable pub merged :
      Result (HistoryError E) (List RpcEvent) → Result (HistoryError E) (List RpcEvent)
  unfolding merge_events
  merged (ok found) = ok (merge_events [] found)
  merged (err e) = err e

  -- `historyAfter`
  unfoldable pub history_after : ℕ → Result (HistoryError E) (List RpcEvent)
  unfolding merged pages_from
  history_after max_pages = merged (pages_from max_pages none [])
