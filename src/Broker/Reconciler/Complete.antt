-- ===== src/Broker/Reconciler/Complete.antt =====
-- What `historyAfter` of src/relay-broker/run-reconciler.ts reads of the Host's log.
use deepseek_harness_relay_m.Base.{
  ℕ, zero, suc, ◌≤◌, ◌<◌, ◌≡◌, refl, sym, ◌∙◌, ◌⊎◌, inl, inr, true, false, ◌&&◌, ◌||◌, Option, none,
  some, List, [], ◌∷◌, ◌++◌, arith, leb, ltb, nat_eq, filter, if◌then◌else◌, Option-cases,
  Bool-cases,
}
use deepseek_harness_relay_m.Base.Result.{Result, ok, Result-cases}
use deepseek_harness_relay_m.Types.{RpcEvent}
use deepseek_harness_relay_m.Events.RunEvents.Merge.{
  merge_events, has_seq, has_seq-merge, IsAscending, merge-IsAscending,
}
use deepseek_harness_relay_m.Broker.Reconciler.History.{
  Page, HistoryError, oldest, next_round, after_page, read_page, pages_from, merged, history_after,
}

-- `n` lies before the number, if there is one.
abbrev pub IsBelow : Option ℕ → ℕ → Type 0
IsBelow none n = Unit
IsBelow (some before) n = n < before

-- What the Host promises of the pages of a log: their events are the log's, and every event of the log
-- before the given number is in the page, or more is announced and it lies before the page.
pub record Serves {ℓ} {E : Type ℓ} (log : List RpcEvent) (read : Option ℕ → Result E Page)
    : Type ℓ where
  pub from_log :
      (before : Option ℕ) (page : Page) (n : ℕ)
      → read before ≡ ok page
      → has_seq n page.events ≡ true
      → has_seq n log ≡ true
  pub served :
      (before : Option ℕ) (page : Page) (n : ℕ)
      → read before ≡ ok page
      → has_seq n log ≡ true
      → IsBelow before n
      → (has_seq n page.events ≡ true)
        ⊎ ((m : ℕ) × (page.has_more ≡ true) × (oldest page.events ≡ some m) × (n < m))

has_seq-append :
    (xs ys : List RpcEvent) (n : ℕ) → has_seq n (xs ++ ys) ≡ (has_seq n xs || has_seq n ys)
unfolding has_seq
has_seq-append [] ys n = refl
has_seq-append (x ∷ xs) ys n = ground (arith, has_seq-append xs ys n)

has_seq-filter :
    (xs : List RpcEvent) (start n : ℕ)
    → has_seq n (filter (λ e. ltb start e.seq) xs) ≡ (has_seq n xs && ltb start n)
unfolding has_seq
has_seq-filter [] start n = refl
has_seq-filter (x ∷ xs) start n = ground (arith, has_seq-filter xs start n)

oldest-none : (xs : List RpcEvent) (n : ℕ) → oldest xs ≡ none → has_seq n xs ≡ false
unfolding has_seq oldest
oldest-none [] n e = refl
oldest-none (x ∷ xs) n e = elim (Option-cases (oldest xs)) [
  | inl alone ↦ absurd (ground arith)
  | inr (k, some_least) ↦ absurd (ground arith)
]

oldest_le : (xs : List RpcEvent) (n m : ℕ) → has_seq n xs ≡ true → oldest xs ≡ some m → m ≤ n
unfolding has_seq oldest
oldest_le [] n m h e = absurd (cc)
oldest_le (x ∷ xs) n m h e = elim (Option-cases (oldest xs)) [
  | inl alone ↦ ground (arith, oldest-none xs n)
  | inr (k, some_least) ↦ ground (arith, oldest_le xs n k)
]

module _ {ℓ} {E : Type ℓ} (log : List RpcEvent) (read : Option ℕ → Result E Page) (start : ℕ)
    (serves : Serves log read) where
  -- Found are events of the log after the start, among them all that do not lie before the number.
  abbrev pub IsFound : Option ℕ → List RpcEvent → Type 0
  IsFound before found =
      ((n : ℕ) → has_seq n found ≡ true → (has_seq n log ≡ true) × (start < n))
      × ((n : ℕ) → has_seq n log ≡ true → start < n → (has_seq n found ≡ true) ⊎ IsBelow before n)

  -- All the events of the log after the start.
  abbrev pub IsWhole : List RpcEvent → Type 0
  IsWhole found = (n : ℕ) → has_seq n found ≡ (has_seq n log && ltb start n)

  found_with :
      (before : Option ℕ) (found : List RpcEvent) (page : Page)
      → IsFound before found
      → read before ≡ ok page
      → ((n : ℕ)
          → has_seq n (found ++ filter (λ e. ltb start e.seq) page.events) ≡ true
          → (has_seq n log ≡ true) × (start < n))
        × ((n : ℕ)
            → has_seq n log ≡ true
            → start < n
            → (has_seq n (found ++ filter (λ e. ltb start e.seq) page.events) ≡ true)
              ⊎ ((m : ℕ) × (page.has_more ≡ true) × (oldest page.events ≡ some m) × (n < m)))
  found_with before found page f r = (
    λ n h. ground (
      arith,
      has_seq-append found (filter (λ e. ltb start e.seq) page.events) n,
      has_seq-filter page.events start n,
      f.0 n,
      serves.from_log before page n r,
    ),
    λ n h s. elim (f.1 n h s) [
      | inl known ↦
          inl (ground (arith, has_seq-append found (filter (λ e. ltb start e.seq) page.events) n))
      | inr below ↦ elim (serves.served before page n r h below) [
        | inr missing ↦ inr missing
        | inl paged ↦ inl (
            ground (
              arith,
              has_seq-append found (filter (λ e. ltb start e.seq) page.events) n,
              has_seq-filter page.events start n,
            ))
      ]
    ],
  )

  abbrev all_found : List RpcEvent → Page → List RpcEvent
  all_found found page = found ++ filter (λ e. ltb start e.seq) page.events

  -- Nothing is missing.
  whole :
      (found : List RpcEvent)
      → ((n : ℕ) → has_seq n found ≡ true → (has_seq n log ≡ true) × (start < n))
      → ((n : ℕ) → has_seq n log ≡ true → start < n → has_seq n found ≡ true)
      → IsWhole found
  whole found sound complete n = elim (Bool-cases (has_seq n found)) [
    | inl known ↦ ground (arith, sound n known)
    | inr missing ↦ elim (Bool-cases (has_seq n log)) [
      | inr absent ↦ ground arith
      | inl present ↦ elim (Bool-cases (ltb start n)) [
        | inr old ↦ ground arith
        | inl new ↦ absurd (ground (arith, complete n present (ground arith)))
      ]
    ]
  ]

  -- Where a round ends the loop.
  stopped :
      (before : Option ℕ) (found : List RpcEvent) (page : Page)
      → IsFound before found
      → read before ≡ ok page
      → ((n m : ℕ) → page.has_more ≡ true → oldest page.events ≡ some m → n < m → start < n → ⊥)
      → IsWhole (all_found found page)
  stopped before found page f r none_left =
      let (sound, complete) = found_with before found page f r in
      whole (all_found found page) sound (λ n h s. elim (complete n h s) [
        | inl known ↦ known
        | inr (m, more, least, less) ↦ absurd (none_left n m more least less s)
      ])

  next_round-ok :
      (before : Option ℕ) (pages n : ℕ) (rest : Option ℕ → Result (HistoryError E) (List RpcEvent))
      (result : List RpcEvent)
      → next_round read start pages before n rest ≡ ok result
      → (1 ≤ pages) × (rest (some n) ≡ ok result)
  unfolding next_round
  next_round-ok none pages n rest result e = (ground arith, ground arith)
  next_round-ok (some before) pages n rest result e = (ground arith, ground arith)

  go_on :
      (before : Option ℕ) (found : List RpcEvent) (page : Page) (k : ℕ)
      → IsFound before found
      → read before ≡ ok page
      → oldest page.events ≡ some k
      → IsFound (some k) (all_found found page)
  go_on before found page k f r least =
      let (sound, complete) = found_with before found page f r in
      (
        sound,
        λ n h s. elim (complete n h s) [
          | inl known ↦ inl known
          | inr (m, more, same, less) ↦ inr (ground arith)
        ],
      )

  pages_from-IsWhole :
      (pages : ℕ) (before : Option ℕ) (found result : List RpcEvent)
      → 1 ≤ pages
      → IsFound before found
      → pages_from read start pages before found ≡ ok result
      → IsWhole result
  unfolding pages_from read_page after_page next_round
  pages_from-IsWhole zero before found result room f e = absurd (omega arith)
  pages_from-IsWhole (suc pages) before found result room f e = elim (Result-cases (read before)) [
    | inr (x, bad) ↦ absurd (ground arith)
    | inl (page, r) ↦ elim (Option-cases (oldest page.events)) [
      | inl none_paged ↦
          let same : all_found found page ≡ result = ground (arith, (rw (r, none_paged) at e)) in
          rw (sym same) (stopped before found page f r (λ n m more least less new. absurd (cc)))
      | inr (k, least_paged) ↦ elim (Bool-cases (if page.has_more then leb k start else true)) [
        | inl last ↦
            let same : all_found found page ≡ result =
              ground (arith, (rw (r, least_paged, last) at e)) in
            rw (sym same)
              (stopped before found page f r (λ n m more least less new. absurd (ground arith)))
        | inr goes_on ↦
            let (room_left, continued) =
              next_round-ok before pages k
                (λ b. pages_from read start pages b (all_found found page)) result
                (rw (r, least_paged, goes_on) at e) in
            pages_from-IsWhole pages (some k) (all_found found page) result room_left
              (go_on before found page k f r least_paged) continued
      ]
    ]
  ]

  -- With at least one page allowed, where the Host's pages are those of its log, a history that is
  -- returned has an event of each number after the start that the log has and no other number, in the
  -- order of the numbers and each once.
  pub history_after-IsWhole :
      (max_pages : ℕ) (events : List RpcEvent)
      → 1 ≤ max_pages
      → history_after read start max_pages ≡ ok events
      → IsWhole events × IsAscending events
  unfolding history_after merged has_seq
  history_after-IsWhole max_pages events room e =
      elim (Result-cases (pages_from read start max_pages none [])) [
        | inr (x, bad) ↦ absurd (ground arith)
        | inl (found, r) ↦
            let same : merge_events [] found ≡ events = ground (arith, (rw r at e)) in
            let all =
              pages_from-IsWhole max_pages none [] found room
                ((λ n h. absurd (cc)), λ n h s. inr tt) r in
            rw (sym same) (λ n. has_seq-merge [] found n ∙ all n, merge-IsAscending [] found)
      ]
