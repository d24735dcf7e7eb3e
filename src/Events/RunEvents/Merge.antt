-- ===== src/Events/RunEvents/Merge.antt =====
-- `mergeEvents` of src/run-events.ts. A map whose keys are the numbers of its values is the list of the
-- values, in the order of the first insertion.
use deepseek_harness_relay_m.Base.{
  ℕ, ◌<◌, ◌≡◌, refl, ◌∙◌, inl, inr, Bool, false, ◌||◌, List, [], ◌∷◌, arith, leb, ◌==◌, nat_eq,
  if◌then◌else◌, All, All-mono, Bool-cases,
}
use deepseek_harness_relay_m.Types.{RpcEvent}

-- `bySeq.set(event.seq, event)`
unfoldable pub put : List RpcEvent → RpcEvent → List RpcEvent
put [] e = e ∷ []
put (x ∷ events) e = if x.seq == e.seq then e ∷ events else x ∷ put events e

unfoldable pub put_all : List RpcEvent → List RpcEvent → List RpcEvent
unfolding put
put_all events [] = events
put_all events (e ∷ more) = put_all (put events e) more

unfoldable pub insert : RpcEvent → List RpcEvent → List RpcEvent
insert e [] = e ∷ []
insert e (x ∷ events) = if leb e.seq x.seq then e ∷ (x ∷ events) else x ∷ insert e events

-- `sort((a, b) => a.seq - b.seq)`
unfoldable pub sort : List RpcEvent → List RpcEvent
unfolding insert
sort [] = []
sort (e ∷ events) = insert e (sort events)

unfoldable pub merge_events : List RpcEvent → List RpcEvent → List RpcEvent
unfolding put_all sort
merge_events left right = sort (put_all (put_all [] left) right)

-- Whether an event has the number.
unfoldable pub has_seq : ℕ → List RpcEvent → Bool
has_seq n [] = false
has_seq n (e ∷ events) = e.seq == n || has_seq n events

has_seq-put :
    (events : List RpcEvent) (e : RpcEvent) (n : ℕ)
    → has_seq n (put events e) ≡ (has_seq n events || e.seq == n)
unfolding has_seq put
has_seq-put [] e n = ground arith
has_seq-put (x ∷ events) e n = ground (arith, has_seq-put events e n)

has_seq-put_all :
    (more events : List RpcEvent) (n : ℕ)
    → has_seq n (put_all events more) ≡ (has_seq n events || has_seq n more)
unfolding has_seq put_all
has_seq-put_all [] events n = ground arith
has_seq-put_all (e ∷ more) events n =
    ground (arith, has_seq-put_all more (put events e) n, has_seq-put events e n)

has_seq-insert :
    (events : List RpcEvent) (e : RpcEvent) (n : ℕ)
    → has_seq n (insert e events) ≡ (e.seq == n || has_seq n events)
unfolding has_seq insert
has_seq-insert [] e n = refl
has_seq-insert (x ∷ events) e n = ground (arith, has_seq-insert events e n)

has_seq-sort : (events : List RpcEvent) (n : ℕ) → has_seq n (sort events) ≡ has_seq n events
unfolding has_seq sort
has_seq-sort [] n = refl
has_seq-sort (e ∷ events) n =
    ground (arith, has_seq-sort events n, has_seq-insert (sort events) e n)

-- The merged events have the numbers of both sides.
pub has_seq-merge :
    (left right : List RpcEvent) (n : ℕ)
    → has_seq n (merge_events left right) ≡ (has_seq n left || has_seq n right)
unfolding merge_events has_seq
has_seq-merge left right n =
    has_seq-sort (put_all (put_all [] left) right) n
    ∙ ground (arith, has_seq-put_all right (put_all [] left) n, has_seq-put_all left [] n)

-- No two events with one number, and events in the order of their numbers.
abbrev pub IsDistinct : List RpcEvent → Type 0
IsDistinct [] = Unit
IsDistinct (e ∷ events) = (has_seq e.seq events ≡ false) × IsDistinct events

abbrev pub IsAscending : List RpcEvent → Type 0
IsAscending [] = Unit
IsAscending (e ∷ events) = All (λ x. e.seq < x.seq) events × IsAscending events

put-IsDistinct :
    (events : List RpcEvent) (e : RpcEvent) → IsDistinct events → IsDistinct (put events e)
unfolding put has_seq
put-IsDistinct [] e d = (refl, tt)
put-IsDistinct (x ∷ events) e d = elim (Bool-cases (x.seq == e.seq)) [
  | inl same ↦ rw same (ground (arith, d), d.1)
  | inr different ↦
      rw different (ground (arith, d, has_seq-put events e x.seq), put-IsDistinct events e d.1)
]

put_all-IsDistinct :
    (more events : List RpcEvent) → IsDistinct events → IsDistinct (put_all events more)
unfolding put_all
put_all-IsDistinct [] events d = d
put_all-IsDistinct (e ∷ more) events d =
    put_all-IsDistinct more (put events e) (put-IsDistinct events e d)

All-insert :
    (events : List RpcEvent) (e : RpcEvent) (n : ℕ)
    → n < e.seq
    → All (λ x. n < x.seq) events
    → All (λ x. n < x.seq) (insert e events)
unfolding insert
All-insert [] e n h all = (h, tt)
All-insert (x ∷ events) e n h all = elim (Bool-cases (leb e.seq x.seq)) [
  | inl before ↦ rw before (h, all)
  | inr after ↦ rw after (all.0, All-insert events e n h all.1)
]

insert-IsAscending :
    (events : List RpcEvent) (e : RpcEvent)
    → has_seq e.seq events ≡ false
    → IsAscending events
    → IsAscending (insert e events)
unfolding insert has_seq
insert-IsAscending [] e new a = (tt, tt)
insert-IsAscending (x ∷ events) e new a = elim (Bool-cases (leb e.seq x.seq)) [
  | inl before ↦
      let less : e.seq < x.seq = ground arith in
      rw before (
        (less, All-mono (λ y. x.seq < y.seq) (λ y. e.seq < y.seq) events (λ y h. omega arith) a.0),
        a,
      )
  | inr after ↦
      rw after (
        All-insert events e x.seq (ground arith) a.0,
        insert-IsAscending events e (ground arith) a.1,
      )
]

sort-IsAscending : (events : List RpcEvent) → IsDistinct events → IsAscending (sort events)
unfolding sort
sort-IsAscending [] d = tt
sort-IsAscending (e ∷ events) d =
    insert-IsAscending (sort events) e (has_seq-sort events e.seq ∙ d.0)
      (sort-IsAscending events d.1)

-- The merged events are in the order of their numbers, and no number stands twice.
pub merge-IsAscending : (left right : List RpcEvent) → IsAscending (merge_events left right)
unfolding merge_events
merge-IsAscending left right =
    sort-IsAscending _ (put_all-IsDistinct right _ (put_all-IsDistinct left [] tt))
