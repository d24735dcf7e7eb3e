-- ===== src/Lock/Waiting.antt =====
-- `acquire` of src/state-repository/file-lock-facade.ts while another process holds the lock, and once
-- it is free.
use deepseek_harness_relay_m.Base.{
  ℕ, zero, suc, ◌+◌, ◌<◌, String, ◌≡◌, ◌≢◌, refl, sym, ◌∙◌, false, Option, none, some, arith, leb,
  string_eq, ==_iff, subst,
}
use deepseek_harness_relay_m.Base.Map
use deepseek_harness_relay_m.Types.Json.{Value}
use deepseek_harness_relay_m.Lock.Files.{text, Files, link, unlink, create, write, restrict}
use deepseek_harness_relay_m.Lock.Record.{LockRecord, read_lock_record, read_content}
use deepseek_harness_relay_m.Lock.Acquire.{
  Round, Ended, leased, Owner, record_for, after_read, after_cleanup, cleaned, failed_created,
  unlinked, linked, restricted, written, created, round, acquire,
}

-- No call of the round fails.
pub record Works (r : Round) : Type 0 where
  pub creates : r.on_create ≡ none
  pub writes : r.on_write ≡ none
  pub restricts : r.on_restrict ≡ none
  pub links : r.on_link ≡ none
  pub unlinks : r.on_unlink ≡ none
  pub cleans : r.on_cleanup ≡ none
  pub reads : r.on_read ≡ none

module _ (parse : String → Option Value) (print : LockRecord → String) (owner : Owner)
    (lock_path : String) (deadline : ℕ) where
  -- The name of the temporary file is fresh.
  abbrev pub IsFresh : Round → Type 0
  IsFresh r =
      (r.temporary ≢ lock_path) × ((files : Files) → Map.get (r.before files) r.temporary ≡ none)

  -- The lock is held, by a file that reads as a text, and the deadline has not passed.
  abbrev pub IsBusy : Round → Type 0
  IsBusy r =
      ((files : Files) → (body : String) × (Map.get (r.before files) lock_path ≡ some (text body)))
      × (r.clock < deadline)

  abbrev pub IsFree : Round → Type 0
  IsFree r = (files : Files) → Map.get (r.before files) lock_path ≡ none

  -- The files once the temporary file is written.
  abbrev prepared : Round → Files → Files
  prepared r files =
      Map.set (Map.set (r.before files) r.temporary (text "")) r.temporary
        (text (print (record_for owner r)))

  prepared_temporary :
      (r : Round) (files : Files)
      → Map.get (prepared r files) r.temporary ≡ some (text (print (record_for owner r)))
  prepared_temporary r files = ground (
    arith,
    Map.get-set (Map.set (r.before files) r.temporary (text "")) r.temporary r.temporary
        (text (print (record_for owner r))),
    ==_iff r.temporary r.temporary,
  )

  prepared_lock :
      (r : Round) (files : Files)
      → r.temporary ≢ lock_path
      → Map.get (prepared r files) lock_path ≡ Map.get (r.before files) lock_path
  prepared_lock r files apart = ground (
    arith,
    Map.get-set (Map.set (r.before files) r.temporary (text "")) r.temporary lock_path
        (text (print (record_for owner r))),
    Map.get-set (r.before files) r.temporary lock_path (text ""),
    ==_iff r.temporary lock_path,
  )

  round-free :
      (r : Round) (files : Files) (rest : Files → Ended × Files)
      → Works r
      → IsFresh r
      → Map.get (r.before files) lock_path ≡ none
      → ((round parse print owner lock_path deadline r files rest).0 ≡ leased (record_for owner r))
        × (Map.get (round parse print owner lock_path deadline r files rest).1 lock_path
            ≡ some (text (print (record_for owner r))))
  unfolding round created written restricted linked unlinked create write restrict link unlink
  round-free r files rest w fresh free =
      let body = text (print (record_for owner r)) in
      let t = prepared_temporary r files in
      let l : Map.get (prepared r files) lock_path ≡ none = prepared_lock r files fresh.0 ∙ free in
      let t' : Map.get (Map.set (prepared r files) lock_path body) r.temporary ≡ some body =
        ground (
          arith,
          Map.get-set (prepared r files) lock_path r.temporary body,
          t,
          ==_iff lock_path r.temporary,
        ) in
      let l' : Map.get (Map.delete (Map.set (prepared r files) lock_path body) r.temporary)
            lock_path
          ≡ some body =
        ground (
          arith,
          Map.get-delete (Map.set (prepared r files) lock_path body) r.temporary lock_path,
          Map.get-set (prepared r files) lock_path lock_path body,
          ==_iff lock_path lock_path,
          ==_iff r.temporary lock_path,
        ) in
      rw (w.creates, fresh.1 files, w.writes, w.restricts, w.links, t, l, w.unlinks, t') (refl, l')

  round-busy :
      (r : Round) (files : Files) (rest : Files → Ended × Files)
      → Works r
      → IsFresh r
      → IsBusy r
      → (left : Files) × (round parse print owner lock_path deadline r files rest ≡ rest left)
  unfolding round created written restricted linked failed_created cleaned after_cleanup after_read
      read_lock_record read_content create write restrict link unlink
  round-busy r files rest w fresh busy =
      let (body, held) = busy.0 files in
      let t = prepared_temporary r files in
      let l : Map.get (prepared r files) lock_path ≡ some (text body) =
        prepared_lock r files fresh.0 ∙ held in
      let l' : Map.get (Map.delete (prepared r files) r.temporary) lock_path ≡ some (text body) =
        ground (
          arith,
          Map.get-delete (prepared r files) r.temporary lock_path,
          ==_iff r.temporary lock_path,
          l,
        ) in
      let early : leb deadline r.clock ≡ false = ground (arith, busy.1) in
      (
        Map.delete (prepared r files) r.temporary,
        rw
            (
              w.creates,
              fresh.1 files,
              w.writes,
              w.restricts,
              w.links,
              t,
              l,
              w.cleans,
              t,
              w.reads,
              l',
              early,
            )
            refl,
      )

  module _ (rounds : ℕ → Round) (works : (i : ℕ) → Works (rounds i))
      (fresh : (i : ℕ) → IsFresh (rounds i)) where
    acquire_after :
        (k n fuel : ℕ) (files : Files)
        → ((i : ℕ) → i < k → IsBusy (rounds (n + i)))
        → IsFree (rounds (n + k))
        → k < fuel
        → ((acquire parse print owner lock_path deadline rounds fuel n files).0
            ≡ leased (record_for owner (rounds (n + k))))
          × (Map.get (acquire parse print owner lock_path deadline rounds fuel n files).1 lock_path
              ≡ some (text (print (record_for owner (rounds (n + k))))))
    unfolding acquire
    acquire_after k n zero files busy free f = absurd (omega arith)
    acquire_after zero n (suc fuel) files busy free f =
        let now : n + 0 ≡ n = omega arith in
        rw now (round-free (rounds n) files _ (works n) (fresh n) (rw now at (free files)))
    acquire_after (suc k) n (suc fuel) files busy free f =
        let now : n + 0 ≡ n = omega arith in
        let next : n + suc k ≡ suc n + k = omega arith in
        let (left, goes_on) =
          round-busy (rounds n) files
            (λ g. acquire parse print owner lock_path deadline rounds fuel (suc n) g) (works n)
            (fresh n) (subst (λ i. IsBusy (rounds i)) now (busy 0 (omega arith))) in
        rw (goes_on, next)
          (acquire_after k (suc n) fuel left
            (λ i below. subst (λ j. IsBusy (rounds j)) (omega arith) (busy (suc i) (omega arith)))
            (subst (λ j. IsFree (rounds j)) next free) (omega arith))

    -- A process that waits gets the lock: where no call fails and the temporary names are fresh, if
    -- the lock is held and the deadline ahead in the rounds before round k, and in round k the lock
    -- is free, then `acquire` returns the lease of round k, and the lock file holds its record.
    pub acquire-leased :
        (k : ℕ) (files : Files)
        → ((i : ℕ) → i < k → IsBusy (rounds i))
        → IsFree (rounds k)
        → ((acquire parse print owner lock_path deadline rounds (suc k) 0 files).0
            ≡ leased (record_for owner (rounds k)))
          × (Map.get
                (acquire parse print owner lock_path deadline rounds (suc k) 0 files).1
                lock_path
              ≡ some (text (print (record_for owner (rounds k)))))
    acquire-leased k files busy free =
        let now : 0 + k ≡ k = omega arith in
        rw now at (
          acquire_after k 0 (suc k) files
            (λ i below. subst (λ j. IsBusy (rounds j)) (omega arith) (busy i below))
            (subst (λ j. IsFree (rounds j)) (sym now) free) (omega arith))
