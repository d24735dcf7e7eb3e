-- ===== src/Lock/NeverLost.antt =====
-- What `reclaimStaleLock` of src/state-repository/file-lock-facade.ts does with the record that it
-- claims, whichever of its calls fail and whatever other processes do meanwhile.
use deepseek_harness_relay_m.Base.{
  String, ◌≡◌, ◌≢◌, refl, ◌∙◌, ◌⊎◌, inl, inr, Bool, true, false, Option, none, some, arith,
  string_eq, ◌==◌, ==_iff, Bool-cases, Option-cases,
}
use deepseek_harness_relay_m.Base.Map
use deepseek_harness_relay_m.Base.Result.{ok, err}
use deepseek_harness_relay_m.Types.Json.{Value, Fields}
use deepseek_harness_relay_m.Lock.Files.{
  Code, enoent, eexist, eperm, enosys, eopnotsupp, failure, Content, text, undecodable, Files, Done,
  rename, link, unlink, create, write, restrict,
}
use deepseek_harness_relay_m.Lock.Reclaim.{
  Run, Outcome, Claimed, unreadable, vanished, parsed, read_claim, is_match, restore_claim_by_copy,
  put_back, decide, claimed_lock, reclaim_stale_lock, copied_unlink, copied_restrict, copied_write,
  copied_create, link_failed, relinked, linked, deleted_claim,
}

module _ (run : Run) (lock_path tombstone : String) (distinct : lock_path ≢ tombstone) where
  -- The content stands under one of the two names.
  abbrev Keeps : Content → Files → Type 0
  Keeps c files = (Map.get files lock_path ≡ some c) ⊎ (Map.get files tombstone ≡ some c)

  abbrev Kept : Content → Outcome → Type 0
  Kept c (ok r, files) = (r.is_deleted ≡ false) × Keeps c files
  Kept c (err code, files) = Keeps c files

  copied_unlink-Kept :
      (c : Content) (d : Done)
      → Map.get d.1 lock_path ≡ some c
      → Kept c (copied_unlink run lock_path tombstone d)
  unfolding copied_unlink
  copied_unlink-Kept c (ok _, files) h = (refl, inl h)
  copied_unlink-Kept c (err code, files) h = inl h

  apart : (lock_path == tombstone) ≡ false
  apart = ground (arith, ==_iff lock_path tombstone)

  unlink_tombstone :
      (fault : Option Code) (files : Files)
      → Map.get (unlink fault files tombstone).1 lock_path ≡ Map.get files lock_path
  unfolding unlink
  unlink_tombstone (some code) files = refl
  unlink_tombstone none files = elim (Option-cases (Map.get files tombstone)) [
    | inl absent ↦ rw absent refl
    | inr (c, present) ↦
        rw present
          (ground (arith, Map.get-delete files tombstone lock_path, ==_iff tombstone lock_path))
  ]

  copied_restrict-Kept :
      (c : Content) (d : Done)
      → Map.get d.1 lock_path ≡ some c
      → Kept c (copied_restrict run lock_path tombstone d)
  unfolding copied_restrict
  copied_restrict-Kept c (err code, files) h = inl h
  copied_restrict-Kept c (ok _, files) h =
      copied_unlink-Kept c _ (unlink_tombstone run.on_copied files ∙ h)

  copied_write-Kept :
      (c : Content) (d : Done)
      → Map.get d.1 tombstone ≡ some c
      → (d.0 ≡ ok tt → Map.get d.1 lock_path ≡ some c)
      → Kept c (copied_write run lock_path tombstone d)
  unfolding copied_write restrict
  copied_write-Kept c (err code, files) t h = inr t
  copied_write-Kept c (ok _, files) t h = elim (Option-cases run.on_restrict) [
    | inl fine ↦ rw fine (copied_restrict-Kept c (ok tt, files) (h refl))
    | inr (code, bad) ↦ rw bad (inr t)
  ]

  write_lock :
      (fault : Option Content) (files : Files) (body : String)
      → (Map.get (write fault files lock_path body).1 tombstone ≡ Map.get files tombstone)
        × ((write fault files lock_path body).0 ≡ ok tt
            → Map.get (write fault files lock_path body).1 lock_path ≡ some (text body))
  unfolding write
  write_lock none files body = (
    ground (arith, Map.get-set files lock_path tombstone (text body), apart),
    λ e.
        ground
          (arith, Map.get-set files lock_path lock_path (text body), ==_iff lock_path lock_path),
  )
  write_lock (some partial) files body =
      (ground (arith, Map.get-set files lock_path tombstone partial, apart), λ e. absurd (cc))

  copied_create-Kept :
      (body : String) (d : Done)
      → Map.get d.1 tombstone ≡ some (text body)
      → Kept (text body) (copied_create run lock_path tombstone body d)
  unfolding copied_create
  copied_create-Kept body (ok _, files) t =
      let (stays, written) = write_lock run.on_write files body in
      copied_write-Kept (text body) (write run.on_write files lock_path body) (stays ∙ t) written
  copied_create-Kept body (err enoent, files) t = (refl, inr t)
  copied_create-Kept body (err eexist, files) t = (refl, inr t)
  copied_create-Kept body (err eperm, files) t = (refl, inr t)
  copied_create-Kept body (err enosys, files) t = (refl, inr t)
  copied_create-Kept body (err eopnotsupp, files) t = (refl, inr t)
  copied_create-Kept body (err failure, files) t = (refl, inr t)

  create_lock :
      (fault : Option Code) (files : Files)
      → Map.get (create fault files lock_path).1 tombstone ≡ Map.get files tombstone
  unfolding create
  create_lock (some code) files = refl
  create_lock none files = elim (Option-cases (Map.get files lock_path)) [
    | inl free ↦ rw free (ground (arith, Map.get-set files lock_path tombstone (text ""), apart))
    | inr (c, taken) ↦ rw taken refl
  ]

  link_lock :
      (fault : Option Code) (files : Files) (c : Content)
      → Map.get files tombstone ≡ some c
      → (Map.get (link fault files tombstone lock_path).1 tombstone ≡ some c)
        × ((link fault files tombstone lock_path).0 ≡ ok tt
            → Map.get (link fault files tombstone lock_path).1 lock_path ≡ some c)
  unfolding link
  link_lock (some code) files c t = (t, λ e. absurd (cc))
  link_lock none files c t = elim (Option-cases (Map.get files lock_path)) [
    | inr (d, taken) ↦ rw (t, taken) (t, λ e. absurd (cc))
    | inl free ↦
        rw (t, free)
          (
            ground (arith, Map.get-set files lock_path tombstone c, apart),
            λ e.
                ground (arith, Map.get-set files lock_path lock_path c, ==_iff lock_path lock_path),
          )
  ]

  unlink_failed :
      (fault : Option Code) (files : Files) (c : Content)
      → Map.get files tombstone ≡ some c
      → (unlink fault files tombstone).0 ≢ ok tt
      → Map.get (unlink fault files tombstone).1 tombstone ≡ some c
  unfolding unlink
  unlink_failed (some code) files c t e = t
  unlink_failed none files c t e = absurd (e (rw t refl))

  -- Other processes leave the claimed file, whose name is fresh, as it is.
  abbrev pub Quiet : Type 0
  Quiet =
      ((files : Files) → Map.get (run.after_claim files) tombstone ≡ Map.get files tombstone)
      × ((files : Files) → Map.get (run.before_copy files) tombstone ≡ Map.get files tombstone)

  -- The text at hand is the claimed content.
  abbrev IsBody : Option String → Content → Type 0
  IsBody none c = Unit
  IsBody (some body) c = c ≡ text body

  module _ (quiet : Quiet) where
    restore_claim_by_copy-Kept :
        (body : String) (files : Files)
        → Map.get files tombstone ≡ some (text body)
        → Kept (text body) (restore_claim_by_copy run lock_path tombstone body files)
    unfolding restore_claim_by_copy
    restore_claim_by_copy-Kept body files t =
        copied_create-Kept body (create run.on_create (run.before_copy files) lock_path)
          (create_lock run.on_create (run.before_copy files) ∙ quiet.1 files ∙ t)

    copy_over-Kept :
        (body : String) (files : Files) (c : Content)
        → Map.get files tombstone ≡ some c
        → c ≡ text body
        → Kept c (restore_claim_by_copy run lock_path tombstone body files)
    copy_over-Kept body files c t b = rw b (restore_claim_by_copy-Kept body files (rw b at t))

    link_failed-Kept :
        (body : Option String) (code : Code) (files : Files) (c : Content)
        → Map.get files tombstone ≡ some c
        → IsBody body c
        → Kept c (link_failed run lock_path tombstone body code files)
    unfolding link_failed
    link_failed-Kept none enoent files c t b = inr t
    link_failed-Kept none eexist files c t b = (refl, inr t)
    link_failed-Kept none eperm files c t b = inr t
    link_failed-Kept none enosys files c t b = inr t
    link_failed-Kept none eopnotsupp files c t b = inr t
    link_failed-Kept none failure files c t b = inr t
    link_failed-Kept (some body) enoent files c t b = inr t
    link_failed-Kept (some body) eexist files c t b = (refl, inr t)
    link_failed-Kept (some body) eperm files c t b = copy_over-Kept body files c t b
    link_failed-Kept (some body) enosys files c t b = copy_over-Kept body files c t b
    link_failed-Kept (some body) eopnotsupp files c t b = copy_over-Kept body files c t b
    link_failed-Kept (some body) failure files c t b = inr t

    relinked-Kept :
        (body : Option String) (d : Done) (c : Content)
        → Map.get d.1 lock_path ≡ some c
        → (d.0 ≢ ok tt → Map.get d.1 tombstone ≡ some c)
        → IsBody body c
        → Kept c (relinked run lock_path tombstone body d)
    unfolding relinked
    relinked-Kept body (ok _, files) c l t b = (refl, inl l)
    relinked-Kept body (err enoent, files) c l t b = (refl, inl l)
    relinked-Kept body (err eexist, files) c l t b =
        link_failed-Kept body eexist files c (t (λ e. cc)) b
    relinked-Kept body (err eperm, files) c l t b =
        link_failed-Kept body eperm files c (t (λ e. cc)) b
    relinked-Kept body (err enosys, files) c l t b =
        link_failed-Kept body enosys files c (t (λ e. cc)) b
    relinked-Kept body (err eopnotsupp, files) c l t b =
        link_failed-Kept body eopnotsupp files c (t (λ e. cc)) b
    relinked-Kept body (err failure, files) c l t b =
        link_failed-Kept body failure files c (t (λ e. cc)) b

    linked-Kept :
        (body : Option String) (d : Done) (c : Content)
        → Map.get d.1 tombstone ≡ some c
        → (d.0 ≡ ok tt → Map.get d.1 lock_path ≡ some c)
        → IsBody body c
        → Kept c (linked run lock_path tombstone body d)
    unfolding linked
    linked-Kept body (err code, files) c t l b = link_failed-Kept body code files c t b
    linked-Kept body (ok _, files) c t l b =
        relinked-Kept body (unlink run.on_unlink files tombstone) c
          (unlink_tombstone run.on_unlink files ∙ l refl) (unlink_failed run.on_unlink files c t) b

    put_back-Kept :
        (body : Option String) (files : Files) (c : Content)
        → Map.get files tombstone ≡ some c
        → IsBody body c
        → Kept c (put_back run lock_path tombstone body files)
    unfolding put_back
    put_back-Kept body files c t b =
        let (stays, linked_to) = link_lock run.on_link files c t in
        linked-Kept body (link run.on_link files tombstone lock_path) c stays linked_to b

    module _ (parse : String → Option Value) (test : Fields → Bool) where
      -- A readable record that the comparison accepts.
      abbrev pub IsMatch : Content → Type 0
      IsMatch c =
          (body : String) × (v : Value) × (c ≡ text body)
          × (parse body ≡ some v)
          × (is_match test v ≡ true)

      -- The record was deleted, reported as such, and it matched; or it stands under one of the
      -- two names, and no deletion is reported.
      abbrev pub Settled : Content → Outcome → Type 0
      Settled c (ok r, files) =
          ((r.is_deleted ≡ true) × IsMatch c) ⊎ ((r.is_deleted ≡ false) × Keeps c files)
      Settled c (err code, files) = Keeps c files

      Kept-Settled : (c : Content) (o : Outcome) → Kept c o → Settled c o
      Kept-Settled c (ok r, files) h = inr h
      Kept-Settled c (err code, files) h = h

      deleted_claim-Settled :
          (c : Content) (d : Done)
          → IsMatch c
          → (d.0 ≢ ok tt → Map.get d.1 tombstone ≡ some c)
          → Settled c (deleted_claim run lock_path tombstone d)
      unfolding deleted_claim
      deleted_claim-Settled c (ok _, files) m t = inl (refl, m)
      deleted_claim-Settled c (err enoent, files) m t = inl (refl, m)
      deleted_claim-Settled c (err eexist, files) m t = inr (t (λ e. cc))
      deleted_claim-Settled c (err eperm, files) m t = inr (t (λ e. cc))
      deleted_claim-Settled c (err enosys, files) m t = inr (t (λ e. cc))
      deleted_claim-Settled c (err eopnotsupp, files) m t = inr (t (λ e. cc))
      deleted_claim-Settled c (err failure, files) m t = inr (t (λ e. cc))

      -- What was read is what the claimed file holds.
      abbrev IsRead : Claimed → Content → Type 0
      IsRead unreadable c = Unit
      IsRead vanished c = Unit
      IsRead (parsed body v) c = (c ≡ text body) × (parse body ≡ some v)

      decide-Settled :
          (claimed : Claimed) (files : Files) (c : Content)
          → Map.get files tombstone ≡ some c
          → IsRead claimed c
          → Settled c (decide run lock_path tombstone test claimed files)
      unfolding decide
      decide-Settled unreadable files c t r = inr (refl, inr t)
      decide-Settled vanished files c t r = Kept-Settled c _ (put_back-Kept none files c t tt)
      decide-Settled (parsed body v) files c t r = elim (Bool-cases (is_match test v)) [
        | inl match ↦ rw match (
            deleted_claim-Settled c _ (body, v, r.0, r.1, match)
              (unlink_failed run.on_delete files c t))
        | inr mismatch ↦ rw mismatch (Kept-Settled c _ (put_back-Kept (some body) files c t r.0))
      ]

      read_claim-IsRead :
          (fault : Option Code) (content : Option Content) (c : Content)
          → content ≡ some c
          → IsRead (read_claim parse fault content) c
      unfolding read_claim
      read_claim-IsRead (some enoent) content c h = tt
      read_claim-IsRead (some eexist) content c h = tt
      read_claim-IsRead (some eperm) content c h = tt
      read_claim-IsRead (some enosys) content c h = tt
      read_claim-IsRead (some eopnotsupp) content c h = tt
      read_claim-IsRead (some failure) content c h = tt
      read_claim-IsRead none none c h = absurd (cc)
      read_claim-IsRead none (some undecodable) c h = tt
      read_claim-IsRead none (some (text body)) c h = elim (Option-cases (parse body)) [
        | inl broken ↦ rw broken tt
        | inr (v, whole) ↦ rw whole (ground arith, whole)
      ]

      claimed_lock-Settled :
          (d : Done) (c : Content)
          → (d.0 ≡ ok tt → Map.get d.1 tombstone ≡ some c)
          → (d.0 ≢ ok tt → Map.get d.1 lock_path ≡ some c)
          → Settled c (claimed_lock run lock_path tombstone parse test d)
      unfolding claimed_lock
      claimed_lock-Settled (ok _, files) c t l =
          let claim = run.after_claim files in
          let stands = quiet.0 files ∙ t refl in
          decide-Settled (read_claim parse run.on_read (Map.get claim tombstone)) claim c stands
            (read_claim-IsRead run.on_read (Map.get claim tombstone) c stands)
      claimed_lock-Settled (err enoent, files) c t l = inr (refl, inl (l (λ e. cc)))
      claimed_lock-Settled (err eexist, files) c t l = inl (l (λ e. cc))
      claimed_lock-Settled (err eperm, files) c t l = inl (l (λ e. cc))
      claimed_lock-Settled (err enosys, files) c t l = inl (l (λ e. cc))
      claimed_lock-Settled (err eopnotsupp, files) c t l = inl (l (λ e. cc))
      claimed_lock-Settled (err failure, files) c t l = inl (l (λ e. cc))

      rename_lock :
          (fault : Option Code) (files : Files) (c : Content)
          → Map.get files lock_path ≡ some c
          → ((rename fault files lock_path tombstone).0 ≡ ok tt
              → Map.get (rename fault files lock_path tombstone).1 tombstone ≡ some c)
            × ((rename fault files lock_path tombstone).0 ≢ ok tt
                → Map.get (rename fault files lock_path tombstone).1 lock_path ≡ some c)
      unfolding rename
      rename_lock (some code) files c h = (λ e. absurd (cc), λ e. h)
      rename_lock none files c h = rw h (
        λ e. ground (
          arith,
          Map.get-set (Map.delete files lock_path) tombstone tombstone c,
          ==_iff tombstone tombstone,
        ),
        λ e. absurd (e refl),
      )

      -- A record is lost only when it matches: whichever calls fail and whatever others do, as long
      -- as they leave the claimed file alone, `reclaimStaleLock` either reports a deletion, and the
      -- file held a readable record that the comparison accepts, or the content still stands, under
      -- the lock's name or under the claim's, and no deletion is reported.
      pub reclaim_stale_lock-Settled :
          (files : Files) (c : Content)
          → Map.get files lock_path ≡ some c
          → Settled c (reclaim_stale_lock run lock_path tombstone parse test files)
      unfolding reclaim_stale_lock
      reclaim_stale_lock-Settled files c h =
          let (moved, stayed) = rename_lock run.on_rename files c h in
          claimed_lock-Settled (rename run.on_rename files lock_path tombstone) c moved stayed
