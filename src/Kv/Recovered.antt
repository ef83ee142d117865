-- ===== src/Kv/Recovered.antt =====
-- `Open` of a file that an update has written.
use svacara_db.Prelude.{
  ℕ, suc, ◌^◌, ◌≤◌, ◌≡◌, refl, ap, ◌∙◌, arith, Bool, true, false, Option, none, some, [], ltb, ◌⊎◌,
  inl, inr, Outcome, ok, bind_assoc, ◌>>=◌,
}
use svacara_db.Bytes.{Bytes}
use svacara_db.Pages.{Disk}
use svacara_db.Pages.Meta.{Meta}
use svacara_db.Pages.Recovery.{read_meta_safe}
use svacara_db.Pages.Manager.{PageMgr, find_page, new_page_mgr, reset_to, read_page}
use svacara_db.Pages.Mapping.{Cause, read_page_flat, extend_mmap-Extended}
use svacara_db.Kv.{
  Kv, SyncMode, OpenError, file_error, mmap_failed, not_valid, free_of, meta_of, open_file, open_kv,
}
use svacara_db.Kv.Update.{Returns, OnDisk}

module _ {D : Type 0} (crc : Bytes → ℕ) (disk : Disk D) where
  -- `Mmap` was called for the start of the file, at least `size` bytes of it, with this answer.
  abbrev pub Asked : Kv D → ℕ → Bool → Type 0
  Asked kv size done = (chunk : ℕ) × (size ≤ chunk) × (disk.map_file kv.disk_state 0 chunk ≡ done)

  -- The store that is opened again, or the error if `Mmap` of the file fails.
  abbrev pub Reopened : Kv D → ℕ → Kv D ⊎ OpenError → Type 0
  Reopened kv size (inl k) =
      Asked kv size true
      × (k.root ≡ kv.root)
      × (k.mgr.flushed ≡ kv.mgr.flushed)
      × (k.free ≡ free_of (meta_of kv.root kv.mgr.flushed kv.free))
      × (k.mgr.temp ≡ [])
      × (k.mgr.updates ≡ [])
      × (k.failed ≡ false)
  Reopened kv size (inr mmap_failed) = Asked kv size false
  Reopened kv size (inr file_error) = ⊥
  Reopened kv size (inr not_valid) = ⊥

  mapping-Asked :
      (kv : Kv D) (size : ℕ) (pm : PageMgr) (done : Bool)
      → Cause disk kv.disk_state new_page_mgr (suc size) pm done
      → Asked kv (suc size) done
  mapping-Asked kv size pm done (inl (l, e, d)) = absurd (ground arith)
  mapping-Asked kv size pm done (inr (chunk, below, l, e, same)) = (chunk, omega (arith, l), e)

  open_file-OnDisk :
      (kv : Kv D) (size : ℕ) (mode : SyncMode) (pm : PageMgr)
      → OnDisk crc disk kv
      → read_page disk kv.disk_state pm 0 ≡ disk.load kv.disk_state 0
      → Asked kv (suc size) true
      → Returns (Reopened kv (suc size)) (open_file crc disk (suc size) kv.disk_state mode pm)
  unfolding open_file
  open_file-OnDisk kv size mode pm h page asked =
      let m = meta_of kv.root kv.mgr.flushed kv.free in
      let k : Kv D = record {
        disk_state = kv.disk_state;
        root = kv.root;
        free = free_of m;
        mgr = reset_to pm kv.mgr.flushed;
        mode = mode;
        failed = false;
      } in
      let rest : Option Meta → Outcome (Kv D ⊎ OpenError) = λ found. elim found [
        | none ↦ ok (inr not_valid)
        | some m ↦ ok (
            inl (record {
              disk_state = kv.disk_state;
              root = m.root;
              free = free_of m;
              mgr = reset_to pm m.flushed;
              mode = mode;
              failed = false;
            }))
      ] in
      (
        inl k,
        bind_assoc (read_page disk kv.disk_state pm 0) (read_meta_safe crc) rest
            ∙ ap (λ o. o >>= read_meta_safe crc >>= rest) page
            ∙ ap (λ o. o >>= rest) h,
        (asked, refl, refl, refl, refl, refl, refl),
      )

  -- What follows the answer of `ExtendMMap`.
  after_mapping :
      (kv : Kv D) (size : ℕ) (mode : SyncMode) (pm : PageMgr) (done : Bool)
      → OnDisk crc disk kv
      → Asked kv (suc size) done
      → (done ≡ true → read_page disk kv.disk_state pm 0 ≡ disk.load kv.disk_state 0)
      → Returns (Reopened kv (suc size)) (elim done [
        | false ↦ ok (inr mmap_failed)
        | true ↦ open_file crc disk (suc size) kv.disk_state mode pm
      ])
  after_mapping kv size mode pm false h asked page = (inr mmap_failed, refl, asked)
  after_mapping kv size mode pm true h asked page =
      open_file-OnDisk kv size mode pm h (page refl) asked

  -- `Open` of a file of 1 to 2 ^ 62 bytes whose meta page describes a store ends, with fuel for the
  -- bits of the size. It calls `Mmap` for the start of the file, all of its bytes, and finds the
  -- root, the page count and the free list of the store if that succeeds, and else returns an error.
  pub open_kv-Reopened :
      (fuel : ℕ) (kv : Kv D) (size : ℕ) (mode : SyncMode)
      → suc size ≤ 2 ^ 62
      → suc size ≤ 2 ^ fuel
      → OnDisk crc disk kv
      → Returns
          (Reopened kv (suc size))
          (open_kv crc disk (suc fuel) kv.disk_state (some (suc size)) mode)
  unfolding open_kv find_page
  open_kv-Reopened fuel kv size mode bound l h =
      let x =
        extend_mmap-Extended disk kv.disk_state fuel new_page_mgr (suc size) refl (omega arith)
          bound l in
      let asked = mapping-Asked kv size x.pm' x.done x.cause in
      let page : x.done ≡ true → read_page disk kv.disk_state x.pm' 0 ≡ disk.load kv.disk_state 0 =
        λ c.
          let inside : ltb 0 x.pm'.total ≡ true = ground (arith, x.covers c) in
          let absent = ap (λ u. find_page u 0) x.same_updates in
          read_page_flat disk kv.disk_state x.pm' 0 x.mapped absent ∙ rw inside refl in
      let (r, e, p) = after_mapping kv size mode x.pm' x.done h asked page in
      (r, rw (open_kv, x.run) e, p)
