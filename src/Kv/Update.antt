-- ===== src/Kv/Update.antt =====
-- `updateOrRevert`: what each of its returns leaves behind.
pub mod Settle
use svacara_db.Prelude.{
  ℕ, zero, suc, ◌+◌, ◌*◌, ◌%◌, ◌^◌, ◌≤◌, ◌<◌, ◌≡◌, refl, sym, ap, ◌∙◌, arith, Bool, true, false,
  if◌then◌else◌, Option, none, some, List, [], ◌∷◌, length, ◌==◌, Bool-cases, inl, inr, Outcome, ok,
  ◌>>=◌,
}
use mathlib.Core.Path.{subst}
use svacara_db.Bytes.{Bytes}
use svacara_db.Btree.Page.{Page, blank}
use svacara_db.Btree.FreeList.{FreeList}
use svacara_db.Pages.{Disk, WriteResult, written, write_error}
use svacara_db.Pages.Meta.{Meta}
use svacara_db.Pages.Recovery.{
  IsWords, read_meta_safe, write_meta_full, read_meta_safe-write_meta_full,
}
use svacara_db.Pages.Manager.{
  PageMgr, Flush, flushed_pages, flush_error, nothing_to_flush, joined, flush_updates, flush_temp,
  flush_pages,
}
use svacara_db.Pages.Mapping.{IsMapped, Extended, extend_mmap-Extended}
use svacara_db.Kv.{
  Kv, SyncMode, UpdateError, recover_meta, recover_fsync, flush_failed, fsync1, write_meta_failed,
  fsync2, meta_of, build_meta, save_meta, rollback, heal_sync, heal_write, heal, is_off, first_sync,
  after_flush, write_pages, last_sync, after_meta, write_root, unless_error, update_or_revert,
}

-- The code ends without a panic, with a value as described.
abbrev pub Returns : {A : Type 0} → (A → Type 0) → Outcome A → Type 0
Returns {A} P o = (x : A) × (o ≡ ok x) × P x

pub Returns-bind :
    {A B : Type 0} (Q : A → Type 0) (P : B → Type 0) (o : Outcome A) (k : A → Outcome B)
    → Returns Q o
    → ((x : A) → Q x → Returns P (k x))
    → Returns P (o >>= k)
Returns-bind Q P o k (x, e, q) f = let (y, e', p) = f x q in (y, ap (λ z. z >>= k) e ∙ e', p)

-- What the store relies on: a page that was written is what is read there, and `Fsync` changes no byte.
pub record IsFile {D : Type 0} (disk : Disk D) : Type 0 where
  pub write_load :
      (d : D) (p : Page) (pos : ℕ) (d' : D) (n : ℕ)
      → disk.write_at d p pos ≡ (d', written n)
      → p.size ≡ 4096
      → disk.load d' pos ≡ ok p
  pub sync_load : (d : D) (pos : ℕ) → disk.load (disk.sync d).0 pos ≡ disk.load d pos

module _ {D : Type 0} (disk : Disk D) where
  -- The pages are written whole, each at its place, one after the other.
  abbrev pub Writes : D → List (ℕ × Page) → D → Type 0
  Writes d [] d' = d' ≡ d
  Writes d ((ptr, page) ∷ rest) d' =
      (d1 : D) × (disk.write_at d page (ptr * 4096 % 2 ^ 64) ≡ (d1, written 4096))
      × Writes d1 rest d'

  -- The new pages are written whole, in one piece behind the first `flushed` pages.
  abbrev pub Appends : D → ℕ → List Page → D → Type 0
  Appends d flushed [] d' = d' ≡ d
  Appends d flushed (p ∷ ps) d' =
      disk.write_at d (joined (p ∷ ps)) (flushed * 4096 % 2 ^ 64)
      ≡ (d', written (joined (p ∷ ps)).size)

  -- The disk after all the pages in memory have been written to it.
  abbrev pub Written : D → PageMgr → D → Type 0
  Written d pm d' = (d1 : D) × Writes d pm.updates d1 × Appends d1 pm.flushed pm.temp d'

  -- The disk that an update without a failed write leaves: all pages, then `Fsync`, then the meta
  -- page, then `Fsync`, on the disk of the store unless a failed update was before; `off` leaves
  -- the two calls of `Fsync` out.
  pub record Saved (kv : Kv D) (off : Bool) (d' : D) : Type 0 where
    pub start : D
    pub same_start : kv.failed ≡ false → start ≡ kv.disk_state
    pub with_pages : D
    pub pages : Written start kv.mgr with_pages
    pub meta : Page
    pub count : ℕ
    pub with_meta : D
    pub meta_written :
        disk.write_at (if off then with_pages else (disk.sync with_pages).0) meta 0
        ≡ (with_meta, written count)
    pub last : d' ≡ (if off then with_meta else (disk.sync with_meta).0)

  -- The part of it up to the first `Fsync`.
  pub record Stocked (kv : Kv D) (off : Bool) (d' : D) : Type 0 where
    pub start : D
    pub same_start : kv.failed ≡ false → start ≡ kv.disk_state
    pub with_pages : D
    pub pages : Written start kv.mgr with_pages
    pub last : d' ≡ (if off then with_pages else (disk.sync with_pages).0)

module _ {D : Type 0} (crc : Bytes → ℕ) (disk : Disk D) where
  -- The state before the update, with nothing in memory, and the next update rewrites the meta page.
  pub record Reverted (root flushed : ℕ) (kv' : Kv D) : Type 0 where
    pub old_root : kv'.root ≡ root
    pub old_flushed : kv'.mgr.flushed ≡ flushed
    pub no_temp : kv'.mgr.temp ≡ []
    pub no_updates : kv'.mgr.updates ≡ []
    pub marked : kv'.failed ≡ true

  -- The state after the update, with nothing left to write.
  pub record Committed (kv kv' : Kv D) : Type 0 where
    pub new_root : kv'.root ≡ kv.root
    pub same_free : kv'.free ≡ kv.free
    pub same_mode : kv'.mode ≡ kv.mode
    pub new_flushed : kv'.mgr.flushed ≡ kv.mgr.flushed + length kv.mgr.temp
    pub no_temp : kv'.mgr.temp ≡ []
    pub no_updates : kv'.mgr.updates ≡ []

  -- The meta page in the file describes the state.
  abbrev pub OnDisk : Kv D → Type 0
  OnDisk kv' =
      (disk.load kv'.disk_state 0 >>= read_meta_safe crc)
      ≡ ok (some (meta_of kv'.root kv'.mgr.flushed kv'.free))

  -- The two calls that fail before anything was written leave the new state in memory.
  pub record Untouched (kv kv' : Kv D) : Type 0 where
    pub new_root : kv'.root ≡ kv.root
    pub same_free : kv'.free ≡ kv.free
    pub same_mgr : kv'.mgr ≡ kv.mgr
    pub same_mode : kv'.mode ≡ kv.mode
    pub same_disk : kv.failed ≡ false → kv'.disk_state ≡ kv.disk_state

  -- The results of `updateOrRevert`.
  abbrev pub Settled : Kv D → ℕ → ℕ → Kv D × Option UpdateError → Type 0
  Settled kv root flushed (kv', none) =
      Committed kv kv'
      × Saved disk kv (is_off crc disk kv.mode) kv'.disk_state
      × OnDisk kv'
      × (kv'.failed ≡ false)
  Settled kv root flushed (kv', some recover_meta) = Untouched kv kv' × (kv'.failed ≡ true)
  Settled kv root flushed (kv', some recover_fsync) = Untouched kv kv' × (kv'.failed ≡ true)
  Settled kv root flushed (kv', some (flush_failed e)) = Reverted root flushed kv'
  Settled kv root flushed (kv', some fsync1) = Reverted root flushed kv'
  Settled kv root flushed (kv', some write_meta_failed) = Reverted root flushed kv'
  Settled kv root flushed (kv', some fsync2) =
      Committed kv kv'
      × Saved disk kv (is_off crc disk kv.mode) kv'.disk_state
      × OnDisk kv'
      × (kv'.failed ≡ true)

  -- The results of the first two steps; an error is a result of the whole.
  abbrev pub Healed : Kv D → ℕ → ℕ → Kv D × Option UpdateError → Type 0
  Healed kv root flushed (kv', none) = Untouched kv kv' × (kv'.failed ≡ false)
  Healed kv root flushed (kv', some e) = Settled kv root flushed (kv', some e)

  abbrev pub Stored : Kv D → ℕ → ℕ → Kv D × Option UpdateError → Type 0
  Stored kv root flushed (kv', none) =
      Committed kv kv'
      × Stocked disk kv (is_off crc disk kv.mode) kv'.disk_state
      × (kv'.failed ≡ false)
  Stored kv root flushed (kv', some e) = Settled kv root flushed (kv', some e)

  heal_sync-Healed :
      (kv : Kv D) (root flushed : ℕ) (r : D × Bool)
      → kv.failed ≡ true
      → Returns (Healed kv root flushed) (heal_sync crc disk kv r)
  unfolding heal_sync
  heal_sync-Healed kv root flushed (d, false) f = (
    _,
    refl,
    (
      record {
        new_root = refl;
        same_free = refl;
        same_mgr = refl;
        same_mode = refl;
        same_disk = λ g. absurd (ground arith);
      },
      f,
    ),
  )
  heal_sync-Healed kv root flushed (d, true) f = (
    _,
    refl,
    (
      record {
        new_root = refl;
        same_free = refl;
        same_mgr = refl;
        same_mode = refl;
        same_disk = λ g. absurd (ground arith);
      },
      refl,
    ),
  )

  pub heal_write-Healed :
      (kv : Kv D) (root flushed : ℕ) (r : D × WriteResult)
      → kv.failed ≡ true
      → Returns (Healed kv root flushed) (heal_write crc disk kv r)
  unfolding heal_write
  heal_write-Healed kv root flushed (d, write_error) f = (
    _,
    refl,
    (
      record {
        new_root = refl;
        same_free = refl;
        same_mgr = refl;
        same_mode = refl;
        same_disk = λ g. absurd (ground arith);
      },
      f,
    ),
  )
  heal_write-Healed kv root flushed (d, written n) f =
      heal_sync-Healed kv root flushed (disk.sync d) f
