-- ===== src/Pages/Mapping.antt =====
-- `ExtendMMap` and `Read` of the page manager: the chunks of the mapping cover the file from its start.
use svacara_db.Prelude.{
  ℕ, zero, suc, ◌+◌, ◌-◌, ◌*◌, ◌/◌, ◌^◌, ◌≤◌, ◌≡◌, refl, sym, ap, ◌∙◌, arith, Bool, true, false,
  none, List, [], ◌∷◌, ◌++◌, ltb, if◌then◌else◌, Bool-cases, ◌<◌, ◌%◌, ◌⊎◌, inl, inr, Outcome, ok,
  panic,
}
use svacara_db.Pages.{Disk}
use svacara_db.Pages.Manager.{
  PageMgr, Chunk, page_size, max_chunk, grow_alloc, int_ltb, first_chunk, with_chunk, extend_mmap,
  read_chunks, read_page, find_page,
}

-- The chunks stand one behind the other from `start` to `total`, each of whole pages.
abbrev pub Runs : ℕ → List Chunk → ℕ → Type 0
Runs start [] total = start * page_size ≡ total
Runs start (c ∷ cs) total =
    (pages : ℕ) × (c.base ≡ start * page_size)
    × (c.len ≡ pages * page_size)
    × Runs (start + pages) cs total

abbrev pub IsMapped : PageMgr → Type 0
IsMapped pm = Runs 0 pm.chunks pm.total

Runs-snoc :
    (start : ℕ) (cs : List Chunk) (total pages : ℕ)
    → Runs start cs total
    → Runs start
        (cs ++ record { base = total; len = pages * page_size } ∷ [])
        (total + pages * page_size)
Runs-snoc start [] total pages r = (pages, sym r, refl, omega arith)
Runs-snoc start (c ∷ cs) total pages (k, b, l, r) =
    (k, b, l, Runs-snoc (start + k) cs total pages r)

whole :
    (start : ℕ) (cs : List Chunk) (total : ℕ)
    → Runs start cs total
    → (k : ℕ) × (total ≡ k * page_size)
whole start [] total r = (start, sym r)
whole start (c ∷ cs) total (k, b, l, r) = whole (start + k) cs total r

whole_above :
    (start : ℕ) (cs : List Chunk) (total : ℕ) → Runs start cs total → start * page_size ≤ total
whole_above start [] total r = omega arith
whole_above start (c ∷ cs) total (k, b, l, r) = omega (arith, whole_above (start + k) cs total r)

-- Below 2 ^ 63 the order of int is the order of the patterns.
pub int_small : (a b : ℕ) → a < 2 ^ 63 → b < 2 ^ 63 → int_ltb a b ≡ ltb a b
int_small a b l m = ground arith

-- The doubling ends, at a multiple of the first size that covers the file.
pub record Grown (total size chunk : ℕ) (o : Outcome ℕ) : Type 0 where
  pub times : ℕ
  pub run : o ≡ ok (chunk * times)
  pub enough : size ≤ total + chunk * times
  pub small : total + chunk * times < 2 ^ 63

grow_alloc-Grown_now :
    (fuel total size chunk : ℕ)
    → size ≤ 2 ^ 62
    → total + chunk < 2 ^ 63
    → ltb (total + chunk) size ≡ false
    → Grown total size chunk (grow_alloc (suc fuel) total size chunk)
unfolding grow_alloc
grow_alloc-Grown_now fuel total size chunk bound l t =
    let wrap : (total + chunk) % 2 ^ 64 ≡ total + chunk = omega arith in
    let order = int_small (total + chunk) size l (omega arith) in
    record {
      times = 1;
      run = rw (grow_alloc, wrap, order, t) (ap ok (omega arith));
      enough = ground arith;
      small = omega arith;
    }

power_double : (chunk fuel : ℕ) → chunk * 2 ^ suc fuel ≡ chunk * 2 * 2 ^ fuel
power_double chunk fuel = grind arith

times_double : (chunk times : ℕ) → chunk * 2 * times ≡ chunk * (2 * times)
times_double chunk times = grind arith

grow_alloc_again :
    (fuel total size chunk : ℕ)
    → total + chunk < 2 ^ 63
    → chunk < 2 ^ 63
    → size < 2 ^ 63
    → ltb (total + chunk) size ≡ true
    → grow_alloc (suc fuel) total size chunk ≡ grow_alloc fuel total size (chunk * 2)
unfolding grow_alloc
grow_alloc_again fuel total size chunk l m n t =
    let wrap : (total + chunk) % 2 ^ 64 ≡ total + chunk = omega arith in
    let twice : chunk * 2 % 2 ^ 64 ≡ chunk * 2 = omega arith in
    let order = int_small (total + chunk) size l n in rw (grow_alloc, wrap, order, t, twice) refl

grow_alloc-Grown :
    (fuel total size chunk : ℕ)
    → size ≤ 2 ^ 62
    → total + chunk < 2 ^ 63
    → size ≤ total + chunk * 2 ^ fuel
    → Grown total size chunk (grow_alloc (suc fuel) total size chunk)
unfolding grow_alloc
grow_alloc-Grown zero total size chunk bound l m =
    grow_alloc-Grown_now zero total size chunk bound l (ground arith)
grow_alloc-Grown (suc fuel) total size chunk bound l m =
    elim (Bool-cases (ltb (total + chunk) size)) [
      | inr t ↦ grow_alloc-Grown_now (suc fuel) total size chunk bound l t
      | inl t ↦
          let below : total + chunk < size = ground arith in
          let doubled = power_double chunk fuel in
          let g =
            grow_alloc-Grown fuel total size (chunk * 2) bound (omega arith)
              (omega (arith, doubled)) in
          let same = times_double chunk g.times in
          record {
            times = 2 * g.times;
            run =
                grow_alloc_again (suc fuel) total size chunk l (omega arith) (omega arith) t
                ∙ g.run
                ∙ ap ok same;
            enough = omega (arith, g.enough, same);
            small = omega (arith, g.small, same);
          }
    ]

module _ {D : Type 0} (disk : Disk D) (d : D) where
  read_chunks_flat :
      (start : ℕ) (cs : List Chunk) (total ptr : ℕ)
      → Runs start cs total
      → start ≤ ptr
      → read_chunks disk d start cs ptr
        ≡ (if ltb (ptr * page_size) total then disk.load d (ptr * page_size) else panic)
  unfolding read_chunks
  read_chunks_flat start [] total ptr r l =
      let past : ltb (ptr * page_size) total ≡ false = ground arith in rw past refl
  read_chunks_flat start (c ∷ cs) total ptr (k, b, n, r) l =
      let pages : c.len / page_size ≡ k = omega (arith, n) in
      let last = whole_above (start + k) cs total r in
      elim (Bool-cases (ltb ptr (start + k))) [
        | inl t ↦
            let inside : ltb (ptr * page_size) total ≡ true = ground (arith, last) in
            let place : c.base + page_size * (ptr - start) ≡ ptr * page_size = ground (arith, b) in
            rw (read_chunks, pages, t, inside, place) refl
        | inr t ↦
            rw (read_chunks, pages, t) (read_chunks_flat (start + k) cs total ptr r (ground arith))
      ]

  -- When the chunks of the mapping stand one behind the other, `Read` of a page that is not in
  -- `updates` reads the file at the page's place, whichever chunk holds it, and panics past the
  -- end of the mapping.
  pub read_page_flat :
      (pm : PageMgr) (ptr : ℕ)
      → IsMapped pm
      → find_page pm.updates ptr ≡ none
      → read_page disk d pm ptr
        ≡ (if ltb (ptr * page_size) pm.total then disk.load d (ptr * page_size) else panic)
  unfolding read_page
  read_page_flat pm ptr m h =
      rw (read_page, h) (read_chunks_flat 0 pm.chunks pm.total ptr m (omega arith))

  -- Why `ExtendMMap` returns what it does: the mapping was long enough, or `Mmap` was called for a part
  -- of the file behind the mapping that covers the size, and its answer is the result.
  abbrev pub Cause : PageMgr → ℕ → PageMgr → Bool → Type 0
  Cause pm size pm' done =
      ((size ≤ pm.total) × (pm' ≡ pm) × (done ≡ true))
      ⊎ ((chunk : ℕ) × (pm.total < size)
          × (size ≤ pm.total + chunk)
          × (disk.map_file d pm.total chunk ≡ done)
          × (pm' ≡ (if done then with_chunk pm chunk else pm)))

  pub record Extended (pm : PageMgr) (size : ℕ) (o : Outcome (PageMgr × Bool)) : Type 0 where
    pub pm' : PageMgr
    pub done : Bool
    pub run : o ≡ ok (pm', done)
    pub cause : Cause pm size pm' done
    pub mapped : IsMapped pm'
    pub covers : done ≡ true → size ≤ pm'.total
    pub same_temp : pm'.temp ≡ pm.temp
    pub same_updates : pm'.updates ≡ pm.updates
    pub same_flushed : pm'.flushed ≡ pm.flushed

  first_chunk-whole :
      (total k : ℕ)
      → total ≡ k * page_size
      → total < 2 ^ 62
      → (n : ℕ) × (first_chunk total ≡ suc n * page_size) × (total + first_chunk total < 2 ^ 63)
  first_chunk-whole total zero t l = (16383, ground arith, ground arith)
  first_chunk-whole total (suc k) t l =
      let order = int_small total max_chunk (omega arith) (omega arith) in
      elim (Bool-cases (ltb total max_chunk)) [
        | inl c ↦ (16383, rw (order, c) refl, rw (order, c) (omega arith))
        | inr c ↦ (k, rw (order, c) t, rw (order, c) (omega arith))
      ]

  -- The answer of `Mmap`.
  answered :
      (pm : PageMgr) (size chunk n : ℕ) (o : Outcome (PageMgr × Bool)) (done : Bool)
      → IsMapped pm
      → chunk ≡ n * page_size
      → pm.total < size
      → size ≤ pm.total + chunk
      → pm.total + chunk < 2 ^ 63
      → disk.map_file d pm.total chunk ≡ done
      → o ≡ ok (if done then with_chunk pm chunk else pm, done)
      → Extended pm size o
  answered pm size chunk n o true m w below l small asked run =
      let wrap : (pm.total + chunk) % 2 ^ 64 ≡ pm.total + n * page_size = omega arith in
      record {
        pm' = with_chunk pm chunk;
        done = true;
        run = run;
        cause = inr (chunk, below, l, asked, refl);
        mapped = rw wrap (rw w (Runs-snoc 0 pm.chunks pm.total n m));
        covers = λ x. omega (arith, wrap);
        same_temp = refl;
        same_updates = refl;
        same_flushed = refl;
      }
  answered pm size chunk n o false m w below l small asked run = record {
    pm' = pm;
    done = false;
    run = run;
    cause = inr (chunk, below, l, asked, refl);
    mapped = m;
    covers = λ x. absurd (ground arith);
    same_temp = refl;
    same_updates = refl;
    same_flushed = refl;
  }

  grow_mapping :
      (fuel : ℕ) (pm : PageMgr) (size n : ℕ)
      → IsMapped pm
      → size ≤ 2 ^ 62
      → size ≤ 2 ^ fuel
      → pm.total < size
      → first_chunk pm.total ≡ suc n * page_size
      → pm.total + first_chunk pm.total < 2 ^ 63
      → Extended pm size (extend_mmap disk (suc fuel) d pm size)
  unfolding extend_mmap
  grow_mapping fuel pm size n m bound l below whole_chunk small =
      let power : suc n * page_size * 2 ^ fuel ≡ 2 ^ fuel + (n * page_size + 4095) * 2 ^ fuel =
        grind arith in
      let g =
        grow_alloc-Grown fuel pm.total size (suc n * page_size) bound
          (omega (arith, small, whole_chunk)) (omega (arith, power)) in
      let len : suc n * page_size * g.times ≡ suc n * g.times * page_size = grind arith in
      let chunk = suc n * g.times * page_size in
      let run : grow_alloc (suc fuel) pm.total size (first_chunk pm.total) ≡ ok chunk =
        ap (grow_alloc (suc fuel) pm.total size) whole_chunk ∙ g.run ∙ ap ok len in
      let order : int_ltb pm.total size ≡ true =
        int_small pm.total size (omega arith) (omega arith) ∙ ground arith in
      answered pm size chunk (suc n * g.times) _ (disk.map_file d pm.total chunk) m refl below
        (omega (arith, g.enough, len)) (omega (arith, g.small, len)) refl
        (rw (extend_mmap, order, run) refl)

  -- `ExtendMMap` ends, for a size of at most 2 ^ 62 and with fuel for its bits, when the chunks of
  -- the mapping stand one behind the other. It keeps them so, leaves the pages in memory as they
  -- were, and succeeds exactly if the mapping was long enough or `Mmap` succeeds for a part behind
  -- it that covers the size, which is then added.
  pub extend_mmap-Extended :
      (fuel : ℕ) (pm : PageMgr) (size : ℕ)
      → IsMapped pm
      → pm.total < 2 ^ 63
      → size ≤ 2 ^ 62
      → size ≤ 2 ^ fuel
      → Extended pm size (extend_mmap disk (suc fuel) d pm size)
  unfolding extend_mmap
  extend_mmap-Extended fuel pm size m total_small bound l =
      let (k, total_whole) = whole 0 pm.chunks pm.total m in
      let order = int_small pm.total size total_small (omega arith) in
      elim (Bool-cases (ltb pm.total size)) [
        | inl t ↦
            let below : pm.total < size = ground arith in
            let (n, chunk_whole, small) = first_chunk-whole pm.total k total_whole (omega arith) in
            grow_mapping fuel pm size n m bound l below chunk_whole small
        | inr t ↦
            let enough : size ≤ pm.total = ground arith in
            record {
              pm' = pm;
              done = true;
              run = rw (extend_mmap, order, t) refl;
              cause = inl (enough, refl, refl);
              mapped = m;
              covers = λ x. enough;
              same_temp = refl;
              same_updates = refl;
              same_flushed = refl;
            }
      ]
