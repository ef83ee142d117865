-- ===== src/Pool/Lease.antt =====
-- Connections are leased to one client at a time: what `Acquire` and `Release` keep.
use svacara_db.Prelude.{
  ℕ, ◌+◌, ◌%◌, ◌^◌, ◌≤◌, ◌<◌, ◌≡◌, ◌≢◌, refl, sym, ap, ◌∙◌, arith, true, false, Option, none, some,
  List, All, length, ltb, ◌==◌, ==_refl, Bool-cases, inl, inr, Outcome, ok, panic, stuck, ◌>>=◌,
}
use mathlib.Core.Path.{subst}
use svacara_db.Pool.{
  Pool, Conn, store, create_conn, take_new, lease, acquire_loop, found_or_grow, grow, acquire,
}
use svacara_db.Pool.Acquire.{Found, Search, Ends, acquire_loop-Ends}
use svacara_db.Pool.Distinct.{
  IsOther, HasDistinct, All-remove_at, HasDistinct-remove_at, All-get_elem?, IsOther-remove_at,
  All-map, All-map2, drop_last-snoc,
}

-- The free connections are different, not in use and numbered by the counter at most, and no
-- connection beyond the counter is in use.
pub record IsSound {S : Type 0} (p : Pool S) : Type 0 where
  pub idle : All (λ i. ((p.cells i).in_use ≡ false) × (i ≤ p.next_id)) p.free
  pub distinct : HasDistinct p.free
  pub unborn : (i : ℕ) → p.next_id < i → (p.cells i).in_use ≡ false

pub store-own : (cells : ℕ → Conn) (id : ℕ) (c : Conn) → store cells id c id ≡ c
store-own cells id c = rw (==_refl id) refl

pub store-other : (cells : ℕ → Conn) (id j : ℕ) (c : Conn) → j ≢ id → store cells id c j ≡ cells j
store-other cells id j c h = ground arith

pub freed :
    (cells : ℕ → Conn) (id i : ℕ) (c : Conn)
    → c.in_use ≡ false
    → (cells i).in_use ≡ false
    → (store cells id c i).in_use ≡ false
freed cells id i c f e = elim (Bool-cases (id == i)) [ inl m ↦ rw m f | inr m ↦ rw m e ]

module _ {S : Type 0} where
  -- `id` goes from idle to in use, and every other connection is as it was.
  pub record IsLeased (p p' : Pool S) (id : ℕ) : Type 0 where
    pub was_idle : (p.cells id).in_use ≡ false
    pub now_in_use : (p'.cells id).in_use ≡ true
    pub others : (j : ℕ) → j ≢ id → p'.cells j ≡ p.cells j

  -- A pool of which `id` became in use, and whose free list holds only older and other connections.
  taken-IsSound :
      (p q : Pool S) (id : ℕ)
      → IsSound p
      → IsLeased p q id
      → p.next_id ≤ q.next_id
      → id ≤ q.next_id
      → All (λ i. ((p.cells i).in_use ≡ false) × (i ≤ p.next_id)) q.free
      → HasDistinct q.free
      → IsOther id q.free
      → IsSound q
  taken-IsSound p q id s l n m idle distinct other = record {
    idle =
        All-map2 _ _ (λ i. ((q.cells i).in_use ≡ false) × (i ≤ q.next_id)) q.free
          (λ i (u, b) o. (ap (λ c. c.in_use) (l.others i o) ∙ u, omega arith)) idle other;
    distinct = distinct;
    unborn = λ i b.
        ap (λ c. c.in_use) (l.others i (λ e. absurd (omega arith))) ∙ s.unborn i (omega arith);
  }

  Found-lem :
      (p p' : Pool S) (now id : ℕ) → IsSound p → Found p p' now id → IsLeased p p' id × IsSound p'
  unfolding lease
  Found-lem p p' now id s f =
      let q = lease (record p { conns = f.left }) now f.at id in
      let l : IsLeased p q id = record {
        was_idle = f.idle;
        now_in_use = ap (λ c. c.in_use) (store-own p.cells id _);
        others = λ j h. store-other p.cells id j _ h;
      } in
      let m =
        All-get_elem? (λ i. ((p.cells i).in_use ≡ false) × (i ≤ p.next_id)) p.free f.at id f.free_at
          s.idle in
      let sound =
        taken-IsSound p q id s l (omega arith) m.1 (All-remove_at _ p.free f.at s.idle)
          (HasDistinct-remove_at p.free f.at s.distinct)
          (IsOther-remove_at p.free f.at id f.free_at s.distinct) in
      subst (λ r. IsLeased p r id × IsSound r) (sym f.leased) (l, sound)

  take_new-lem :
      (p : Pool S) (now : ℕ)
      → p.next_id + 1 < 2 ^ 64
      → IsSound p
      → IsLeased p (take_new p now).0 (take_new p now).1 × IsSound (take_new p now).0
  unfolding take_new create_conn
  take_new-lem p now w s =
      let id = (p.next_id + 1) % 2 ^ 64 in
      let e : id ≡ p.next_id + 1 = omega arith in
      let c : Conn = record {
        id = id;
        tx = none;
        created_at = now;
        last_used = now;
        in_use = false;
      } in
      let q = (take_new p now).0 in
      let l : IsLeased p q id = record {
        was_idle = s.unborn id (omega arith);
        now_in_use = ap (λ c. c.in_use) (store-own (create_conn p now).0.cells id _);
        others =
            λ j h. store-other (create_conn p now).0.cells id j _ h ∙ store-other p.cells id j c h;
      } in
      let same : q.free ≡ p.free = drop_last-snoc p.free id in
      let sound =
        taken-IsSound p q id s l (omega arith) (omega arith) (subst (All _) (sym same) s.idle)
          (subst HasDistinct (sym same) s.distinct)
          (subst (IsOther id) (sym same)
            (All-map _ (λ j. j ≢ id) p.free (λ j (u, b) h. absurd (omega arith)) s.idle)) in
      (l, sound)

  -- A lease keeps a sound pool sound, and so does no lease.
  abbrev Acquired : Pool S → Pool S × Option ℕ → Type 0
  Acquired p (p', some id) = IsLeased p p' id × IsSound p'
  Acquired p (p', none) = IsSound p'

  grow-Acquired :
      (p : Pool S) (now : ℕ) → p.next_id + 1 < 2 ^ 64 → IsSound p → Acquired p (grow p now)
  unfolding grow
  grow-Acquired p now w s = elim (Bool-cases (ltb (length p.conns) p.config.max_conns)) [
    | inl e ↦ rw (grow, e) (take_new-lem p now w s)
    | inr e ↦ rw (grow, e) s
  ]

  Acquired-left :
      (p : Pool S) (left : List ℕ) (r : Pool S × Option ℕ)
      → Acquired (record p { conns = left }) r
      → Acquired p r
  Acquired-left p left (p', some id) (l, s) =
      (record { was_idle = l.was_idle; now_in_use = l.now_in_use; others = l.others }, s)
  Acquired-left p left (p', none) s = s

  found_or_grow-Acquired :
      (p : Pool S) (now : ℕ) (r : Pool S × Option ℕ)
      → p.next_id + 1 < 2 ^ 64
      → IsSound p
      → Search p now r
      → Acquired p (found_or_grow now r)
  unfolding found_or_grow
  found_or_grow-Acquired p now (p', some id) w s f = Found-lem p p' now id s f
  found_or_grow-Acquired p now (p', none) w s f =
      let q : Pool S = record p { conns = f.left } in
      let sound : IsSound q = record { idle = s.idle; distinct = s.distinct; unborn = s.unborn } in
      subst (λ q'. Acquired p (grow q' now)) (sym f.same)
        (Acquired-left p f.left (grow q now) (grow-Acquired q now w sound))

  after_loop :
      (p : Pool S) (now : ℕ) (o : Outcome (Pool S × Option ℕ)) (r : Pool S × Option ℕ)
      → p.next_id + 1 < 2 ^ 64
      → IsSound p
      → Ends p now o
      → (o >>= λ q. ok (found_or_grow now q)) ≡ ok r
      → Acquired p r
  after_loop p now (ok q) r w s f e =
      subst (Acquired p) (ground (arith, e)) (found_or_grow-Acquired p now q w s f)
  after_loop p now panic r w s f e = absurd (ground arith)
  after_loop p now stuck r w s f e = absurd f

  acquire-Acquired :
      (p : Pool S) (now : ℕ) (r : Pool S × Option ℕ)
      → p.next_id + 1 < 2 ^ 64
      → IsSound p
      → acquire p now ≡ ok r
      → Acquired p r
  unfolding acquire
  acquire-Acquired p now r w s e = elim (Bool-cases p.closed) [
    | inl c ↦
        let same : ok (p, none) ≡ ok r = simp c at e in
        subst (Acquired p) {x = (p, none)} (ground (arith, same)) s
    | inr c ↦
        after_loop p now (acquire_loop (length p.conns + length p.free + 1) p now 0) r w s
          (acquire_loop-Ends (length p.conns + length p.free + 1) p now 0 (omega arith))
          (simp c at e)
  ]

  -- A connection that `Acquire` returns was idle and is in use, every other connection is as it was,
  -- and the pool stays sound: it was sound, and the counter does not wrap.
  pub acquire_exclusive :
      (p p' : Pool S) (now id : ℕ)
      → p.next_id + 1 < 2 ^ 64
      → IsSound p
      → acquire p now ≡ ok (p', some id)
      → IsLeased p p' id × IsSound p'
  acquire_exclusive p p' now id w s e = acquire-Acquired p now (p', some id) w s e

  loop-ne-stuck :
      (p : Pool S) (now : ℕ) (o : Outcome (Pool S × Option ℕ))
      → Ends p now o
      → (o >>= λ q. ok (found_or_grow now q)) ≢ stuck
  loop-ne-stuck p now (ok q) f e = absurd (ground arith)
  loop-ne-stuck p now panic f e = absurd (ground arith)
  loop-ne-stuck p now stuck f e = f

  -- Every call of `Acquire` ends: the fuel of the model's loop is enough.
  pub acquire-ne-stuck : (p : Pool S) (now : ℕ) → acquire p now ≢ stuck
  unfolding acquire
  acquire-ne-stuck p now e = elim (Bool-cases p.closed) [
    | inl c ↦ absurd (ground (arith, simp c at e))
    | inr c ↦
        loop-ne-stuck p now (acquire_loop (length p.conns + length p.free + 1) p now 0)
          (acquire_loop-Ends (length p.conns + length p.free + 1) p now 0 (omega arith))
          (simp c at e)
  ]
