-- ===== src/Pool/Acquire.antt =====
-- The loop of `Acquire`: what it returns, that it ends, and when it panics.
use svacara_db.Prelude.{
  ℕ, zero, suc, ◌+◌, ◌-◌, ◌≤◌, ◌<◌, ◌≡◌, refl, arith, false, Option, none, some, List, length, take,
  drop, length-append, length-take, length-drop, get_elem?, get_elem?-lt, ltb, Bool-cases,
  Option-cases, inl, inr, Outcome, ok, panic, stuck,
}
use svacara_db.Pool.{Pool, remove_at, remove_conn, is_expired, lease, acquire_loop}

pub length-remove_at :
    (xs : List ℕ) (i : ℕ) → i < length xs → suc (length (remove_at i xs)) ≡ length xs
length-remove_at xs i l =
    omega
      (arith, length-append (take i xs) (drop (suc i) xs), length-take i xs, length-drop (suc i) xs)

module _ {S : Type 0} where
  -- The pool with fewer connections in its list, and a free connection that it leases out.
  pub record Found (p p' : Pool S) (now id : ℕ) : Type 0 where
    pub at : ℕ
    pub left : List ℕ
    pub free_at : get_elem? p.free at ≡ some id
    pub idle : (p.cells id).in_use ≡ false
    pub fewer : length left ≤ length p.conns
    pub leased : p' ≡ lease (record p { conns = left }) now at id

  pub record NotFound (p p' : Pool S) : Type 0 where
    pub left : List ℕ
    pub fewer : length left ≤ length p.conns
    pub same : p' ≡ record p { conns = left }

  abbrev pub Search : Pool S → ℕ → Pool S × Option ℕ → Type 0
  Search p now (p', some id) = Found p p' now id
  Search p now (p', none) = NotFound p p'

  -- The loop does not run out of fuel, and what it returns is `Search`.
  abbrev pub Ends : Pool S → ℕ → Outcome (Pool S × Option ℕ) → Type 0
  Ends p now (ok r) = Search p now r
  Ends p now panic = Unit {0}
  Ends p now stuck = ⊥

  Ends-fewer :
      (p : Pool S) (now : ℕ) (left : List ℕ)
      → length left ≤ length p.conns
      → (o : Outcome (Pool S × Option ℕ)) → Ends (record p { conns = left }) now o
      → Ends p now o
  Ends-fewer p now left l (ok (p', some id)) f = record {
    at = f.at;
    left = f.left;
    free_at = f.free_at;
    idle = f.idle;
    fewer = omega (arith, f.fewer);
    leased = f.leased;
  }
  Ends-fewer p now left l (ok (p', none)) f = record {
    left = f.left;
    fewer = omega (arith, f.fewer);
    same = f.same;
  }
  Ends-fewer p now left l panic f = tt
  Ends-fewer p now left l stuck f = f

  pub acquire_loop-Ends :
      (fuel : ℕ) (p : Pool S) (now i : ℕ)
      → length p.conns + (length p.free - i) < fuel
      → Ends p now (acquire_loop fuel p now i)
  unfolding acquire_loop remove_conn
  acquire_loop-Ends zero p now i l = absurd (omega arith)
  acquire_loop-Ends (suc fuel) p now i l = elim (Option-cases (get_elem? p.free i)) [
    | inl e ↦ rw (acquire_loop, e) (record { left = p.conns; fewer = omega arith; same = refl })
    | inr (id, e) ↦
        let at = get_elem?-lt p.free i id e in
        elim (Bool-cases (is_expired p now (p.cells id))) [
          | inl x ↦ elim (Bool-cases (ltb (length p.conns) (i + 1))) [
            | inl n ↦ rw (acquire_loop, e, x, n) tt
            | inr n ↦
                let shorter = length-remove_at p.conns i (ground arith) in
                rw (acquire_loop, e, x, n)
                  (Ends-fewer p now (remove_at i p.conns) (omega arith) _ (
                    acquire_loop-Ends fuel (record p { conns = remove_at i p.conns }) now i
                      (omega arith)))
          ]
          | inr x ↦ elim (Bool-cases (p.cells id).in_use) [
            | inl u ↦
                rw (acquire_loop, e, x, u) (acquire_loop-Ends fuel p now (i + 1) (omega arith))
            | inr u ↦
                rw (acquire_loop, e, x, u)
                  (record {
                    at = i;
                    left = p.conns;
                    free_at = e;
                    idle = u;
                    fewer = omega arith;
                    leased = refl;
                  })
          ]
        ]
  ]
