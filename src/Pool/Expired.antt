-- ===== src/Pool/Expired.antt =====
-- `Acquire` on a free connection past its lifetime: the loop removes by the index among the free
-- connections from the list of all, and the connection stays free.
use svacara_db.Prelude.{
  ℕ, zero, suc, ◌+◌, ◌-◌, ◌<◌, ◌≡◌, refl, arith, true, false, some, length, get_elem?, ltb,
  Bool-cases, inl, inr, panic,
}
use svacara_db.Pool.{Pool, Conn, remove_at, remove_conn, is_expired, acquire_loop, acquire}
use svacara_db.Pool.Acquire.{length-remove_at}

module _ {S : Type 0} where
  is_expired-old :
      (p : Pool S) (now : ℕ) (c : Conn)
      → p.config.max_lifetime < now - c.created_at
      → is_expired p now c ≡ true
  is_expired-old p now c l = ground arith

  acquire_loop-panic :
      (fuel : ℕ) (p : Pool S) (now i id : ℕ)
      → length p.conns < fuel
      → get_elem? p.free i ≡ some id
      → p.config.max_lifetime < now - (p.cells id).created_at
      → acquire_loop fuel p now i ≡ panic
  unfolding acquire_loop remove_conn
  acquire_loop-panic zero p now i id l e old = absurd (omega arith)
  acquire_loop-panic (suc fuel) p now i id l e old =
      elim (Bool-cases (ltb (length p.conns) (i + 1))) [
        | inl n ↦ rw (acquire_loop, e, is_expired-old p now (p.cells id) old, n) refl
        | inr n ↦
            let shorter = length-remove_at p.conns i (ground arith) in
            rw (acquire_loop, e, is_expired-old p now (p.cells id) old, n)
              (acquire_loop-panic fuel (record p { conns = remove_at i p.conns }) now i id
                (omega arith) e old)
      ]

  -- On an open pool `Acquire` panics when the first free connection has outlived `MaxLifetime`.
  pub acquire_expired :
      (p : Pool S) (now id : ℕ)
      → p.closed ≡ false
      → get_elem? p.free 0 ≡ some id
      → p.config.max_lifetime < now - (p.cells id).created_at
      → acquire p now ≡ panic
  unfolding acquire
  acquire_expired p now id o e old =
      let run =
        acquire_loop-panic (length p.conns + length p.free + 1) p now 0 id (omega arith) e old in
      rw (acquire, run, o) refl
