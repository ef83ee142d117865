-- ===== src/Transaction/Life/Keeps.antt =====
-- Every step of internal/transaction/tx.go keeps the manager and its transactions consistent.
use svacara_db.Prelude.{
  ℕ, suc, ◌+◌, ◌%◌, ◌^◌, ◌≤◌, ◌<◌, ◌≡◌, ◌≢◌, refl, sym, ap, ◌∙◌, arith, true, false, ◌&&◌, ◌||◌,
  Option, none, some, List, [], ◌∷◌, ◌++◌, All, ==_iff, ◌==◌, Bool-cases, ◌⊎◌, inl, inr,
  if◌then◌else◌, leb,
}
use mathlib.Core.Path.{subst}
use svacara_db.Storage.{Storage}
use svacara_db.Transaction.Versions.{update_min_ver_least, min_loop-le}
use svacara_db.Transaction.{
  Tx, Manager, CommitError, contains, include, exclude, finish, new_manager, begin, apply_pending,
  no_pending, serializable, detect_conflicts, commit, commit_writes, settle, abort, tx_get, tx_seek,
  tx_set, tx_del, update_min_ver, trim_history,
}
use svacara_db.Transaction.Life.{
  is_active, active_in, IsFresh, HasDistinct, Action, read_key, scan_from, write_key, delete_key,
  System, IsConsistent, act, Step, start, use_tx, commit_tx, abort_tx, outside, Reach, begun, next,
}

contains-exclude :
    (w v : ℕ) (xs : List ℕ) → contains v (exclude w xs) ≡ (if w == v then false else contains v xs)
contains-exclude w v [] = ground arith
contains-exclude w v (x ∷ xs) = ground (arith, contains-exclude w v xs)

contains-snoc : (w v : ℕ) (xs : List ℕ) → contains v (xs ++ w ∷ []) ≡ contains v xs || (w == v)
contains-snoc w v [] = ground arith
contains-snoc w v (x ∷ xs) = ground (arith, contains-snoc w v xs)

contains-include :
    (w v : ℕ) (xs : List ℕ) → contains v (include w xs) ≡ (if w == v then true else contains v xs)
contains-include w v xs = ground (arith, contains-snoc w v xs, ==_iff w v)

-- What a method of the manager does to the part of the state that the invariant reads.
pub record Moves {S : Type 0} (m : Manager S) (tx : Tx) (m' : Manager S) (tx' : Tx) : Type 0 where
  same_version : tx'.version ≡ tx.version
  same_counter : m'.version ≡ m.version
  life :
      ((m'.ongoing ≡ m.ongoing) × (is_active tx' ≡ is_active tx))
      ⊎ ((m'.ongoing ≡ exclude tx.version m.ongoing) × (is_active tx' ≡ false))
  keeps_lower :
      ((v : ℕ) → contains v m.ongoing ≡ true → m.min_ver ≤ v)
      → m.min_ver ≤ m.version
      → ((v : ℕ) → contains v m'.ongoing ≡ true → m'.min_ver ≤ v) × (m'.min_ver ≤ m'.version)

active_in-replace_same :
    (v : ℕ) (pre : List Tx) (tx tx' : Tx) (post : List Tx)
    → tx'.version ≡ tx.version
    → is_active tx' ≡ is_active tx
    → active_in v (pre ++ tx' ∷ post) ≡ active_in v (pre ++ tx ∷ post)
active_in-replace_same v [] tx tx' post e f = rw (e, f)
active_in-replace_same v (u ∷ pre) tx tx' post e f =
    rw (active_in-replace_same v pre tx tx' post e f)

active_in-fresh : (v : ℕ) (txs : List Tx) → IsFresh v txs → active_in v txs ≡ false
active_in-fresh v [] h = refl
active_in-fresh v (u ∷ txs) (hu, h) = ground (arith, active_in-fresh v txs h)

fresh-part :
    (v : ℕ) (pre : List Tx) (tx : Tx) (post : List Tx)
    → IsFresh v (pre ++ tx ∷ post)
    → tx.version ≢ v
fresh-part v [] tx post (h, hs) = h
fresh-part v (u ∷ pre) tx post (h, hs) = fresh-part v pre tx post hs

active_in-ended_here :
    (v : ℕ) (tx tx' : Tx) (post : List Tx)
    → tx'.version ≡ tx.version
    → is_active tx' ≡ false
    → IsFresh tx.version post
    → active_in v (tx' ∷ post) ≡ (if tx.version == v then false else active_in v (tx ∷ post))
active_in-ended_here v tx tx' post e f d = elim (Bool-cases (tx.version == v)) [
  | inl q ↦
      rw (e, f, q)
        (active_in-fresh v post (subst (λ n. IsFresh n post) ((==_iff tx.version v).0 q) d))
  | inr q ↦ rw (e, f, q)
]

active_in-replace_ended :
    (v : ℕ) (pre : List Tx) (tx tx' : Tx) (post : List Tx)
    → tx'.version ≡ tx.version
    → is_active tx' ≡ false
    → HasDistinct (pre ++ tx ∷ post)
    → active_in v (pre ++ tx' ∷ post)
      ≡ (if tx.version == v then false else active_in v (pre ++ tx ∷ post))
active_in-replace_ended v [] tx tx' post e f (d, ds) = active_in-ended_here v tx tx' post e f d
active_in-replace_ended v (u ∷ pre) tx tx' post e f (d, ds) =
    ground
      (arith, active_in-replace_ended v pre tx tx' post e f ds, fresh-part u.version pre tx post d)

IsFresh-replace :
    (v : ℕ) (pre : List Tx) (tx tx' : Tx) (post : List Tx)
    → tx'.version ≡ tx.version
    → IsFresh v (pre ++ tx ∷ post)
    → IsFresh v (pre ++ tx' ∷ post)
IsFresh-replace v [] tx tx' post e (h, hs) = (rw e h, hs)
IsFresh-replace v (u ∷ pre) tx tx' post e (h, hs) = (h, IsFresh-replace v pre tx tx' post e hs)

distinct-replace :
    (pre : List Tx) (tx tx' : Tx) (post : List Tx)
    → tx'.version ≡ tx.version
    → HasDistinct (pre ++ tx ∷ post)
    → HasDistinct (pre ++ tx' ∷ post)
distinct-replace [] tx tx' post e (h, hs) = (rw e h, hs)
distinct-replace (u ∷ pre) tx tx' post e (h, hs) =
    (IsFresh-replace u.version pre tx tx' post e h, distinct-replace pre tx tx' post e hs)

bounded-replace :
    (n : ℕ) (pre : List Tx) (tx tx' : Tx) (post : List Tx)
    → tx'.version ≡ tx.version
    → All (λ t. t.version ≤ n) (pre ++ tx ∷ post)
    → All (λ t. t.version ≤ n) (pre ++ tx' ∷ post)
bounded-replace n [] tx tx' post e (h, hs) = (rw e h, hs)
bounded-replace n (u ∷ pre) tx tx' post e (h, hs) = (h, bounded-replace n pre tx tx' post e hs)

-- A method that moves one transaction keeps the invariant.
pub Moves-IsConsistent :
    {S : Type 0} (m m' : Manager S) (pre : List Tx) (tx tx' : Tx) (post : List Tx)
    → Moves m tx m' tx'
    → IsConsistent (record { mgr = m; txs = pre ++ tx ∷ post })
    → IsConsistent (record { mgr = m'; txs = pre ++ tx' ∷ post })
Moves-IsConsistent m m' pre tx tx' post mv c = record {
  ongoing_active = λ v. elim mv.life [
    | inl (e, f) ↦
        rw e (c.ongoing_active v ∙ sym (active_in-replace_same v pre tx tx' post mv.same_version f))
    | inr (e, f) ↦
        rw (e, contains-exclude, c.ongoing_active v)
          (sym (active_in-replace_ended v pre tx tx' post mv.same_version f c.distinct))
  ];
  distinct = distinct-replace pre tx tx' post mv.same_version c.distinct;
  bounded =
      rw mv.same_counter (bounded-replace m.version pre tx tx' post mv.same_version c.bounded);
  lower = (mv.keeps_lower c.lower c.lower_version).0;
  lower_version = (mv.keeps_lower c.lower c.lower_version).1;
}

finish-Moves :
    {S : Type 0} (m : Manager S) (tx tx' : Tx)
    → tx'.version ≡ tx.version
    → is_active tx' ≡ false
    → Moves m tx (update_min_ver (finish m tx.version)) tx'
unfolding update_min_ver
finish-Moves m tx tx' e f = record {
  same_version = e;
  same_counter = refl;
  life = inr (refl, f);
  keeps_lower = λ low lv. (
    λ v h. (update_min_ver_least (finish m tx.version) v h).0,
    min_loop-le m.version (exclude tx.version m.ongoing),
  );
}

-- A method that changes at most the store, the history, the reads and the pending writes.
stay-Moves :
    {S : Type 0} (m m' : Manager S) (tx tx' : Tx)
    → tx'.version ≡ tx.version
    → is_active tx' ≡ is_active tx
    → m'.version ≡ m.version
    → m'.ongoing ≡ m.ongoing
    → m'.min_ver ≡ m.min_ver
    → Moves m tx m' tx'
stay-Moves m m' tx tx' e f g h k = record {
  same_version = e;
  same_counter = g;
  life = inl (h, f);
  keeps_lower = λ low lv. (λ v c. rw k (low v (rw h at c)), rw (k, g) lv);
}

conflict-Moves :
    {S : Type 0} (m : Manager S) (tx tx' : Tx)
    → tx'.version ≡ tx.version
    → is_active tx' ≡ false
    → Moves m tx (finish m tx.version) tx'
conflict-Moves m tx tx' e f = record {
  same_version = e;
  same_counter = refl;
  life = inr (refl, f);
  keeps_lower =
      λ low lv. (λ v c. low v (ground (arith, contains-exclude tx.version v m.ongoing)), lv);
}

ended_commit : (tx : Tx) → is_active (record tx { committed = true }) ≡ false
ended_commit tx = refl

ended_abort : (tx : Tx) → is_active (record tx { aborted = true }) ≡ false
ended_abort tx = ground arith

abort-Moves : {S : Type 0} (m : Manager S) (tx : Tx) → Moves m tx (abort m tx).0 (abort m tx).1
unfolding abort
abort-Moves m tx = elim (Bool-cases (tx.committed || tx.aborted)) [
  | inl e ↦ rw e (stay-Moves m m tx tx refl refl refl refl refl)
  | inr e ↦ rw e (finish-Moves m tx (record tx { aborted = true }) refl (ended_abort tx))
]

settle-Moves :
    {S : Type 0} (m m' : Manager S) (tx : Tx) (failed : Option CommitError)
    → m'.version ≡ m.version
    → m'.ongoing ≡ m.ongoing
    → m'.min_ver ≡ m.min_ver
    → Moves m tx (settle m' tx failed).0 (settle m' tx failed).1
unfolding settle
settle-Moves m m' tx (some x) g h k = stay-Moves m m' tx tx refl refl g h k
settle-Moves m m' tx none g h k =
    unfold trim_history update_min_ver in
    record {
      same_version = refl;
      same_counter = g;
      life = inr (ap (exclude tx.version) h, ended_commit tx);
      keeps_lower = λ low lv. (
        λ v c. (update_min_ver_least (finish m' tx.version) v c).0,
        min_loop-le m'.version (exclude tx.version m'.ongoing),
      );
    }

module _ {S : Type 0} (st : Storage S) where
  commit_writes-Moves :
      (m : Manager S) (tx : Tx) → Moves m tx (commit_writes st m tx).0 (commit_writes st m tx).1
  unfolding commit_writes
  commit_writes-Moves m tx = settle-Moves m _ tx (apply_pending st m.kv tx.pending).1 refl refl refl

  commit-Moves : (m : Manager S) (tx : Tx) → Moves m tx (commit st m tx).0 (commit st m tx).1
  unfolding commit
  commit-Moves m tx = elim (Bool-cases (tx.committed || tx.aborted)) [
    | inl e ↦ rw e (stay-Moves m m tx tx refl refl refl refl refl)
    | inr e ↦ elim (Bool-cases (leb serializable tx.isolation && detect_conflicts tx m.history)) [
      | inl f ↦ rw (e, f) (conflict-Moves m tx (record tx { aborted = true }) refl (ended_abort tx))
      | inr f ↦ elim (Bool-cases (no_pending tx)) [
        | inl g ↦
            rw (e, f, g) (finish-Moves m tx (record tx { committed = true }) refl (ended_commit tx))
        | inr g ↦ rw (e, f, g) (commit_writes-Moves m tx)
      ]
    ]
  ]

  act-Moves : (m : Manager S) (tx : Tx) (a : Action) → Moves m tx m (act st m.kv tx a)
  unfolding act tx_get tx_seek tx_set tx_del
  act-Moves m tx (read_key k) = stay-Moves m m tx _ refl refl refl refl refl
  act-Moves m tx (scan_from k) = stay-Moves m m tx _ refl refl refl refl refl
  act-Moves m tx (write_key k v) = stay-Moves m m tx _ refl refl refl refl refl
  act-Moves m tx (delete_key k) = stay-Moves m m tx _ refl refl refl refl refl

  IsFresh-above : (n : ℕ) (txs : List Tx) → All (λ t. t.version ≤ n) txs → IsFresh (suc n) txs
  IsFresh-above n [] h = tt
  IsFresh-above n (u ∷ txs) (hu, h) = (omega arith, IsFresh-above n txs h)

  bounded_weaken :
      (n : ℕ) (txs : List Tx) → All (λ t. t.version ≤ n) txs → All (λ t. t.version ≤ suc n) txs
  bounded_weaken n [] h = tt
  bounded_weaken n (u ∷ txs) (hu, h) = (omega arith, bounded_weaken n txs h)

  begin-IsConsistent :
      (s : System S) (isolation : ℕ)
      → s.mgr.version + 1 < 2 ^ 64
      → IsConsistent s
      → IsConsistent (record {
        mgr = (begin st s.mgr isolation).0;
        txs = (begin st s.mgr isolation).1 ∷ s.txs;
      })
  unfolding begin
  begin-IsConsistent s isolation small c =
      let e : (s.mgr.version + 1) % 2 ^ 64 ≡ suc s.mgr.version = omega arith in
      record {
        ongoing_active = λ v. rw (contains-include, c.ongoing_active v) (ground arith);
        distinct = (rw e (IsFresh-above s.mgr.version s.txs c.bounded), c.distinct);
        bounded = (
          omega arith,
          subst (λ n. All (λ t. t.version ≤ n) s.txs) (sym e)
              (bounded_weaken s.mgr.version s.txs c.bounded),
        );
        lower = λ v h. ground (
          arith,
          contains-include ((s.mgr.version + 1) % 2 ^ 64) v s.mgr.ongoing,
          c.lower v,
          c.lower_version,
        );
        lower_version = rw e (omega (arith, c.lower_version));
      }

  Step-IsConsistent : {s t : System S} → Step st s t → IsConsistent s → IsConsistent t
  Step-IsConsistent (start s isolation small) c = begin-IsConsistent s isolation small c
  Step-IsConsistent (use_tx m pre tx post a) c =
      Moves-IsConsistent m m pre tx _ post (act-Moves m tx a) c
  Step-IsConsistent (commit_tx m pre tx post) c =
      Moves-IsConsistent m _ pre tx _ post (commit-Moves m tx) c
  Step-IsConsistent (abort_tx m pre tx post) c =
      Moves-IsConsistent m _ pre tx _ post (abort-Moves m tx) c
  Step-IsConsistent (outside s kv) c = record {
    ongoing_active = c.ongoing_active;
    distinct = c.distinct;
    bounded = c.bounded;
    lower = c.lower;
    lower_version = c.lower_version;
  }

  -- Whatever the clients do, in every state that a new manager reaches: the ongoing versions are
  -- exactly those of the transactions that have neither committed nor aborted, no two transactions
  -- have one version, no version is above the manager's counter, and `minVer` is at most the counter
  -- and every ongoing version.
  pub Reach-IsConsistent : (kv : S) (s : System S) → Reach st kv s → IsConsistent s
  unfolding new_manager
  Reach-IsConsistent kv s begun = record {
    ongoing_active = λ v. refl;
    distinct = tt;
    bounded = tt;
    lower = λ v h. absurd (ground arith);
    lower_version = omega arith;
  }
  Reach-IsConsistent kv t (next r st) = Step-IsConsistent st (Reach-IsConsistent kv _ r)
