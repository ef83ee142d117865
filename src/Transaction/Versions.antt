-- ===== src/Transaction/Versions.antt =====
-- `updateMinVer` and `trimHistory`: the bound that they keep, and what trimming may drop.
use svacara_db.Prelude.{
  ℕ, suc, ◌+◌, ◌≤◌, ◌<◌, ◌≡◌, refl, sym, ap, ◌∙◌, arith, true, List, [], ◌∷◌, ◌++◌, All, drop, take,
  take-append-drop, ltb, leb, Bool-cases, ◌⊎◌, inl, inr, if◌then◌else◌,
}
use mathlib.Core.List.{reverse, reverse-append}
use svacara_db.Transaction.{
  CommittedTx, Tx, Manager, contains, detect_conflicts, min_loop, update_min_ver, trim_cut,
  trim_history,
}
use svacara_db.Transaction.Conflict.{conflict_loop-old}

pub min_loop-le : (m : ℕ) (vs : List ℕ) → min_loop m vs ≤ m
unfolding min_loop
min_loop-le m [] = omega arith
min_loop-le m (v ∷ vs) = ground (arith, min_loop-le (if ltb v m then v else m) vs)

min_loop-contains : (m v : ℕ) (vs : List ℕ) → contains v vs ≡ true → min_loop m vs ≤ v
unfolding min_loop
min_loop-contains m v [] h = absurd (ground arith)
min_loop-contains m v (x ∷ vs) h = ground (
  arith,
  min_loop-le (if ltb x m then x else m) vs,
  min_loop-contains (if ltb x m then x else m) v vs,
)

min_loop-mem : (m : ℕ) (vs : List ℕ) → (min_loop m vs ≡ m) ⊎ (contains (min_loop m vs) vs ≡ true)
unfolding min_loop
min_loop-mem m [] = inl refl
min_loop-mem m (x ∷ vs) = ground (arith, min_loop-mem (if ltb x m then x else m) vs)

-- After `updateMinVer`, `minVer` is the least of the manager's version and the ongoing versions: it
-- is at most the manager's version and every ongoing one, and is one of them.
pub update_min_ver_least :
    {S : Type 0} (m : Manager S) (v : ℕ)
    → contains v m.ongoing ≡ true
    → ((update_min_ver m).min_ver ≤ v)
      × ((update_min_ver m).min_ver ≤ m.version)
      × (((update_min_ver m).min_ver ≡ m.version)
          ⊎ (contains (update_min_ver m).min_ver m.ongoing ≡ true))
unfolding update_min_ver
update_min_ver_least m v h = (
  min_loop-contains m.version v m.ongoing h,
  min_loop-le m.version m.ongoing,
  min_loop-mem m.version m.ongoing,
)

-- The cut is 0, or all that stands before it is below the bound.
trim_cut_below :
    (b i : ℕ) (hs : List CommittedTx)
    → (trim_cut b i hs ≡ 0)
      ⊎ ((n : ℕ) × (trim_cut b i hs ≡ n + i) × All (λ h. h.version < b) (take n hs))
unfolding trim_cut
trim_cut_below b i [] = inl refl
trim_cut_below b i (h ∷ hs) = elim (Bool-cases (leb b h.version)) [
  | inl e ↦ inr (0, rw e (omega arith), tt)
  | inr e ↦ elim (trim_cut_below b (i + 1) hs) [
    | inl z ↦ inl (rw e z)
    | inr (n, f, a) ↦ inr (suc n, rw e (omega arith), (ground arith, a))
  ]
]

dropped_below :
    (b : ℕ) (hs : List CommittedTx) → All (λ h. h.version < b) (take (trim_cut b 0 hs) hs)
dropped_below b hs = elim (trim_cut_below b 0 hs) [
  | inl z ↦ rw z tt
  | inr (n, f, a) ↦ let e : trim_cut b 0 hs ≡ n = omega arith in rw e a
]

All-snoc :
    (n : ℕ) (xs : List CommittedTx) (x : CommittedTx)
    → All (λ g. g.version ≤ n) xs
    → x.version ≤ n
    → All (λ g. g.version ≤ n) (xs ++ x ∷ [])
All-snoc n [] x h hx = (hx, tt)
All-snoc n (y ∷ xs) x (hy, h) hx = (hy, All-snoc n xs x h hx)

All-reverse-below :
    (b n : ℕ) (xs : List CommittedTx)
    → b ≤ n
    → All (λ g. g.version < b) xs
    → All (λ g. g.version ≤ n) (reverse xs)
All-reverse-below b n [] l h = tt
All-reverse-below b n (x ∷ xs) l (hx, h) =
    rw (reverse-append (x ∷ []) xs)
      (All-snoc n (reverse xs) x (All-reverse-below b n xs l h) (omega arith))

detect-drop :
    (tx : Tx) (b : ℕ) (older newer : List CommittedTx)
    → b ≤ tx.version
    → All (λ g. g.version < b) older
    → detect_conflicts tx newer ≡ detect_conflicts tx (older ++ newer)
unfolding detect_conflicts
detect-drop tx b older newer l a = rw (reverse-append older newer) (
    sym (
      conflict_loop-old tx (reverse newer) (reverse older)
        (All-reverse-below b tx.version older l a)))

-- Trimming the history does not change what `detectConflicts` answers for a transaction whose
-- version is at least `minVer`. The history may be in any order.
pub detect_conflicts-trim_history :
    {S : Type 0} (m : Manager S) (tx : Tx)
    → m.min_ver ≤ tx.version
    → detect_conflicts tx (trim_history m).history ≡ detect_conflicts tx m.history
unfolding trim_history
detect_conflicts-trim_history m tx l =
    let n = trim_cut m.min_ver 0 m.history in
    detect-drop tx m.min_ver (take n m.history) (drop n m.history) l
      (dropped_below m.min_ver m.history)
    ∙ ap (detect_conflicts tx) (take-append-drop n m.history)
