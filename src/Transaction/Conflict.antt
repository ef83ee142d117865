-- ===== src/Transaction/Conflict.antt =====
-- `detectConflicts` against the whole history, and how it stays the same when history is trimmed.
use svacara_db.Prelude.{
  ℕ, ◌≤◌, ◌≡◌, refl, sym, ap, ◌∙◌, arith, Bool, true, false, ◌&&◌, ◌||◌, List, [], ◌∷◌, ◌++◌, All,
  ltb,
}
use mathlib.Core.List.{reverse, reverse-append}
use svacara_db.Transaction.{CommittedTx, Tx, ranges_overlap, conflict_loop, detect_conflicts}

-- Some entry newer than the transaction wrote in a range that the transaction read.
abbrev pub newer_overlap : Tx → List CommittedTx → Bool
newer_overlap tx [] = false
newer_overlap tx (h ∷ hs) =
    (ltb tx.version h.version && ranges_overlap tx.reads h.writes) || newer_overlap tx hs

-- The entries stand in the order of their versions.
abbrev pub IsSorted : List CommittedTx → Type 0
IsSorted [] = Unit {0}
IsSorted (h ∷ hs) = All (λ g. h.version ≤ g.version) hs × IsSorted hs

conflict_loop-snoc :
    (tx : Tx) (newer : List CommittedTx) (h : CommittedTx)
    → All (λ g. h.version ≤ g.version) newer
    → conflict_loop tx (newer ++ h ∷ [])
      ≡ (ltb tx.version h.version && ranges_overlap tx.reads h.writes) || conflict_loop tx newer
unfolding conflict_loop
conflict_loop-snoc tx [] h a = ground arith
conflict_loop-snoc tx (g ∷ newer) h (ag, a) = ground (arith, conflict_loop-snoc tx newer h a)

All-snoc :
    (n : ℕ) (xs : List CommittedTx) (x : CommittedTx)
    → All (λ g. n ≤ g.version) xs
    → n ≤ x.version
    → All (λ g. n ≤ g.version) (xs ++ x ∷ [])
All-snoc n [] x h hx = (hx, tt)
All-snoc n (y ∷ xs) x (hy, h) hx = (hy, All-snoc n xs x h hx)

All-reverse :
    (n : ℕ) (xs : List CommittedTx)
    → All (λ g. n ≤ g.version) xs
    → All (λ g. n ≤ g.version) (reverse xs)
All-reverse n [] h = tt
All-reverse n (x ∷ xs) (hx, h) =
    rw (reverse-append (x ∷ []) xs) (All-snoc n (reverse xs) x (All-reverse n xs h) hx)

-- If the history is in the order of versions, `detectConflicts` finds a conflict exactly when some
-- newer entry wrote in a range that the transaction read.
pub detect_conflicts_sorted :
    (tx : Tx) (history : List CommittedTx)
    → IsSorted history
    → detect_conflicts tx history ≡ newer_overlap tx history
unfolding detect_conflicts conflict_loop
detect_conflicts_sorted tx [] h = refl
detect_conflicts_sorted tx (g ∷ history) (hg, h) = rw (reverse-append (g ∷ []) history) (
    conflict_loop-snoc tx (reverse history) g (All-reverse g.version history hg)
    ∙ ap (λ b. (ltb tx.version g.version && ranges_overlap tx.reads g.writes) || b)
        (detect_conflicts_sorted tx history h))

-- When the last entry of the history is not newer than the transaction, `detectConflicts` finds no
-- conflict, whatever the entries before it are and wrote.
pub detect_conflicts_last_old :
    (tx : Tx) (history : List CommittedTx) (h : CommittedTx)
    → h.version ≤ tx.version
    → detect_conflicts tx (history ++ h ∷ []) ≡ false
unfolding detect_conflicts conflict_loop
detect_conflicts_last_old tx history h old = rw reverse-append (ground arith)

newer_overlap-append :
    (tx : Tx) (xs ys : List CommittedTx)
    → newer_overlap tx (xs ++ ys) ≡ newer_overlap tx xs || newer_overlap tx ys
newer_overlap-append tx [] ys = refl
newer_overlap-append tx (x ∷ xs) ys = ground (arith, newer_overlap-append tx xs ys)

newer_overlap-reverse :
    (tx : Tx) (xs : List CommittedTx) → newer_overlap tx (reverse xs) ≡ newer_overlap tx xs
newer_overlap-reverse tx [] = refl
newer_overlap-reverse tx (x ∷ xs) =
    rw (reverse-append (x ∷ []) xs, newer_overlap-append)
      (ground (arith, newer_overlap-reverse tx xs))

conflict_loop_sound :
    (tx : Tx) (hs : List CommittedTx) → conflict_loop tx hs ≡ true → newer_overlap tx hs ≡ true
unfolding conflict_loop
conflict_loop_sound tx [] e = e
conflict_loop_sound tx (h ∷ hs) e = ground (arith, conflict_loop_sound tx hs)

-- A conflict that `detectConflicts` reports is one: some entry is newer than the transaction and
-- wrote in a range that it read. The history may be in any order.
pub detect_conflicts_sound :
    (tx : Tx) (history : List CommittedTx)
    → detect_conflicts tx history ≡ true
    → newer_overlap tx history ≡ true
unfolding detect_conflicts
detect_conflicts_sound tx history e =
    sym (newer_overlap-reverse tx history) ∙ conflict_loop_sound tx (reverse history) e

-- Entries at the old end that are not newer change nothing.
pub conflict_loop-old :
    (tx : Tx) (xs ys : List CommittedTx)
    → All (λ g. g.version ≤ tx.version) ys
    → conflict_loop tx (xs ++ ys) ≡ conflict_loop tx xs
unfolding conflict_loop
conflict_loop-old tx [] [] a = refl
conflict_loop-old tx [] (y ∷ ys) (ay, a) = ground arith
conflict_loop-old tx (x ∷ xs) ys a = ground (arith, conflict_loop-old tx xs ys a)
