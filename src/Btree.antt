-- ===== src/Btree.antt =====
-- internal/btree: nodes as pages of bytes, and the tree of nodes. The functions that a tree is given to
-- read, make and free pages are a parameter, over the state `T` of their owner.
pub mod Page
pub mod Node
pub mod Leaf
pub mod Insert
pub mod Delete
pub mod Iterator
pub mod Find
pub mod FreeList
mod Tests
use svacara_db.Prelude.{ℕ, Outcome}

-- The fields `GetPage`, `NewPage` and `DelPage` of `BTree`; each can panic.
pub record Pager (T : Type 0) : Type 0 where
  pub get_page : T → ℕ → Outcome Page.Page
  pub new_page : T → Page.Page → Outcome (T × ℕ)
  pub del_page : T → ℕ → Outcome T
