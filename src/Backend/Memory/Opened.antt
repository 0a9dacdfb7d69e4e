-- ===== src/Backend/Memory/Opened.antt =====
-- The calls of an open backend, without the test of the closed flag.
use crossbank.Prelude.{◌≡◌, refl, false, List, map}
use crossbank.Error.{ok}
use crossbank.Bytes.{Bytes}
use crossbank.Tree
use crossbank.Backend.Api.{Table, Op, ScanRequest}
use crossbank.Backend.Memory.{
  MemoryBackend, tree_of, apply_all, get, get_many, commit, scan, scan_tree,
}

module _ (b : MemoryBackend) (opened : b.is_closed ≡ false) where
  pub get_open : (t : Table) (k : Bytes) → get b t k ≡ ok (Tree.get k (tree_of b.tables t))
  unfolding get
  get_open t k = rw opened refl

  pub get_many_open :
      (t : Table) (ks : List Bytes)
      → get_many b t ks ≡ ok (map (λ k. Tree.get k (tree_of b.tables t)) ks)
  unfolding get_many
  get_many_open t ks = rw opened refl

  pub scan_open : (q : ScanRequest) → scan b q ≡ scan_tree (tree_of b.tables q.table) q
  unfolding scan
  scan_open q = rw opened refl

  pub commit_open :
      (ops : List Op)
      → commit b ops ≡ ok (record { tables = apply_all b.tables ops; is_closed = false })
  unfolding commit
  commit_open ops = rw opened refl
