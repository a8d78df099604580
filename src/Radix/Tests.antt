-- ===== src/Radix/Tests.antt =====
-- Runs of ngx_radix_tree.c on a tree with the prefixes 1 and 10.
use inside_nginx.Base.Bits.{test_bit}
use inside_nginx.Base.{ℕ, ◌+◌, ◌*◌, ◌^◌, ◌≡◌, refl, Bool, true, false, [], ◌∷◌}
use inside_nginx.Radix.{Tree, nil, node, Memory, no_value, bit_of, insert, find, find_from, delete}
use inside_nginx.Radix.Entry.{prefix, entry}
use inside_nginx.Radix.Insert.{after, entry-insert}
use inside_nginx.Radix.Find.{bits, best_match, IsWithin, find-best_match}
use inside_nginx.Radix.Create.{IsFilled, create, by_page, create-IsFilled}
use inside_nginx.Radix.Delete.{IsDeleted, delete-IsDeleted}

abbrev small_tree : Tree
small_tree = node no_value nil (node 5 (node 6 nil nil) nil)

abbrev memory : Memory
memory = record { free_nodes = 1; size = 64; pages = 1 }

abbrev no_page : ℕ → Bool
no_page n = false

small_tree-IsWithin : IsWithin 32 small_tree
unfolding IsWithin
small_tree-IsWithin = (tt, ((tt, tt), tt))

-- The prefix 11 is new.
entry-insert_example :
    (let r = insert 4096 32 no_page (3 * 2 ^ 30) (3 * 2 ^ 30) 9 small_tree memory in
      entry (true ∷ true ∷ []) r.1
      ≡ after r.0
          (prefix 32 (3 * 2 ^ 30) (3 * 2 ^ 30))
          (true ∷ true ∷ [])
          9
          (entry (true ∷ true ∷ []) small_tree))
entry-insert_example =
    entry-insert 4096 32 no_page (3 * 2 ^ 30) (3 * 2 ^ 30) 9 small_tree memory (true ∷ true ∷ [])

find-best_match_example :
    find (2 ^ 31 + 1) small_tree ≡ best_match (λ q. entry q small_tree) (bits 32 (2 ^ 31 + 1))
find-best_match_example = find-best_match (2 ^ 31 + 1) small_tree small_tree-IsWithin

delete-IsDeleted_example :
    IsDeleted
      (prefix 32 (2 ^ 31) (3 * 2 ^ 30))
      small_tree
      (delete (2 ^ 31) (3 * 2 ^ 30) small_tree memory)
delete-IsDeleted_example = delete-IsDeleted (2 ^ 31) (3 * 2 ^ 30) small_tree memory

-- The prefix 10 is the longest match.
found : find (2 ^ 31 + 1) small_tree ≡ 6
unfolding find find_from bit_of test_bit
found = refl

abbrev lone_root : Tree
lone_root = node no_value nil nil

-- Six bits are preallocated.
create-IsFilled_example : IsFilled 4096 32 (λ n. true) (create 4096 32 (λ n. true) by_page)
create-IsFilled_example = create-IsFilled 4096 32 (λ n. true) by_page
