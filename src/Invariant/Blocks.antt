-- ===== src/Invariant/Blocks.antt =====
-- What a property must survive to be kept by the whole program, and that the block map and the
-- reclamation of blocks keep it then.
use beach_bytes_file_system.Base.{
  ℕ, zero, suc, ◌+◌, ◌≡◌, Bool, true, false, Option, none, some, ◌==◌,
}
use beach_bytes_file_system.Bytes.{Bytes, lt64}
use beach_bytes_file_system.Config.{Inode}
use beach_bytes_file_system.Machine.{M, Fs}
use beach_bytes_file_system.LayerZero.{fs_write_block}
use beach_bytes_file_system.DataBlock.{allocate_data_block, free_data_block, write_data_block}
use beach_bytes_file_system.BlockMap.{
  word, read_words, enter, add_single, child_block, enter_child, add_double_at, add_double,
  add_triple_in, add_triple_at, add_triple, add_datablock_to_inode,
}
use beach_bytes_file_system.Reclaim.{
  nested_loop, nested_body, remove_datablocks_nested, drop_triple, drop_double, direct_loop,
  after_direct, remove_from_direct, single_loop, after_single, remove_from_single, clear_entry,
  double_loop, after_double, remove_from_double, triple_inner_loop, clear_double, triple_loop,
  after_triple, remove_from_triple, remove_datablocks_range_from_inode,
}
use beach_bytes_file_system.InodeTable.{block_of, inode_num_valid}
use beach_bytes_file_system.Invariant.{
  Preserves, steps, bind, branch, cases, pure_lem, undefined_lem, deref_lem,
}
use beach_bytes_file_system.Invariant.Reads.{read_data_block_lem}

-- A property that survives a write of a block of the inode list.
pub record KeepsInodes (I : Fs → Type 0) : Type 0 where
  pub write_inode :
      (n : ℕ) (buffer : Bytes)
      → inode_num_valid n ≡ true
      → Preserves I (fs_write_block (block_of n) buffer)

-- A property that survives the functions through which a request changes the state.
pub record IsKept (I : Fs → Type 0) : Type 0 where
  pub inodes : KeepsInodes I
  pub write_data : (b : ℕ) (buffer : Bytes) → Preserves I (write_data_block b buffer)
  pub allocate : Preserves I allocate_data_block
  pub free : (b : ℕ) → Preserves I (free_data_block b)

module _ {I : Fs → Type 0} where
  read_words_lem : (n : ℕ) → Preserves I (read_words n)
  read_words_lem n = bind (read_data_block_lem n) λ b. deref_lem b

module _ {I : Fs → Type 0} (k : IsKept I) where
  enter_lem : (node : Inode) (b i n : ℕ) → Preserves I (enter node b i n)
  unfolding enter
  enter_lem node b i n = search (steps, read_data_block_lem, k.write_data) depth 14 fits 4000

  add_single_lem : (node : Inode) (i n : ℕ) → Preserves I (add_single node i n)
  unfolding add_single
  add_single_lem node i n =
      branch _ (bind k.allocate λ num. branch _ pure_lem (enter_lem _ _ _ _)) (enter_lem _ _ _ _)

  child_block_lem :
      (p : ℕ) (parent : Option Bytes) (id : ℕ) (fresh : Bool)
      → Preserves I (child_block p parent id fresh)
  unfolding child_block
  child_block_lem p parent id fresh =
      branch _
        (bind k.allocate λ num.
          branch _ pure_lem
            (bind (deref_lem parent) λ b. bind (k.write_data _ _) λ written. pure_lem))
        (bind (deref_lem parent) λ b. pure_lem)

  enter_child_lem :
      (node : Inode) (b : Option Bytes) (id i n : ℕ) → Preserves I (enter_child node b id i n)
  unfolding enter_child
  enter_child_lem node none id i n = pure_lem
  enter_child_lem node (some b) id i n = search (steps, enter_lem) depth 14 fits 4000

  add_double_at_lem : (node : Inode) (i n : ℕ) → Preserves I (add_double_at node i n)
  unfolding add_double_at
  add_double_at_lem node i n =
      search (steps, read_data_block_lem, child_block_lem, enter_child_lem) depth 14 fits 4000

  add_double_lem : (node : Inode) (i n : ℕ) → Preserves I (add_double node i n)
  unfolding add_double
  add_double_lem node i n =
      branch _ (bind k.allocate λ num. branch _ pure_lem (add_double_at_lem _ _ _))
        (add_double_at_lem _ _ _)

  add_triple_in_lem :
      (node : Inode) (b : Option Bytes) (i n : ℕ) → Preserves I (add_triple_in node b i n)
  unfolding add_triple_in
  add_triple_in_lem node none i n = pure_lem
  add_triple_in_lem node (some b) i n =
      search (steps, read_data_block_lem, child_block_lem, enter_child_lem) depth 14 fits 4000

  add_triple_at_lem : (node : Inode) (i n : ℕ) → Preserves I (add_triple_at node i n)
  unfolding add_triple_at
  add_triple_at_lem node i n =
      search (steps, read_data_block_lem, child_block_lem, add_triple_in_lem) depth 14 fits 4000

  add_triple_lem : (node : Inode) (i n : ℕ) → Preserves I (add_triple node i n)
  unfolding add_triple
  add_triple_lem node i n =
      branch _ (bind k.allocate λ num. branch _ pure_lem (add_triple_at_lem _ _ _))
        (add_triple_at_lem _ _ _)

  pub add_datablock_to_inode_lem :
      (node : Inode) (n : ℕ) → Preserves I (add_datablock_to_inode node n)
  unfolding add_datablock_to_inode
  add_datablock_to_inode_lem node n =
      search (steps, add_single_lem, add_double_lem, add_triple_lem) depth 14 fits 4000

  nested_loop_lem :
      (child : ℕ → M Bool) (rounds : ℕ) (b : Bytes) (i : ℕ)
      → ((n : ℕ) → Preserves I (child n))
      → Preserves I (nested_loop child rounds b i)
  unfolding nested_loop
  nested_loop_lem child zero b i c = pure_lem
  nested_loop_lem child (suc rounds) b i c =
      branch _ pure_lem (bind (c (word b i)) λ ok. nested_loop_lem child rounds b (i + 1) c)

  nested_body_lem :
      (child : ℕ → M Bool) (n : ℕ)
      → ((m : ℕ) → Preserves I (child m))
      → Preserves I (nested_body child n)
  unfolding nested_body
  nested_body_lem child n c = branch _ pure_lem (
      bind (read_words_lem _)
        λ b. bind (nested_loop_lem child _ b 0 c) λ u. bind (k.free n) λ ok. pure_lem)

  nested_lem : (level n : ℕ) → Preserves I (remove_datablocks_nested level n)
  unfolding remove_datablocks_nested
  nested_lem zero n = undefined_lem
  nested_lem (suc zero) n = nested_body_lem free_data_block n k.free
  nested_lem (suc (suc level)) n =
      nested_body_lem (remove_datablocks_nested (suc level)) n (nested_lem (suc level))

  drop_triple_lem : (node : Inode) (a : ℕ) → Preserves I (drop_triple node a)
  unfolding drop_triple
  drop_triple_lem node a = search (steps, nested_lem) depth 14 fits 4000

  drop_double_lem : (node : Inode) (a e : ℕ) → Preserves I (drop_double node a e)
  unfolding drop_double
  drop_double_lem node a e = search (steps, nested_lem, drop_triple_lem) depth 14 fits 4000

  direct_loop_lem : (rounds i e : ℕ) (node : Inode) → Preserves I (direct_loop rounds i e node)
  unfolding direct_loop
  direct_loop_lem zero i e node = pure_lem
  direct_loop_lem (suc rounds) i e node =
      branch (lt64 i e)
        (bind (k.free (node.direct_addresses i))
          λ freed. branch freed (direct_loop_lem rounds (i + 1) e _) pure_lem)
        pure_lem

  after_direct_lem : (node : Inode) (a e : ℕ) → Preserves I (after_direct node a e)
  unfolding after_direct
  after_direct_lem node a e = search (steps, nested_lem, drop_double_lem) depth 14 fits 4000

  remove_from_direct_lem : (node : Inode) (a : ℕ) → Preserves I (remove_from_direct node a)
  unfolding remove_from_direct
  remove_from_direct_lem node a =
      search (steps, direct_loop_lem, after_direct_lem) depth 14 fits 4000

  single_loop_lem : (rounds i e : ℕ) (b : Bytes) → Preserves I (single_loop rounds i e b)
  unfolding single_loop
  single_loop_lem zero i e b = pure_lem
  single_loop_lem (suc rounds) i e b =
      branch (lt64 i e)
        (bind (k.free (word b i))
          λ freed. branch freed (single_loop_lem rounds (i + 1) e _) pure_lem)
        pure_lem

  after_single_lem :
      (node : Inode) (a e : ℕ) (r : Option (Bytes × ℕ)) → Preserves I (after_single node a e r)
  unfolding after_single
  after_single_lem node a e none = pure_lem
  after_single_lem node a e (some (b, i)) =
      search (steps, k.write_data, drop_double_lem) depth 14 fits 4000

  remove_from_single_lem : (node : Inode) (a l : ℕ) → Preserves I (remove_from_single node a l)
  unfolding remove_from_single
  remove_from_single_lem node a l =
      search (steps, read_data_block_lem, single_loop_lem, after_single_lem) depth 14 fits 4000

  clear_entry_lem : (n j e : ℕ) (free_it : Bool) → Preserves I (clear_entry n j e free_it)
  unfolding clear_entry
  clear_entry_lem n j e free_it = branch _ pure_lem (
      bind (read_words_lem _) λ b. bind (single_loop_lem _ _ _ _) λ looped.
        cases looped pure_lem λ r.
          bind (k.write_data n r.0)
            λ written. bind (branch _ (k.free n) pure_lem) λ freed. pure_lem)

  double_loop_lem : (rounds i j e : ℕ) (b : Bytes) → Preserves I (double_loop rounds i j e b)
  unfolding double_loop
  double_loop_lem zero i j e b = pure_lem
  double_loop_lem (suc rounds) i j e b = bind (clear_entry_lem (word b i) j e (j == 0)) λ cleared.
      cases cleared pure_lem
        λ reached. branch reached pure_lem (double_loop_lem rounds (i + 1) 0 _ b)

  after_double_lem : (node : Inode) (a l : ℕ) (r : Option ℕ) → Preserves I (after_double node a l r)
  unfolding after_double
  after_double_lem node a l none = pure_lem
  after_double_lem node a l (some e) = search (steps, k.free, drop_triple_lem) depth 14 fits 4000

  remove_from_double_lem : (node : Inode) (a l : ℕ) → Preserves I (remove_from_double node a l)
  unfolding remove_from_double
  remove_from_double_lem node a l =
      search (steps, read_data_block_lem, double_loop_lem, after_double_lem) depth 14 fits 4000

  triple_inner_loop_lem :
      (rounds j d i e : ℕ) (b : Bytes) → Preserves I (triple_inner_loop rounds j d i e b)
  unfolding triple_inner_loop
  triple_inner_loop_lem zero j d i e b = pure_lem
  triple_inner_loop_lem (suc rounds) j d i e b = bind (clear_entry_lem (word b j) _ e _) λ cleared.
      cases cleared pure_lem
        λ reached. branch reached pure_lem (triple_inner_loop_lem rounds (j + 1) d i _ b)

  clear_double_lem : (n j d i e : ℕ) → Preserves I (clear_double n j d i e)
  unfolding clear_double
  clear_double_lem n j d i e = branch _ pure_lem (
      bind (read_words_lem _) λ b.
        bind (triple_inner_loop_lem _ _ _ _ _ _) λ looped.
          cases looped pure_lem λ r. bind (branch _ (k.free n) pure_lem) λ freed. pure_lem)

  triple_loop_lem :
      (rounds i f d j e : ℕ) (b : Bytes) → Preserves I (triple_loop rounds i f d j e b)
  unfolding triple_loop
  triple_loop_lem zero i f d j e b = pure_lem
  triple_loop_lem (suc rounds) i f d j e b = bind (clear_double_lem (word b i) f d j e) λ cleared.
      cases cleared pure_lem λ r. branch r.0 pure_lem (triple_loop_lem rounds (i + 1) 0 d j r.1 b)

  after_triple_lem : (node : Inode) (a l : ℕ) (r : Bool) → Preserves I (after_triple node a l r)
  unfolding after_triple
  after_triple_lem node a l false = pure_lem
  after_triple_lem node a l true = search (steps, k.free) depth 14 fits 4000

  remove_from_triple_lem : (node : Inode) (a l : ℕ) → Preserves I (remove_from_triple node a l)
  unfolding remove_from_triple
  remove_from_triple_lem node a l =
      search (steps, read_data_block_lem, triple_loop_lem, after_triple_lem) depth 14 fits 4000

  pub remove_datablocks_range_lem :
      (node : Inode) (n : ℕ) → Preserves I (remove_datablocks_range_from_inode node n)
  unfolding remove_datablocks_range_from_inode
  remove_datablocks_range_lem node n =
      search
        (
          steps, remove_from_direct_lem, remove_from_single_lem, remove_from_double_lem,
          remove_from_triple_lem,
        )
        depth 14 fits 4000
