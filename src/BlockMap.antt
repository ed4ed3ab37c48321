-- ===== src/BlockMap.antt =====
-- src/inode.cpp, the block map of an inode: which data block holds the n-th block of a file. The
-- first ten numbers stand in the inode, the others in blocks of 512 words behind one, two or three
-- levels of indirection. Where a function changes the inode it was given, it returns the new one.
pub mod Small
use beach_bytes_file_system.Base.{
  ℕ, ◌+◌, ◌-◌, ◌*◌, ◌/◌, ◌%◌, Bool, true, false, not, ◌&&◌, Option, none, some, ltb, ◌==◌,
  if◌then◌else◌,
}
use beach_bytes_file_system.Bytes.{Bytes, put, load, store, minus_one, add64, lt64, le64}
use beach_bytes_file_system.Config.{
  Inode, num_direct_blocks, num_of_single_indirect, num_of_double_indirect, num_of_triple_indirect,
  num_of_addresses_per_block,
}
use beach_bytes_file_system.Machine.{M, pure, undefined, ◌>>=◌, ◌>>◌, deref}
use beach_bytes_file_system.DataBlock.{allocate_data_block, read_data_block, write_data_block}

-- ((sType*) block)[i]
abbrev pub word : Bytes → ℕ → ℕ
word b i = load 8 b (8 * i)

abbrev pub set_word : Bytes → ℕ → ℕ → Bytes
set_word b i v = store 8 b (8 * i) v

-- (sType*) read_data_block(n), where the next thing done with the pointer is to read through it
abbrev pub read_words : ℕ → M Bytes
read_words n = do b ← read_data_block n; deref b

-- The number found, and the new value of `*prev_indirect_block`, the cache of the last block of
-- addresses that was walked to.
abbrev pub Found : Type 0
Found = ℕ × ℕ

unfoldable pub get_cached : ℕ → ℕ → M Found
get_cached prev inner_offset = do
  s_ind_block ← read_words prev
  pure (word s_ind_block inner_offset, prev)

-- from the block of addresses `block`, in the slot `id`, to the last level
unfoldable pub get_last_level : Bytes → ℕ → ℕ → ℕ → M Found
get_last_level block id inner_offset prev =
    let data_block_num = word block id in
    if le64 data_block_num 0 then pure (minus_one, prev) else do
      s_ind_block ← read_words data_block_num
      pure (word s_ind_block inner_offset, data_block_num)

unfoldable pub get_single : Inode → ℕ → ℕ → M Found
get_single node find prev =
    if node.single_indirect == 0
    then pure (minus_one, prev)
    else do s_ind_block ← read_words node.single_indirect; pure (word s_ind_block find, prev)

unfoldable pub get_double : Inode → ℕ → ℕ → M Found
get_double node find prev =
    let double_block_id = find / num_of_addresses_per_block in
    let inner_offset = find % num_of_addresses_per_block in
    if node.double_indirect == 0
    then pure (minus_one, prev)
    else if not (inner_offset == 0) && not (prev == 0)
    then get_cached prev inner_offset
    else do
      d_ind_block ← read_words node.double_indirect
      get_last_level d_ind_block double_block_id inner_offset prev

-- No test bounds `find` here: past the last triple block the array is overrun.
unfoldable pub get_triple : Inode → ℕ → ℕ → M Found
get_triple node find prev =
    let triple_block_id = find / num_of_double_indirect in
    let double_block_id = (find / num_of_addresses_per_block) % num_of_addresses_per_block in
    let inner_offset = find % num_of_addresses_per_block in
    if node.triple_indirect == 0
    then pure (minus_one, prev)
    else if not (inner_offset == 0) && not (prev == 0)
    then get_cached prev inner_offset
    else do
      t_ind_block ← read_words node.triple_indirect
      if ltb triple_block_id num_of_addresses_per_block
          then (if le64 (word t_ind_block triple_block_id) 0 then pure (minus_one, prev) else do
            d_ind_block ← read_words (word t_ind_block triple_block_id)
            get_last_level d_ind_block double_block_id inner_offset prev)
          else undefined

-- The steps of the levels: `find_blocknum -= ...` where the number is at least that.
unfoldable pub get_datablock_from_inode : Inode → ℕ → ℕ → M Found
get_datablock_from_inode node find_blocknum prev =
    let f1 = find_blocknum - num_direct_blocks in
    let f2 = f1 - num_of_single_indirect in
    let f3 = f2 - num_of_double_indirect in
    if lt64 node.blocks find_blocknum
    then pure (minus_one, prev)
    else if lt64 find_blocknum num_direct_blocks
    then (if ltb find_blocknum num_direct_blocks
        then pure (node.direct_addresses find_blocknum, prev)
        else undefined)
    else if ltb f1 num_of_single_indirect
    then get_single node f1 prev
    else if ltb f2 num_of_double_indirect
    then get_double node f2 prev
    else get_triple node f3 prev

-- success, and the inode as the call left it
abbrev pub Changed : Type 0
Changed = Bool × Inode

-- inodeObj->blocks++
abbrev pub one_more : Inode → Inode
one_more node = record node { blocks = add64 node.blocks 1 }

-- put the number in a block of addresses, write that block back and count the new block
unfoldable pub enter : Inode → ℕ → ℕ → ℕ → M Changed
enter node s_ind_block_num inner_offset data_block_num = do
  s_ind_block ← read_words s_ind_block_num
  written ← write_data_block s_ind_block_num (set_word s_ind_block inner_offset data_block_num)
  pure (if written then (true, one_more node) else (false, node))

unfoldable pub add_single : Inode → ℕ → ℕ → M Changed
add_single node reference data_block_num =
    if reference == 0
    then (do
      s_ind_block_num ← allocate_data_block
      if s_ind_block_num == minus_one
          then pure (false, node)
          else enter (record node { single_indirect = s_ind_block_num }) s_ind_block_num reference
              data_block_num)
    else enter node node.single_indirect reference data_block_num

-- A block of addresses in slot `id` of the block `parent_num`, whose contents were read before: the
-- one that is there, or at the start of a new one a block that is allocated and linked. `none` is
-- the early `return false`.
unfoldable pub child_block : ℕ → Option Bytes → ℕ → Bool → M (Option Bytes)
child_block parent_num parent id fresh =
    if fresh
    then (do
      num ← allocate_data_block
      if num == minus_one then pure none else (do
        p ← deref parent
        written ← write_data_block parent_num (set_word p id num)
        pure (if written then some (set_word p id num) else none)))
    else (do p ← deref parent; pure (some p))

-- lines 271 to 289 and 347 to 364: the last two levels
unfoldable pub enter_child : Inode → Option Bytes → ℕ → ℕ → ℕ → M Changed
enter_child node none id inner_offset data_block_num = pure (false, node)
enter_child node (some d_ind_block) id inner_offset data_block_num =
    if le64 (word d_ind_block id) 0
    then pure (false, node)
    else enter node (word d_ind_block id) inner_offset data_block_num

unfoldable pub add_double_at : Inode → ℕ → ℕ → M Changed
add_double_at node reference data_block_num =
    let double_block_id = reference / num_of_addresses_per_block in
    let inner_offset = reference % num_of_addresses_per_block in
    do
      d_ind_block ← read_data_block node.double_indirect
      linked ← child_block node.double_indirect d_ind_block double_block_id (inner_offset == 0)
      enter_child node linked double_block_id inner_offset data_block_num

unfoldable pub add_double : Inode → ℕ → ℕ → M Changed
add_double node reference data_block_num =
    if reference == 0
    then (do
      d_ind_block_num ← allocate_data_block
      if d_ind_block_num == minus_one
          then pure (false, node)
          else add_double_at (record node { double_indirect = d_ind_block_num }) reference
              data_block_num)
    else add_double_at node reference data_block_num

unfoldable pub add_triple_in : Inode → Option Bytes → ℕ → ℕ → M Changed
add_triple_in node none reference data_block_num = pure (false, node)
add_triple_in node (some t_ind_block) reference data_block_num =
    let d_ind_block_num = word t_ind_block (reference / num_of_double_indirect) in
    let double_block_id = (reference / num_of_addresses_per_block) % num_of_addresses_per_block in
    let inner_offset = reference % num_of_addresses_per_block in
    do
      d_ind_block ← read_data_block d_ind_block_num
      linked ← child_block d_ind_block_num d_ind_block double_block_id (inner_offset == 0)
      enter_child node linked double_block_id inner_offset data_block_num

unfoldable pub add_triple_at : Inode → ℕ → ℕ → M Changed
add_triple_at node reference data_block_num = do
  t_ind_block ← read_data_block node.triple_indirect
  linked ←
      child_block node.triple_indirect t_ind_block (reference / num_of_double_indirect)
        (reference % num_of_double_indirect == 0)
  add_triple_in node linked reference data_block_num

unfoldable pub add_triple : Inode → ℕ → ℕ → M Changed
add_triple node reference data_block_num =
    if reference == 0
    then (do
      t_ind_block_num ← allocate_data_block
      if t_ind_block_num == minus_one
          then pure (false, node)
          else add_triple_at (record node { triple_indirect = t_ind_block_num }) reference
              data_block_num)
    else add_triple_at node reference data_block_num

unfoldable pub add_datablock_to_inode : Inode → ℕ → M Changed
add_datablock_to_inode node data_block_num =
    let r1 = node.blocks - num_direct_blocks in
    let r2 = r1 - num_of_single_indirect in
    let r3 = r2 - num_of_double_indirect in
    if lt64 node.blocks num_direct_blocks
    then (if ltb node.blocks num_direct_blocks
        then pure (
          true,
          one_more (record node {
            direct_addresses = put node.direct_addresses node.blocks data_block_num;
          }),
        )
        else undefined)
    else if ltb r1 num_of_single_indirect
    then add_single node r1 data_block_num
    else if ltb r2 num_of_double_indirect
    then add_double node r2 data_block_num
    else if ltb r3 num_of_triple_indirect
    then add_triple node r3 data_block_num
    else pure (false, node)
