-- ===== src/Reclaim.antt =====
-- src/inode.cpp, giving the blocks of a file back: `remove_datablocks_nested` for a whole tree of
-- address blocks, and `remove_datablocks_range_from_inode` for all blocks from a given one on.
pub mod Direct
use beach_bytes_file_system.Base.{
  ℕ, zero, suc, ◌+◌, ◌-◌, ◌*◌, ◌/◌, ◌%◌, Bool, true, false, ◌&&◌, Option, none, some, ltb, ◌==◌,
  if◌then◌else◌,
}
use beach_bytes_file_system.Bytes.{Bytes, put, sub64, lt64, le64}
use beach_bytes_file_system.Config.{
  Inode, num_direct_blocks, num_of_single_indirect, num_of_double_indirect, num_of_triple_indirect,
  num_of_addresses_per_block,
}
use beach_bytes_file_system.Machine.{M, pure, undefined, ◌>>=◌, ◌>>◌}
use beach_bytes_file_system.DataBlock.{free_data_block, write_data_block}
use beach_bytes_file_system.BlockMap.{Changed, word, set_word, read_words}

-- for(i = 0; i < 512; i++), by the rounds that are left; what a child's call returns is ignored
unfoldable pub nested_loop : (ℕ → M Bool) → ℕ → Bytes → ℕ → M (Unit {0})
nested_loop child zero buffer i = pure tt
nested_loop child (suc rounds) buffer i =
    let rest = nested_loop child rounds buffer (i + 1) in
    if word buffer i == 0 then pure tt else do _ ← child (word buffer i); rest

unfoldable pub nested_body : (ℕ → M Bool) → ℕ → M Bool
nested_body child p_block_num = if le64 p_block_num 0 then pure false else do
  buffer ← read_words p_block_num
  nested_loop child num_of_single_indirect buffer 0
  _ ← free_data_block p_block_num
  pure true

-- The level is 1, 2 or 3 at every call.
unfoldable pub remove_datablocks_nested : ℕ → ℕ → M Bool
remove_datablocks_nested zero = λ p_block_num. undefined
remove_datablocks_nested (suc zero) = nested_body free_data_block
remove_datablocks_nested (suc (suc level)) = nested_body (remove_datablocks_nested (suc level))

-- the whole tree behind the triple indirect block, and the return
unfoldable pub drop_triple : Inode → ℕ → M Changed
drop_triple node start = do
  dropped ← remove_datablocks_nested 3 node.triple_indirect
  pure (
      if dropped
      then (true, record node { triple_indirect = 0; blocks = start })
      else (false, node))

-- the trees behind the double and, if the file reaches it, the triple indirect block
unfoldable pub drop_double : Inode → ℕ → ℕ → M Changed
drop_double node start ending =
    let node' = record node { double_indirect = 0 } in
    do
      dropped ← remove_datablocks_nested 2 node.double_indirect
      if dropped
          then (if le64 (sub64 ending num_of_single_indirect) num_of_double_indirect
              then pure (true, record node' { blocks = start })
              else drop_triple node' start)
          else pure (false, node)

-- for(i = logical_block_num; i < NUM_DIRECT_BLOCKS && i < ending_block_num; i++)
unfoldable pub direct_loop : ℕ → ℕ → ℕ → Inode → M Changed
direct_loop zero i ending node = pure (true, node)
direct_loop (suc rounds) i ending node =
    let rest =
      direct_loop rounds (i + 1) ending
        (record node { direct_addresses = put node.direct_addresses i 0 }) in
    if lt64 i ending
    then (do
      freed ← free_data_block (node.direct_addresses i)
      if freed then rest else pure (false, node))
    else pure (true, node)

-- what follows the loop over the direct blocks
unfoldable pub after_direct : Inode → ℕ → ℕ → M Changed
after_direct node start ending =
    let node' = record node { single_indirect = 0 } in
    let ending' = sub64 ending num_direct_blocks in
    if le64 ending num_direct_blocks then pure (true, record node { blocks = start }) else do
      dropped ← remove_datablocks_nested 1 node.single_indirect
      if dropped
          then (if le64 ending' num_of_single_indirect
              then pure (true, record node' { blocks = start })
              else drop_double node' start ending')
          else pure (false, node)

unfoldable pub remove_from_direct : Inode → ℕ → M Changed
remove_from_direct node start = do
  (looped, node') ← direct_loop (num_direct_blocks - start) start node.blocks node
  if looped then after_direct node' start node.blocks else pure (false, node')

-- The loop over one block of addresses: frees the entries from `i` to `ending`, at most to the end
-- of the block. `none` is the early `return false`; else the block's new contents and the last `i`.
unfoldable pub single_loop : ℕ → ℕ → ℕ → Bytes → M (Option (Bytes × ℕ))
single_loop zero i ending arr = pure (some (arr, i))
single_loop (suc rounds) i ending arr =
    let rest = single_loop rounds (i + 1) ending (set_word arr i 0) in
    if lt64 i ending
    then (do freed ← free_data_block (word arr i); if freed then rest else pure none)
    else pure (some (arr, i))

-- lines 764 to 796, after the loop
unfoldable pub after_single : Inode → ℕ → ℕ → Option (Bytes × ℕ) → M Changed
after_single node start ending none = pure (false, node)
after_single node start ending (some (arr, i)) = do
  written ← write_data_block node.single_indirect arr
  if written
      then (if le64 ending num_of_single_indirect
          then pure (true, record node { blocks = start })
          else drop_double node start ending)
      else pure (false, node)

unfoldable pub remove_from_single : Inode → ℕ → ℕ → M Changed
remove_from_single node start logical =
    let ending = sub64 node.blocks num_direct_blocks in
    if node.single_indirect == 0 then pure (false, node) else do
      arr ← read_words node.single_indirect
      looped ← single_loop (num_of_single_indirect - logical) logical ending arr
      after_single node start ending looped

-- One round of the walk over a block of address blocks: entry `num` from index `j` on. `none` is the
-- early `return false`; else whether the end was reached.
unfoldable pub clear_entry : ℕ → ℕ → ℕ → Bool → M (Option Bool)
clear_entry num j ending free_it = if le64 num 0 then pure none else do
  arr ← read_words num
  looped ← single_loop (num_of_single_indirect - j) j ending arr
  elim looped [
    | none ↦ pure none
    | some (arr', j') ↦ do
      written ← write_data_block num arr'
      freed ← (if written && free_it then free_data_block num else pure written)
      pure (if freed then some (j' == ending) else none)
  ]

-- for(i = double_i_idx; i < 512; i++): `inner` is the first index in the first round and 0 then.
-- The result is `ending_block_num` after the loop.
unfoldable pub double_loop : ℕ → ℕ → ℕ → ℕ → Bytes → M (Option ℕ)
double_loop zero i inner ending arr = pure (some ending)
double_loop (suc rounds) i inner ending arr =
    let rest = double_loop rounds (i + 1) 0 (sub64 ending num_of_single_indirect) arr in
    do
      cleared ← clear_entry (word arr i) inner ending (inner == 0)
      elim cleared [
        | none ↦ pure none
        | some reached ↦ if reached then pure (some ending) else rest
      ]

-- lines 864 to 886, after the loop
unfoldable pub after_double : Inode → ℕ → ℕ → Option ℕ → M Changed
after_double node start logical none = pure (false, node)
after_double node start logical (some ending) = do
  freed ← (if logical == 0 then free_data_block node.double_indirect else pure true)
  let node' = if logical == 0 then record node { double_indirect = 0 } else node
  if freed
      then (if le64 ending num_of_double_indirect
          then pure (true, record node' { blocks = start })
          else drop_triple node' start)
      else pure (false, node)

unfoldable pub remove_from_double : Inode → ℕ → ℕ → M Changed
remove_from_double node start logical =
    let double_i_idx = logical / num_of_addresses_per_block in
    let inner_idx = logical % num_of_addresses_per_block in
    let ending =
      sub64 (sub64 node.blocks (num_of_single_indirect + num_direct_blocks))
        (num_of_single_indirect * double_i_idx) in
    if node.double_indirect == 0 then pure (false, node) else do
      arr ← read_words node.double_indirect
      looped ← double_loop (num_of_single_indirect - double_i_idx) double_i_idx inner_idx ending arr
      after_double node start logical looped

-- for(; j < 512; j++) over one double indirect block. The start `k` is `inner_idx` in each round
-- where `j` is `double_i_idx`. The result: whether the end was reached, and `ending_block_num`.
unfoldable pub triple_inner_loop : ℕ → ℕ → ℕ → ℕ → ℕ → Bytes → M (Option (Bool × ℕ))
triple_inner_loop zero j double_i_idx inner_idx ending arr = pure (some (false, ending))
triple_inner_loop (suc rounds) j double_i_idx inner_idx ending arr =
    let k = if j == double_i_idx then inner_idx else 0 in
    let rest =
      triple_inner_loop rounds (j + 1) double_i_idx inner_idx (sub64 ending num_of_single_indirect)
        arr in
    do
      cleared ← clear_entry (word arr j) k ending (k == 0)
      elim cleared [
        | none ↦ pure none
        | some reached ↦ if reached then pure (some (true, ending)) else rest
      ]

-- one round of the outer loop: the double indirect block `num`, from its entry `j` on
unfoldable pub clear_double : ℕ → ℕ → ℕ → ℕ → ℕ → M (Option (Bool × ℕ))
clear_double num j double_i_idx inner_idx ending = if le64 num 0 then pure none else do
  arr ← read_words num
  looped ← triple_inner_loop (num_of_single_indirect - j) j double_i_idx inner_idx ending arr
  elim looped [
    | none ↦ pure none
    | some result ↦ do
      freed ← (if j == 0 then free_data_block num else pure true)
      pure (if freed then some result else none)
  ]

-- for(i = triple_i_idx; i < 512; i++): `first` is `double_i_idx` in the first round and 0 then
unfoldable pub triple_loop : ℕ → ℕ → ℕ → ℕ → ℕ → ℕ → Bytes → M Bool
triple_loop zero i first double_i_idx inner_idx ending arr = pure true
triple_loop (suc rounds) i first double_i_idx inner_idx ending arr =
    let rest = λ (e : ℕ). triple_loop rounds (i + 1) 0 double_i_idx inner_idx e arr in
    do
      cleared ← clear_double (word arr i) first double_i_idx inner_idx ending
      elim cleared [
        | none ↦ pure false
        | some (reached, ending') ↦ if reached then pure true else rest ending'
      ]

-- lines 988 to 996, after the loop
unfoldable pub after_triple : Inode → ℕ → ℕ → Bool → M Changed
after_triple node start logical false = pure (false, node)
after_triple node start logical true = do
  freed ← (if logical == 0 then free_data_block node.triple_indirect else pure true)
  let node' = if logical == 0 then record node { triple_indirect = 0 } else node
  pure (if freed then (true, record node' { blocks = start }) else (false, node))

unfoldable pub remove_from_triple : Inode → ℕ → ℕ → M Changed
remove_from_triple node start logical =
    let triple_i_idx = logical / num_of_double_indirect in
    let double_i_idx = (logical / num_of_addresses_per_block) % num_of_addresses_per_block in
    let inner_idx = logical % num_of_addresses_per_block in
    let ending =
      sub64
        (sub64 node.blocks (num_of_double_indirect + num_of_single_indirect + num_direct_blocks))
        (num_of_double_indirect * triple_i_idx + num_of_single_indirect * double_i_idx) in
    if node.triple_indirect == 0 then pure (false, node) else do
      arr ← read_words node.triple_indirect
      looped ←
          triple_loop (num_of_single_indirect - triple_i_idx) triple_i_idx double_i_idx double_i_idx
            inner_idx ending arr
      after_triple node start logical looped

-- A negative start reads the array of direct addresses in front of its first element.
unfoldable pub remove_datablocks_range_from_inode : Inode → ℕ → M Changed
remove_datablocks_range_from_inode node logical_block_num =
    let l1 = logical_block_num - num_direct_blocks in
    let l2 = l1 - num_of_single_indirect in
    let l3 = l2 - num_of_double_indirect in
    if lt64 node.blocks logical_block_num
    then pure (false, node)
    else if lt64 logical_block_num num_direct_blocks
    then (if ltb logical_block_num num_direct_blocks
        then remove_from_direct node logical_block_num
        else undefined)
    else if ltb l1 num_of_single_indirect
    then remove_from_single node logical_block_num l1
    else if ltb l2 num_of_double_indirect
    then remove_from_double node logical_block_num l2
    else if ltb l3 num_of_triple_indirect
    then remove_from_triple node logical_block_num l3
    else pure (false, node)
