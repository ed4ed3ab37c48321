-- ===== src/Config/Update.antt =====
-- An inode whose sizes, times and addresses change still fits its image when the new values do.
use beach_bytes_file_system.Base.{ℕ, ◌^◌, ◌<◌, ◌≡◌, ◌∙◌, ◌⊎◌, inl, inr, arith}
use beach_bytes_file_system.Config.{Inode, inode_fields}
use beach_bytes_file_system.Config.Images.{IsInode, Fits}

-- the fields that the operations on files change
abbrev pub update : Inode → ℕ → ℕ → ℕ → ℕ → ℕ → (ℕ → ℕ) → Inode
update node file_size blocks ctime mtime atime addresses = record node {
  file_size = file_size;
  blocks = blocks;
  ctime = ctime;
  mtime = mtime;
  atime = atime;
  direct_addresses = addresses;
}

-- a value is the old one or small
cell : {new old bound : ℕ} → (new ≡ old) ⊎ (new < bound) → old < bound → new < bound
cell e lt = omega arith

address : {new old bound : ℕ} → (new ≡ old) ⊎ (new ≡ 0) → old < bound → new < bound
address e lt = omega arith

update-Fits :
    (node : Inode) (s b t1 t2 t3 : ℕ) (addresses : ℕ → ℕ)
    → (s ≡ node.file_size) ⊎ (s < 256 ^ 8)
    → (b ≡ node.blocks) ⊎ (b < 256 ^ 8)
    → (t1 ≡ node.ctime) ⊎ (t1 < 256 ^ 4)
    → (t2 ≡ node.mtime) ⊎ (t2 < 256 ^ 4)
    → (t3 ≡ node.atime) ⊎ (t3 < 256 ^ 4)
    → ((k : ℕ) → (addresses k ≡ node.direct_addresses k) ⊎ (addresses k ≡ 0))
    → Fits (inode_fields node)
    → Fits (inode_fields (update node s b t1 t2 t3 addresses))
update-Fits node s b t1 t2 t3 addresses size blocks c m a addr h =
    let u = h.1.1.1.1.1.1.1.1.1.1 in
    let v = u.1.1.1.1.1 in
    (
      h.0,
      (
        h.1.0,
        (
          h.1.1.0,
          (
            h.1.1.1.0,
            (
              h.1.1.1.1.0,
              (
                h.1.1.1.1.1.0,
                (
                  h.1.1.1.1.1.1.0,
                  (
                    h.1.1.1.1.1.1.1.0,
                    (
                      h.1.1.1.1.1.1.1.1.0,
                      (
                        h.1.1.1.1.1.1.1.1.1.0,
                        (
                          cell size u.0,
                          (
                            cell blocks u.1.0,
                            (
                              cell c u.1.1.0,
                              (
                                cell m u.1.1.1.0,
                                (
                                  cell a u.1.1.1.1.0,
                                  (
                                    address (addr 0) v.0,
                                    (
                                      address (addr 1) v.1.0,
                                      (
                                        address (addr 2) v.1.1.0,
                                        (
                                          address (addr 3) v.1.1.1.0,
                                          (
                                            address (addr 4) v.1.1.1.1.0,
                                            (
                                              address (addr 5) v.1.1.1.1.1.0,
                                              (
                                                address (addr 6) v.1.1.1.1.1.1.0,
                                                (
                                                  address (addr 7) v.1.1.1.1.1.1.1.0,
                                                  (
                                                    address (addr 8) v.1.1.1.1.1.1.1.1.0,
                                                    (
                                                      address (addr 9) v.1.1.1.1.1.1.1.1.1.0,
                                                      v.1.1.1.1.1.1.1.1.1.1,
                                                    ),
                                                  ),
                                                ),
                                              ),
                                            ),
                                          ),
                                        ),
                                      ),
                                    ),
                                  ),
                                ),
                              ),
                            ),
                          ),
                        ),
                      ),
                    ),
                  ),
                ),
              ),
            ),
          ),
        ),
      ),
    )

-- the ten addresses are the old ones or zero
pub update-IsInode :
    (node : Inode) (s b t1 t2 t3 : ℕ) (addresses : ℕ → ℕ)
    → (s ≡ node.file_size) ⊎ (s < 256 ^ 8)
    → (b ≡ node.blocks) ⊎ (b < 256 ^ 8)
    → (t1 ≡ node.ctime) ⊎ (t1 < 256 ^ 4)
    → (t2 ≡ node.mtime) ⊎ (t2 < 256 ^ 4)
    → (t3 ≡ node.atime) ⊎ (t3 < 256 ^ 4)
    → ((k : ℕ) → (addresses k ≡ node.direct_addresses k) ⊎ (addresses k ≡ 0))
    → IsInode node
    → IsInode (update node s b t1 t2 t3 addresses)
update-IsInode node s b t1 t2 t3 addresses size blocks c m a addr is = record {
  fits = update-Fits node s b t1 t2 t3 addresses size blocks c m a addr is.fits;
  ten = λ k le. elim (addr k) [ inl e ↦ e ∙ is.ten k le | inr e ↦ e ];
}
