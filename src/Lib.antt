-- ===== src/Lib.antt =====
-- AltFileSystem: a file system in user space. The layers above the superblock are modelled in the
-- in-memory build, the disk layer, the superblock and mkaltfs in the DISK_MEMORY build too.
--
-- The program is a stack of layers. The disk layer reads and writes blocks of 4096 bytes; block 0
-- holds the superblock, the next 1.5% of the blocks hold inodes, the rest are data blocks. A list of
-- free data blocks is kept in the free blocks themselves, with its head in the superblock. An inode
-- names its data blocks directly and through up to three levels of indirect blocks; a directory is a
-- file whose blocks hold records of names and inode numbers.
--
-- The state is Fs (Disk.antt): the bytes behind mem_ptr, block by block, and *altfs_superblock. Every
-- function takes the state and returns it with its result; a C function that returns false or NULL
-- returns false or none here. A block is a function from offsets to bytes, and fields are read and
-- written at their offsets as on a 64-bit little-endian Linux (Bytes.antt).
--
-- Files and the code they model, by paths from the repository's root:
--   Bytes.antt           casts, memset and memcpy on a block
--   Disk.antt            src/disk_layer.c, header/disk_layer.h and the constants of the headers
--   Disk/Device.antt     src/disk_layer.c in the DISK_MEMORY build
--   Superblock.antt      src/superblock_layer.c
--   Superblock/Device.antt
--                        src/superblock_layer.c in the DISK_MEMORY build, and altfs_free_memory of
--                        header/common_includes.h
--   Mkfs.antt            src/mkfs.c
--   DataBlock.antt       src/data_block_ops.c
--   Inode.antt           struct inode of header/superblock_layer.h
--   InodeOps.antt        src/inode_ops.c without its last function
--   BlockMap.antt        get_disk_block_from_inode_block of src/inode_ops.c
--   BlockMap/Add.antt, BlockMap/Overwrite.antt, BlockMap/Remove.antt, BlockMap/Remove/Trees.antt
--                        src/inode_data_block_ops.c
--   PathName.antt        the path functions of src/directory_ops.c
--   Directory.antt       the functions on directory entries of src/directory_ops.c
--   InodeCache.antt      src/inode_cache.c
--   World.antt           the state with the cache, and programs on it
--   PathLookup.antt      name_i, setup_filesystem and the cache's wrappers of src/directory_ops.c
--   Interface.antt       src/interface_layer.c: init, getattr, access, mkdir, mknod, chmod
--   Interface/Read.antt, Interface/Write.antt, Interface/Truncate.antt, Interface/Unlink.antt,
--   Interface/Readdir.antt
--                        altfs_read; altfs_write; altfs_truncate, altfs_open and altfs_close;
--                        altfs_unlink, altfs_rename and altfs_destroy; altfs_readdir of the same file
--   Fuse.antt            src/fuse_layer.c
-- The children of these modules hold proofs, named for what they are about; Prelude.antt and
-- its children hold shared helpers, Tests.antt and its children the theorems at concrete inputs.
--
-- Numbers. A value of ssize_t is its 64-bit pattern, so that -1 is 2^64 - 1 and the tests for negative
-- numbers are tests of the sign bit. i_blocks_num and the logical block numbers are taken to be not
-- negative, and increments of i_blocks_num and i_file_size stay below 2^63. Divisions and bounds are
-- those of the code. The number of blocks is a parameter (Geometry); IsSound says what the proofs use
-- of it, and both values of the build satisfy it.
--
-- Loops are recursion on the rounds left or on fuel: the search of allocate_inode has fuel for the
-- inode blocks and the loops over directory records for the 4096 positions, and the theorems on them
-- show that it is enough.
--
-- A read through the NULL that read_data_block returns ends the program in C; such functions have an
-- Option result, and none stands for that end. malloc is taken to succeed, except in altfs_makefs,
-- where the result of calloc is an argument; time(NULL) is an argument. Log output is left out.
--
-- From name_i on the state is a World: the file system and the cache of inode numbers, a heap of
-- entries kept field by field, whose addresses are not used again after free. An operation on a path
-- is a program: a function from a World to its result and the World afterwards, or to none where it
-- uses a NULL or memory that holds no entry. The walks through the cache have the number of allocations
-- and moves so far as fuel, name_i the length of its path. A buffer of the caller is a function from
-- offsets to bytes.
--
-- In the DISK_MEMORY build the state is a Process: mem_ptr, the pointer altfs_superblock, and the state of
-- the operating system. The system calls open, lseek, read, write and close are a record of functions
-- (System); IsLawful says what their results mean for the bytes of the device, where each may fail, and
-- IsReliable that none fails inside the device. The layers above are not run over the device build.
-- getopt is the list of its results, and fuse_main an argument of main.
--
-- Not modelled: the operating system, getopt and the FUSE library, log output, the functions that only
-- free memory, and the tests.
mod Prelude
pub mod Bytes
pub mod Disk
pub mod Superblock
pub mod DataBlock
pub mod PathName
pub mod Inode
pub mod InodeOps
pub mod BlockMap
pub mod Directory
pub mod InodeCache
pub mod World
pub mod PathLookup
pub mod Interface
pub mod Fuse
pub mod Mkfs
mod Tests
