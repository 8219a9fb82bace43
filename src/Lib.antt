-- ===== src/Lib.antt =====
-- cdnwsh: a shell over a small file system that is kept in one mapped host file. This library
-- models the file system (src/fs.c, src/bitmap.c, src/blockdev.c, src/inode.c and the headers in
-- include/), the shell (src/shell.c), and the server and the client around it (src/server.c,
-- src/client.c, src/cdnwsh.c) as functions on an explicit state, and proves what its operations do.
--
-- The parts, from the disk upwards:
--   Blockdev.antt   src/blockdev.c: the device as a function from block numbers to blocks
--   Bitmap.antt     src/bitmap.c: bitmaps over one block
--   Inode.antt      src/inode.c, include/inode.h: inodes as bytes in the blocks of the inode table
--   Alloc.antt      src/fs.c: the superblock, reserve_* and release_* on the cached bitmaps
--   Entry.antt      include/fs.h: dir_entry as bytes
--   FileData.antt   src/fs.c: llread and llwrite, which move a whole file
--   Mkfs.antt       src/fs.c: cnmkfs
--   Dir.antt        src/fs.c: readdir, opendir, cd, pwd, ls, stat
--   Make.antt       src/fs.c: mkdir, rmdir, creat
--   Grow.antt       src/fs.c: realloc_cache, realloc_fs_blocks
--   Files.antt      src/fs.c: open, close, read, seek, write
--   Mount.antt      src/fs.c: mount and umount
--   Transfer.antt   src/fs.c: cat, import, export
--   Tree.antt       src/fs.c: tree
--   Frame.antt      src/fs.c: rules for what leaves the table of descriptors alone
--   Shell.antt      src/shell.c: the handlers of the commands on the file system
--   Shell/Table     src/shell.c: the tables of commands and messages
--   Shell/Line      src/shell.c: the loop of run_cmd that cuts a line into words
--   Shell/Dispatch  src/shell.c: run_cmd, help, connect and exit
--   Net.antt        include/server.h, src/client.c: the state of server and client, the client's calls
--   Socket.antt     src/server.c: start_listening, recv_cmd, send_results, accept_client
--   Server.antt     src/server.c: the rounds of run, clean_svr; src/cdnwsh.c: main
-- Params.antt holds the constants, Sys.antt the state, Base.antt and its children tests on numbers,
-- lists, C strings and memory, Examples.antt the theorems at concrete inputs. The children of a module
-- hold its lemmas and are named for what they prove. A definition has the name of the C function that it
-- models; loops and branches of one function that have a definition of their own say so.
--
-- State. The globals of fs.c and blockdev.c, and the flag of the shell that a file system is
-- mounted, are one record, Sys. A C function is an action M A = Sys → Run A, where Run is a result
-- with the state behind it, or a stop: exit, undefined behaviour, or no fuel left. `defined b`
-- marks what C leaves undefined unless b holds: an access outside a buffer, a null or freed
-- pointer, a device that is not mapped. The results 0 and -1 of the int8_t functions are success
-- and failure; an int16_t is given by its 16 bits.
--
-- Memory. A block, a cache or a buffer from calloc is a function from offsets to bytes, with its
-- size beside it where the code can leave it. Structs are stored byte by byte, little-endian, for
-- both data models of the compiler: time_t has 4 bytes (ilp32) or 8 (lp64). Memory from malloc
-- holds arbitrary bytes (Sys.garbage); time() answers from an arbitrary clock. calloc is taken to
-- succeed. What the host does is an argument: whether open, lseek, write, mmap, fopen, fread and
-- fwrite succeed, and the content of the host files.
--
-- Fuel. The loops over directory entries take one unit for each entry. scan_fuel gives one more
-- than the size of the directory in bytes, which is enough because a listed entry has at least
-- eight bytes. A corrupt directory with an entry of length 0 runs out of fuel, where the C loop
-- does not end. All other loops are recursions on what is left to do.
--
-- The shell. A handler takes the arguments of its command and returns the text that it allocates,
-- as an action on the same state. strtol, the decimal print of a number and the line that tree
-- prints for an inode are parameters; strings are lists of bytes without their NUL. The texts of
-- read, cat and tree hold bytes from the disk, and are taken up to their first NUL, as printf and
-- strlen take them; a text without one in its buffer is undefined behaviour.
--
-- The server. run is a function of the list of its rounds: a round says which descriptors poll
-- reports, the line that is typed, of which fgets stores at most 255 bytes, and what accept, recv,
-- send and close answer. Where the list ends before the loop does, the result is none. The state of
-- server and client is a record of its own, Net, next to Sys; its `printed` are the results that
-- run prints. A descriptor or a count is none for -1. A loop of send_results ends where a round has
-- an answer for each byte of its string.
--
-- Not modelled: log output, prompts and the lines printed on errors; free and cnclosedir, which
-- have no effect that the code can see but for the cache pointer of a closed descriptor; the
-- address of a client, which is only printed; a failure of poll, behind which the code looks at
-- cleared entries; cat_num, which stands in the parameter for decimals; setsockopt.
pub mod Base
pub mod Params
pub mod Sys
pub mod Bitmap
pub mod Blockdev
pub mod Inode
pub mod Alloc
pub mod Entry
pub mod Dir
pub mod Mkfs
pub mod Make
pub mod FileData
pub mod Grow
pub mod Frame
pub mod Files
pub mod Mount
pub mod Transfer
pub mod Tree
pub mod Shell
pub mod Net
pub mod Socket
pub mod Server
pub mod Examples
