-- ===== src/Examples.antt =====
-- The theorems at concrete inputs, and runs of the code.
mod Data
mod Disk
mod Dirs
mod Open
mod Reopen
mod Fds
mod Commands
mod Sessions
