-- ===== src/Syscall/Invariant/All.antt =====
-- The dispatcher.
