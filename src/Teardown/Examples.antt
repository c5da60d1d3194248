-- ===== src/Teardown/Examples.antt =====
-- The end of environment 2 of Kernel/Examples, which waits for a message.
