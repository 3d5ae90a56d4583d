-- ===== src/Ipc.antt =====
-- include/wolftrust/ipc.h and src/ipc.c: the connection state machine and the checks of message
-- vectors that the secure partition manager builds on.
pub mod State
pub mod Connection
pub mod Vectors
