-- ===== src/ContextSwitch.antt =====
-- cpp/cppcoro/context_switch.h and `fake_stack` of cpp/cppcoro/02.coroutine_asm.cpp: the two
-- assembly routines as lists of instructions, run by an interpreter over registers and memory.
pub mod Memory
pub mod Arm64
pub mod X86
mod Examples
