-- ===== src/ContextSwitch/Examples.antt =====
-- Runs of the two routines of cpp/cppcoro/context_switch.h at concrete addresses.
mod Arm64Runs
mod X86Runs
