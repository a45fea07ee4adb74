-- ===== src/Mips.antt =====
-- machine/mipssim.h and machine/mipssim.cc: the simulated MIPS processor. A register holds a 32-bit
-- pattern, and signed arithmetic wraps on 32 bits, as the simulator expects of its compiler.
pub mod OpCode
pub mod Decode
pub mod Decoded
pub mod Cpu
pub mod Steps
pub mod Execute
pub mod Safe
pub mod Retire
pub mod Cycle
pub mod Overflow
pub mod Unaligned
pub mod Parts
pub mod Word
pub mod Mult
pub mod Rounds
pub mod Product
mod Tests
