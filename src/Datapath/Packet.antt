-- ===== src/Datapath/Packet.antt =====
-- forward-ebpf/src/main.rs, the packet: `XdpContext`, `ptr_at_mut`, and the loads and stores
-- through the header pointers. The target is little-endian, so a u16, u32 or [u8; 6] field is the
-- number whose little-endian digits are its bytes, and `from_be` and `to_be` swap bytes.
pub mod Laws
use xdp_nat_forward.Base.{ℕ, zero, suc, ◌+◌, ◌*◌, ◌/◌, ◌%◌, Bool, ◌==◌, leb, if◌then◌else◌}

-- The bytes from `ctx.data()` on, by their offset; `size` is `ctx.data_end() - ctx.data()`.
abbrev pub Mem : Type 0
Mem = ℕ → ℕ

pub record Packet : Type 0 where
  pub size : ℕ
  pub mem : Mem

-- `ptr_at_mut` for a type of `len` bytes succeeds.
abbrev pub ptr_at_mut : Packet → ℕ → ℕ → Bool
ptr_at_mut ctx offset len = leb (offset + len) ctx.size

abbrev pub write_byte : ℕ → ℕ → Mem → Mem
write_byte i v m j = if j == i then v else m j

-- A field of `w` bytes at an offset.
unfoldable pub load : ℕ → ℕ → Mem → ℕ
load zero o m = 0
load (suc w) o m = m o + 256 * load w (suc o) m

unfoldable pub store : ℕ → ℕ → ℕ → Mem → Mem
store zero o v m = m
store (suc w) o v m = write_byte o (v % 256) (store w (suc o) (v / 256) m)

-- `u16::from_be`, `u16::to_be`.
unfoldable pub swap16 : ℕ → ℕ
swap16 v = v % 256 * 256 + v / 256

-- `u32::from_be`, `u32::to_be`.
unfoldable pub swap32 : ℕ → ℕ
swap32 v = swap16 (v % 65536) * 65536 + swap16 (v / 65536)
