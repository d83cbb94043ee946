-- ===== src/Tests/Hardware.antt =====
-- A small machine that meets what the driver relies on: registers in functions, pointers that are
-- addresses moved up.
use lfdk.Common.{
  ℕ, ◌+◌, ◌-◌, ◌*◌, ◌/◌, ◌%◌, ◌^◌, ◌≡◌, refl, ap, arith, u8, u32, ◌==◌, if◌then◌else◌,
}
use lfdk.Driver.Machine.{Machine, Driver}
use lfdk.Driver.Bus.{ConfigPorts, DeviceMemory, set_dword}
use lfdk.Driver.Pci.{addr_port, data_port}
use lfdk.Driver.Pci.Merge.{lane}
use lfdk.Driver.Mem.Ram.{DirectMap}

pub record Board : Type 0 where
  pub index : ℕ
  pub registers : ℕ → ℕ
  pub devices : ℕ → ℕ
  pub bytes : ℕ → ℕ

-- Where pointers to device memory begin.
abbrev pub moved : ℕ
moved = 2 ^ 40

abbrev board_inl : ℕ → Board → ℕ × Board
board_inl port h =
    if port == addr_port
    then (h.index / 4 * 4, h)
    else if port == data_port
    then (u32 (h.registers (h.index / 4 * 4)), h)
    else (0, h)

abbrev board_outl : ℕ → ℕ → Board → Board
board_outl v port h =
    if port == addr_port
    then record h { index = v }
    else if port == data_port
    then record h { registers = set_dword h.registers (h.index / 4 * 4) (u32 v) }
    else h

abbrev board_dword : ℕ → Board → ℕ
board_dword a h =
    h.bytes a % 256
    + h.bytes (a + 1) % 256 * 2 ^ 8
    + h.bytes (a + 2) % 256 * 2 ^ 16
    + h.bytes (a + 3) % 256 * 2 ^ 24

abbrev pub machine : Machine
machine = record {
  Hw = Board;
  inb = λ port h. (0, h);
  inw = λ port h. (0, h);
  inl = board_inl;
  outb = λ v port h. h;
  outw = λ v port h. h;
  outl = board_outl;
  high_memory = 0x4000_0000;
  load_byte = λ a h. (h.bytes a % 256, h);
  load_word = λ a h. (h.bytes a % 256 + h.bytes (a + 1) % 256 * 2 ^ 8, h);
  load_dword = λ a h. (board_dword a h, h);
  store_byte = λ a v h. record h { bytes = λ b. if b == a then lane 0 v else h.bytes b };
  store_word = λ a v h. record h {
    bytes = λ b. if b == a then lane 0 v else if b == a + 1 then lane 1 v else h.bytes b;
  };
  store_dword = λ a v h. record h {
    bytes = λ b.
        if b == a
        then lane 0 v
        else if b == a + 1
        then lane 1 v
        else if b == a + 2
        then lane 2 v
        else if b == a + 3
        then lane 3 v
        else h.bytes b;
  };
  ioremap = λ p n h. (p + moved, h);
  iounmap = λ v h. h;
  readb = λ a h. (u8 (h.devices (a - moved)), h);
  readl = λ a h. (u32 (h.devices (a - moved)), h);
  writel = λ x a h. record h { devices = set_dword h.devices (a - moved) (u32 x) };
}

abbrev pub ports : ConfigPorts machine
ports = record {
  latch = λ h. h.index / 4 * 4;
  config = λ h a. u32 (h.registers a);
  config-lt = λ h a. omega arith;
  latch_whole = λ h. omega arith;
  inl-index = λ h. refl;
  latch-inl_index = λ h. refl;
  config-inl_index = λ h a. refl;
  latch-outl_index = λ v h. refl;
  config-outl_index = λ v h a. refl;
  inl-data = λ h. refl;
  latch-inl_data = λ h. refl;
  config-inl_data = λ h a. refl;
  latch-outl_data = λ v h. refl;
  config-outl_data = λ v h a. ground arith;
}

abbrev pub memory : DeviceMemory machine
memory = record {
  mmio = λ h a. u32 (h.devices a);
  mmio-lt = λ h a. omega arith;
  Mapped = λ h v p. v ≡ p + moved;
  ioremap-Mapped = λ p h made. refl;
  mmio-ioremap = λ p n h a. refl;
  mmio-iounmap = λ v h a. refl;
  readl-mmio = λ h v p off at low. ap (λ (k : ℕ). u32 (h.devices k)) (omega (arith, at));
  mmio-readl = λ v h a. refl;
  readl-Mapped = λ a h v p at. at;
  writel-Mapped = λ x a h v p at. at;
  mmio-writel = λ x h v p off a at low. ground (arith, at);
  inl-Mapped = λ port h v p at. at;
  outl-Mapped = λ x port h v p at. at;
}

abbrev pub direct_map : DirectMap machine
direct_map = record {
  ram = λ h a. h.bytes a % 256;
  ram-lt = λ h a. omega arith;
  load_byte-ram = λ a h. refl;
  load_word-ram = λ a h. refl;
  load_dword-ram = λ a h. refl;
  ram-load_byte = λ a h b. refl;
  ram-load_word = λ a h b. refl;
  ram-load_dword = λ a h b. refl;
  ram-store_byte = λ a v h b. ground arith;
  ram-store_word = λ a v h b. ground arith;
  ram-store_dword = λ a v h b. ground arith;
}

-- A board whose registers hold their address and more, and a driver on it.
abbrev pub board : Board
board = record {
  index = 8;
  registers = λ a. a + 0x0102_0304;
  devices = λ a. a * 3 + 0x0506_0708;
  bytes = λ a. a + 7;
}

abbrev pub fresh : Driver machine
fresh = record { hw = board; phy2virt_mem = 0; phy_map_start_addr = 0 }
