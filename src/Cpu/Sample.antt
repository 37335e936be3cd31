-- ===== src/Cpu/Sample.antt =====
-- A bus and processors to run: the contents are a byte for each address, and take no time.
use matar.Base.{ℕ, ◌+◌, ◌*◌, ◌/◌, ◌^◌, ◌==◌, if◌then◌else◌, arith, u8}
use matar.BusApi.{Bus, sequential}
use matar.Cpu.State.{Cpu, Machine, Registers, set}

abbrev pub Bytes : Type 0
Bytes = ℕ → ℕ

abbrev pub halfword_at : Bytes → ℕ → ℕ
halfword_at s a = u8 (s a) + u8 (s (a + 1)) * 2 ^ 8

abbrev pub word_at : Bytes → ℕ → ℕ
word_at s a = halfword_at s a + halfword_at s (a + 2) * 2 ^ 16

abbrev pub put_byte : Bytes → ℕ → ℕ → Bytes
put_byte s a byte i = if i == a then u8 byte else s i

abbrev pub put_halfword : Bytes → ℕ → ℕ → Bytes
put_halfword s a halfword = put_byte (put_byte s a halfword) (a + 1) (halfword / 2 ^ 8)

abbrev pub flat : Bus
flat = record {
  Contents = Bytes;
  read_byte = λ view a access s. (u8 (s a), s);
  read_halfword = λ view a access s. (halfword_at s a, s);
  read_word = λ view a access s. (word_at s a, s);
  write_byte = λ a byte access s. put_byte s a byte;
  write_halfword = λ a halfword access s. put_halfword s a halfword;
  write_word = λ a word access s. put_halfword (put_halfword s a word) (a + 2) (word / 2 ^ 16);
  internal_cycle = λ s. s;
  read_byte-lt = λ view a access s. omega arith;
  read_halfword-lt = λ view a access s. omega arith;
  read_word-lt = λ view a access s. omega arith;
}

abbrev pub zeroes : Registers
zeroes i = 0

-- A processor with a status register, a program counter, a stack pointer, and 5 in register 2.
abbrev pub processor : ℕ → ℕ → ℕ → Cpu
processor status pc sp = record {
  gpr = set (set (set zeroes 15 pc) 13 sp) 2 5;
  cpsr = record { psr = status };
  spsr = record { psr = 0 };
  gpr_banked = record {
    usr = zeroes;
    fiq = zeroes;
    svc = zeroes;
    abt = zeroes;
    irq = zeroes;
    und = zeroes;
  };
  spsr_banked = record {
    usr = record { psr = 0 };
    fiq = record { psr = 0 };
    svc = record { psr = 0 };
    abt = record { psr = 0 };
    irq = record { psr = 0 };
    und = record { psr = 0 };
  };
  next_access = sequential;
  opcode0 = 0;
  opcode1 = 0;
}

-- User mode: in ARM state with interrupts let in, and in Thumb state.
abbrev pub in_arm : Machine flat
in_arm = record { cpu = processor 0x10 0x8008 0x3000; bus = zeroes }

abbrev pub in_thumb : Machine flat
in_thumb = record { cpu = processor 0x30 0x8004 0x3000; bus = zeroes }
