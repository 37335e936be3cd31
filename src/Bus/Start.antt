-- ===== src/Bus/Start.antt =====
-- The constructors of src/bus.cc, include/io/io.hh, include/io/display/display.hh and include/io/sound/sound.hh,
-- and how the bus stands after them. The members that no constructor sets keep what their storage held,
-- the contents `old`. The hash of the BIOS, which goes into a message alone, is left out.
use mathlib.Core.Option.{Option, none, some}
use mathlib.Core.Option
use matar.Base.{ℕ, ◌/◌, ◌*◌, ◌≤◌, ◌≡◌, refl, ap, [], ◌∷◌, arith}
use matar.Scheduler.{Scheduler, TaskType, schedule_from_now, schedule_at, enqueue}
use matar.Scheduler.Order.{IsOrdered, IsFrom}
use matar.Memory.{Memory}
use matar.Memory as Bytes
use matar.Sound.{Sound, default_sampling_rate, pwm_frequency}
use matar.Display.{Display}
use matar.Display.Color.{of_raw, reset, transparent_rgb555, ObjectPixel}
use matar.Display.Timing.{first_task}
use matar.Io.{IoDevices}
use matar.BusApi.{CpuView, CpuAccess}
use matar.Bus.{Contents, region, spend, spend32}
use matar.Bus.Read.{read_word, read_region, read_memory}
use matar.Bus.Ram.{RamRegion, board_wram, chip_wram, palette, video, objects, number}
use matar.Bus.Cycles.{make_cycle_map}
use matar.Bus.Cycles.Quick.{IsQuickMap, make_cycle_map-IsQuickMap}
use matar.Bus.Header.{Header, header_size, header_of, parse_header}

-- `Memory<N> x = {}`
abbrev cleared : ℕ → Memory
cleared size = record { size = size; byte_at = λ i. 0 }

unfoldable new_display : Display → Display
new_display old = record old {
  pram = cleared 0x400;
  vram = cleared 0x18000;
  oam = cleared 0x400;
  scanline_buffers = λ layer x. of_raw transparent_rgb555;
  object_buffer = λ x y. reset;
}

unfoldable new_sound : Sound → Sound
new_sound old = record old {
  fifo_a = record { fifo = [] };
  fifo_b = record { fifo = [] };
  sampling_rate = default_sampling_rate;
}

unfoldable first_sample : Sound → Scheduler → Scheduler
first_sample sound s = schedule_from_now TaskType.sample_pwm (pwm_frequency / sound.sampling_rate) s

abbrev no_tasks : Scheduler
no_tasks = record { tasks = []; cycles = 0 }

unfoldable new_devices : IoDevices → IoDevices
unfolding new_display new_sound
new_devices old = record old { display = new_display old.display; sound = new_sound old.sound }

-- The bus with its members, before the header is read.
unfoldable new_bus : Contents → Memory → Memory → Contents
unfolding new_devices first_task first_sample
new_bus old bios rom =
    let io = new_devices old.board.io in
    record old {
      board = record {
        io = io;
        scheduler = first_sample io.sound (first_task no_tasks);
        cycle_map = make_cycle_map;
      };
      bios = bios;
      board_wram = cleared (1024 * 256);
      chip_wram = cleared (1024 * 32);
      rom = rom;
    }

-- `Bus::Bus`: the bus and its header, or `none` where the ROM is too short for one.
unfoldable pub construct : Contents → Memory → Memory → Option (Contents × Header)
unfolding new_bus parse_header
construct old bios rom = Option.map (λ header. (new_bus old bios rom, header)) (parse_header rom)

-- A bus to start from: the end of the first line and the first sample stand in the queue, in order of time,
-- all five memories that a program can write are clear and read as zero through the bus, and no pixel has an
-- object.
pub record IsStarted (rom : Memory) (o : Option (Contents × Header)) : Type 0 where
  pub result : Contents
  pub header : Header
  pub returned : o ≡ some (result, header)
  pub read : parse_header rom ≡ some header
  pub tasks :
      result.board.scheduler.tasks
      ≡ record { kind = TaskType.sample_pwm; cycles = 512 }
        ∷ record { kind = TaskType.display_hblank; cycles = 1006 }
        ∷ []
  pub ordered : IsOrdered result.board.scheduler.tasks
  pub clock : result.board.scheduler.cycles ≡ 0
  pub quick : IsQuickMap result.board.cycle_map
  pub same_rom : result.rom ≡ rom
  pub clear :
      (i : ℕ)
      → (Memory.byte_at result.board_wram i ≡ 0)
        × (Memory.byte_at result.chip_wram i ≡ 0)
        × (Memory.byte_at result.board.io.display.pram i ≡ 0)
        × (Memory.byte_at result.board.io.display.vram i ≡ 0)
        × (Memory.byte_at result.board.io.display.oam i ≡ 0)
  pub reads_zero :
      (r : RamRegion) (a : ℕ) (v : CpuView) (access : CpuAccess)
      → region a ≡ number r
      → (read_word v a access result).0 ≡ 0
  pub empty : (x y : ℕ) → ObjectPixel.priority (result.board.io.display.object_buffer x y) ≡ 4

parse_header-returns :
    (rom : Memory) → header_size ≤ Memory.size rom → parse_header rom ≡ some (header_of rom)
unfolding parse_header
parse_header-returns rom h = ground arith

first_tasks :
    (old : Contents) (bios rom : Memory)
    → (new_bus old bios rom).board.scheduler.tasks
      ≡ record { kind = TaskType.sample_pwm; cycles = 512 }
        ∷ record { kind = TaskType.display_hblank; cycles = 1006 }
        ∷ []
unfolding new_bus new_devices new_sound first_task first_sample schedule_from_now schedule_at
    enqueue
first_tasks old bios rom = refl

new_bus-reads_zero :
    (old : Contents) (bios rom : Memory) (r : RamRegion) (a : ℕ) (v : CpuView) (access : CpuAccess)
    → region a ≡ number r
    → (read_word v a access (new_bus old bios rom)).0 ≡ 0
unfolding new_bus new_devices new_display read_word read_region spend32 spend number read_memory
    Bytes.read_word Bytes.read_halfword Bytes.read_byte
new_bus-reads_zero old bios rom board_wram a v access e = rw e refl
new_bus-reads_zero old bios rom chip_wram a v access e = rw e refl
new_bus-reads_zero old bios rom palette a v access e = rw e refl
new_bus-reads_zero old bios rom video a v access e = rw e refl
new_bus-reads_zero old bios rom objects a v access e = rw e refl

-- Whatever the storage of the bus held, its constructor returns for a ROM that is as long as a header, with the
-- header of that ROM and a bus to start from: its queue has the first sample and the first end of a line, at the
-- cycles 512 and 1006 and in order of time, its clock is at 0, the ROM is in place, every byte of the two work
-- memories, the palette, the video memory and the objects is 0, every word that is read from their regions is 0,
-- and no pixel has an object in front.
pub construct-IsStarted :
    (old : Contents) (bios rom : Memory)
    → header_size ≤ Memory.size rom
    → IsStarted rom (construct old bios rom)
unfolding construct new_bus new_devices new_display new_sound first_task first_sample
    schedule_from_now schedule_at enqueue IsOrdered IsFrom reset
construct-IsStarted old bios rom h =
    let parsed = parse_header-returns rom h in
    record {
      result = new_bus old bios rom;
      header = header_of rom;
      returned = ap (Option.map (λ header. (new_bus old bios rom, header))) parsed;
      read = parsed;
      tasks = first_tasks old bios rom;
      ordered = omega arith;
      clock = refl;
      quick = make_cycle_map-IsQuickMap;
      same_rom = refl;
      clear = λ i. (refl, refl, refl, refl, refl);
      reads_zero = new_bus-reads_zero old bios rom;
      empty = λ x y. refl;
    }
