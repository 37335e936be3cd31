-- ===== src/Samples.antt =====
-- A board to run: a queue of tasks, devices that are switched off but for those that a run needs, and
-- memories with small contents.
use matar.Base.{ℕ, ◌+◌, ◌^◌, true, false, List, [], ◌∷◌, put}
use matar.Psr.{thumb}
use matar.BusApi.{CpuView}
use matar.Scheduler.{Task, TaskType, Scheduler}
use matar.Memory.{Memory}
use matar.System.{System}
use matar.Dma.{Channel, Dma}
use matar.Sound.{Sound}
use matar.Sound.Fifo.{SoundFifo}
use matar.Timer.{Timer, Clockwork}
use matar.Display.{Display, RotationScaling, Vec2}
use matar.Display.Color.{of_raw, reset, transparent_rgb555}
use matar.Display.Timing.{Screen}
use matar.Bus.{Contents}
use matar.Bus.Cycles.{make_cycle_map}

abbrev pub task : TaskType → ℕ → Task
task kind cycles = record { kind = kind; cycles = cycles }

abbrev pub two_tasks : List Task
two_tasks = task TaskType.timer0_overflow 100 ∷ task TaskType.display_hblank 1006 ∷ []

abbrev pub clock : Scheduler
clock = record { tasks = two_tasks; cycles = 120 }

abbrev pub system : System
system = record {
  interrupt_enable = 0b1001;
  interrupt_request_flags = 0b11;
  interrupt_master_enabler = true;
  post_boot_flag = false;
  waitstate_control = 0;
  low_power_mode = false;
}

abbrev pub idle : Channel
idle = record { timestamp = 0; source = 0; destination = 0; word_count = 0; control = 0 }

-- Channel 3 moves three words, and channel 0 has a source that the program aborts on.
abbrev pub channels : Dma
channels =
    put
      (put (λ id. idle) 3
        (record {
          timestamp = 0;
          source = 0x2000010;
          destination = 0x3000020;
          word_count = 3;
          control = 2 ^ 14 + 2 ^ 9;
        }))
      0 (record idle { control = 2 ^ 14 + 2 ^ 7 + 2 ^ 6 })

abbrev pub bytes : List ℕ → SoundFifo
bytes xs = record { fifo = xs }

abbrev pub sixteen : SoundFifo
sixteen = bytes (1 ∷ 2 ∷ 3 ∷ 4 ∷ 5 ∷ 6 ∷ 7 ∷ 8 ∷ 9 ∷ 10 ∷ 11 ∷ 12 ∷ 13 ∷ 14 ∷ 15 ∷ 16 ∷ [])

abbrev pub sound : Sound
sound = record {
  ch1_sweep = 0;
  ch1_envelope = 0;
  ch1_freq_ctrl = 0;
  ch2_envelope = 0;
  ch2_freq_ctrl = 0;
  ch3_wave_select = 0;
  ch3_len_vol = 0;
  ch3_freq_ctrl = 0;
  ch3_wave_pattern = λ i. 0;
  ch4_envelope = 0;
  ch4_freq_ctrl = 0;
  vol_ctrl = 0;
  dma_ctrl = 0;
  sound_on_off = 2 ^ 7;
  sound_bias = 0x200;
  fifo_a = bytes (7 ∷ 8 ∷ []);
  fifo_b = bytes [];
  dma_value_a = 0;
  dma_value_b = 0;
  sampling_rate = 32768;
}

-- Timer 0 runs with its interrupt, and timer 1 is full and counts its overflows.
abbrev pub timers : Timer
timers =
    put
      (put (λ id. record { counter = 0; reload = 0; control = 0 }) 1
        (record { counter = 0xFFFF; reload = 5; control = 2 ^ 7 + 2 ^ 6 + 2 ^ 2 }))
      0 (record { counter = 0xFF00; reload = 0xFF00; control = 2 ^ 7 + 2 ^ 6 })

abbrev pub no_point : Vec2
no_point = record { x = 0; y = 0 }

abbrev pub no_scaling : RotationScaling
no_scaling = record { a = 0; b = 0; c = 0; d = 0; ref = no_point; internal = no_point }

abbrev pub memory : ℕ → Memory
memory size = record { size = size; byte_at = λ i. i + 1 }

abbrev pub display : Display
display = record {
  pram = memory 0x400;
  vram = memory 0x18000;
  oam = memory 0x400;
  lcd_control = 0;
  lcd_status = 0b1000;
  vertical_counter = 159;
  bg_control = λ i. 0;
  bg_offset = λ i. no_point;
  bg2_rot_scale = no_scaling;
  bg3_rot_scale = no_scaling;
  win0_top_left = no_point;
  win0_bot_right = no_point;
  win1_top_left = no_point;
  win1_bot_right = no_point;
  win0 = 0;
  win1 = 0;
  win_out = 0;
  win_obj = 0;
  mosaic_size = 0;
  blend_control = record { top = 0; bottom = 0 };
  alpha_coeff = 0;
  brightness_coeff = 0;
  scanline_buffers = λ layer x. of_raw transparent_rgb555;
  object_buffer = λ x y. reset;
  frame_buffer = λ i. 0;
}

abbrev pub clockwork : Clockwork
clockwork = record { timers = timers; scheduler = clock; irq = system; sound = sound }

abbrev pub screen : Screen
screen = record { display = display; scheduler = clock; system = system }

abbrev pub contents : Contents
contents = record {
  board = record {
    io = record {
      display = display;
      sound = sound;
      dma = channels;
      timer = timers;
      system = system;
    };
    scheduler = clock;
    cycle_map = make_cycle_map;
  };
  bios = memory 0x4000;
  board_wram = memory 0x40000;
  chip_wram = memory 0x8000;
  rom = memory 0x200;
  last_bios_word = 0;
}

abbrev pub cpu : CpuView
cpu = record { program_counter = 0x8000004; opcode0 = 1; opcode1 = 2; state = thumb }
