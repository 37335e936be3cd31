-- ===== src/Lib.antt =====
-- An emulator of a hand-held console: its ARM7TDMI core, as src/cpu/ and include/cpu/ write it, over
-- any bus; and the bus of src/bus.cc with its scheduler, memories and devices, as such a bus.
--
-- The parts. `Cpu` holds sixteen registers, a status register, a saved one, and the banks that the
-- modes have for themselves. It takes an instruction from a pipeline of two fetched opcodes, decodes
-- it and hands it to a handler of its format, which computes with the functions of the ALU, reads and
-- writes through the bus, and either asks for the pipeline to be filled again or lets the program
-- counter go on. An interrupt request changes the mode and fills the pipeline from its vector.
-- The bus adds the cycles of an access to the clock of the scheduler and finds the memory or the
-- device of the address. The devices put tasks into the queue of the scheduler: the display the ends
-- of its lines, the timers their overflows, the DMA its transfers, the sound its samples. The loop of
-- the bus handles the tasks that are due; handling one schedules others, raises interrupts, or moves
-- data through the bus. At the end of a line the display draws the next one: each background into a
-- line of its own, the objects into a buffer, and both together into the frame.
-- A server lets a debugger read and write the registers and the memory in packets of text.
--
-- The files, and what they model:
--   Base, Base/*: words as numbers below 2 ^ width, tests, bit operations as arithmetic, fields
--   Bits: src/util/bits.hh
--   Alu: src/cpu/alu.cc, include/cpu/alu.hh
--   Psr: src/cpu/psr.cc, include/cpu/psr.hh; `set_flags` is `set_cc` of the exec functions
--   BusApi: what the processor asks of include/bus.hh, as a record of operations and of the bounds of
--     what they return
--   Cpu/State, Cpu/Access, Cpu/Modes, Cpu/Pipeline: include/cpu/cpu.hh and src/cpu/cpu.cc
--   Cpu/Sample: a bus of bytes and two processors for the tests
--   Thumb/Instruction, Thumb/Decode: include/cpu/thumb/instruction.hh, src/cpu/thumb/instruction.cc
--   Thumb/Exec: src/cpu/thumb/exec.cc, a function for each lambda of the visit
--   Arm/Instruction, Arm/Decode: include/cpu/arm/instruction.hh, src/cpu/arm/instruction.cc
--   Arm/Exec: src/cpu/arm/exec.cc, a function for each lambda of the visit
--   Step: the constructor and `Cpu::step` of src/cpu/cpu.cc
--   Memory: include/memory.hh
--   Scheduler: include/scheduler.hh
--   System: include/io/system/ and src/io/system/registers.cc
--   Dma, Dma/Control, Dma/Registers, Dma/Transfer: include/io/dma/ and src/io/dma/
--   Sound, Sound/Fifo, Sound/Registers, Sound/Mix: include/io/sound/sound.hh, registers.hh and
--     src/io/sound/
--   Timer, Timer/Registers: include/io/timer/ and src/io/timer/
--   Display, Display/Blend, Display/Color, Display/Registers, Display/Timing, Display/Compose:
--     include/io/display/ and src/io/display/registers.cc, display.cc
--   Display/Render/Bitmap, Text, RotScale, Object: src/io/display/render.cc; Display/Render/Line:
--     `render_line` of src/io/display/display.cc
--   Io: include/io/io.hh and src/io/io.cc
--   Bus, Bus/Cycles, Bus/Region, Bus/Read, Bus/Write, Bus/Events, Bus/Header, Bus/Run, Bus/Start:
--     include/bus.hh, include/header.hh and src/bus.cc; Bus/Events has `scheduler_event` of src/io/io.cc
--   Bus/Instance: this bus as the one that the processor runs over
--   Gdb/Text, Pattern, Packet, Command, Target, Session: src/gdb_rsp.cc and src/gdb_rsp.hh, over any bus
--   Crypto: src/util/crypto.hh; a block of words is a list with the last first
--   Samples: a board with small contents for the tests
--   The modules below these hold the lemmas and theorems on them; modules named Tests hold runs.
--
-- How state and operations correspond. `Cpu` is a record with the fields of the class, the arrays as
-- functions of the index; `Machine` is a processor with the contents of its bus. A member function
-- that changes the processor takes it and returns it; one that goes through the bus does so with a
-- `Machine`; a `bool&` or an `is_flushed` that it sets is part of the result. Registers and addresses
-- are numbers below 2 ^ 32, and each operation writes its wrap out; a signed offset is its bit pattern.
-- A device is a record with the fields of its class. The references that the classes hold to each
-- other are one state that goes through the operations: `Clockwork` and `Screen` for what the timers
-- and the display reach, `Board` for all devices with the scheduler and the cycle map, `Contents` for
-- the bus with its memories. A register struct is the word that it overlays, and a field is a range
-- of its bits. A call that aborts the program or throws returns `none`.
-- The loops over the registers of a list run on the number of registers left, eight or sixteen at
-- the start, and the internal cycles of a multiplication on their number: no fuel is needed. The loop
-- of a transfer runs on fuel of 2 ^ 16 rounds, one more than its counter of 16 bits allows. The loops
-- of `Bus::step` and `Bus::run` run on fuel that their caller gives, since a task may schedule another
-- that is due; where it runs out, the result says so.
--
-- The loops over a line run on their 240 columns; the walk of a text layer on as many rounds, since
-- each draws a pixel, and within a tile on eight. The columns of an object are its width. The loops of
-- the debugger server run on fuel, for which the bytes that are still to arrive are enough.
--
-- Not modelled: the resampler and the buffer of the sound to the host; the comparison of the hash of
-- the BIOS, which goes to the log alone; the copy of a frame to a file; the disassemblers, the sockets and
-- the log, which do not change the machine. The messages to the log are left out of the operations.
pub mod Base
pub mod Bits
pub mod Alu
pub mod Psr
pub mod BusApi
pub mod Cpu
pub mod Thumb
pub mod Arm
pub mod Step
pub mod Memory
pub mod Scheduler
pub mod System
pub mod Dma
pub mod Sound
pub mod Timer
pub mod Display
pub mod Io
pub mod Bus
pub mod Gdb
pub mod Crypto
pub mod Samples
