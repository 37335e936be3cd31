-- ===== src/Gdb/Tests.antt =====
-- Runs of the debugger server.
use mathlib.Core.List.{◌++◌}
use mathlib.Core.Option.{some, none}
use matar.Base.{◌≡◌, refl, true, [], ◌∷◌, arith}
use matar.Cpu.Sample.{flat, zeroes, processor}
use matar.Gdb.Text.{codes, stoul, at, append_le, drop, is_hex}
use matar.Gdb.Packet.{make_packet, receive}
use matar.Gdb.Packet.RoundTrip.{receive-make_packet}
use matar.Gdb.Command.{
  Rsp, send, send_empty, cmd_write_registers, cmd_read_register, cmd_write_register,
}
use matar.Gdb.Target.{cmd_add_breakpoint, cmd_rm_breakpoint}
use matar.Gdb.Command.Registers.{write_message, read_message, read_register-write_register}
use matar.Gdb.Command.Rejected.{cmd_write_registers-empty, breakpoint-hardware}
use matar.Gdb.Session.{satisfy_client}
use matar.Gdb.Session.Ends.{HasEnded, satisfy_client-HasEnded}

-- An attached client that asks why the processor halted and to read a register.
abbrev server : Rsp flat
server = record {
  attached = true;
  ack_mode = true;
  incoming = codes "$?#3f$p2#a2";
  sent = [];
  machine = record { cpu = processor 0x1F 0x108 0x1000; bus = zeroes };
  breakpoints = [];
}

packet_of_ok : make_packet (codes "OK") ≡ codes "$OK#9a"
unfolding make_packet
packet_of_ok = refl

stoul_texts :
    (stoul (codes "1f") ≡ some 31)
    × (stoul (codes " 0X1fz") ≡ some 31)
    × (stoul (codes "xyz") ≡ none)
unfolding stoul at drop
stoul_texts = (refl, refl, refl)

receive-make_packet_example :
    receive (make_packet (codes "OK") ++ codes "+") ≡ some (codes "$OK", codes "+")
receive-make_packet_example =
    receive-make_packet (codes "OK") (codes "+") (omega arith, (omega arith, tt)) (omega arith)

stoul_c : stoul (codes "c") ≡ some 12
unfolding stoul at drop
stoul_c = refl

read_register-write_register_example :
    cmd_read_register flat
      (read_message (codes "c"))
      (cmd_write_register flat (write_message (codes "c") 0x8000004) server)
    ≡ send flat
        (make_packet (append_le [] 0x8000004))
        (cmd_write_register flat (write_message (codes "c") 0x8000004) server)
unfolding is_hex
read_register-write_register_example =
    read_register-write_register flat b'c' [] 12 0x8000004 server (refl, tt) stoul_c (omega arith)
      (omega arith)

cmd_write_registers-empty_example :
    ((cmd_write_registers flat (codes "$G00") server).sent ≡ [] ++ (make_packet [] ∷ []))
    × ((cmd_write_registers flat (codes "$G00") server).machine.cpu.gpr 2 ≡ 5)
cmd_write_registers-empty_example =
    cmd_write_registers-empty flat 2 (codes "$G00") server (omega arith)

breakpoint-hardware_example :
    (cmd_add_breakpoint flat (codes "$Z1,8000100,4") server ≡ send_empty flat server)
    × (cmd_rm_breakpoint flat (codes "$Z1,8000100,4") server ≡ send_empty flat server)
unfolding at
breakpoint-hardware_example = breakpoint-hardware flat (codes "$Z1,8000100,4") server refl

satisfy_client-HasEnded_example : HasEnded flat (satisfy_client flat 12 server)
satisfy_client-HasEnded_example = satisfy_client-HasEnded flat 12 server (omega arith)
