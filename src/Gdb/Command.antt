-- ===== src/Gdb/Command.antt =====
-- The server of src/gdb_rsp.hh and the commands of src/gdb_rsp.cc, over any bus. Breakpoints are the member
-- of include/cpu/cpu.hh that the server fills. An exception that a command catches is a branch of it.
pub mod Registers
pub mod Rejected
pub mod Breakpoints
use mathlib.Core.List.{◌++◌}
use mathlib.Core.Option.{Option, none, some}
use matar.Base.{
  ℕ, zero, suc, ◌+◌, ◌-◌, ◌*◌, ◌^◌, ◌%◌, Bool, true, false, not, ◌&&◌, ◌||◌, ◌==◌, ltb,
  if◌then◌else◌, List, [], ◌∷◌, u32, sub32,
}
use matar.Psr
use matar.Psr.{State, arm, thumb}
use matar.BusApi.{Bus, CpuAccess, sequential}
use matar.Cpu.State.{Machine, Cpu, set_gpr, set_cpsr, pc, view}
use matar.Gdb.Text.{
  Text, codes, ◌>>=◌, format_byte, append_le, be_to_le, stoul, take, drop, length, contains, substr,
}
use matar.Gdb.Pattern.{match_write_registers, match_pair, match_write_memory, match_breakpoint}
use matar.Gdb.Packet.{make_packet}

pub record GdbRsp (b : Bus) : Type 0 where
  pub attached : Bool
  pub ack_mode : Bool
  pub incoming : Text
  pub sent : List Text
  pub machine : Machine b
  pub breakpoints : List ℕ

-- `breakpoints.contains(address)`
unfoldable pub is_in : ℕ → List ℕ → Bool
is_in a [] = false
is_in a (x ∷ xs) = (x == a) || is_in a xs

module _ (b : Bus) where
  abbrev pub Rsp : Type 0
  Rsp = GdbRsp b

  -- `server.send`
  unfoldable pub send : Text → Rsp → Rsp
  send msg r = record r { sent = r.sent ++ (msg ∷ []) }

  unfoldable pub acknowledge : Rsp → Rsp
  unfolding send
  acknowledge r = if r.ack_mode then send (codes "+") r else r

  unfoldable pub send_empty : Rsp → Rsp
  unfolding send
  send_empty r = send (make_packet []) r

  unfoldable pub send_ok : Rsp → Rsp
  unfolding send acknowledge
  send_ok r = send (make_packet (codes "OK")) (acknowledge r)

  -- `S` and the number of SIGTRAP.
  unfoldable pub cmd_halted : Rsp → Rsp
  unfolding send format_byte
  cmd_halted r = send (make_packet (codes "S" ++ format_byte 5)) r

  unfoldable pub notify_breakpoint_reached : Rsp → Rsp
  unfolding send format_byte
  notify_breakpoint_reached r = send (make_packet (codes "S" ++ format_byte 5)) r

  unfoldable pub cmd_attached : Rsp → Rsp
  unfolding send
  cmd_attached r = send (make_packet (codes "1")) (record r { attached = true })

  unfoldable pub cmd_supported : Text → Rsp → Rsp
  unfolding send
  cmd_supported msg r =
      let hw = if contains (codes "hwbreak+;") msg then codes "hwbreak+;" else [] in
      send (make_packet (hw ++ codes "QStartNoAckMode+")) r

  abbrev pub instruction_size : State → ℕ
  instruction_size arm = 4
  instruction_size thumb = 2

  -- The instruction that is executed is two behind `pc`.
  unfoldable pub executing : Cpu → ℕ
  executing c = sub32 (pc c) (2 * instruction_size (Psr.state c.cpsr))

  -- `Cpu::breakpoint_reached`
  unfoldable pub breakpoint_reached : Rsp → Bool
  unfolding executing is_in
  breakpoint_reached r = is_in (executing r.machine.cpu) r.breakpoints

  -- The registers from number `i` on.
  unfoldable pub append_registers : ℕ → ℕ → Cpu → Text → Text
  unfolding append_le
  append_registers zero i c response = response
  append_registers (suc n) i c response =
      append_registers n (i + 1) c (append_le response (c.gpr i))

  unfoldable pub cmd_read_registers : Rsp → Rsp
  unfolding send append_registers executing append_le
  cmd_read_registers r =
      let c = r.machine.cpu in
      send (make_packet (append_le (append_registers 15 0 c []) (executing c))) r

  unfoldable pub set_register : ℕ → ℕ → Rsp → Rsp
  set_register i value r = record r {
    machine = record r.machine { cpu = set_gpr r.machine.cpu i (u32 value) };
  }

  unfoldable pub set_status : ℕ → Rsp → Rsp
  set_status value r = record r {
    machine = record r.machine {
      cpu = set_cpsr r.machine.cpu (Psr.set_all r.machine.cpu.cpsr (u32 value));
    };
  }

  -- `sm[k].str()` of a match with one group.
  abbrev group : Text → Text → ℕ → Text
  group msg values k = if k == 0 then msg else if k == 1 then values else []

  -- The loop over the values: the state where it ends, and whether it ends without an exception.
  unfoldable pub write_values : ℕ → ℕ → ℕ → Text → Text → Rsp → Rsp × Bool
  unfolding set_register substr
  write_values zero i j msg values r = (r, true)
  write_values (suc rounds) i j msg values r = elim (stoul (group msg values (i + 1))) [
    | none ↦ (r, false)
    | some whole ↦
        let first = set_register i whole r in
        elim (substr i 8 values >>= be_to_le >>= stoul) [
          | none ↦ (first, false)
          | some value ↦ write_values rounds (i + 8) (j + 1) msg values (set_register j value first)
        ]
  ]

  -- The values are 128 digits, so the loop has 15 rounds.
  unfoldable pub cmd_write_registers : Text → Rsp → Rsp
  unfolding write_values send_ok send_empty
  cmd_write_registers msg r = elim (match_write_registers msg) [
    | none ↦ send_empty r
    | some values ↦
        if length values == 16 * 8
        then (let (end, done) = write_values 15 0 0 msg values r in
            if done then send_ok end else send_empty end)
        else send_empty r
  ]

  unfoldable pub cmd_read_register : Text → Rsp → Rsp
  unfolding send send_empty append_le drop
  cmd_read_register msg r = elim (stoul (drop 2 msg)) [
    | none ↦ send_empty r
    | some n ↦
        let reg = u32 n in
        let c = r.machine.cpu in
        let response =
          if reg == 25
          then append_le [] (Psr.raw c.cpsr)
          else if ltb reg 16
          then append_le [] (c.gpr reg)
          else codes "xxxxxxxx" in
        send (make_packet response) r
  ]

  -- The test `sm.size() != 3 && sm[2].str().length() != 8` passes over a value of another length, which
  -- `be_to_le` then throws for.
  unfoldable pub cmd_write_register : Text → Rsp → Rsp
  unfolding set_register set_status send_ok send_empty
  cmd_write_register msg r = elim (match_pair b'P' b'=' msg) [
    | none ↦ send_empty r
    | some (number, text) ↦ elim (stoul number) [
      | none ↦ send_empty r
      | some n ↦ elim (be_to_le text >>= stoul) [
        | none ↦ send_empty r
        | some value ↦
            let reg = u32 n in
            send_ok (
              if reg == 25
              then set_status value r
              else if ltb reg 16
              then set_register reg value r
              else r)
      ]
    ]
  ]

  unfoldable pub cmd_detach : Rsp → Rsp
  unfolding send_ok
  cmd_detach r = send_ok (record r { attached = false })

  unfoldable pub cmd_continue : Rsp → Rsp
  unfolding send_ok
  cmd_continue r = send_ok r
