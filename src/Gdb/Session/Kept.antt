-- ===== src/Gdb/Session/Kept.antt =====
-- The commands of src/gdb_rsp.cc leave what is still to arrive.
use mathlib.Core.Option.{Option, none, some}
use matar.Base.{ℕ, zero, suc, ◌+◌, ◌≡◌, refl, Bool, false, List, [], ◌∷◌, arith, ◌∙◌, u32}
use matar.BusApi.{Bus}
use matar.Gdb.Text.{Text, stoul, take, drop, be_to_le, substr, ◌>>=◌}
use matar.Gdb.Pattern.{match_write_registers, match_pair, match_write_memory}
use matar.Gdb.Command.{
  Rsp, send_empty, send_ok, acknowledge, set_register, cmd_halted, cmd_read_registers,
  cmd_write_registers, cmd_read_register, cmd_write_register, cmd_continue, cmd_detach,
  cmd_attached, cmd_supported, write_values,
}
use matar.Gdb.Target.{
  cmd_read_memory, cmd_write_memory, cmd_rm_breakpoint, cmd_add_breakpoint, change_breakpoints,
  read_bytes, write_bytes, erase, insert,
}
use matar.Gdb.Session.{cmd_set, cmd_query, run_command, handle}

-- A property of both cases of an optional value.
option_both {ℓ} :
    {A : Type 0} {B : Type ℓ} (P : B → Type 0) (o : Option A) (n : B) (f : A → B)
    → P n
    → ((a : A) → P (f a))
    → P (elim o [ none ↦ n | some a ↦ f a ])
option_both P none n f hn hf = hn
option_both P (some a) n f hn hf = hf a

module _ (b : Bus) where
  abbrev Keeps : Rsp b → Rsp b → Type 0
  Keeps r s = s.incoming ≡ r.incoming

  acknowledge-Keeps : (r : Rsp b) → Keeps r (acknowledge b r)
  unfolding acknowledge
  acknowledge-Keeps r = ground arith

  send_ok-Keeps : (r : Rsp b) → Keeps r (send_ok b r)
  unfolding send_ok
  send_ok-Keeps r = ground arith

  read_bytes-Keeps :
      (n a : ℕ) (response : Text) (r : Rsp b) → Keeps r (read_bytes b n a response r).1
  unfolding read_bytes
  read_bytes-Keeps zero a response r = refl
  read_bytes-Keeps (suc n) a response r = read_bytes-Keeps n (a + 1) _ _

  write_bytes-Keeps : (n a : ℕ) (values : Text) (r : Rsp b) → Keeps r (write_bytes b n a values r)
  unfolding write_bytes
  write_bytes-Keeps zero a values r = refl
  write_bytes-Keeps (suc n) a [] r = refl
  write_bytes-Keeps (suc n) a (c ∷ s) r =
      option_both (Keeps r) (stoul (take 2 (c ∷ s))) r _ refl
        (λ byte. write_bytes-Keeps n (a + 1) (drop 2 (c ∷ s)) _)

  write_values-Keeps :
      (n i j : ℕ) (msg values : Text) (r : Rsp b) → Keeps r (write_values b n i j msg values r).0
  unfolding write_values set_register
  write_values-Keeps zero i j msg values r = refl
  write_values-Keeps (suc n) i j msg values r =
      option_both (λ (e : Rsp b × Bool). Keeps r e.0) (stoul _) (r, false) _ refl
        (λ whole.
          option_both (λ (e : Rsp b × Bool). Keeps r e.0) (substr i 8 values >>= be_to_le >>= stoul)
            (set_register b i whole r, false) _ refl
            (λ value.
              write_values-Keeps n (i + 8) (j + 1) msg values
                (set_register b j value (set_register b i whole r))))

  cmd_read_register-Keeps : (msg : Text) (r : Rsp b) → Keeps r (cmd_read_register b msg r)
  unfolding cmd_read_register
  cmd_read_register-Keeps msg r = ground arith

  cmd_write_register-Keeps : (msg : Text) (r : Rsp b) → Keeps r (cmd_write_register b msg r)
  unfolding cmd_write_register
  cmd_write_register-Keeps msg r = ground arith

  change_breakpoints-Keeps :
      (letter : ℕ) (change : ℕ → List ℕ → List ℕ) (msg : Text) (r : Rsp b)
      → Keeps r (change_breakpoints b letter change msg r)
  unfolding change_breakpoints
  change_breakpoints-Keeps letter change msg r = ground arith

  cmd_write_registers-Keeps : (msg : Text) (r : Rsp b) → Keeps r (cmd_write_registers b msg r)
  unfolding cmd_write_registers
  cmd_write_registers-Keeps msg r =
      option_both (Keeps r) (match_write_registers msg) (send_empty b r) _ refl
        (λ values. ground (arith, write_values-Keeps 15 0 0 msg values r))

  cmd_read_memory-Keeps : (msg : Text) (r : Rsp b) → Keeps r (cmd_read_memory b msg r)
  unfolding cmd_read_memory
  cmd_read_memory-Keeps msg r =
      option_both (Keeps r) (match_pair b'm' b',' msg) (send_empty b r) _ refl (λ (m : Text × Text).
        option_both (Keeps r) (stoul m.0) (send_empty b r) _ refl (λ a.
          option_both (Keeps r) (stoul m.1) (send_empty b r) _ refl
            (λ n. read_bytes-Keeps (u32 n) (u32 a) [] r)))

  cmd_write_memory-Keeps : (msg : Text) (r : Rsp b) → Keeps r (cmd_write_memory b msg r)
  unfolding cmd_write_memory
  cmd_write_memory-Keeps msg r =
      option_both (Keeps r) (match_write_memory msg) (send_empty b r) _ refl
        (λ (m : Text × Text × Text). option_both (Keeps r) (stoul m.0) (send_empty b r) _ refl (λ a.
          option_both (Keeps r) (stoul m.1) (send_empty b r) _ refl (λ n.
            send_ok-Keeps (write_bytes b (u32 n) (u32 a) m.2 r)
            ∙ write_bytes-Keeps (u32 n) (u32 a) m.2 r)))

  run_command-Keeps : (msg : Text) (r : Rsp b) → Keeps r (run_command b msg r)
  unfolding run_command cmd_set cmd_query cmd_halted cmd_read_registers cmd_rm_breakpoint
      cmd_add_breakpoint cmd_continue cmd_detach cmd_attached cmd_supported send_empty
  run_command-Keeps msg r = ground (
    arith,
    cmd_write_registers-Keeps msg r,
    cmd_read_register-Keeps msg r,
    cmd_write_register-Keeps msg r,
    cmd_read_memory-Keeps msg r,
    cmd_write_memory-Keeps msg r,
    change_breakpoints-Keeps b'z' erase msg r,
    change_breakpoints-Keeps b'Z' insert msg r,
  )

  -- A message is handled without a byte of what is still to arrive.
  pub handle-Keeps : (msg : Text) (r : Rsp b) → Keeps r (handle b msg r)
  unfolding handle cmd_halted
  handle-Keeps msg r = ground (arith, run_command-Keeps msg (acknowledge b r), acknowledge-Keeps r)
