-- ===== src/Dma/Transfer/Timely.antt =====
-- The time and the queue under a transfer: src/io/dma/dma.cc. A transfer makes at most 2 ^ 17 accesses.
use mathlib.Core.Option.{Option, none, some}
use matar.Base.{
  ℕ, zero, suc, ◌+◌, ◌*◌, ◌^◌, ◌≤◌, ◌≡◌, ◌≢◌, refl, ◌==◌, ltb, arith, if_both, u16, u32, ◌⊎◌, inl,
  inr,
}
use matar.BusApi.{CpuAccess, CpuView, sequential, non_sequential}
use mathlib.Core.List.{List}
use matar.Scheduler.{Task}
use matar.Scheduler.Growth as Growth
use matar.Scheduler.Growth.{Grows, Grows-trans}
use matar.Dma.Control as Control
use matar.Bus.{Contents}
use matar.Bus.Read.{read_halfword, read_word}
use matar.Bus.Timely.{
  IsTimely, IsAdvanced, IsAdvanced-trans, read_word-IsAdvanced, read_halfword-IsAdvanced,
  write_word-IsAdvanced, write_halfword-IsAdvanced,
}
use matar.Dma.Transfer.Finish.{source_step-none}
use matar.Dma.Transfer.{
  chan, enough, copy_word, copy_halfword, transfer_loop, sound_transfer, finish, raise, set_chan,
  move_units, start_transfer, source_step, unit_size, is_sound_transfer,
}

abbrev queue : Contents → List Task
queue s = s.board.scheduler.tasks

module _ (at : ℕ) (v : CpuView) where
  copy_word-IsAdvanced :
      (k src dst : ℕ) (access : CpuAccess) (s : Contents)
      → IsTimely at (suc (suc k)) s
      → IsAdvanced at k s (copy_word v src dst access s)
  unfolding copy_word
  copy_word-IsAdvanced k src dst access s t =
      let got = read_word-IsAdvanced at (suc k) src access s t v in
      let r = read_word v src access s in
      IsAdvanced-trans at (suc k) k s r.1 _ got
        (write_word-IsAdvanced at k dst access r.1 got.timely r.0)

  copy_halfword-IsAdvanced :
      (k src dst : ℕ) (access : CpuAccess) (s : Contents)
      → IsTimely at (suc (suc k)) s
      → IsAdvanced at k s (copy_halfword v src dst access s)
  unfolding copy_halfword
  copy_halfword-IsAdvanced k src dst access s t =
      let got = read_halfword-IsAdvanced at (suc k) src access s t v in
      let r = read_halfword v src access s in
      IsAdvanced-trans at (suc k) k s r.1 _ got
        (write_halfword-IsAdvanced at k dst access r.1 got.timely r.0)

  -- Two accesses for each round.
  pub accesses : ℕ → ℕ
  accesses zero = 0
  accesses (suc n) = suc (suc (accesses n))

  abbrev Copies : (ℕ → ℕ → CpuAccess → Contents → Contents) → Type 0
  Copies copy =
      (k src dst : ℕ) (access : CpuAccess) (s : Contents)
      → IsTimely at (suc (suc k)) s
      → IsAdvanced at k s (copy src dst access s)

  transfer_loop-Grows :
      (copy : ℕ → ℕ → CpuAccess → Contents → Contents)
      → Copies copy
      → (id step_src step_dst fuel i src dst : ℕ) (access : CpuAccess) (s : Contents)
      → IsTimely at (accesses fuel) s
      → Grows at (queue s) (queue (transfer_loop fuel copy id step_src step_dst i src dst access s))
  unfolding transfer_loop accesses
  transfer_loop-Grows copy c id step_src step_dst zero i src dst access s t = Growth.same
  transfer_loop-Grows copy c id step_src step_dst (suc fuel) i src dst access s t =
      let one = c (accesses fuel) src dst access s t in
      if_both (λ (u : Contents). Grows at (queue s) (queue u)) (ltb i (u16 (chan id s).word_count))
        _ _
        (Grows-trans at one.grown (
          transfer_loop-Grows copy c id step_src step_dst fuel (i + 1) (u32 (src + step_src))
            (u32 (dst + step_dst)) sequential (copy src dst access s) one.timely))
        Growth.same

  sound_transfer-Grows :
      (src dst : ℕ) (s : Contents)
      → IsTimely at 8 s
      → Grows at (queue s) (queue (sound_transfer v src dst s))
  unfolding sound_transfer
  sound_transfer-Grows src dst s t =
      let w0 = copy_word-IsAdvanced 6 src dst non_sequential s t in
      let w1 = copy_word-IsAdvanced 4 (u32 (src + 4)) dst sequential _ w0.timely in
      let w2 = copy_word-IsAdvanced 2 (u32 (src + 8)) dst sequential _ w1.timely in
      let w3 = copy_word-IsAdvanced 0 (u32 (src + 12)) dst sequential _ w2.timely in
      Grows-trans at w0.grown (Grows-trans at w1.grown (Grows-trans at w2.grown w3.grown))

accesses_lem : (n : ℕ) (at : ℕ) (v : CpuView) → accesses at v n ≡ 2 * n
unfolding accesses
accesses_lem zero at v = refl
accesses_lem (suc n) at v = omega (arith, accesses_lem n at v)

IsTimely-fewer : (at j k : ℕ) (s : Contents) → k ≤ j → IsTimely at j s → IsTimely at k s
IsTimely-fewer at j k s h t = record {
  late = t.late;
  early = omega (arith, h, t.early);
  quick = t.quick;
}

finish-queue : (id : ℕ) (s : Contents) → queue (finish id s) ≡ queue s
unfolding finish raise set_chan
finish-queue id s =
    let P = λ (u : Contents). queue u ≡ queue s in
    let raised = if_both P (Control.irq_enable (chan id s).control) _ _ refl refl in
    if_both P (Control.repeat (chan id s).control) _ _ raised raised

Option-cases : (o : Option ℕ) → (o ≡ none) ⊎ ((n : ℕ) × (o ≡ some n))
Option-cases none = inl refl
Option-cases (some n) = inr (n, refl)

-- There is time for a whole transfer.
abbrev pub transfer_accesses : ℕ
transfer_accesses = 2 ^ 17

module _ (at : ℕ) (v : CpuView) (id : ℕ) (s : Contents) (t : IsTimely at transfer_accesses s) where
  move_units-Grows : (step : ℕ) → Grows at (queue s) (queue (move_units v id step s))
  unfolding move_units
  move_units-Grows step =
      let c = chan id s in
      let P = λ (u : Contents). Grows at (queue s) (queue u) in
      let count : accesses at v enough ≡ 2 ^ 17 = accesses_lem enough at v in
      let whole : IsTimely at (accesses at v enough) s = rw count t in
      if_both P (is_sound_transfer id c) _ _
        (sound_transfer-Grows at v c.source c.destination s
          (IsTimely-fewer at transfer_accesses 8 s (omega arith) t))
        (if_both P (unit_size c.control == 4) _ _
          (transfer_loop-Grows at v (copy_word v) (copy_word-IsAdvanced at v) id step _ enough 0
            c.source c.destination non_sequential s whole)
          (transfer_loop-Grows at v (copy_halfword v) (copy_halfword-IsAdvanced at v) id step _
            enough 0 c.source c.destination non_sequential s whole))

  pub record IsTransferred (o : Option Contents) : Type 0 where
    pub result : Contents
    pub returned : o ≡ some result
    pub grown : Grows at (queue s) (queue result)

  started : (step : ℕ) → IsTransferred (some (finish id (move_units v id step s)))
  started step = record {
    result = finish id (move_units v id step s);
    returned = refl;
    grown = rw (finish-queue id (move_units v id step s)) (move_units-Grows step);
  }

  -- A transfer whose source control is not 3 returns, and puts tasks into the queue from its time on.
  pub start_transfer-IsTransferred :
      Control.src_ctrl (chan id s).control ≢ 3 → IsTransferred (start_transfer v id s)
  unfolding start_transfer
  start_transfer-IsTransferred ne =
      let c = chan id s in
      if_both IsTransferred (Control.enable c.control) _ _
        (elim (Option-cases (source_step (Control.src_ctrl c.control) (unit_size c.control))) [
          | inl e ↦ absurd (ne ((source_step-none c.control (unit_size c.control)).0 e))
          | inr (step, e) ↦ rw e (started step)
        ])
        (record { result = s; returned = refl; grown = Growth.same })
