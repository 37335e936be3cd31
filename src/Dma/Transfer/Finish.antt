-- ===== src/Dma/Transfer/Finish.antt =====
-- The end of a transfer: src/io/dma/dma.cc.
use mathlib.Core.Option.{Option, none, some}
use mathlib.Core.Option
use matar.Base.{ℕ, ◌≡◌, ◌↔◌, refl, true, false, arith, ==_same, Bool-cases, inl, inr}
use matar.BusApi.{CpuView}
use matar.Bus.{Contents}
use matar.Dma.Control as Control
use matar.Dma.Transfer.{chan, finish, set_chan, source_step, unit_size, start_transfer, move_units}

started_none : {A B : Type 0} (o : Option A) (f : A → B) → ((Option.map f o) ≡ none) ↔ (o ≡ none)
started_none none f = (λ e. refl, λ e. refl)
started_none (some x) f = (λ e. cc, λ e. cc)

pub source_step-none :
    (control ws : ℕ)
    → (source_step (Control.src_ctrl control) ws ≡ none) ↔ (Control.src_ctrl control ≡ 3)
unfolding source_step Control.src_ctrl
source_step-none control ws = ground arith

-- A transfer aborts the program exactly when the channel is enabled and its source control is 3.
pub start_transfer-aborts :
    (v : CpuView) (id : ℕ) (s : Contents)
    → (start_transfer v id s ≡ none)
      ↔ ((Control.enable (chan id s).control ≡ true) × (Control.src_ctrl (chan id s).control ≡ 3))
unfolding start_transfer
start_transfer-aborts v id s =
    let c = chan id s in
    let none_iff = source_step-none c.control (unit_size c.control) in
    let start =
      started_none (source_step (Control.src_ctrl c.control) (unit_size c.control))
        (λ step. finish id (move_units v id step s)) in
    elim (Bool-cases (Control.enable c.control)) [
      | inl on ↦ rw on (λ e. (refl, none_iff.0 (start.0 e)), λ h. start.1 (none_iff.1 h.1))
      | inr off ↦ rw off (λ e. cc, λ h. cc)
    ]

disabled : (control : ℕ) → Control.enable (Control.disable control) ≡ false
unfolding Control.enable Control.disable
disabled control = ground arith

-- When the units of a channel that does not repeat have been moved, the channel is off.
pub finish-disables :
    (id : ℕ) (s : Contents)
    → Control.repeat (chan id s).control ≡ false
    → Control.enable (chan id (finish id s)).control ≡ false
unfolding finish set_chan
finish-disables id s once = rw (once, ==_same id) (disabled (chan id s).control)
