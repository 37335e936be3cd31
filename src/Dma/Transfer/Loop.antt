-- ===== src/Dma/Transfer/Loop.antt =====
-- The end of the loop of a transfer: src/io/dma/dma.cc.
use matar.Base.{
  ℕ, zero, suc, ◌+◌, ◌^◌, ◌≤◌, ◌≡◌, refl, ap, false, ltb, if◌then◌else◌, arith, u16, u32,
}
use matar.BusApi.{CpuAccess, sequential}
use matar.Bus.{Contents}
use matar.Dma.Transfer.{transfer_loop, chan, enough}

module _ (copy : ℕ → ℕ → CpuAccess → Contents → Contents) (id step_src step_dst : ℕ) where
  fuel_irrelevant :
      (n m i src dst : ℕ) (access : CpuAccess) (s : Contents)
      → 2 ^ 16 ≤ n + i
      → 2 ^ 16 ≤ m + i
      → transfer_loop n copy id step_src step_dst i src dst access s
        ≡ transfer_loop m copy id step_src step_dst i src dst access s
  unfolding transfer_loop
  fuel_irrelevant zero zero i src dst access s hn hm = refl
  fuel_irrelevant zero (suc m) i src dst access s hn hm =
      let over : ltb i (u16 (chan id s).word_count) ≡ false = ground arith in rw over refl
  fuel_irrelevant (suc n) zero i src dst access s hn hm =
      let over : ltb i (u16 (chan id s).word_count) ≡ false = ground arith in rw over refl
  fuel_irrelevant (suc n) (suc m) i src dst access s hn hm =
      ap (λ (rest : Contents). if ltb i (u16 (chan id s).word_count) then rest else s)
        (fuel_irrelevant n m (i + 1) (u32 (src + step_src)) (u32 (dst + step_dst)) sequential
          (copy src dst access s) (omega arith) (omega arith))

  -- The loop ends by its test: more fuel than 2 ^ 16 changes nothing, whatever the copies do to the channel.
  pub transfer_loop-enough :
      (more src dst : ℕ) (access : CpuAccess) (s : Contents)
      → transfer_loop (enough + more) copy id step_src step_dst 0 src dst access s
        ≡ transfer_loop enough copy id step_src step_dst 0 src dst access s
  transfer_loop-enough more src dst access s =
      fuel_irrelevant (enough + more) enough 0 src dst access s (omega arith) (omega arith)
